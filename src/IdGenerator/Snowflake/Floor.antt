-- ===== src/IdGenerator/Snowflake/Floor.antt =====
-- The floor that a generator of packages/id-generator is created over.
use jcool_ecommerce_backend.Base.{
  ℕ, zero, suc, ◌+◌, ◌≤◌, ◌<◌, ◌≡◌, refl, Option, none, some, List, All, Text, arith,
}
use jcool_ecommerce_backend.IdCodec.{SnowflakeFields, encode}
use jcool_ecommerce_backend.IdGenerator.Snowflake.{
  IdentityClock, SnowflakeGenerator, Spun, past, stalled, Mint, minted, clock_stalled,
  field_rejected, now, turn, spin, spin_past, encoded, stamp, stamp_past, generate, collect, mints,
  cap_at, spin_deadline_ns, create_with_clock,
}

-- `monotonicMs` never reads below what it read first.
abbrev pub NeverBelow : IdentityClock → ℕ → Type 0
NeverBelow clock origin = (n : ℕ) → origin ≤ clock.monotonic_ms n

-- Every reading of `now` is above the floor.
abbrev Lifted : ℕ → IdentityClock → SnowflakeGenerator → Type 0
Lifted floor clock g =
    (floor < g.origin_wall_ms + g.lift_ms) × NeverBelow clock g.origin_monotonic_ms

now-floor :
    (floor : ℕ) (clock : IdentityClock) (g : SnowflakeGenerator)
    → Lifted floor clock g
    → Lifted floor clock (now clock g).0 × floor < (now clock g).1
unfolding now
now-floor floor clock g (over, never) = let here = never g.reads in ((over, never), ground arith)

abbrev SpunOver : ℕ → IdentityClock → SnowflakeGenerator × Spun → Type 0
SpunOver floor clock (h, past ts) = Lifted floor clock h × floor < ts
SpunOver floor clock (h, stalled _) = Lifted floor clock h

turn-SpunOver :
    (floor : ℕ) (clock : IdentityClock) (ms deadline_ns : ℕ)
    (next : SnowflakeGenerator → SnowflakeGenerator × Spun) (g : SnowflakeGenerator)
    → Lifted floor clock g
    → ((h : SnowflakeGenerator) → Lifted floor clock h → SpunOver floor clock (next h))
    → SpunOver floor clock (turn clock ms deadline_ns next g)
unfolding turn
turn-SpunOver floor clock ms deadline_ns next g lifted kept =
    let (g1, ts) = now clock g in
    let (first, over) = now-floor floor clock g lifted in
    let g2 : SnowflakeGenerator = record g1 { reads = g1.reads + 1 } in
    let (second, over2) = now-floor floor clock g2 first in
    let early = kept g2 first in let late = kept (now clock g2).0 second in ground arith

spin-SpunOver :
    (floor : ℕ) (clock : IdentityClock) (ms deadline_ns left : ℕ) (g : SnowflakeGenerator)
    → Lifted floor clock g
    → SpunOver floor clock (spin clock ms deadline_ns left g)
unfolding spin
spin-SpunOver floor clock ms deadline_ns zero g lifted = lifted
spin-SpunOver floor clock ms deadline_ns (suc left) g lifted =
    turn-SpunOver floor clock ms deadline_ns (λ h. spin clock ms deadline_ns left h) g lifted
      (spin-SpunOver floor clock ms deadline_ns left)

abbrev MintOver : ℕ → IdentityClock → SnowflakeGenerator × Mint → Type 0
MintOver floor clock (h, minted f id) = Lifted floor clock h × encode f ≡ some id × floor < f.ts_ms
MintOver floor clock (h, clock_stalled _) = Lifted floor clock h
MintOver floor clock (h, field_rejected f) = Lifted floor clock h

encoded-MintOver :
    (floor : ℕ) (clock : IdentityClock) (h : SnowflakeGenerator) (f : SnowflakeFields)
    (id : Option Text)
    → encode f ≡ id
    → Lifted floor clock h
    → floor < f.ts_ms
    → MintOver floor clock (h, encoded f id)
encoded-MintOver floor clock h f none e lifted over = lifted
encoded-MintOver floor clock h f (some id) e lifted over = (lifted, e, over)

stamp-MintOver :
    (floor : ℕ) (clock : IdentityClock) (h : SnowflakeGenerator) (ts sequence : ℕ)
    → Lifted floor clock h
    → floor < ts
    → MintOver floor clock (stamp h ts sequence)
stamp-MintOver floor clock h ts sequence lifted over =
    let f : SnowflakeFields = record { ts_ms = ts; node_id = h.node_id; sequence = sequence } in
    encoded-MintOver floor clock (record h { last_ms = ts; sequence = sequence }) f (encode f) refl
      lifted over

stamp_past-MintOver :
    (floor : ℕ) (clock : IdentityClock) (spun : SnowflakeGenerator × Spun)
    → SpunOver floor clock spun
    → MintOver floor clock (stamp_past spun)
stamp_past-MintOver floor clock (h, past ts) (lifted, over) =
    stamp-MintOver floor clock h ts 0 lifted over
stamp_past-MintOver floor clock (h, stalled _) lifted = lifted

generate-MintOver :
    (floor : ℕ) (clock : IdentityClock) (g : SnowflakeGenerator)
    → Lifted floor clock g
    → MintOver floor clock (generate clock g)
unfolding generate spin_past
generate-MintOver floor clock g lifted =
    let (g1, ts) = now clock g in
    let (kept, over) = now-floor floor clock g lifted in
    let spun =
      spin-SpunOver floor clock g1.last_ms (clock.elapsed_ns g1.reads + spin_deadline_ns)
        (cap_at g1.last_ms g1.stalled_at_ms) (record g1 { reads = g1.reads + 1 }) kept in
    let exhausted = stamp_past-MintOver floor clock (spin_past clock g1.last_ms g1) spun in
    let fresh = stamp-MintOver floor clock g1 ts 0 kept over in
    let next = stamp-MintOver floor clock g1 g1.last_ms (g1.sequence + 1) kept in ground arith

-- The id of a stamp above the floor.
unfoldable pub IsOver : ℕ → Text → Type 0
IsOver floor id = (f : SnowflakeFields) × (encode f ≡ some id × floor < f.ts_ms)

collect-IsOver :
    (floor : ℕ) (clock : IdentityClock) (called : SnowflakeGenerator × Mint) (ids : List Text)
    → MintOver floor clock called
    → All (IsOver floor) ids
    → All (IsOver floor) (collect called.1 ids)
unfolding IsOver
collect-IsOver floor clock (h, minted f id) ids (lifted, e, over) rest = ((f, (e, over)), rest)
collect-IsOver floor clock (h, clock_stalled _) ids lifted rest = rest
collect-IsOver floor clock (h, field_rejected f) ids lifted rest = rest

MintOver-Lifted :
    (floor : ℕ) (clock : IdentityClock) (called : SnowflakeGenerator × Mint)
    → MintOver floor clock called
    → Lifted floor clock called.0
MintOver-Lifted floor clock (h, minted f id) over = over.0
MintOver-Lifted floor clock (h, clock_stalled _) over = over
MintOver-Lifted floor clock (h, field_rejected f) over = over

mints-IsOver_from :
    (floor : ℕ) (clock : IdentityClock) (calls : ℕ) (g : SnowflakeGenerator)
    → Lifted floor clock g
    → All (IsOver floor) (mints clock calls g)
unfolding mints
mints-IsOver_from floor clock zero g lifted = tt
mints-IsOver_from floor clock (suc calls) g lifted =
    let called = generate clock g in
    let over = generate-MintOver floor clock g lifted in
    collect-IsOver floor clock called (mints clock calls called.0) over
      (mints-IsOver_from floor clock calls called.0 (MintOver-Lifted floor clock called over))

-- When the monotonic clock never reads below the reading a generator was created at, every id it
-- returns is stamped above the floor it was created over, however far behind that floor the wall
-- clock stands.
pub mints-IsOver :
    (clock : IdentityClock) (node_id floor at calls : ℕ) (g : SnowflakeGenerator)
    → NeverBelow clock (clock.monotonic_ms (at + 1))
    → create_with_clock clock node_id (some floor) at ≡ some g
    → All (IsOver floor) (mints clock calls g)
unfolding create_with_clock
mints-IsOver clock node_id floor at calls g never created =
    mints-IsOver_from floor clock calls g (ground arith, λ n. let here = never n in ground arith)
