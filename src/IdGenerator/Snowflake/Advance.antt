-- ===== src/IdGenerator/Snowflake/Advance.antt =====
-- One call of `generate` of packages/id-generator/src/snowflake.generator.ts: the stamp it makes comes
-- after the last one, and a call that throws leaves that stamp alone.
use jcool_ecommerce_backend.Base.{
  ℕ, zero, suc, ◌+◌, ◌<◌, ◌≡◌, refl, sym, inl, Option, none, some, Text, ◌⊎◌, arith,
}
use jcool_ecommerce_backend.IdCodec.{SnowflakeFields, encode}
use jcool_ecommerce_backend.IdGenerator.Snowflake.{
  IdentityClock, SnowflakeGenerator, Spun, past, stalled, Mint, minted, clock_stalled,
  field_rejected, now, turn, spin, spin_past, encoded, stamp, stamp_past, generate, cap_at,
  spin_deadline_ns,
}

-- What reading the clock leaves alone.
abbrev pub SameStamp : SnowflakeGenerator → SnowflakeGenerator → Type 0
SameStamp g h = g.node_id ≡ h.node_id × g.last_ms ≡ h.last_ms × g.sequence ≡ h.sequence

abbrev SpunPast : SnowflakeGenerator → ℕ → SnowflakeGenerator × Spun → Type 0
SpunPast g ms (h, past ts) = SameStamp g h × ms < ts
SpunPast g ms (h, stalled _) = SameStamp g h

now-SameStamp : (clock : IdentityClock) (g : SnowflakeGenerator) → SameStamp g (now clock g).0
unfolding now
now-SameStamp clock g = (refl, refl, refl)

turn-SpunPast :
    (clock : IdentityClock) (ms deadline_ns : ℕ)
    (next : SnowflakeGenerator → SnowflakeGenerator × Spun) (g0 g : SnowflakeGenerator)
    → SameStamp g0 g
    → ((h : SnowflakeGenerator) → SameStamp g0 h → SpunPast g0 ms (next h))
    → SpunPast g0 ms (turn clock ms deadline_ns next g)
unfolding turn
turn-SpunPast clock ms deadline_ns next g0 g same kept =
    let (g1, ts) = now clock g in
    let first = now-SameStamp clock g in
    let g2 : SnowflakeGenerator = record g1 { reads = g1.reads + 1 } in
    let second = now-SameStamp clock g2 in
    let early = kept g2 in let late = kept (now clock g2).0 in ground arith

pub spin-SpunPast :
    (clock : IdentityClock) (ms deadline_ns left : ℕ) (g0 g : SnowflakeGenerator)
    → SameStamp g0 g
    → SpunPast g0 ms (spin clock ms deadline_ns left g)
unfolding spin
spin-SpunPast clock ms deadline_ns zero g0 g same = same
spin-SpunPast clock ms deadline_ns (suc left) g0 g same =
    turn-SpunPast clock ms deadline_ns (λ h. spin clock ms deadline_ns left h) g0 g same
      (spin-SpunPast clock ms deadline_ns left g0)

-- The stamp of `f` comes after that of `g`'s last id.
abbrev pub IsAfter : SnowflakeGenerator → SnowflakeFields → Type 0
IsAfter g f =
    f.node_id ≡ g.node_id
    × f.sequence < 1024
    × (g.last_ms < f.ts_ms ⊎ g.last_ms ≡ f.ts_ms × g.sequence < f.sequence)

-- A generator that has stamped `f` last.
abbrev pub Stamped : SnowflakeGenerator → SnowflakeFields → Type 0
Stamped g f = g.node_id ≡ f.node_id × g.last_ms ≡ f.ts_ms × g.sequence ≡ f.sequence

abbrev pub Advanced : SnowflakeGenerator → SnowflakeGenerator × Mint → Type 0
Advanced g (h, minted f id) = encode f ≡ some id × IsAfter g f × Stamped h f
Advanced g (h, clock_stalled _) = SameStamp g h
Advanced g (h, field_rejected f) = IsAfter g f × Stamped h f

encoded-Advanced :
    (g h : SnowflakeGenerator) (f : SnowflakeFields) (id : Option Text)
    → encode f ≡ id
    → IsAfter g f
    → Stamped h f
    → Advanced g (h, encoded f id)
encoded-Advanced g h f none e later stamped = (later, stamped)
encoded-Advanced g h f (some id) e later stamped = (e, later, stamped)

stamp-Advanced :
    (g h : SnowflakeGenerator) (ts sequence : ℕ)
    → g.node_id ≡ h.node_id
    → sequence < 1024
    → (g.last_ms < ts ⊎ g.last_ms ≡ ts × g.sequence < sequence)
    → Advanced g (stamp h ts sequence)
stamp-Advanced g h ts sequence node small later =
    let f : SnowflakeFields = record { ts_ms = ts; node_id = h.node_id; sequence = sequence } in
    encoded-Advanced g (record h { last_ms = ts; sequence = sequence }) f (encode f) refl
      (sym node, small, later) (refl, refl, refl)

stamp_past-Advanced :
    (g : SnowflakeGenerator) (ms : ℕ) (spun : SnowflakeGenerator × Spun)
    → g.last_ms ≡ ms
    → SpunPast g ms spun
    → Advanced g (stamp_past spun)
stamp_past-Advanced g ms (h, past ts) at (same, later) =
    stamp-Advanced g h ts 0 same.0 (omega arith) (inl (omega (arith, at, later)))
stamp_past-Advanced g ms (h, stalled _) at same = same

pub generate-Advanced :
    (clock : IdentityClock) (g : SnowflakeGenerator)
    → g.sequence < 1024
    → Advanced g (generate clock g)
unfolding generate spin_past
generate-Advanced clock g small =
    let (g1, ts) = now clock g in
    let same = now-SameStamp clock g in
    let spun =
      spin-SpunPast clock g1.last_ms (clock.elapsed_ns g1.reads + spin_deadline_ns)
        (cap_at g1.last_ms g1.stalled_at_ms) g (record g1 { reads = g1.reads + 1 }) same in
    let exhausted = stamp_past-Advanced g g1.last_ms (spin_past clock g1.last_ms g1) same.1 spun in
    let fresh = stamp-Advanced g g1 ts 0 same.0 (omega arith) in
    let next = stamp-Advanced g g1 g1.last_ms (g1.sequence + 1) same.0 in ground (arith)
