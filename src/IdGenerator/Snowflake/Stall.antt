-- ===== src/IdGenerator/Snowflake/Stall.antt =====
-- A stopped clock: what a refusal of packages/id-generator leaves behind, how long a call may spin,
-- and when the wait for the next millisecond succeeds.
use jcool_ecommerce_backend.Base.{
  ℕ, zero, suc, ◌+◌, ◌*◌, ◌≤◌, ◌<◌, ◌≡◌, ◌≢◌, refl, ap₂, subst, sym, ◌∙◌, Bool, false, ◌==◌,
  if◌then◌else◌, Option, none, some, Text, arith,
}
use jcool_ecommerce_backend.IdCodec.{SnowflakeFields, encode}
use jcool_ecommerce_backend.IdGenerator.Snowflake.{
  IdentityClock, SnowflakeGenerator, Spun, past, stalled, Mint, ClockStallReason, clock_stalled,
  now, turn, spin, spin_past, encoded, stamp, stamp_past, generate, cap_at, spin_deadline_ns,
}

-- What reading the clock leaves alone, the count of its readings aside.
abbrev SameBut : ℕ → SnowflakeGenerator → SnowflakeGenerator → Type 0
SameBut most g h =
    g.last_ms ≡ h.last_ms
    × g.sequence ≡ h.sequence
    × g.stalls ≡ h.stalls
    × g.stalled_at_ms ≡ h.stalled_at_ms
    × h.reads ≤ g.reads + most

now-SameBut : (clock : IdentityClock) (g : SnowflakeGenerator) → SameBut 2 g (now clock g).0
unfolding now
now-SameBut clock g = (refl, refl, refl, refl, omega arith)

-- A refusal at `ms`, and the readings made on either outcome.
abbrev pub Refused : SnowflakeGenerator → ℕ → SnowflakeGenerator → Type 0
Refused g ms h =
    h.last_ms ≡ g.last_ms
    × h.sequence ≡ g.sequence
    × h.stalls ≡ g.stalls + 1
    × h.stalled_at_ms ≡ some ms

abbrev SpunWithin : ℕ → SnowflakeGenerator → ℕ → SnowflakeGenerator × Spun → Type 0
SpunWithin most g ms (h, past ts) = h.reads ≤ g.reads + most
SpunWithin most g ms (h, stalled _) = Refused g ms h × h.reads ≤ g.reads + most

SpunWithin-later :
    (spent most : ℕ) (g h : SnowflakeGenerator) (ms : ℕ) (spun : SnowflakeGenerator × Spun)
    → SameBut spent g h
    → SpunWithin most h ms spun
    → SpunWithin (spent + most) g ms spun
SpunWithin-later spent most g h ms (h', past ts) same within = omega arith
SpunWithin-later spent most g h ms (h', stalled _) same within = ground arith

turn-SpunWithin :
    (clock : IdentityClock) (ms deadline_ns most : ℕ)
    (next : SnowflakeGenerator → SnowflakeGenerator × Spun) (g : SnowflakeGenerator)
    → ((h : SnowflakeGenerator) → SpunWithin most h ms (next h))
    → SpunWithin (5 + most) g ms (turn clock ms deadline_ns next g)
unfolding turn
turn-SpunWithin clock ms deadline_ns most next g within =
    let (g1, ts) = now clock g in
    let first = now-SameBut clock g in
    let g2 : SnowflakeGenerator = record g1 { reads = g1.reads + 1 } in
    let second = now-SameBut clock g2 in
    let g3 = (now clock g2).0 in
    let early = SpunWithin-later 5 most g g2 ms (next g2) (ground arith) (within g2) in
    let late = SpunWithin-later 5 most g g3 ms (next g3) (ground arith) (within g3) in ground arith

spin-SpunWithin :
    (clock : IdentityClock) (ms deadline_ns left : ℕ) (g : SnowflakeGenerator)
    → SpunWithin (5 * left) g ms (spin clock ms deadline_ns left g)
unfolding spin
spin-SpunWithin clock ms deadline_ns zero g = ground arith
spin-SpunWithin clock ms deadline_ns (suc left) g =
    let turned =
      turn-SpunWithin clock ms deadline_ns (5 * left) (λ h. spin clock ms deadline_ns left h) g
        (spin-SpunWithin clock ms deadline_ns left) in
    subst (λ most. SpunWithin most g ms (spin clock ms deadline_ns (suc left) g)) (omega arith)
      turned

abbrev pub CallWithin : ℕ → SnowflakeGenerator → SnowflakeGenerator × Mint → Type 0
CallWithin most g (h, clock_stalled _) =
    h.reads ≤ g.reads + most × g.sequence ≡ 1023 × Refused g g.last_ms h
CallWithin most g (h, _) = h.reads ≤ g.reads + most

encoded-CallWithin :
    (most : ℕ) (g h : SnowflakeGenerator) (f : SnowflakeFields) (id : Option Text)
    → h.reads ≤ g.reads + most
    → CallWithin most g (h, encoded f id)
encoded-CallWithin most g h f none within = within
encoded-CallWithin most g h f (some id) within = within

stamp-CallWithin :
    (most : ℕ) (g h : SnowflakeGenerator) (ts sequence : ℕ)
    → h.reads ≤ g.reads + most
    → CallWithin most g (stamp h ts sequence)
stamp-CallWithin most g h ts sequence within =
    let f : SnowflakeFields = record { ts_ms = ts; node_id = h.node_id; sequence = sequence } in
    encoded-CallWithin most g (record h { last_ms = ts; sequence = sequence }) f (encode f) within

stamp_past-CallWithin :
    (most : ℕ) (g g1 : SnowflakeGenerator) (ms : ℕ) (spun : SnowflakeGenerator × Spun)
    → SameBut 2 g g1
    → g.sequence ≡ 1023
    → ms ≡ g.last_ms
    → SpunWithin most (record g1 { reads = g1.reads + 1 }) ms spun
    → CallWithin (3 + most) g (stamp_past spun)
stamp_past-CallWithin most g g1 ms (h, past ts) same full at within =
    stamp-CallWithin (3 + most) g h ts 0 (omega arith)
stamp_past-CallWithin most g g1 ms (h, stalled _) same full at within = ground arith

-- The last refusal was at the millisecond of the last id.
abbrev pub gave_up : SnowflakeGenerator → Bool
gave_up g = elim g.stalled_at_ms [ none ↦ false | some at ↦ at == g.last_ms ]

-- The most readings that a call makes.
abbrev pub readings_at : SnowflakeGenerator → ℕ
readings_at g = if gave_up g then 8 else 200003

-- The turns that a wait may take.
abbrev pub turns_at : SnowflakeGenerator → ℕ
turns_at g = if gave_up g then 1 else 40000

cap_at-eq-turns_at : (g : SnowflakeGenerator) → cap_at g.last_ms g.stalled_at_ms ≡ turns_at g
cap_at-eq-turns_at g = ground arith

readings_at-eq : (g : SnowflakeGenerator) → 3 + 5 * cap_at g.last_ms g.stalled_at_ms ≡ readings_at g
readings_at-eq g = ground arith

-- A call returns after a bounded number of clock readings, 200,003 or, at a millisecond whose wait
-- has been given up before, 8. It throws `ClockStalledError` only where the sequence of the last
-- millisecond is used up, and then it keeps the last stamp, counts the stall and remembers the
-- millisecond.
pub generate-CallWithin :
    (clock : IdentityClock) (g : SnowflakeGenerator)
    → CallWithin (readings_at g) g (generate clock g)
unfolding generate spin_past
generate-CallWithin clock g =
    let (g1, ts) = now clock g in
    let same = now-SameBut clock g in
    let spun =
      spin-SpunWithin clock g1.last_ms (clock.elapsed_ns g1.reads + spin_deadline_ns)
        (cap_at g1.last_ms g1.stalled_at_ms) (record g1 { reads = g1.reads + 1 }) in
    let most = ap₂ (λ ms at. 3 + 5 * cap_at ms at) (sym same.0) (sym same.3) ∙ readings_at-eq g in
    let exhausted = λ (full : g.sequence ≡ 1023).
      subst (λ most. CallWithin most g (stamp_past (spin_past clock g1.last_ms g1))) most
        (stamp_past-CallWithin (5 * cap_at g1.last_ms g1.stalled_at_ms) g g1 g1.last_ms
          (spin_past clock g1.last_ms g1) same full (sym same.0) spun) in
    let fresh = stamp-CallWithin (readings_at g) g g1 ts 0 (omega arith) in
    let next = stamp-CallWithin (readings_at g) g g1 g1.last_ms (g1.sequence + 1) (omega arith) in
    ground arith

-- From its n-th reading on, the wall clock stands past `ms`.
abbrev pub PastFrom : IdentityClock → ℕ → ℕ → Type 0
PastFrom clock ms n = (m : ℕ) → n ≤ m → ms < clock.wall_ms m

-- The elapsed time stays within the deadline up to its last reading before the n-th.
abbrev pub InTime : IdentityClock → ℕ → ℕ → Type 0
InTime clock deadline_ns n = (m : ℕ) → m + 2 < n → clock.elapsed_ns m ≤ deadline_ns

abbrev IsPast : Spun → Type 0
IsPast (past _) = Unit
IsPast (stalled _) = ⊥

now-wall :
    (clock : IdentityClock) (g : SnowflakeGenerator)
    → clock.wall_ms (g.reads + 1) ≤ (now clock g).1 × (now clock g).0.reads ≡ g.reads + 2
unfolding now
now-wall clock g = (ground arith, refl)

-- The wall clock is past already.
spin-IsPast_now :
    (clock : IdentityClock) (ms deadline_ns left : ℕ) (g : SnowflakeGenerator)
    → 0 < left
    → PastFrom clock ms g.reads
    → IsPast (spin clock ms deadline_ns left g).1
unfolding spin turn
spin-IsPast_now clock ms deadline_ns zero g more waits = absurd (omega arith)
spin-IsPast_now clock ms deadline_ns (suc left) g more waits =
    let here = waits (g.reads + 1) (omega arith) in let seen = now-wall clock g in ground arith

spin-IsPast :
    (clock : IdentityClock) (ms deadline_ns turns left : ℕ) (g : SnowflakeGenerator)
    → turns < left
    → InTime clock deadline_ns (g.reads + 3 * turns)
    → PastFrom clock ms (g.reads + 3 * turns)
    → IsPast (spin clock ms deadline_ns left g).1
unfolding spin turn
spin-IsPast clock ms deadline_ns turns zero g less in_time waits = absurd (omega arith)
spin-IsPast clock ms deadline_ns zero (suc left) g less in_time waits =
    spin-IsPast_now clock ms deadline_ns (suc left) g (omega arith)
      (λ m from. waits m (omega arith))
spin-IsPast clock ms deadline_ns (suc zero) (suc left) g less in_time waits =
    let g1 = (now clock g).0 in
    let read = now-wall clock g in
    let g2 : SnowflakeGenerator = record g1 { reads = g1.reads + 1 } in
    let again = now-wall clock g2 in
    let here = waits (g2.reads + 1) (omega arith) in
    let early =
      spin-IsPast_now clock ms deadline_ns left g2 (omega arith)
        (λ m from. waits m (omega (arith, read.1, from))) in
    let late =
      spin-IsPast_now clock ms deadline_ns left (now clock g2).0 (omega arith)
        (λ m from. waits m (omega (arith, read.1, again.1, from))) in
    ground arith
spin-IsPast clock ms deadline_ns (suc (suc turns)) (suc left) g less in_time waits =
    let g1 = (now clock g).0 in
    let read = now-wall clock g in
    let timely = in_time g1.reads (omega arith) in
    let rest =
      spin-IsPast clock ms deadline_ns (suc turns) left (record g1 { reads = g1.reads + 1 })
        (omega arith) (λ m from. in_time m (omega arith)) (λ m from. waits m (omega arith)) in
    ground arith

abbrev IsStamped : Mint → Type 0
IsStamped (clock_stalled _) = ⊥
IsStamped _ = Unit

encoded-IsStamped : (f : SnowflakeFields) (id : Option Text) → IsStamped (encoded f id)
encoded-IsStamped f none = tt
encoded-IsStamped f (some id) = tt

stamp-IsStamped : (g : SnowflakeGenerator) (ts sequence : ℕ) → IsStamped (stamp g ts sequence).1
stamp-IsStamped g ts sequence =
    let f : SnowflakeFields = record { ts_ms = ts; node_id = g.node_id; sequence = sequence } in
    encoded-IsStamped f (encode f)

stamp_past-IsStamped :
    (spun : SnowflakeGenerator × Spun) → IsPast spun.1 → IsStamped (stamp_past spun).1
stamp_past-IsStamped (h, past ts) done = stamp-IsStamped h ts 0
stamp_past-IsStamped (h, stalled _) done = absurd done

generate-IsStamped :
    (clock : IdentityClock) (g : SnowflakeGenerator) (turns : ℕ)
    → turns < turns_at g
    → InTime clock (clock.elapsed_ns (g.reads + 2) + 10000000) (g.reads + 3 + 3 * turns)
    → PastFrom clock g.last_ms (g.reads + 3 + 3 * turns)
    → IsStamped (generate clock g).1
unfolding generate spin_past now
generate-IsStamped clock g turns less in_time waits =
    let (g1, ts) = now clock g in
    let cap = cap_at-eq-turns_at g in
    let spun =
      spin-IsPast clock g.last_ms (clock.elapsed_ns (g.reads + 2) + spin_deadline_ns) turns
        (cap_at g.last_ms g.stalled_at_ms) (record g1 { reads = g1.reads + 1 }) (omega arith)
        (λ m before. in_time m (omega arith)) (λ m from. waits m (omega arith)) in
    let exhausted = stamp_past-IsStamped (spin_past clock g1.last_ms g1) spun in
    let fresh = stamp-IsStamped g1 ts 0 in
    let next = stamp-IsStamped g1 g1.last_ms (g1.sequence + 1) in ground arith

-- A call does not stall when the wall clock comes past the last millisecond, and stays there, within
-- the turns that the wait may take (40,000, or 1 at a millisecond given up on before), and the time
-- was within 10 ms of the start of the wait at every check before the last one: a last check that
-- finds the deadline passed still looks at the clock again.
pub generate-liveness :
    (clock : IdentityClock) (g : SnowflakeGenerator) (turns : ℕ) (reason : ClockStallReason)
    → turns < turns_at g
    → InTime clock (clock.elapsed_ns (g.reads + 2) + 10000000) (g.reads + 3 + 3 * turns)
    → PastFrom clock g.last_ms (g.reads + 3 + 3 * turns)
    → (generate clock g).1 ≢ clock_stalled reason
generate-liveness clock g turns reason less in_time waits stalls =
    subst IsStamped stalls (generate-IsStamped clock g turns less in_time waits)
