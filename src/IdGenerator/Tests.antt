-- ===== src/IdGenerator/Tests.antt =====
-- The generator, the lease and the lease store at concrete readings and events.
use jcool_ecommerce_backend.Base.{
  ℕ, ◌+◌, ◌*◌, ◌<◌, ◌≤◌, ◌≡◌, ◌≢◌, refl, true, false, Option, none, some, List, [], ◌∷◌, All, arith,
  ltb, if◌then◌else◌,
}
use jcool_ecommerce_backend.IdGenerator.Snowflake.{
  IdentityClock, SnowflakeGenerator, clock_stalled, loop_cap, generate, mints, create_with_clock,
}
use jcool_ecommerce_backend.IdGenerator.Snowflake.Ascent.{Ascending, mints-Ascending}
use jcool_ecommerce_backend.IdGenerator.Snowflake.Floor.{IsOver, mints-IsOver}
use jcool_ecommerce_backend.IdGenerator.Snowflake.Stall.{
  CallWithin, generate-CallWithin, generate-liveness,
}
use jcool_ecommerce_backend.IdGenerator.EtcdStore.Tenures.{
  LeaseEvent, looked, claimed, began, renewed, stamps, stops, released, expired,
}
use jcool_ecommerce_backend.IdGenerator.NodeLease.{NodeLease, Phase, Reply, mint, release}
use jcool_ecommerce_backend.IdGenerator.NodeLease.Fence.{
  LeaseCall, acquires, renews, IsCovered, mint-IsCovered, ids_under, release-final,
}
use jcool_ecommerce_backend.IdGenerator.NodeLease.Fence

-- A wall clock that stands still for its first 12 readings.
abbrev standing : IdentityClock
standing = record {
  wall_ms = λ n. if ltb n 12 then 1767225600500 else 1767225600501;
  monotonic_ms = λ n. 70;
  elapsed_ns = λ n. 0;
}

abbrev started : Option ℕ → SnowflakeGenerator
started floor = record {
  node_id = 3;
  last_ms = 0;
  sequence = 0;
  offset_ms = 0;
  stalls = 0;
  stalled_at_ms = none;
  origin_wall_ms = 1767225600500;
  origin_monotonic_ms = 70;
  lift_ms = 0;
  reads = 2;
}

-- Over a floor 300 ms ahead of the wall clock.
abbrev lifted : SnowflakeGenerator
lifted = record (started none) { lift_ms = 301 }

-- The last millisecond's sequence is used up.
abbrev used_up : SnowflakeGenerator
used_up = record (started none) { last_ms = 1767225600500; sequence = 1023; reads = 0 }

started_created : create_with_clock standing 3 none 0 ≡ some (started none)
unfolding create_with_clock
started_created = refl

lifted_created : create_with_clock standing 3 (some 1767225600800) 0 ≡ some lifted
unfolding create_with_clock
lifted_created = refl

mints-Ascending_example : Ascending (mints standing 5 (started none))
mints-Ascending_example = mints-Ascending standing 3 none 0 5 (started none) started_created

mints-IsOver_example : All (IsOver 1767225600800) (mints standing 5 lifted)
mints-IsOver_example =
    mints-IsOver standing 3 1767225600800 0 5 lifted (λ n. omega arith) lifted_created

-- A call at that millisecond has been refused already.
abbrev given_up : SnowflakeGenerator
given_up = record used_up { stalled_at_ms = some 1767225600500; stalls = 1 }

generate-CallWithin_example : CallWithin 8 given_up (generate standing given_up)
generate-CallWithin_example = generate-CallWithin standing given_up

-- A clock whose reading number 11 finds the deadline passed while the wall clock still moves on.
abbrev running : IdentityClock
running = record standing { elapsed_ns = λ n. if ltb n 11 then n * 1000 else n * 1000000 }

timely : (m : ℕ) → m + 2 < 0 + 3 + 3 * 3 → running.elapsed_ns m ≤ running.elapsed_ns 2 + 10000000
timely m before = ground arith

moves_on : (m : ℕ) → 0 + 3 + 3 * 3 ≤ m → 1767225600500 < running.wall_ms m
moves_on m from = ground arith

generate-liveness_example : (generate running used_up).1 ≢ clock_stalled loop_cap
generate-liveness_example =
    generate-liveness running used_up 3 loop_cap (omega arith) timely moves_on

-- Two claims from one snapshot, a renew whose answer is lost, one whose write comes after the expiry
-- and a second claim, and a release.
abbrev contested : List LeaseEvent
contested =
    looked
    ∷ claimed 0 11 1000 500
    ∷ claimed 0 12 1001 500
    ∷ stamps 8 1200
    ∷ began 8
    ∷ renewed 8 1300 500 1200 true false
    ∷ stamps 8 1400
    ∷ began 8
    ∷ expired
    ∷ looked
    ∷ claimed 0 13 1100 500
    ∷ renewed 8 1450 500 1400 true true
    ∷ stamps 11 1900
    ∷ stops 11
    ∷ began 11
    ∷ released 11
    ∷ []

abbrev holding : NodeLease
holding = record {
  options = record {
    holder = b'h' ∷ [];
    ttl_ms = 10000;
    fence_margin_ms = 2000;
    max_floor_ahead_ms = 2000;
  };
  phase = Phase.held;
  current = some (record {
    node_id = 3;
    generation = 8;
    generator = started none;
    anchor = record { wall_ms = 1767225600500; monotonic_ms = 70 };
    lease_until_ms = 1767225610500;
  });
  is_draining = false;
  retired_last_ms = 0;
  reads = 2;
}

mint-IsCovered_example : IsCovered standing holding.current (mint standing holding)
mint-IsCovered_example = mint-IsCovered standing holding (omega arith, refl)

release-final_example :
    ids_under standing
      (Fence.mints ∷ acquires (Reply.replied none) (Reply.replied tt) ∷ Fence.mints ∷ [])
      (release holding).0
    ≡ []
release-final_example =
    release-final standing
      (Fence.mints ∷ acquires (Reply.replied none) (Reply.replied tt) ∷ Fence.mints ∷ []) holding
