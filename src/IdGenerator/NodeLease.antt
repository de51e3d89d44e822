-- ===== src/IdGenerator/NodeLease.antt =====
-- packages/id-generator/src/node-lease.ts. A call takes what the store answers and returns the lease
-- as it leaves it; calls do not overlap, as `exclusive` sees to. The clock's readings are counted
-- in the lease, and a generator starts from that count.
pub mod Fence
use jcool_ecommerce_backend.Base.{
  ℕ, zero, suc, ◌+◌, ◌-◌, max, Bool, true, false, ◌&&◌, ◌||◌, Option, none, some, List, [], ◌∷◌,
  Text, ltb, leb, if◌then◌else◌, is_empty, not,
}
use jcool_ecommerce_backend.IdCodec.{SnowflakeFields}
use jcool_ecommerce_backend.IdGenerator.Snowflake.{
  IdentityClock, SnowflakeGenerator, ClockStallReason, Mint, minted, clock_stalled, field_rejected,
  create_with_clock, generate,
}
use jcool_ecommerce_backend.IdGenerator.EtcdStore.{LeaseGrant, or_zero}

pub data LeaseState : Type 0 where
  idle acquiring held fenced draining lost exhausted released : LeaseState

pub data Phase : Type 0 where
  idle acquiring held lost exhausted released : Phase

pub record NodeLeaseOptions : Type 0 where
  pub holder : Text
  pub ttl_ms : ℕ
  pub fence_margin_ms : ℕ
  pub max_floor_ahead_ms : ℕ

pub record ClockReading : Type 0 where
  pub wall_ms : ℕ
  pub monotonic_ms : ℕ

pub record Held : Type 0 where
  pub node_id : ℕ
  pub generation : ℕ
  pub generator : SnowflakeGenerator
  pub anchor : ClockReading
  pub lease_until_ms : ℕ

pub record NodeLease : Type 0 where
  pub options : NodeLeaseOptions
  pub phase : Phase
  pub current : Option Held
  pub is_draining : Bool
  pub retired_last_ms : ℕ
  pub reads : ℕ

-- What a call of the store comes to.
pub data Reply {ℓ} (A : Type ℓ) : Type ℓ where
  replied : A → Reply A
  unanswered : Reply A

abbrev option_or : Option ℕ → ℕ → ℕ
option_or none otherwise = otherwise
option_or (some value) otherwise = value

-- `none` for a RangeError. `max_floor_ahead_ms` is optional.
unfoldable pub create : Text → ℕ → ℕ → Option ℕ → ℕ → Option NodeLease
create holder ttl_ms fence_margin_ms max_floor_ahead_ms at =
    if not (is_empty holder)
      && ltb 0 ttl_ms
      && (ltb 0 fence_margin_ms && ltb fence_margin_ms ttl_ms)
    then some (record {
      options = record {
        holder = holder;
        ttl_ms = ttl_ms;
        fence_margin_ms = fence_margin_ms;
        max_floor_ahead_ms = option_or max_floor_ahead_ms fence_margin_ms;
      };
      phase = Phase.idle;
      current = none;
      is_draining = false;
      retired_last_ms = 0;
      reads = at;
    })
    else none

abbrev pub read : IdentityClock → ℕ → ClockReading
read clock reads = record {
  wall_ms = clock.wall_ms reads;
  monotonic_ms = clock.monotonic_ms (reads + 1);
}

-- The differences of `fenced`, with what they subtract on the other side.
unfoldable pub fenced_at : NodeLeaseOptions → Held → ClockReading → Bool
fenced_at options h now =
    let mintable_ms = options.ttl_ms - options.fence_margin_ms in
    (leb (h.anchor.monotonic_ms + mintable_ms) now.monotonic_ms
      || leb (h.anchor.wall_ms + mintable_ms) now.wall_ms)
    || ltb (options.fence_margin_ms + h.anchor.wall_ms + now.monotonic_ms)
        (now.wall_ms + h.anchor.monotonic_ms)
    || ltb h.lease_until_ms h.generator.last_ms

abbrev phase_state : Phase → LeaseState
phase_state Phase.idle = LeaseState.idle
phase_state Phase.acquiring = LeaseState.acquiring
phase_state Phase.held = LeaseState.held
phase_state Phase.lost = LeaseState.lost
phase_state Phase.exhausted = LeaseState.exhausted
phase_state Phase.released = LeaseState.released

abbrev holding_state : IdentityClock → NodeLease → Option Held → LeaseState
holding_state clock lease none = LeaseState.fenced
holding_state clock lease (some h) =
    if fenced_at lease.options h (read clock lease.reads)
    then LeaseState.fenced
    else if lease.is_draining
    then LeaseState.draining
    else LeaseState.held

unfoldable pub state : IdentityClock → NodeLease → LeaseState
state clock lease = elim lease.phase [
  | Phase.held ↦ holding_state clock lease lease.current
  | _ ↦ phase_state lease.phase
]

pub data LeaseMint : Type 0 where
  issued : SnowflakeFields → Text → LeaseMint
  lease_not_held : LeaseState → LeaseMint
  generator_threw : Mint → LeaseMint

-- `state` reads the clock only while the lease is held.
abbrev read_for_state : Phase → ℕ → ℕ
read_for_state Phase.held reads = reads + 2
read_for_state _ reads = reads

abbrev pub not_held : IdentityClock → NodeLease → NodeLease × LeaseMint
not_held clock lease = (
  record lease { reads = read_for_state lease.phase lease.reads },
  lease_not_held (state clock lease),
)

-- After the generator has stamped, the fence again.
abbrev pub after_stamp :
    IdentityClock → NodeLease → Held → SnowflakeGenerator × Mint → NodeLease × LeaseMint
after_stamp clock lease h (generator, minted fields id) =
    let h' = record h { generator = generator } in
    let lease' = record lease { current = some h'; reads = generator.reads + 2 } in
    if fenced_at lease.options h' (read clock generator.reads)
    then not_held clock lease'
    else (lease', issued fields id)
after_stamp clock lease h (generator, threw) = (
  record lease { current = some (record h { generator = generator }); reads = generator.reads },
  generator_threw threw,
)

abbrev pub generate_held : IdentityClock → NodeLease → Option Held → NodeLease × LeaseMint
generate_held clock lease none = not_held clock lease
generate_held clock lease (some h) =
    let reads = lease.reads + 2 in
    if fenced_at lease.options h (read clock lease.reads)
    then not_held clock (record lease { reads = reads })
    else after_stamp clock lease h (generate clock (record h.generator { reads = reads }))

unfoldable pub mint : IdentityClock → NodeLease → NodeLease × LeaseMint
mint clock lease = generate_held clock lease lease.current

-- A grant with the node it is for.
pub record NodeGrant : Type 0 where
  pub node_id : ℕ
  pub grant : LeaseGrant

pub data AcquireOutcome : Type 0 where
  now_held : ℕ → AcquireOutcome
  none_free : AcquireOutcome
  floor_rejected : ℕ → ℕ → AcquireOutcome
  -- the promise is rejected: by the guards, by the store, by the generator's constructor
  refused store_failed range_error : AcquireOutcome

abbrev ahead_of : NodeLease → LeaseGrant → Option ℕ → Bool
ahead_of lease grant none = false
ahead_of lease grant (some floor_ms) =
    ltb (grant.now_ms + lease.options.max_floor_ahead_ms) floor_ms

abbrev hold :
    NodeLease → NodeGrant → ClockReading → Option SnowflakeGenerator → NodeLease × AcquireOutcome
hold lease g anchor none = (lease, range_error)
hold lease g anchor (some generator) = (
  record lease {
    current = some (record {
      node_id = g.node_id;
      generation = g.grant.generation;
      generator = generator;
      anchor = anchor;
      lease_until_ms = g.grant.lease_until_ms;
    });
    phase = Phase.held;
    reads = generator.reads;
  },
  now_held g.node_id,
)

abbrev reject_floor : NodeLease → NodeGrant → Reply (Unit {0}) → NodeLease × AcquireOutcome
reject_floor lease g (replied done) =
    (lease, floor_rejected g.node_id (or_zero g.grant.floor_ms - g.grant.now_ms))
reject_floor lease g unanswered = (lease, store_failed)

-- `given_back` is the answer to the release of a node whose floor is too far ahead.
abbrev on_grant :
    IdentityClock
    → Reply (Unit {0})
    → NodeLease
    → ClockReading
    → Reply (Option NodeGrant)
    → NodeLease × AcquireOutcome
on_grant clock given_back lease anchor unanswered = (lease, store_failed)
on_grant clock given_back lease anchor (replied none) =
    (record lease { phase = Phase.exhausted }, none_free)
on_grant clock given_back lease anchor (replied (some g)) =
    if ahead_of lease g.grant g.grant.floor_ms
    then reject_floor lease g given_back
    else hold lease g anchor (
        create_with_clock clock g.node_id
          (some (max (or_zero g.grant.floor_ms) lease.retired_last_ms)) lease.reads)

abbrev may_acquire : Phase → Bool
may_acquire Phase.held = false
may_acquire Phase.released = false
may_acquire _ = true

unfoldable pub acquire :
    IdentityClock
    → Reply (Option NodeGrant)
    → Reply (Unit {0})
    → NodeLease
    → NodeLease × AcquireOutcome
acquire clock answer given_back lease =
    if lease.is_draining || not (may_acquire lease.phase)
    then (lease, refused)
    else on_grant clock given_back
        (record lease { phase = Phase.acquiring; reads = lease.reads + 2 }) (read clock lease.reads)
        answer

abbrev retired_last : ℕ → Option Held → ℕ
retired_last ms none = ms
retired_last ms (some h) = max ms h.generator.last_ms

unfoldable pub retire : Phase → NodeLease → NodeLease
retire phase lease = record lease {
  current = none;
  phase = phase;
  retired_last_ms = retired_last lease.retired_last_ms lease.current;
}

pub data RenewOutcome : Type 0 where
  renewed was_lost not_renewed : RenewOutcome

abbrev on_renewed : NodeLease → Held → ClockReading → Reply (Option ℕ) → NodeLease × RenewOutcome
on_renewed lease h anchor unanswered = (lease, not_renewed)
on_renewed lease h anchor (replied none) = (retire Phase.lost lease, was_lost)
on_renewed lease h anchor (replied (some until_ms)) = (
  record lease { current = some (record h { anchor = anchor; lease_until_ms = until_ms }) },
  renewed,
)

abbrev pub renew_held :
    IdentityClock → Reply (Option ℕ) → NodeLease → Option Held → NodeLease × RenewOutcome
renew_held clock answer lease none = (lease, not_renewed)
renew_held clock answer lease (some h) =
    on_renewed (record lease { reads = lease.reads + 2 }) h (read clock lease.reads) answer

unfoldable pub renew : IdentityClock → Reply (Option ℕ) → NodeLease → NodeLease × RenewOutcome
renew clock answer lease = renew_held clock answer lease lease.current

unfoldable pub drain : NodeLease → NodeLease
drain lease = record lease { is_draining = true }

-- What the store is asked to release: node, generation and `lastTimestampMs || null`.
pub record ReleaseRequest : Type 0 where
  pub node_id : ℕ
  pub generation : ℕ
  pub last_ms : Option ℕ

abbrev or_null : ℕ → Option ℕ
or_null zero = none
or_null (suc ms) = some (suc ms)

abbrev request_of : Option Held → Option ReleaseRequest
request_of none = none
request_of (some h) = some (record {
  node_id = h.node_id;
  generation = h.generation;
  last_ms = or_null h.generator.last_ms;
})

unfoldable pub release : NodeLease → NodeLease × Option ReleaseRequest
release lease = (retire Phase.released (drain lease), request_of lease.current)
