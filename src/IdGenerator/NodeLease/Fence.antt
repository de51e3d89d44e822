-- ===== src/IdGenerator/NodeLease/Fence.antt =====
-- When a lease of packages/id-generator/src/node-lease.ts lets an id out.
use jcool_ecommerce_backend.Base.{
  ℕ, ◌+◌, ◌≤◌, ◌<◌, ◌≡◌, refl, sym, ◌∙◌, if_lem, true, Option, none, some, List, [], ◌∷◌, Text,
  arith,
}
use jcool_ecommerce_backend.IdCodec.{encode}
use jcool_ecommerce_backend.IdGenerator.Snowflake.{
  IdentityClock, SnowflakeGenerator, Mint, minted, clock_stalled, field_rejected, generate,
}
use jcool_ecommerce_backend.IdGenerator.Snowflake.Advance.{Advanced, generate-Advanced}
use jcool_ecommerce_backend.IdGenerator.NodeLease.{
  NodeLease, Held, Reply, NodeGrant, LeaseMint, issued, lease_not_held, generator_threw, mint,
  generate_held, after_stamp, not_held, fenced_at, read, acquire, renew, renew_held, drain, release,
  retire,
}

-- The lease that a call leaves, when an id comes of it, is still held, on the same node and
-- generation; the id is the text of fields with that node and with the stamp that the generator
-- holds last, and neither the ceiling nor the fence forbid it.
abbrev pub IsCovered : IdentityClock → Option Held → NodeLease × LeaseMint → Type 0
IsCovered clock before (lease, issued f id) =
    (h : Held) × (h' : Held) × (before ≡ some h
      × lease.current ≡ some h'
      × h'.node_id ≡ h.node_id
      × h'.generation ≡ h.generation
      × h'.lease_until_ms ≡ h.lease_until_ms
      × encode f ≡ some id
      × f.node_id ≡ h.node_id
      × f.ts_ms ≡ h'.generator.last_ms
      × f.sequence ≡ h'.generator.sequence
      × f.ts_ms ≤ h.lease_until_ms)
IsCovered clock before (lease, _) = Unit

-- The generator held is that of the node held, and has a sequence in its field.
abbrev pub IsMintable : Option Held → Type 0
IsMintable none = Unit
IsMintable (some h) = h.generator.sequence < 1024 × h.generator.node_id ≡ h.node_id

after_stamp-IsCovered :
    (clock : IdentityClock) (lease : NodeLease) (h : Held) (g : SnowflakeGenerator)
    (called : SnowflakeGenerator × Mint)
    → g.node_id ≡ h.node_id
    → Advanced g called
    → IsCovered clock (some h) (after_stamp clock lease h called)
unfolding fenced_at
after_stamp-IsCovered clock lease h g (generator, minted f id) node (written, later, stamped) =
    let h' : Held = record h { generator = generator } in
    let lease' : NodeLease = record lease { current = some h'; reads = generator.reads + 2 } in
    if_lem (IsCovered clock (some h)) (fenced_at lease.options h' (read clock generator.reads))
      (not_held clock lease') (lease', issued f id) (λ fenced. tt)
      (λ clear. (
        h,
        h',
        (
          refl,
          refl,
          refl,
          refl,
          refl,
          written,
          later.0 ∙ node,
          sym stamped.1,
          sym stamped.2,
          ground arith,
        ),
      ))
after_stamp-IsCovered clock lease h g (generator, clock_stalled _) node same = tt
after_stamp-IsCovered clock lease h g (generator, field_rejected _) node same = tt

generate_held-IsCovered :
    (clock : IdentityClock) (lease : NodeLease) (held : Option Held)
    → IsMintable held
    → IsCovered clock held (generate_held clock lease held)
generate_held-IsCovered clock lease none mintable = tt
generate_held-IsCovered clock lease (some h) mintable =
    let g : SnowflakeGenerator = record h.generator { reads = lease.reads + 2 } in
    if_lem (IsCovered clock (some h)) (fenced_at lease.options h (read clock lease.reads))
      (not_held clock (record lease { reads = lease.reads + 2 }))
      (after_stamp clock lease h (generate clock g)) (λ fenced. tt)
      (λ clear.
        after_stamp-IsCovered clock lease h g (generate clock g) mintable.1
          (generate-Advanced clock g mintable.0))

-- An id that `generate` lets out is the text of its fields, which carry the node held and the stamp
-- that the generator keeps; the lease stays on its node and generation, and the stamp is not past the
-- ceiling that the store last confirmed for it. The generator held must be that of the node held,
-- with a sequence below 1,024.
pub mint-IsCovered :
    (clock : IdentityClock) (lease : NodeLease)
    → IsMintable lease.current
    → IsCovered clock lease.current (mint clock lease)
unfolding mint
mint-IsCovered clock lease mintable = generate_held-IsCovered clock lease lease.current mintable

-- What the process may ask of its lease, with what the store answers.
pub data LeaseCall : Type 0 where
  mints : LeaseCall
  acquires : Reply (Option NodeGrant) → Reply (Unit {0}) → LeaseCall
  renews : Reply (Option ℕ) → LeaseCall
  drains : LeaseCall
  releases : LeaseCall

abbrev ids_of : LeaseMint → List Text → List Text
ids_of (issued _ id) ids = id ∷ ids
ids_of (lease_not_held _) ids = ids
ids_of (generator_threw _) ids = ids

-- The ids that a sequence of calls lets out.
unfoldable pub ids_under : IdentityClock → List LeaseCall → NodeLease → List Text
ids_under clock [] lease = []
ids_under clock (mints ∷ calls) lease =
    let (lease', m) = mint clock lease in ids_of m (ids_under clock calls lease')
ids_under clock (acquires answer given_back ∷ calls) lease =
    ids_under clock calls (acquire clock answer given_back lease).0
ids_under clock (renews answer ∷ calls) lease = ids_under clock calls (renew clock answer lease).0
ids_under clock (drains ∷ calls) lease = ids_under clock calls (drain lease)
ids_under clock (releases ∷ calls) lease = ids_under clock calls (release lease).0

-- Nothing held, nothing to be acquired.
abbrev IsOver : NodeLease → Type 0
IsOver lease = lease.current ≡ none × lease.is_draining ≡ true

acquire-IsOver :
    (clock : IdentityClock) (answer : Reply (Option NodeGrant)) (given_back : Reply (Unit {0}))
    (lease : NodeLease)
    → IsOver lease
    → IsOver (acquire clock answer given_back lease).0
unfolding acquire
acquire-IsOver clock answer given_back lease over = ground arith

generate_held-IsOver :
    (clock : IdentityClock) (lease : NodeLease) (held : Option Held) (ids : List Text)
    → held ≡ none
    → IsOver lease
    → IsOver (generate_held clock lease held).0
      × ids_of (generate_held clock lease held).1 ids ≡ ids
generate_held-IsOver clock lease none ids nothing over = (over, refl)
generate_held-IsOver clock lease (some h) ids nothing over = cc

renew_held-IsOver :
    (clock : IdentityClock) (answer : Reply (Option ℕ)) (lease : NodeLease) (held : Option Held)
    → held ≡ none
    → IsOver lease
    → IsOver (renew_held clock answer lease held).0
renew_held-IsOver clock answer lease none nothing over = over
renew_held-IsOver clock answer lease (some h) nothing over = cc

ids_under-IsOver :
    (clock : IdentityClock) (calls : List LeaseCall) (lease : NodeLease)
    → IsOver lease
    → ids_under clock calls lease ≡ []
unfolding ids_under mint renew drain release retire
ids_under-IsOver clock [] lease over = refl
ids_under-IsOver clock (mints ∷ calls) lease over =
    let called = mint clock lease in
    let (kept, same) =
      generate_held-IsOver clock lease lease.current (ids_under clock calls called.0) over.0 over in
    same ∙ ids_under-IsOver clock calls called.0 kept
ids_under-IsOver clock (acquires answer given_back ∷ calls) lease over =
    ids_under-IsOver clock calls (acquire clock answer given_back lease).0
      (acquire-IsOver clock answer given_back lease over)
ids_under-IsOver clock (renews answer ∷ calls) lease over =
    ids_under-IsOver clock calls (renew clock answer lease).0
      (renew_held-IsOver clock answer lease lease.current over.0 over)
ids_under-IsOver clock (drains ∷ calls) lease over =
    ids_under-IsOver clock calls (drain lease) (over.0, refl)
ids_under-IsOver clock (releases ∷ calls) lease over =
    ids_under-IsOver clock calls (release lease).0 (refl, refl)

-- Once a lease is released, no sequence of calls makes it let an id out again, whatever the store
-- answers.
pub release-final :
    (clock : IdentityClock) (calls : List LeaseCall) (lease : NodeLease)
    → ids_under clock calls (release lease).0 ≡ []
unfolding release retire drain
release-final clock calls lease = ids_under-IsOver clock calls (release lease).0 (refl, refl)
