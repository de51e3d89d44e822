-- ===== src/IdGenerator/EtcdStore/Tenures/Writes.antt =====
-- The writes of the lease store of apps/id-service keep its keys, snapshots and tenures coherent.
use jcool_ecommerce_backend.Base.{
  ℕ, Bool, true, false, Option, none, some, List, [], ◌∷◌, map, ◌+◌, ◌≤◌, ◌≡◌, refl, sym, subst,
  if_lem, All, All-weaken, arith, max,
}
use jcool_ecommerce_backend.IdGenerator.EtcdStore.{
  NodeEntry, NodeKeys, LeaseGrant, OwnerKey, FloorKey, or_zero, claim, put, owner_claiming, granted,
  unclaimed, floor_of, owned_by,
}
use jcool_ecommerce_backend.IdGenerator.EtcdStore.Tenures.{
  Tenure, at_generation, begun, extend, heard_by,
}
use jcool_ecommerce_backend.IdGenerator.EtcdStore.Tenures.Coherent.{
  IsWithin, Chain, IsBound, IsRead, IsOwner, IsCoherent, map-other,
}

pub IsRead-written :
    (revision ms : ℕ) (floor : Option FloorKey) (seen : List NodeEntry)
    → All (IsRead revision floor) seen
    → All (IsRead (revision + 1) (some (record { ms = ms; mod_revision = revision + 1 }))) seen
IsRead-written revision ms floor = All-weaken (λ read known. ground arith)

pub IsRead-later :
    (revision : ℕ) (floor : Option FloorKey) (seen : List NodeEntry)
    → All (IsRead revision floor) seen
    → All (IsRead (revision + 1) floor) seen
IsRead-later revision floor = All-weaken (λ read known. ground arith)

pub claim-IsCoherent :
    (read : NodeEntry) (lease_id now_ms ttl_ms : ℕ) (keys : NodeKeys) (seen : List NodeEntry)
    (tenures : List Tenure)
    → IsRead keys.revision keys.entry.floor read
    → IsCoherent keys seen tenures
    → let (keys', grant) = claim read lease_id now_ms ttl_ms keys in
      IsCoherent keys' seen (begun grant tenures)
unfolding claim Chain IsWithin
claim-IsCoherent read lease_id now_ms ttl_ms keys seen tenures known coherent =
    let floor_ms = floor_of read in
    let ceiling_ms = max now_ms (or_zero floor_ms) + ttl_ms in
    let generation = keys.revision + 1 in
    if_lem (λ (out : NodeKeys × Option LeaseGrant). IsCoherent out.0 seen (begun out.1 tenures))
      (unclaimed keys.entry read)
      (
        put (some (owner_claiming lease_id generation floor_ms)) ceiling_ms keys,
        some (granted generation floor_ms ceiling_ms now_ms),
      )
      (keys, none)
      (λ free. record {
        floor_key = omega arith;
        snapshots =
            IsRead-written keys.revision ceiling_ms keys.entry.floor seen coherent.snapshots;
        bounded = (
          (omega arith, omega arith, (omega arith, tt)),
          All-weaken (λ t bound. let same = known.1 in ground arith) tenures coherent.bounded,
        );
        chained = (
          All-weaken (λ t bound. let same = known.1 in ground arith) tenures coherent.bounded,
          coherent.chained,
        );
        owned = (refl, refl);
      })
      (λ taken. coherent)

-- What raising the ceiling of the owner's tenure keeps of the tenures.
abbrev RaisedTo : OwnerKey → ℕ → ℕ → List Tenure → Type 0
RaisedTo owner revision ceiling_ms ts =
    All (IsBound revision ceiling_ms) ts × Chain ts × IsOwner (some owner) ts

extend-RaisedTo :
    (owner : OwnerKey) (revision floor_ms ceiling_ms : ℕ) (ts : List Tenure)
    → IsOwner (some owner) ts
    → All (IsBound revision floor_ms) ts
    → Chain ts
    → floor_ms ≤ ceiling_ms
    → RaisedTo owner
        (revision + 1)
        ceiling_ms
        (map (at_generation owner.create_revision (extend ceiling_ms)) ts)
unfolding Chain
extend-RaisedTo owner revision floor_ms ceiling_ms [] owned bounded chain higher = absurd owned
extend-RaisedTo owner revision floor_ms ceiling_ms (t ∷ us) owned (bound, rest) (before, chain)
      higher =
    let f = at_generation owner.create_revision (extend ceiling_ms) in
    let other =
      map-other owner.create_revision (extend ceiling_ms) us
        (All-weaken (λ u earlier. ground arith) us before) in
    subst (λ us'. RaisedTo owner (revision + 1) ceiling_ms (f t ∷ us')) (sym other)
      (
        (ground arith, All-weaken (λ u within. ground arith) us rest),
        (All-weaken (λ u earlier. ground arith) us before, chain),
        ground arith,
      )

put-IsCoherent :
    (owner : OwnerKey) (ceiling_ms : ℕ) (keys : NodeKeys) (seen : List NodeEntry)
    (ts ts' : List Tenure)
    → keys.entry.owner ≡ some owner
    → IsCoherent keys seen ts
    → RaisedTo owner (keys.revision + 1) ceiling_ms ts'
    → IsCoherent (put keys.entry.owner ceiling_ms keys) seen ts'
put-IsCoherent owner ceiling_ms keys seen ts ts' owns coherent (bounded, chain, owned) = record {
  floor_key = omega arith;
  snapshots = IsRead-written keys.revision ceiling_ms keys.entry.floor seen coherent.snapshots;
  bounded = bounded;
  chained = chain;
  owned = subst (λ o. IsOwner o ts') (sym owns) owned;
}

pub heard_by-IsCoherent :
    (owner : OwnerKey) (ceiling_ms : ℕ) (heard : Bool) (keys : NodeKeys) (seen : List NodeEntry)
    (ts : List Tenure)
    → keys.entry.owner ≡ some owner
    → or_zero (floor_of keys.entry) ≤ ceiling_ms
    → IsCoherent keys seen ts
    → IsCoherent
        (put keys.entry.owner ceiling_ms keys)
        seen
        (heard_by owner.create_revision (some ceiling_ms) heard ts)
heard_by-IsCoherent owner ceiling_ms true keys seen ts owns higher coherent =
    put-IsCoherent owner ceiling_ms keys seen ts _ owns coherent (
      extend-RaisedTo owner keys.revision (or_zero (floor_of keys.entry)) ceiling_ms ts
        (subst (λ o. IsOwner o ts) owns coherent.owned) coherent.bounded coherent.chained higher)
heard_by-IsCoherent owner ceiling_ms false keys seen ts owns higher coherent =
    put-IsCoherent owner ceiling_ms keys seen ts ts owns coherent (
      All-weaken (λ t within. ground arith) ts coherent.bounded,
      coherent.chained,
      subst (λ o. IsOwner o ts) owns coherent.owned,
    )

pub owned_by-some :
    (owner : Option OwnerKey) (generation : ℕ)
    → owned_by owner generation ≡ true
    → (o : OwnerKey) × (owner ≡ some o × o.create_revision ≡ generation)
owned_by-some none generation held = cc
owned_by-some (some o) generation held = (o, (refl, ground arith))
