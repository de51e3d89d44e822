-- ===== src/IdGenerator/EtcdStore/Tenures/Release.antt =====
-- A generation that stops, and then gives the node of apps/id-service back, leaves everything
-- coherent.
use jcool_ecommerce_backend.Base.{
  ℕ, zero, suc, true, ◌&&◌, Option, none, some, List, [], ◌∷◌, map, ◌+◌, ◌≡◌, refl, sym, ap, ◌∙◌,
  subst, if_lem, All, All-weaken, arith, max,
}
use jcool_ecommerce_backend.IdGenerator.EtcdStore.{
  NodeEntry, NodeKeys, OwnerKey, or_zero, release, put, floor_of, is_held_by, claimed_over,
}
use jcool_ecommerce_backend.IdGenerator.EtcdStore.Tenures.{
  Tenure, at_generation, stamp_at, last_of, stop, or_null, release_begun,
}
use jcool_ecommerce_backend.IdGenerator.EtcdStore.Tenures.Coherent.{
  Chain, IsBound, IsOwner, IsCoherent, Keeps, at_generation-Keeps, stop-Keeps, map-Chain,
  map-IsBound, IsOwner-map, map-other,
}
use jcool_ecommerce_backend.IdGenerator.EtcdStore.Tenures.Raise.{IsFresh}
use jcool_ecommerce_backend.IdGenerator.EtcdStore.Tenures.Writes.{IsRead-written, owned_by-some}

pub map-IsCoherent :
    (f : Tenure → Tenure) (keys : NodeKeys) (seen : List NodeEntry) (ts : List Tenure)
    → Keeps f
    → ((t : Tenure) → (f t).generation ≡ t.generation × (f t).floor_ms ≡ t.floor_ms)
    → IsCoherent keys seen ts
    → IsCoherent keys seen (map f ts)
map-IsCoherent f keys seen ts keeps same coherent = record {
  floor_key = coherent.floor_key;
  snapshots = coherent.snapshots;
  bounded =
      map-IsBound f keys.revision keys.revision (or_zero (floor_of keys.entry))
        (or_zero (floor_of keys.entry)) ts keeps (omega arith) (omega arith) coherent.bounded;
  chained =
      map-Chain f ts keeps (All-weaken (λ t bound. bound.2) ts coherent.bounded) coherent.chained;
  owned = IsOwner-map f keys.entry.owner ts same coherent.owned;
}

or_zero-or_null : (ms : ℕ) → or_zero (or_null ms) ≡ ms
or_zero-or_null zero = refl
or_zero-or_null (suc ms) = refl

-- The lowered floor still covers every tenure, once the owner's has stopped.
stop-IsBound :
    (owner : OwnerKey) (revision floor_ms : ℕ) (ts : List Tenure)
    → IsOwner (some owner) ts
    → All (IsBound revision floor_ms) ts
    → Chain ts
    → All
        (IsBound (revision + 1) (
          max
            (or_zero owner.claim_floor_ms)
            (or_zero (or_null (last_of owner.create_revision ts)))))
        (map (at_generation owner.create_revision stop) ts)
unfolding Chain
stop-IsBound owner revision floor_ms [] owned bounded chain = tt
stop-IsBound owner revision floor_ms (t ∷ us) owned (bound, rest) (before, chain) =
    let g = owner.create_revision in
    let last = or_zero-or_null (last_of g (t ∷ us)) in
    let other = map-other g stop us (All-weaken (λ u earlier. ground arith) us before) in
    subst
      (λ us'.
        All
          (IsBound (revision + 1)
            (max (or_zero owner.claim_floor_ms) (or_zero (or_null (last_of g (t ∷ us))))))
          (at_generation g stop t ∷ us'))
      (sym other) (ground arith, All-weaken (λ u earlier. ground arith) us before)

stop-same :
    (g : ℕ) (t : Tenure)
    → (at_generation g stop t).generation ≡ t.generation
      × (at_generation g stop t).floor_ms ≡ t.floor_ms
stop-same g t = (ground arith, ground arith)

pub stamp_at-same :
    (g ts : ℕ) (t : Tenure)
    → (at_generation g (stamp_at ts) t).generation ≡ t.generation
      × (at_generation g (stamp_at ts) t).floor_ms ≡ t.floor_ms
stamp_at-same g ts t = (ground arith, ground arith)

pub stopped-IsCoherent :
    (generation : ℕ) (keys : NodeKeys) (seen : List NodeEntry) (ts : List Tenure)
    → IsCoherent keys seen ts
    → IsCoherent keys seen (map (at_generation generation stop) ts)
stopped-IsCoherent generation keys seen ts =
    map-IsCoherent (at_generation generation stop) keys seen ts
      (at_generation-Keeps generation stop stop-Keeps) (stop-same generation)

-- The claim's floor that was read stands, and the owner's tenure stops.
written_down-IsCoherent :
    (read : NodeEntry) (generation : ℕ) (keys : NodeKeys) (seen : List NodeEntry) (ts : List Tenure)
    → is_held_by keys.entry generation ≡ true
    → claimed_over read.owner ≡ claimed_over keys.entry.owner
    → IsCoherent keys seen ts
    → IsCoherent
        (put none (max (claimed_over read.owner) (or_zero (or_null (last_of generation ts)))) keys)
        seen
        (map (at_generation generation stop) ts)
written_down-IsCoherent read generation keys seen ts held claim coherent =
    let floor_of_release =
      λ (claimed : ℕ) (g : ℕ). max claimed (or_zero (or_null (last_of g ts))) in
    let (owner, (owns, same)) = owned_by-some keys.entry.owner generation held in
    let claimed : or_zero owner.claim_floor_ms ≡ claimed_over read.owner =
      sym (claim ∙ ap claimed_over owns) in
    record {
      floor_key = omega arith;
      snapshots =
          IsRead-written keys.revision (floor_of_release (claimed_over read.owner) generation)
            keys.entry.floor seen coherent.snapshots;
      bounded =
          subst
            (λ c.
              All (IsBound (keys.revision + 1) (floor_of_release c generation))
                (map (at_generation generation stop) ts))
            claimed
            (subst
              (λ g.
                All
                  (IsBound (keys.revision + 1) (floor_of_release (or_zero owner.claim_floor_ms) g))
                  (map (at_generation g stop) ts))
              same
              (stop-IsBound owner keys.revision (or_zero (floor_of keys.entry)) ts
                (subst (λ o. IsOwner o ts) owns coherent.owned) coherent.bounded coherent.chained));
      chained = (stopped-IsCoherent generation keys seen ts coherent).chained;
      owned = tt;
    }

pub release-IsCoherent :
    (read : Option NodeEntry) (generation : ℕ) (keys : NodeKeys) (seen : List NodeEntry)
    (ts : List Tenure)
    → ((entry : NodeEntry) → read ≡ some entry → IsFresh keys generation entry)
    → IsCoherent keys seen ts
    → IsCoherent
        (release_begun read generation (or_null (last_of generation ts)) keys)
        seen
        (map (at_generation generation stop) ts)
unfolding release
release-IsCoherent none generation keys seen ts fresh coherent =
    stopped-IsCoherent generation keys seen ts coherent
release-IsCoherent (some read) generation keys seen ts fresh coherent =
    if_lem (λ (keys' : NodeKeys). IsCoherent keys' seen (map (at_generation generation stop) ts))
      (is_held_by read generation && is_held_by keys.entry generation)
      (put none (max (claimed_over read.owner) (or_zero (or_null (last_of generation ts)))) keys)
      keys
      (λ both.
        let known : is_held_by read generation ≡ true = ground arith in
        let held : is_held_by keys.entry generation ≡ true = ground arith in
        written_down-IsCoherent read generation keys seen ts held (fresh read refl known held).1
          coherent)
      (λ lost. stopped-IsCoherent generation keys seen ts coherent)
