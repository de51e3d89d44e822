-- ===== src/IdGenerator/EtcdStore/Tenures/Fresh.antt =====
-- What a call under way on the lease store of apps/id-service has read stands while its generation
-- is the owner, since nobody else writes the owner's floor.
use jcool_ecommerce_backend.Base.{
  ℕ, ◌≤◌, ◌≡◌, ◌≢◌, refl, sym, ap, subst, ◌∙◌, Bool, true, ◌&&◌, Option, none, some, some_inj, ◌==◌,
  ==_iff, if_lem, arith, max,
}
use jcool_ecommerce_backend.IdGenerator.EtcdStore.{
  NodeEntry, NodeKeys, LeaseGrant, OwnerKey, or_zero, floor_of, owned_by, is_held_by, claimed_over,
  claim, raise_ceiling, renew, readopt, release, unclaimed,
}
use jcool_ecommerce_backend.IdGenerator.EtcdStore.Tenures.{
  claim_seen, renew_begun, readopt_owned, readopt_begun, release_begun, reading, expire,
}
use jcool_ecommerce_backend.IdGenerator.EtcdStore.Tenures.Raise.{IsFresh}

-- Of every call under way.
abbrev pub IsTracked : NodeKeys → (ℕ → Option NodeEntry) → Type 0
IsTracked keys under_way =
    (g : ℕ) (read : NodeEntry)
    → under_way g ≡ some read
    → is_held_by read g ≡ true
    → (g ≤ keys.revision) × IsFresh keys g read

-- A generation that owns the node after a step owned it before, with the same floor and claim.
abbrev pub Follows : NodeKeys → NodeKeys → ℕ → Type 0
Follows keys keys' k =
    is_held_by keys'.entry k ≡ true
    → k ≤ keys.revision
    → (is_held_by keys.entry k ≡ true)
      × (or_zero (floor_of keys.entry) ≡ or_zero (floor_of keys'.entry))
      × (claimed_over keys.entry.owner ≡ claimed_over keys'.entry.owner)

pub Follows-IsTracked :
    (keys keys' : NodeKeys) (under_way : ℕ → Option NodeEntry)
    → keys.revision ≤ keys'.revision
    → ((k : ℕ) → Follows keys keys' k)
    → IsTracked keys under_way
    → IsTracked keys' under_way
Follows-IsTracked keys keys' under_way later follows tracked g read found known =
    let (old, fresh) = tracked g read found known in
    (
      omega (arith, old, later),
      λ known held.
          let (before, floors, claims) = follows g held old in
          let (floor, claim) = fresh known before in (floor ∙ floors, claim ∙ claims),
    )

-- The call of a generation has ended: what others have read is of other generations.
pub ended-IsTracked :
    (keys keys' : NodeKeys) (g : ℕ) (under_way : ℕ → Option NodeEntry)
    → keys.revision ≤ keys'.revision
    → ((k : ℕ) → k ≢ g → Follows keys keys' k)
    → IsTracked keys under_way
    → IsTracked keys' (reading g none under_way)
ended-IsTracked keys keys' g under_way later follows tracked k read found known =
    if_lem (λ o. o ≡ some read → (k ≤ keys'.revision) × IsFresh keys' k read) (k == g) none
      (under_way k) (λ same gone. cc)
      (λ differs found.
        let (old, fresh) = tracked k read found known in
        (
          omega (arith, old, later),
          λ known held.
              let (before, floors, claims) = follows k (λ e. ground (arith, ==_iff k g)) held old in
              let (floor, claim) = fresh known before in (floor ∙ floors, claim ∙ claims),
        ))
      found

pub began-IsTracked :
    (keys : NodeKeys) (g : ℕ) (under_way : ℕ → Option NodeEntry)
    → (is_held_by keys.entry g ≡ true → g ≤ keys.revision)
    → IsTracked keys under_way
    → IsTracked keys (reading g (some keys.entry) under_way)
began-IsTracked keys g under_way bound tracked k read found known =
    if_lem (λ o. o ≡ some read → (k ≤ keys.revision) × IsFresh keys k read) (k == g)
      (some keys.entry) (under_way k)
      (λ same here.
        let entry = some_inj here in
        let at : k ≡ g = ground (arith, ==_iff k g) in
        let held : is_held_by keys.entry g ≡ true =
          subst (λ e. is_held_by e g ≡ true) (sym entry)
            (subst (λ k. is_held_by read k ≡ true) at known) in
        (
          omega (arith, at, bound held),
          λ known held'. (
            ap (λ e. or_zero (floor_of e)) (sym entry),
            ap (λ (e : NodeEntry). claimed_over e.owner) (sym entry),
          ),
        ))
      (λ differs found. tracked k read found known) found

module _ (keys : NodeKeys) (k : ℕ) where
  Follows-refl : Follows keys keys k
  Follows-refl held old = (held, refl, refl)

  owned_by-same :
      (owner : Option OwnerKey) (g : ℕ) → owned_by owner g ≡ true → owned_by owner k ≡ true → k ≡ g
  owned_by-same none g mine yours = cc
  owned_by-same (some owner) g mine yours = ground arith

  raise_ceiling-Follows :
      (read : NodeEntry) (g stamped_ms ttl_ms : ℕ)
      → k ≢ g
      → Follows keys (raise_ceiling read g stamped_ms ttl_ms keys).0 k
  unfolding raise_ceiling
  raise_ceiling-Follows read g stamped_ms ttl_ms other =
      if_lem (λ (out : NodeKeys × Option ℕ). Follows keys out.0 k) (is_held_by keys.entry g) _ _
        (λ mine held old. absurd (other (owned_by-same keys.entry.owner g mine held)))
        (λ lost. Follows-refl)

  pub renew-Follows :
      (read : Option NodeEntry) (g now_ms ttl_ms last_ms : ℕ) (alive : Bool)
      → k ≢ g
      → Follows keys (renew_begun read g now_ms ttl_ms last_ms alive keys).0 k
  unfolding renew
  renew-Follows none g now_ms ttl_ms last_ms alive other = Follows-refl
  renew-Follows (some read) g now_ms ttl_ms last_ms alive other =
      if_lem (λ (out : NodeKeys × Option ℕ). Follows keys out.0 k) (is_held_by read g && alive) _ _
        (λ held. raise_ceiling-Follows read g (max now_ms last_ms) ttl_ms other)
        (λ lost. Follows-refl)

  readopt_owned-Follows :
      (read : NodeEntry) (owner : Option OwnerKey) (g now_ms ttl_ms : ℕ)
      → k ≢ g
      → Follows keys (readopt_owned read owner g now_ms ttl_ms keys).0 k
  unfolding readopt
  readopt_owned-Follows read none g now_ms ttl_ms other = Follows-refl
  readopt_owned-Follows read (some owner) g now_ms ttl_ms other =
      if_lem (λ (out : NodeKeys × Option LeaseGrant). Follows keys out.0 k)
        (owner.create_revision == g) _ _
        (λ own.
          let same : owner.create_revision ≡ g = ground arith in
          raise_ceiling-Follows read owner.create_revision now_ms ttl_ms
            (subst (λ g. k ≢ g) (sym same) other))
        (λ foreign. Follows-refl)

  pub readopt-Follows :
      (read : Option NodeEntry) (g now_ms ttl_ms : ℕ)
      → k ≢ g
      → Follows keys (readopt_begun read g now_ms ttl_ms keys).0 k
  readopt-Follows none g now_ms ttl_ms other = Follows-refl
  readopt-Follows (some read) g now_ms ttl_ms other =
      readopt_owned-Follows read read.owner g now_ms ttl_ms other

  pub release-Follows :
      (read : Option NodeEntry) (g : ℕ) (last_ms : Option ℕ)
      → Follows keys (release_begun read g last_ms keys) k
  unfolding release
  release-Follows none g last_ms = Follows-refl
  release-Follows (some read) g last_ms =
      if_lem (λ keys'. Follows keys keys' k) (is_held_by read g && is_held_by keys.entry g) _ _
        (λ held gone old. cc) (λ lost. Follows-refl)

  pub claim-Follows :
      (read : Option NodeEntry) (lease_id now_ms ttl_ms : ℕ)
      → Follows keys (claim_seen read lease_id now_ms ttl_ms keys).0 k
  unfolding claim
  claim-Follows none lease_id now_ms ttl_ms = Follows-refl
  claim-Follows (some read) lease_id now_ms ttl_ms =
      if_lem (λ (out : NodeKeys × Option LeaseGrant). Follows keys out.0 k)
        (unclaimed keys.entry read) _ _ (λ free held old. ground arith) (λ taken. Follows-refl)

  pub expire-Follows : Follows keys (expire keys) k
  expire-Follows held old = cc

-- No call takes etcd's revision back.
pub renew-later :
    (read : Option NodeEntry) (g now_ms ttl_ms last_ms : ℕ) (alive : Bool) (keys : NodeKeys)
    → keys.revision ≤ (renew_begun read g now_ms ttl_ms last_ms alive keys).0.revision
unfolding renew raise_ceiling
renew-later none g now_ms ttl_ms last_ms alive keys = omega arith
renew-later (some read) g now_ms ttl_ms last_ms alive keys = ground arith

readopt_owned-later :
    (read : NodeEntry) (owner : Option OwnerKey) (g now_ms ttl_ms : ℕ) (keys : NodeKeys)
    → keys.revision ≤ (readopt_owned read owner g now_ms ttl_ms keys).0.revision
unfolding readopt raise_ceiling
readopt_owned-later read none g now_ms ttl_ms keys = omega arith
readopt_owned-later read (some owner) g now_ms ttl_ms keys = ground arith

pub readopt-later :
    (read : Option NodeEntry) (g now_ms ttl_ms : ℕ) (keys : NodeKeys)
    → keys.revision ≤ (readopt_begun read g now_ms ttl_ms keys).0.revision
readopt-later none g now_ms ttl_ms keys = omega arith
readopt-later (some read) g now_ms ttl_ms keys =
    readopt_owned-later read read.owner g now_ms ttl_ms keys

pub release-later :
    (read : Option NodeEntry) (g : ℕ) (last_ms : Option ℕ) (keys : NodeKeys)
    → keys.revision ≤ (release_begun read g last_ms keys).revision
unfolding release
release-later none g last_ms keys = omega arith
release-later (some read) g last_ms keys = ground arith

pub claim-later :
    (read : Option NodeEntry) (lease_id now_ms ttl_ms : ℕ) (keys : NodeKeys)
    → keys.revision ≤ (claim_seen read lease_id now_ms ttl_ms keys).0.revision
unfolding claim
claim-later none lease_id now_ms ttl_ms keys = omega arith
claim-later (some read) lease_id now_ms ttl_ms keys = ground arith
