-- ===== src/IdGenerator/EtcdStore/Tenures/Raise.antt =====
-- Raising the ceiling, for a renew or a re-adoption of the lease store of apps/id-service, from an
-- entry that was read before.
use jcool_ecommerce_backend.Base.{
  ℕ, Bool, true, ◌&&◌, Option, none, some, List, ◌==◌, ==_refl, ◌+◌, ◌≡◌, refl, sym, subst, if_lem,
  arith, max,
}
use jcool_ecommerce_backend.IdGenerator.EtcdStore.{
  NodeEntry, NodeKeys, LeaseGrant, OwnerKey, or_zero, renew, readopt, raise_ceiling, put, regranted,
  floor_of, owned_by, is_held_by, claimed_over,
}
use jcool_ecommerce_backend.IdGenerator.EtcdStore.Tenures.{
  Tenure, heard_by, readopted_by, renew_begun, readopt_owned, readopt_begun,
}
use jcool_ecommerce_backend.IdGenerator.EtcdStore.Tenures.Coherent.{IsCoherent}
use jcool_ecommerce_backend.IdGenerator.EtcdStore.Tenures.Writes.{
  heard_by-IsCoherent, owned_by-some,
}

-- What is known of the entry that a call of a generation has read, while that generation is the
-- owner: its floor and its claim stand.
abbrev pub IsFresh : NodeKeys → ℕ → NodeEntry → Type 0
IsFresh keys generation read =
    is_held_by read generation ≡ true
    → is_held_by keys.entry generation ≡ true
    → (or_zero (floor_of read) ≡ or_zero (floor_of keys.entry))
      × (claimed_over read.owner ≡ claimed_over keys.entry.owner)

raise_ceiling-IsCoherent :
    (read : NodeEntry) (generation stamped_ms ttl_ms : ℕ) (heard : Bool) (keys : NodeKeys)
    (seen : List NodeEntry) (ts : List Tenure)
    → is_held_by read generation ≡ true
    → IsFresh keys generation read
    → IsCoherent keys seen ts
    → let (keys', ceiling) = raise_ceiling read generation stamped_ms ttl_ms keys in
      IsCoherent keys' seen (heard_by generation ceiling heard ts)
unfolding raise_ceiling
raise_ceiling-IsCoherent read generation stamped_ms ttl_ms heard keys seen ts known fresh coherent =
    let ceiling_ms = max (or_zero (floor_of read)) (stamped_ms + ttl_ms) in
    if_lem
      (λ (out : NodeKeys × Option ℕ). IsCoherent out.0 seen (heard_by generation out.1 heard ts))
      (is_held_by keys.entry generation) (put keys.entry.owner ceiling_ms keys, some ceiling_ms)
      (keys, none)
      (λ held.
        let (owner, (owns, same)) = owned_by-some keys.entry.owner generation held in
        let (as_read, claim) = fresh known held in
        subst
          (λ g.
            IsCoherent (put keys.entry.owner ceiling_ms keys) seen
              (heard_by g (some ceiling_ms) heard ts))
          same
          (heard_by-IsCoherent owner ceiling_ms heard keys seen ts owns (omega arith) coherent))
      (λ lost. coherent)

pub renew-IsCoherent :
    (read : Option NodeEntry) (generation now_ms ttl_ms last_ms : ℕ) (alive heard : Bool)
    (keys : NodeKeys) (seen : List NodeEntry) (ts : List Tenure)
    → ((entry : NodeEntry) → read ≡ some entry → IsFresh keys generation entry)
    → IsCoherent keys seen ts
    → let (keys', ceiling) = renew_begun read generation now_ms ttl_ms last_ms alive keys in
      IsCoherent keys' seen (heard_by generation ceiling heard ts)
unfolding renew
renew-IsCoherent none generation now_ms ttl_ms last_ms alive heard keys seen ts fresh coherent =
    coherent
renew-IsCoherent (some read) generation now_ms ttl_ms last_ms alive heard keys seen ts fresh
      coherent =
    if_lem
      (λ (out : NodeKeys × Option ℕ). IsCoherent out.0 seen (heard_by generation out.1 heard ts))
      (is_held_by read generation && alive)
      (raise_ceiling read generation (max now_ms last_ms) ttl_ms keys) (keys, none)
      (λ held.
        let known : is_held_by read generation ≡ true = ground arith in
        raise_ceiling-IsCoherent read generation (max now_ms last_ms) ttl_ms heard keys seen ts
          known (fresh read refl) coherent)
      (λ lost. coherent)

regranted-heard :
    (owner : OwnerKey) (now_ms : ℕ) (ceiling : Option ℕ) (heard : Bool) (ts : List Tenure)
    → readopted_by (regranted owner now_ms ceiling) heard ts
      ≡ heard_by owner.create_revision ceiling heard ts
regranted-heard owner now_ms none heard ts = refl
regranted-heard owner now_ms (some ceiling_ms) heard ts = refl

readopt_owned-IsCoherent :
    (read : NodeEntry) (owner : Option OwnerKey) (generation now_ms ttl_ms : ℕ) (heard : Bool)
    (keys : NodeKeys) (seen : List NodeEntry) (ts : List Tenure)
    → read.owner ≡ owner
    → IsFresh keys generation read
    → IsCoherent keys seen ts
    → let (keys', grant) = readopt_owned read owner generation now_ms ttl_ms keys in
      IsCoherent keys' seen (readopted_by grant heard ts)
unfolding readopt
readopt_owned-IsCoherent read none generation now_ms ttl_ms heard keys seen ts owns fresh coherent =
    coherent
readopt_owned-IsCoherent read (some owner) generation now_ms ttl_ms heard keys seen ts owns fresh
      coherent =
    if_lem
      (λ (out : NodeKeys × Option LeaseGrant). IsCoherent out.0 seen (readopted_by out.1 heard ts))
      (owner.create_revision == generation) (readopt read owner now_ms ttl_ms keys) (keys, none)
      (λ own.
        let (keys', ceiling) = raise_ceiling read owner.create_revision now_ms ttl_ms keys in
        let same : owner.create_revision ≡ generation = ground arith in
        let known : is_held_by read owner.create_revision ≡ true =
          subst (λ o. owned_by o owner.create_revision ≡ true) (sym owns)
            (==_refl owner.create_revision) in
        subst (IsCoherent keys' seen) (sym (regranted-heard owner now_ms ceiling heard ts)) (
          raise_ceiling-IsCoherent read owner.create_revision now_ms ttl_ms heard keys seen ts known
            (subst (λ g. IsFresh keys g read) (sym same) fresh) coherent))
      (λ other. coherent)

pub readopt-IsCoherent :
    (read : Option NodeEntry) (generation now_ms ttl_ms : ℕ) (heard : Bool) (keys : NodeKeys)
    (seen : List NodeEntry) (ts : List Tenure)
    → ((entry : NodeEntry) → read ≡ some entry → IsFresh keys generation entry)
    → IsCoherent keys seen ts
    → let (keys', grant) = readopt_begun read generation now_ms ttl_ms keys in
      IsCoherent keys' seen (readopted_by grant heard ts)
readopt-IsCoherent none generation now_ms ttl_ms heard keys seen ts fresh coherent = coherent
readopt-IsCoherent (some read) generation now_ms ttl_ms heard keys seen ts fresh coherent =
    readopt_owned-IsCoherent read read.owner generation now_ms ttl_ms heard keys seen ts refl
      (fresh read refl) coherent
