-- ===== src/IdGenerator/EtcdStore/Tenures/Coherent.antt =====
-- What holds of the keys, the snapshots and the tenures of a node of apps/id-service at any time.
use jcool_ecommerce_backend.Base.{
  ℕ, Option, none, some, List, [], ◌∷◌, map, if◌then◌else◌, ◌≤◌, ◌<◌, ◌≡◌, refl, ap₂, All,
  All-weaken, All-map, arith,
}
use jcool_ecommerce_backend.IdGenerator.EtcdStore.{
  NodeEntry, NodeKeys, OwnerKey, FloorKey, or_zero, mod_revision_of, floor_of, floor_ms_of,
}
use jcool_ecommerce_backend.IdGenerator.EtcdStore.Tenures.{Tenure, at_generation, stamp_at, stop}

-- The highest timestamp that a tenure may still stamp or has stamped.
abbrev pub reach : Tenure → ℕ
reach t = if t.stopped then t.last_ms else t.lease_until_ms

unfoldable pub IsWithin : ℕ → ℕ → List ℕ → Type 0
IsWithin low high = All (λ s. low < s × s ≤ high)

abbrev pub IsSound : Tenure → Type 0
IsSound t = t.last_ms ≤ reach t × IsWithin t.floor_ms t.last_ms t.stamped

-- `u` was granted before `t`.
abbrev pub IsBefore : Tenure → Tenure → Type 0
IsBefore t u = u.generation < t.generation × reach u ≤ t.floor_ms × IsSound u

unfoldable pub Chain : List Tenure → Type 0
Chain [] = Unit
Chain (t ∷ ts) = All (IsBefore t) ts × Chain ts

abbrev pub IsBound : ℕ → ℕ → Tenure → Type 0
IsBound revision floor_ms t = t.generation ≤ revision × reach t ≤ floor_ms × IsSound t

-- The floor as a snapshot has it, when its revision still stands.
abbrev pub IsRead : ℕ → Option FloorKey → NodeEntry → Type 0
IsRead revision floor read =
    mod_revision_of read.floor ≤ revision
    × (mod_revision_of read.floor ≡ mod_revision_of floor
        → or_zero (floor_of read) ≡ or_zero (floor_ms_of floor))

abbrev pub IsOwner : Option OwnerKey → List Tenure → Type 0
IsOwner none ts = Unit
IsOwner (some owner) [] = ⊥
IsOwner (some owner) (t ∷ ts) =
    t.generation ≡ owner.create_revision × t.floor_ms ≡ or_zero owner.claim_floor_ms

pub record IsCoherent (keys : NodeKeys) (seen : List NodeEntry) (tenures : List Tenure)
    : Type 0 where
  pub floor_key : mod_revision_of keys.entry.floor ≤ keys.revision
  pub snapshots : All (IsRead keys.revision keys.entry.floor) seen
  pub bounded : All (IsBound keys.revision (or_zero (floor_of keys.entry))) tenures
  pub chained : Chain tenures
  pub owned : IsOwner keys.entry.owner tenures

-- A change of a tenure that keeps its generation and its floor and does not raise its reach.
abbrev pub Keeps : (Tenure → Tenure) → Type 0
Keeps f =
    (t : Tenure)
    → IsSound t
    → (f t).generation ≡ t.generation
      × (f t).floor_ms ≡ t.floor_ms
      × reach (f t) ≤ reach t
      × IsSound (f t)

pub at_generation-Keeps :
    (generation : ℕ) (f : Tenure → Tenure) → Keeps f → Keeps (at_generation generation f)
at_generation-Keeps generation f keeps t sound = let kept = keeps t sound in ground arith

IsWithin-cons :
    (low high : ℕ) (s : ℕ) (stamped : List ℕ)
    → low < s
    → high ≤ s
    → IsWithin low high stamped
    → IsWithin low s (s ∷ stamped)
unfolding IsWithin
IsWithin-cons low high s stamped above after within =
    ((above, omega arith), All-weaken (λ x inside. ground arith) stamped within)

pub stamp_at-Keeps : (ts : ℕ) → Keeps (stamp_at ts)
stamp_at-Keeps ts t sound =
    let added = IsWithin-cons t.floor_ms t.last_ms ts t.stamped in ground arith

pub stop-Keeps : Keeps stop
stop-Keeps t sound = ground arith

pub map-Chain :
    (f : Tenure → Tenure) (ts : List Tenure)
    → Keeps f
    → All IsSound ts
    → Chain ts
    → Chain (map f ts)
unfolding Chain
map-Chain f [] keeps sound chain = tt
map-Chain f (t ∷ ts) keeps (sound, rest) (before, chain) = (
  All-map (IsBefore (f t)) f
      (λ u earlier. let here = keeps t sound in let there = keeps u earlier.2 in ground arith) ts
      before,
  map-Chain f ts keeps rest chain,
)

pub map-IsBound :
    (f : Tenure → Tenure) (revision revision' floor_ms floor_ms' : ℕ) (ts : List Tenure)
    → Keeps f
    → revision ≤ revision'
    → floor_ms ≤ floor_ms'
    → All (IsBound revision floor_ms) ts
    → All (IsBound revision' floor_ms') (map f ts)
map-IsBound f revision revision' floor_ms floor_ms' ts keeps later higher =
    All-map (IsBound revision' floor_ms') f (λ t bound. let kept = keeps t bound.2 in ground arith)
      ts

pub IsOwner-map :
    (f : Tenure → Tenure) (owner : Option OwnerKey) (ts : List Tenure)
    → ((t : Tenure) → (f t).generation ≡ t.generation × (f t).floor_ms ≡ t.floor_ms)
    → IsOwner owner ts
    → IsOwner owner (map f ts)
IsOwner-map f none ts same owned = tt
IsOwner-map f (some owner) [] same owned = owned
IsOwner-map f (some owner) (t ∷ ts) same owned = let here = same t in ground arith

-- Nothing but the generation itself changes.
pub map-other :
    (generation : ℕ) (f : Tenure → Tenure) (ts : List Tenure)
    → All (λ u. u.generation < generation) ts
    → map (at_generation generation f) ts ≡ ts
map-other generation f [] below = refl
map-other generation f (t ∷ ts) (below, rest) =
    ap₂ (λ x xs. x ∷ xs) (ground arith) (map-other generation f ts rest)
