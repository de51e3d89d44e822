-- ===== src/Base/Lists.antt =====
-- Lists over the native numbers: length, tests on every or some element, and filtering by a test.
use Prim.Native.Nat.{ℕ, suc, ◌+◌}
use mathlib.Core.Path.{◌≡◌, subst}
use mathlib.Core.Bool.{Bool, true, false, ◌&&◌, ◌||◌}
use mathlib.Core.Option.{Option, none, some}
use mathlib.Core.List.{List, [], ◌∷◌, ◌++◌, map}
use native.Mathlib.Omega.{arith}
use jcool_ecommerce_backend.Base.Tests.{◌==◌, if◌then◌else◌, if_lem, some_inj}

module _ {ℓ} {A : Type ℓ} where
  abbrev pub length : List A → ℕ
  length [] = 0
  length (x ∷ xs) = suc (length xs)

  pub length-append : (xs ys : List A) → length (xs ++ ys) ≡ length xs + length ys
  length-append [] ys = omega arith
  length-append (x ∷ xs) ys = omega (arith, length-append xs ys)

  abbrev pub any : (A → Bool) → List A → Bool
  any p [] = false
  any p (x ∷ xs) = p x || any p xs

  abbrev pub all : (A → Bool) → List A → Bool
  all p [] = true
  all p (x ∷ xs) = p x && all p xs

  abbrev pub filter : (A → Bool) → List A → List A
  filter p [] = []
  filter p (x ∷ xs) = let rest = filter p xs in if p x then x ∷ rest else rest

  abbrev pub find : (A → Bool) → List A → Option A
  find p [] = none
  find p (x ∷ xs) = if p x then some x else find p xs

  -- A predicate on every element, as nested pairs.
  abbrev pub All {κ} : (A → Type κ) → List A → Type κ
  All P [] = Unit
  All P (x ∷ xs) = P x × All P xs

pub All-weaken {κ ℓ μ} :
    {A : Type ℓ} {P : A → Type κ} {Q : A → Type μ}
    → ((x : A) → P x → Q x)
    → (xs : List A) → All P xs
    → All Q xs
All-weaken weaker [] held = tt
All-weaken weaker (x ∷ xs) (first, rest) = (weaker x first, All-weaken weaker xs rest)

pub All-map {κ ℓ μ} :
    {A : Type ℓ} {P : A → Type κ} (Q : A → Type μ) (f : A → A)
    → ((x : A) → P x → Q (f x))
    → (xs : List A) → All P xs
    → All Q (map f xs)
All-map Q f carried [] held = tt
All-map Q f carried (x ∷ xs) (first, rest) = (carried x first, All-map Q f carried xs rest)

pub All-filter {κ ℓ} :
    {A : Type ℓ} (P : A → Type κ) (keep : A → Bool) (xs : List A)
    → All P xs
    → All P (filter keep xs)
All-filter P keep [] held = tt
All-filter P keep (x ∷ xs) (first, rest) =
    let kept = All-filter P keep xs rest in
    if_lem (All P) (keep x) (x ∷ filter keep xs) (filter keep xs) (λ taken. (first, kept))
      (λ left. kept)

pub All-find {κ ℓ} :
    {A : Type ℓ} (P : A → Type κ) (test : A → Bool) (xs : List A) (x : A)
    → All P xs
    → find test xs ≡ some x
    → P x
All-find P test [] x held found = cc
All-find P test (y ∷ xs) x (first, rest) found =
    if_lem (λ o. o ≡ some x → P x) (test y) (some y) (find test xs)
      (λ here same. subst P (some_inj same) first) (λ there later. All-find P test xs x rest later)
      found

abbrev pub contains : ℕ → List ℕ → Bool
contains k = any (λ j. j == k)
