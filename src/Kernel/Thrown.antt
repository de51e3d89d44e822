-- ===== src/Kernel/Thrown.antt =====
-- A call that may throw a `DomainError` (domain-error.ts) returns a `Result`; the constructors of
-- `DomainError` are the messages that the modelled files throw, less their labels.
use jcool_ecommerce_backend.Base.{Bool, true, false, ◌≡◌, refl}
use jcool_ecommerce_backend.Order.Status.{OrderStatus}

pub data DomainError : Type 0 where
  empty_text unsafe_integer not_positive negative_price bad_currency currency_mismatch no_items
        oversized_line not_placed not_finalized no_finalization_event bad_saga_target
        unsaved_order :
      DomainError
  illegal_transition : OrderStatus → OrderStatus → DomainError

pub data Result {ℓ} (A : Type ℓ) : Type ℓ where
  ok : A → Result A
  err : DomainError → Result A

-- `if (!test) throw new DomainError(e)`
abbrev pub guard : Bool → DomainError → Result (Unit {0})
guard false thrown = err thrown
guard true thrown = ok tt

-- The statements after a call run on what it returned; a throw leaves them out.
infixl 5 ◌>>◌
infixl 5 ◌>>=◌
abbrev pub ◌>>=◌ {κ ℓ} : {X : Type κ} {Y : Type ℓ} → Result X → (X → Result Y) → Result Y
err thrown >>= next = err thrown
ok value >>= next = next value

abbrev pub ◌>>◌ {ℓ} : {Y : Type ℓ} → Result (Unit {0}) → Result Y → Result Y
check >> next = check >>= λ (done : Unit {0}). next

-- A call that goes on to return has returned a value itself.
pub >>=-eq-ok {κ ℓ} :
    {X : Type ℓ} {Y : Type κ} {last : Y} (call : Result X) (next : X → Result Y)
    → call >>= next ≡ ok last
    → (value : X) × (call ≡ ok value) × (next value ≡ ok last)
>>=-eq-ok (err thrown) next returned = cc
>>=-eq-ok (ok value) next returned = (value, refl, returned)
