-- ===== src/Inventory/Stock/Tables.antt =====
-- Sums over the reservation rows, and how a flip or a new hold changes them.
use jcool_ecommerce_backend.Base.{
  ℕ, ◌+◌, ◌≡◌, refl, Bool, true, false, ◌&&◌, List, [], ◌∷◌, ◌++◌, any, filter, All, arith, ◌==◌,
  ==_iff, subst, Bool-cases, inl, inr, if◌then◌else◌,
}
use jcool_ecommerce_backend.Inventory.Tx.{Db, Reservation, ReservationStatus, line_status_eq}
use jcool_ecommerce_backend.Inventory.Rows.{
  Setting, LineTransition, from, is_line, is_flipped, flip, insert_sorted, sorted,
}
use jcool_ecommerce_backend.Inventory.Stock.{pending_rows}

-- The quantity that is on hold for a variant.
abbrev pub held : ℕ → List Reservation → ℕ
held v [] = 0
held v (r ∷ rs) =
    (if r.variant_id == v && line_status_eq r.status ReservationStatus.held then r.quantity else 0)
    + held v rs

-- Of that, the part of one order.
abbrev pub amount : ℕ → ℕ → List Reservation → ℕ
amount o v [] = 0
amount o v (r ∷ rs) =
    (if is_flipped o v ReservationStatus.held r then r.quantity else 0) + amount o v rs

-- The unique index on (order, variant).
abbrev pub IsUnique : List Reservation → Type 0
IsUnique [] = Unit
IsUnique (r ∷ rs) = (any (is_line r.order_id r.variant_id) rs ≡ false) × IsUnique rs

-- Every row of the order and variant has the quantity `q`.
abbrev pub Agrees : ℕ → ℕ → ℕ → List Reservation → Type 0
Agrees o v q = All (λ r. is_line o v r ≡ true → r.quantity ≡ q)

pub held-flip :
    (o u v : ℕ) (rs : List Reservation)
    → (held v rs
        ≡ held v (flip o u LineTransition.held_to_committed rs)
          + (if u == v then amount o u rs else 0))
      × (held v rs
          ≡ held v (flip o u LineTransition.held_to_released rs)
            + (if u == v then amount o u rs else 0))
      × (held v (flip o u LineTransition.committed_to_restocked rs) ≡ held v rs)
unfolding line_status_eq
held-flip o u v [] = ground arith
held-flip o u v (r ∷ rs) = ground (arith, held-flip o u v rs)

amount-zero : (o v : ℕ) (rs : List Reservation) → any (is_line o v) rs ≡ false → amount o v rs ≡ 0
unfolding line_status_eq
amount-zero o v [] h = refl
amount-zero o v (r ∷ rs) h = ground (arith, amount-zero o v rs)

pub amount-eq :
    (o v q : ℕ) (rs : List Reservation)
    → IsUnique rs
    → Agrees o v q rs
    → any (is_flipped o v ReservationStatus.held) rs ≡ true
    → amount o v rs ≡ q
unfolding line_status_eq
amount-eq o v q [] u a h = cc
amount-eq o v q (r ∷ rs) u a h = ground (
  arith,
  amount-eq o v q rs u.1 a.1,
  amount-zero o v rs,
  ==_iff r.order_id o,
  ==_iff r.variant_id v,
)

pub any_line-flip :
    (o u a b : ℕ) (t : LineTransition) (rs : List Reservation)
    → any (is_line a b) (flip o u t rs) ≡ any (is_line a b) rs
any_line-flip o u a b t [] = refl
any_line-flip o u a b t (r ∷ rs) = ground (arith, any_line-flip o u a b t rs)

pub flip-IsUnique :
    (o u : ℕ) (t : LineTransition) (rs : List Reservation) → IsUnique rs → IsUnique (flip o u t rs)
flip-IsUnique o u t [] h = tt
flip-IsUnique o u t (r ∷ rs) h =
    ground (arith, flip-IsUnique o u t rs h.1, any_line-flip o u r.order_id r.variant_id t rs)

pub flip-Agrees :
    (o u : ℕ) (t : LineTransition) (a v q : ℕ) (rs : List Reservation)
    → Agrees a v q rs
    → Agrees a v q (flip o u t rs)
flip-Agrees o u t a v q [] h = tt
flip-Agrees o u t a v q (r ∷ rs) h = ground (arith, flip-Agrees o u t a v q rs h.1)

pub held-append :
    (v : ℕ) (rs : List Reservation) (r : Reservation)
    → held v (rs ++ r ∷ []) ≡ held v rs + held v (r ∷ [])
held-append v [] r = ground arith
held-append v (s ∷ rs) r = ground (arith, held-append v rs r)

any_line-append :
    (a b : ℕ) (rs : List Reservation) (r : Reservation)
    → any (is_line a b) rs ≡ false
    → is_line a b r ≡ false
    → any (is_line a b) (rs ++ r ∷ []) ≡ false
any_line-append a b [] r h k = ground arith
any_line-append a b (s ∷ rs) r h k = ground (arith, any_line-append a b rs r)

pub append-IsUnique :
    (rs : List Reservation) (r : Reservation)
    → IsUnique rs
    → any (is_line r.order_id r.variant_id) rs ≡ false
    → IsUnique (rs ++ r ∷ [])
append-IsUnique [] r h k = ground arith
append-IsUnique (s ∷ rs) r h k = ground (
  arith,
  append-IsUnique rs r h.1,
  any_line-append s.order_id s.variant_id rs r,
  ==_iff s.order_id r.order_id,
  ==_iff s.variant_id r.variant_id,
)

pub amount-zero_of_unflipped :
    (o v : ℕ) (rs : List Reservation)
    → any (is_flipped o v ReservationStatus.held) rs ≡ false
    → amount o v rs ≡ 0
amount-zero_of_unflipped o v [] h = refl
amount-zero_of_unflipped o v (r ∷ rs) h = ground (arith, amount-zero_of_unflipped o v rs)

-- With unique rows, a row that was read says what every row of its key says.
Agrees-unmatched :
    (o v q : ℕ) (rs : List Reservation) → any (is_line o v) rs ≡ false → Agrees o v q rs
Agrees-unmatched o v q [] h = tt
Agrees-unmatched o v q (r ∷ rs) h = ground (arith, Agrees-unmatched o v q rs)

-- Each row of `ps` agrees with `rs`.
abbrev pub AllAgree : List Reservation → List Reservation → Type 0
AllAgree rs = All (λ p. Agrees p.order_id p.variant_id p.quantity rs)

-- A row that `ps` has no key of can be put in front.
AllAgree-cons :
    (r : Reservation) (rs ps : List Reservation)
    → any (is_line r.order_id r.variant_id) ps ≡ false
    → AllAgree rs ps
    → AllAgree (r ∷ rs) ps
AllAgree-cons r rs [] h a = tt
AllAgree-cons r rs (p ∷ ps) h a =
    ground
      (arith, AllAgree-cons r rs ps, ==_iff r.order_id p.order_id, ==_iff r.variant_id p.variant_id)

IsUnique-AllAgree : (rs : List Reservation) → IsUnique rs → AllAgree rs rs
IsUnique-AllAgree [] h = tt
IsUnique-AllAgree (r ∷ rs) h = (
  ((λ e. refl), Agrees-unmatched r.order_id r.variant_id r.quantity rs h.0),
  AllAgree-cons r rs rs h.0 (IsUnique-AllAgree rs h.1),
)

-- The same, for rows of one order.
abbrev pub AllAgreeFor : ℕ → List Reservation → List Reservation → Type 0
AllAgreeFor o rs = All (λ p. Agrees o p.variant_id p.quantity rs)

AllAgree-of_order :
    (o : ℕ) (rs ps : List Reservation)
    → AllAgree rs ps
    → AllAgreeFor o rs (filter (λ r. r.order_id == o) ps)
AllAgree-of_order o rs [] h = tt
AllAgree-of_order o rs (p ∷ ps) h = elim (Bool-cases (p.order_id == o)) [
  | inl same ↦ rw same (
    subst (λ k. Agrees k p.variant_id p.quantity rs) ((==_iff p.order_id o).0 same) h.0,
    AllAgree-of_order o rs ps h.1,
  )
  | inr other ↦ rw other (AllAgree-of_order o rs ps h.1)
]

pub AllAgreeFor-flip :
    (o u : ℕ) (t : LineTransition) (rs ps : List Reservation)
    → AllAgreeFor o rs ps
    → AllAgreeFor o (flip o u t rs) ps
AllAgreeFor-flip o u t rs [] h = tt
AllAgreeFor-flip o u t rs (p ∷ ps) h =
    (flip-Agrees o u t o p.variant_id p.quantity rs h.0, AllAgreeFor-flip o u t rs ps h.1)

-- A predicate on every element survives filtering and sorting.
module _ {A : Type 0} (P : A → Type 0) where
  pub All-filter : (test : A → Bool) (xs : List A) → All P xs → All P (filter test xs)
  All-filter test [] h = tt
  All-filter test (x ∷ xs) h = elim (Bool-cases (test x)) [
    | inl kept ↦ rw kept (h.0, All-filter test xs h.1)
    | inr dropped ↦ rw dropped (All-filter test xs h.1)
  ]

  All-insert_sorted :
      (key : A → ℕ) (precedes : ℕ → ℕ → Bool) (x : A) (xs : List A)
      → P x
      → All P xs
      → All P (insert_sorted key precedes x xs)
  unfolding insert_sorted
  All-insert_sorted key precedes x [] p h = (p, tt)
  All-insert_sorted key precedes x (y ∷ ys) p h = elim (Bool-cases (precedes (key x) (key y))) [
    | inl before ↦ rw before (p, h)
    | inr after ↦ rw after (h.0, All-insert_sorted key precedes x ys p h.1)
  ]

  pub All-sorted :
      (key : A → ℕ) (precedes : ℕ → ℕ → Bool) (xs : List A)
      → All P xs
      → All P (sorted key precedes xs)
  unfolding sorted
  All-sorted key precedes [] h = tt
  All-sorted key precedes (x ∷ xs) h =
      All-insert_sorted key precedes x (sorted key precedes xs) h.0 (All-sorted key precedes xs h.1)

-- What `moveLines` reads agrees with the table it was read from.
pub AllAgree-pending_rows :
    (env : Setting) (o : ℕ) (t : LineTransition) (db : Db)
    → IsUnique db.reservations
    → AllAgreeFor o db.reservations (pending_rows env o t db)
AllAgree-pending_rows env o t db h =
    All-sorted _ (λ r. r.variant_id) env.precedes _
      (All-filter _ (λ r. line_status_eq r.status (from t)) _
        (AllAgree-of_order o db.reservations db.reservations (IsUnique-AllAgree db.reservations h)))
