-- ===== src/Inventory/Stock/Holds.antt =====
-- The books of a variant: what its stock row calls reserved is the sum of the holds on it, and never
-- more than is on hand. Each statement of the repository that succeeds keeps them.
use jcool_ecommerce_backend.Base.{
  ℕ, ◌≤◌, ◌≡◌, Option, none, some, List, [], ◌∷◌, filter, arith, ◌==◌, ==_iff, Bool-cases, inl, inr,
}
use jcool_ecommerce_backend.Inventory.Tx.{
  Tx, Db, World, StockLevel, Reservation, Answer, ok, err, line_status_eq, then_do, ◌>>=◌,
}
use jcool_ecommerce_backend.Inventory.Rows.{
  Setting, ReservationLine, new_hold, LineTransition, flip, sorted,
}
use jcool_ecommerce_backend.Inventory.Stock.{
  reserve_line, reserve_lines, reserve_pessimistic, move_line, move_each, move_lines, pending_rows,
  is_nil,
}
use jcool_ecommerce_backend.Inventory.Stock.Tables.{
  held, IsUnique, Agrees, held-flip, amount-eq, amount-zero_of_unflipped, flip-IsUnique,
  held-append, append-IsUnique, AllAgreeFor, AllAgreeFor-flip, AllAgree-pending_rows,
}

abbrev pub reserved_of : Option StockLevel → ℕ
reserved_of none = 0
reserved_of (some s) = s.reserved

abbrev pub on_hand_of : Option StockLevel → ℕ
on_hand_of none = 0
on_hand_of (some s) = s.on_hand

pub record Fits (v : ℕ) (db : Db) : Type 0 where
  pub balanced : reserved_of (db.levels v) ≡ held v db.reservations
  pub bounded : reserved_of (db.levels v) ≤ on_hand_of (db.levels v)
  pub unique : IsUnique db.reservations

-- A success ends in a world of `P`.
abbrev OkThen : {A : Type 0} → (World → Type 0) → Answer A × World → Type 0
OkThen P (ok _, w) = P w
OkThen P (err _, w) = Unit

abbrev bind_cases :
    {A B : Type 0} (P Q : World → Type 0) (f : A → Tx B) (p : Answer A × World)
    → OkThen P p
    → ((a : A) (w' : World) → P w' → OkThen Q (f a w'))
    → OkThen Q (then_do p.0 f p.1)
bind_cases P Q f (ok a, w') h hf = hf a w' h
bind_cases P Q f (err e, w') h hf = tt

bind-OkThen :
    {A B : Type 0} (P Q : World → Type 0) (m : Tx A) (f : A → Tx B) (w : World)
    → OkThen P (m w)
    → ((a : A) (w' : World) → P w' → OkThen Q (f a w'))
    → OkThen Q ((m >>= f) w)
bind-OkThen P Q m f w hm hf = bind_cases P Q f (m w) hm hf

OkThen_and :
    {A : Type 0} (P Q : World → Type 0) (p : Answer A × World)
    → OkThen P p
    → Q p.1
    → OkThen (λ w. P w × Q w) p
OkThen_and P Q (ok a, w) h q = (h, q)
OkThen_and P Q (err e, w) h q = tt

-- A success keeps the books of `v`; what an error wrote is rolled back.
abbrev pub OkFits : {A : Type 0} → ℕ → Answer A × World → Type 0
OkFits v = OkThen (λ w. Fits v w.db)

pub bind-OkFits :
    {A B : Type 0} (v : ℕ) (m : Tx A) (f : A → Tx B) (w : World)
    → OkFits v (m w)
    → ((a : A) (w' : World) → Fits v w'.db → OkFits v (f a w'))
    → OkFits v ((m >>= f) w)
bind-OkFits v = bind-OkThen (λ w. Fits v w.db) (λ w. Fits v w.db)

module _ (env : Setting) (deadline order_id : ℕ) (v : ℕ) where
  reserve_line-OkFits :
      (expires_at : ℕ) (line : ReservationLine) (id : ℕ) (w : World)
      → Fits v w.db
      → OkFits v (reserve_line env deadline order_id expires_at line id w)
  unfolding reserve_line line_status_eq
  reserve_line-OkFits expires_at line id w h = ground (
    arith,
    held-append v w.db.reservations (new_hold order_id line id expires_at),
    append-IsUnique w.db.reservations (new_hold order_id line id expires_at),
    ==_iff line.variant_id v,
  )

  reserve_lines-OkFits :
      (expires_at : ℕ) (lines : List ReservationLine) (ids : List ℕ) (w : World)
      → Fits v w.db
      → OkFits v (reserve_lines env deadline order_id expires_at lines ids w)
  unfolding reserve_lines
  reserve_lines-OkFits expires_at [] ids w h = h
  reserve_lines-OkFits expires_at (line ∷ lines) [] w h = tt
  reserve_lines-OkFits expires_at (line ∷ lines) (id ∷ ids) w h =
      bind-OkFits v (reserve_line env deadline order_id expires_at line id) _ w
        (reserve_line-OkFits expires_at line id w h)
        (λ _ w' h'. reserve_lines-OkFits expires_at lines ids w' h')

  pub reserve_pessimistic-OkFits :
      (expires_at : ℕ) (lines : List ReservationLine) (ids : List ℕ) (w : World)
      → Fits v w.db
      → OkFits v (reserve_pessimistic env deadline order_id expires_at lines ids w)
  unfolding reserve_pessimistic
  reserve_pessimistic-OkFits expires_at lines ids w h =
      reserve_lines-OkFits expires_at (sorted (λ l. l.variant_id) env.precedes lines) ids w h

  -- The row read beforehand still agrees with the table, which unique rows make true.
  move_line-OkFits :
      (t : LineTransition) (row : Reservation) (w : World)
      → Fits v w.db
      → Agrees order_id row.variant_id row.quantity w.db.reservations
      → OkFits v (move_line env deadline order_id t row w)
  unfolding move_line
  move_line-OkFits LineTransition.held_to_committed row w h a = ground (
    arith,
    held-flip order_id row.variant_id v w.db.reservations,
    amount-eq order_id row.variant_id row.quantity w.db.reservations h.unique a,
    amount-zero_of_unflipped order_id row.variant_id w.db.reservations,
    flip-IsUnique order_id row.variant_id LineTransition.held_to_committed w.db.reservations,
    ==_iff row.variant_id v,
  )
  move_line-OkFits LineTransition.held_to_released row w h a = ground (
    arith,
    held-flip order_id row.variant_id v w.db.reservations,
    amount-eq order_id row.variant_id row.quantity w.db.reservations h.unique a,
    amount-zero_of_unflipped order_id row.variant_id w.db.reservations,
    flip-IsUnique order_id row.variant_id LineTransition.held_to_released w.db.reservations,
    ==_iff row.variant_id v,
  )
  move_line-OkFits LineTransition.committed_to_restocked row w h a = ground (
    arith,
    held-flip order_id row.variant_id v w.db.reservations,
    flip-IsUnique order_id row.variant_id LineTransition.committed_to_restocked w.db.reservations,
    ==_iff row.variant_id v,
  )

  reservations-move_line :
      (t : LineTransition) (row : Reservation) (w : World)
      → (move_line env deadline order_id t row w).1.db.reservations
        ≡ flip order_id row.variant_id t w.db.reservations
  unfolding move_line
  reservations-move_line t row w = ground arith

  move_each-OkFits :
      (t : LineTransition) (rows : List Reservation) (w : World)
      → Fits v w.db
      → AllAgreeFor order_id w.db.reservations rows
      → OkFits v (move_each env deadline order_id t rows w)
  unfolding move_each
  move_each-OkFits t [] w h a = h
  move_each-OkFits t (row ∷ rows) w h a =
      bind-OkThen (λ w'. Fits v w'.db × AllAgreeFor order_id w'.db.reservations rows)
        (λ w'. Fits v w'.db) (move_line env deadline order_id t row) _ w
        (OkThen_and (λ w'. Fits v w'.db) _ (move_line env deadline order_id t row w)
          (move_line-OkFits t row w h a.0)
          (rw reservations-move_line
            (AllAgreeFor-flip order_id row.variant_id t w.db.reservations rows a.1)))
        (λ hit w' k.
          bind-OkFits v (move_each env deadline order_id t rows) _ w'
            (move_each-OkFits t rows w' k.0 k.1) (λ _ w'' k'. k'))

  pub move_lines-OkFits :
      (t : LineTransition) (w : World)
      → Fits v w.db
      → OkFits v (move_lines env deadline order_id t w)
  unfolding move_lines
  move_lines-OkFits t w h =
      elim (Bool-cases (is_nil (filter (λ r. r.order_id == order_id) w.db.reservations))) [
        | inl e ↦ rw e h
        | inr e ↦ rw e (elim (Bool-cases (is_nil (pending_rows env order_id t w.db))) [
          | inl e' ↦ rw e' h
          | inr e' ↦ rw e' (
              bind-OkFits v (move_each env deadline order_id t (pending_rows env order_id t w.db)) _
                w
                (move_each-OkFits t (pending_rows env order_id t w.db) w h
                  (AllAgree-pending_rows env order_id t w.db h.unique))
                (λ _ w' h'. h'))
        ])
      ]
