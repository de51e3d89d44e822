-- ===== src/Order/Repository/Transactions.antt =====
-- The transactions of drizzle-order.repository.ts that move a row.
use jcool_ecommerce_backend.Base.{
  ℕ, true, none, some, List, [], ◌∷◌, Text, map, ◌≡◌, refl, sym, subst, ap, ◌∙◌, arith,
}
use jcool_ecommerce_backend.Kernel.{Result, ok, err, ◌>>=◌, >>=-eq-ok}
use jcool_ecommerce_backend.Order.Status.{OrderStatus, can_transition}
use jcool_ecommerce_backend.Order.Entity.{
  Order, Meta, OrderEvent, confirm_placed, reject, to_placed_event, to_finalized_event,
}
use jcool_ecommerce_backend.Order.Entity.Moves.{Moves, moves_lem}
use jcool_ecommerce_backend.Order.Repository.{
  OrderRow, OrderDb, status_of, to_domain_order, write_if, apply_rejected, apply_placed,
  ApplyOrderChangeInput, move_for_saga, append_finalized, apply_change, meta_of, set_status,
  rejected_row, placed_row,
}
use jcool_ecommerce_backend.Order.Repository.Changes.{
  order_of, told_status, is_told, Publishes, Moved,
}

-- A transaction that returns has moved the row.
abbrev pub MovedBy : OrderDb → OrderRow → Result OrderDb → Type 0
MovedBy db row (err e) = Unit
MovedBy db row (ok db') = (row' : OrderRow) × Moved db db'.orders db'.outbox row row'

MovedBy-bind {ℓ} :
    {A : Type ℓ} (db : OrderDb) (row : OrderRow) (step : Result A) (next : A → Result OrderDb)
    → ((a : A) → step ≡ ok a → MovedBy db row (next a))
    → MovedBy db row (step >>= next)
MovedBy-bind db row (err e) next moves = tt
MovedBy-bind db row (ok a) next moves = moves a refl

-- A row that takes the status `to` from a move of its order that went through.
Moved-to :
    (db : OrderDb) (orders' : List OrderRow) (outbox' : List OrderEvent) (row row' : OrderRow)
    (to : OrderStatus) (move : Result Order) (order : Order)
    → Moves (to_domain_order row) to move
    → move ≡ ok order
    → row'.id ≡ row.id
    → status_of row' ≡ order.status
    → Publishes (is_told to) row.id to db.outbox outbox'
    → orders' ≡ map (write_if row') db.orders
    → Moved db orders' outbox' row row'
Moved-to db orders' outbox' row row' to move order moves went same takes told rows =
    let (same_order, at, wired) = subst (Moves (to_domain_order row) to) went moves in
    let now_at = takes ∙ at in
    (
      same,
      ap (can_transition (status_of row)) now_at ∙ wired,
      subst (λ s. Publishes (is_told s) row.id s db.outbox outbox') (sym now_at) told,
      rows,
    )

no_meta : Meta
no_meta = record { now = 0; reason = none; payment_ref = none }

pub apply_rejected-MovedBy :
    (reason : Text) (now : ℕ) (db : OrderDb) (row : OrderRow)
    → MovedBy db row (apply_rejected reason now db row)
unfolding apply_rejected
apply_rejected-MovedBy reason now db row =
    let before = to_domain_order row in
    let (_, _, moves, _, _) = moves_lem before now 0 reason OrderStatus.paid no_meta in
    MovedBy-bind db row (reject before reason now) _ (λ order went. (
      rejected_row order row,
      Moved-to db _ _ row (rejected_row order row) OrderStatus.rejected (reject before reason now)
          order moves went refl refl refl refl,
    ))

to_placed_event-told :
    (order : Order) (id : ℕ) (e : OrderEvent)
    → order.id ≡ some id
    → to_placed_event order ≡ ok e
    → order_of e ≡ id × told_status e ≡ OrderStatus.pending
unfolding to_placed_event
to_placed_event-told order id e stored told = ground arith

pub apply_placed-MovedBy : (db : OrderDb) (row : OrderRow) → MovedBy db row (apply_placed db row)
unfolding apply_placed
apply_placed-MovedBy db row =
    let before = to_domain_order row in
    let (_, moves, _, _, _) = moves_lem before 0 0 [] OrderStatus.paid no_meta in
    MovedBy-bind db row (confirm_placed before) _ (λ order went.
      MovedBy-bind db row (to_placed_event order) _ (λ e told.
        let (same_order, at, wired) = subst (Moves before OrderStatus.pending) went moves in
        let (own, tells) = to_placed_event-told order row.id e same_order.id told in
        (
          placed_row order row,
          Moved-to db _ _ row (placed_row order row) OrderStatus.pending (confirm_placed before)
              order moves went refl refl (e, (refl, own, tells)) refl,
        )))

-- The targets of a saga's order change.
abbrev IsSagaTarget : OrderStatus → Type 0
IsSagaTarget OrderStatus.confirming = Unit
IsSagaTarget OrderStatus.paid = Unit
IsSagaTarget OrderStatus.failed = Unit
IsSagaTarget OrderStatus.expired = Unit
IsSagaTarget OrderStatus.cancelled = Unit
IsSagaTarget _ = ⊥

move_for_saga-Moves :
    (a : Order) (to : OrderStatus) (meta : Meta) (b : Order)
    → move_for_saga a to meta ≡ ok b
    → IsSagaTarget to × Moves a to (move_for_saga a to meta)
unfolding move_for_saga
move_for_saga-Moves a OrderStatus.confirming meta b went =
    let (_, _, _, moves, _) = moves_lem a 0 0 [] OrderStatus.confirming meta in (tt, moves)
move_for_saga-Moves a OrderStatus.paid meta b went =
    let (_, _, _, _, moves) = moves_lem a 0 0 [] OrderStatus.paid meta in (tt, moves)
move_for_saga-Moves a OrderStatus.failed meta b went =
    let (_, _, _, _, moves) = moves_lem a 0 0 [] OrderStatus.failed meta in (tt, moves)
move_for_saga-Moves a OrderStatus.expired meta b went =
    let (_, _, _, _, moves) = moves_lem a 0 0 [] OrderStatus.expired meta in (tt, moves)
move_for_saga-Moves a OrderStatus.cancelled meta b went =
    let (_, _, _, _, moves) = moves_lem a 0 0 [] OrderStatus.cancelled meta in (tt, moves)
move_for_saga-Moves a OrderStatus.draft meta b went = cc
move_for_saga-Moves a OrderStatus.reserving meta b went = cc
move_for_saga-Moves a OrderStatus.pending meta b went = cc
move_for_saga-Moves a OrderStatus.rejected meta b went = cc

to_finalized_event-told :
    (order : Order) (id : ℕ) (status : OrderStatus) (e : OrderEvent)
    → order.id ≡ some id
    → order.status ≡ status
    → to_finalized_event order ≡ ok e
    → order_of e ≡ id × told_status e ≡ status
unfolding to_finalized_event
to_finalized_event-told order id status e stored at told = ground arith

appended-told :
    (order : Order) (id : ℕ) (status : OrderStatus) (outbox outbox' : List OrderEvent)
    → order.id ≡ some id
    → order.status ≡ status
    → to_finalized_event order >>= (λ event. ok (event ∷ outbox)) ≡ ok outbox'
    → Publishes true id status outbox outbox'
appended-told order id status outbox outbox' stored at appended =
    let (e, told, written) =
      >>=-eq-ok (to_finalized_event order) (λ event. ok (event ∷ outbox)) appended in
    let (own, tells) = to_finalized_event-told order id status e stored at told in
    (e, (cc, own, tells))

append_finalized-Publishes :
    (to : OrderStatus) (order : Order) (id : ℕ) (outbox outbox' : List OrderEvent)
    → IsSagaTarget to
    → order.id ≡ some id
    → order.status ≡ to
    → append_finalized to order outbox ≡ ok outbox'
    → Publishes (is_told to) id to outbox outbox'
append_finalized-Publishes OrderStatus.confirming order id outbox outbox' _ stored at appended = cc
append_finalized-Publishes OrderStatus.paid order id outbox outbox' _ stored at appended =
    appended-told order id OrderStatus.paid outbox outbox' stored at appended
append_finalized-Publishes OrderStatus.failed order id outbox outbox' _ stored at appended =
    appended-told order id OrderStatus.failed outbox outbox' stored at appended
append_finalized-Publishes OrderStatus.expired order id outbox outbox' _ stored at appended =
    appended-told order id OrderStatus.expired outbox outbox' stored at appended
append_finalized-Publishes OrderStatus.cancelled order id outbox outbox' _ stored at appended =
    appended-told order id OrderStatus.cancelled outbox outbox' stored at appended
append_finalized-Publishes OrderStatus.draft order id outbox outbox' target stored at appended =
    absurd target
append_finalized-Publishes OrderStatus.reserving order id outbox outbox' target stored at appended =
    absurd target
append_finalized-Publishes OrderStatus.pending order id outbox outbox' target stored at appended =
    absurd target
append_finalized-Publishes OrderStatus.rejected order id outbox outbox' target stored at appended =
    absurd target

pub apply_change-MovedBy :
    (input : ApplyOrderChangeInput) (now : ℕ) (db : OrderDb) (row : OrderRow)
    → MovedBy db row (apply_change input now db row)
unfolding apply_change
apply_change-MovedBy input now db row =
    let before = to_domain_order row in
    let move = move_for_saga before input.to (meta_of input now) in
    MovedBy-bind db row move _ (λ order went.
      MovedBy-bind db row (append_finalized input.to order db.outbox) _ (λ outbox' appended.
        let (target, moves) = move_for_saga-Moves before input.to (meta_of input now) order went in
        let (same_order, at, wired) = subst (Moves before input.to) went moves in
        (
          set_status order row,
          Moved-to db _ _ row (set_status order row) input.to move order moves went refl refl
              (append_finalized-Publishes input.to order row.id db.outbox outbox' target
                same_order.id at appended)
              refl,
        )))
