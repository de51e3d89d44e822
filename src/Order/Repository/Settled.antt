-- ===== src/Order/Repository/Settled.antt =====
-- A settled order in drizzle-order.repository.ts: no write reaches it any more.
use jcool_ecommerce_backend.Base.{
  ℕ, Bool, true, false, Option, some, List, [], ◌∷◌, map, filter, find, any, Bool-cases, inl, inr,
  if_lem, some_inj, ◌≡◌, ◌≢◌, refl, sym, ap, ◌∙◌, arith, if◌then◌else◌,
}
use jcool_ecommerce_backend.Order.Status.{OrderStatus, can_transition}
use jcool_ecommerce_backend.Order.Repository.{
  OrderRow, OrderDb, status_of, is_row, breaks_key, write_if, OrderCall, call, call_all,
}
use jcool_ecommerce_backend.Order.Repository.Changes.{OrderChange, kept, opened, moved, dropped}
use jcool_ecommerce_backend.Order.Repository.Calls.{call-OrderChange}

abbrev pub is_settled : OrderStatus → Bool
is_settled OrderStatus.paid = true
is_settled OrderStatus.failed = true
is_settled OrderStatus.expired = true
is_settled OrderStatus.cancelled = true
is_settled _ = false

settled_final : (from to : OrderStatus) → is_settled from ≡ true → can_transition from to ≡ false
unfolding can_transition
settled_final from to settled = ground arith

find-write_if :
    (id : ℕ) (row' : OrderRow) (rows : List OrderRow)
    → row'.id ≢ id
    → find (is_row id) (map (write_if row') rows) ≡ find (is_row id) rows
find-write_if id row' [] other = refl
find-write_if id row' (x ∷ rows) other = let rest = find-write_if id row' rows other in ground arith

find-filter :
    (id : ℕ) (keep : OrderRow → Bool) (rows : List OrderRow) (row : OrderRow)
    → find (is_row id) rows ≡ some row
    → keep row ≡ true
    → find (is_row id) (filter keep rows) ≡ some row
find-filter id keep [] row found stays = found
find-filter id keep (x ∷ rows) row found stays =
    let rest = find-filter id keep rows row in
    if_lem
      (λ (o : Option OrderRow). o ≡ some row → find (is_row id) (filter keep (x ∷ rows)) ≡ some row)
      (is_row id x) (some x) (find (is_row id) rows)
      (λ here same.
        let taken = ap keep (some_inj same) ∙ stays in
        ap (λ b. find (is_row id) (if b then x ∷ filter keep rows else filter keep rows)) taken
        ∙ ap (λ b. if b then some x else find (is_row id) (filter keep rows)) here
        ∙ same)
      (λ there later.
        if_lem (λ rows'. find (is_row id) rows' ≡ some row) (keep x) (x ∷ filter keep rows)
          (filter keep rows)
          (λ taken.
            ap (λ b. if b then some x else find (is_row id) (filter keep rows)) there
            ∙ rest later stays)
          (λ left. rest later stays))
      found

find-absent :
    (id : ℕ) (new : OrderRow) (rows : List OrderRow) (row : OrderRow)
    → any (breaks_key new) rows ≡ false
    → find (is_row id) rows ≡ some row
    → new.id ≢ id
find-absent id new [] row free found = cc
find-absent id new (x ∷ rows) row free found =
    let rest = find-absent id new rows row in ground arith

find-is_row :
    (id : ℕ) (rows : List OrderRow) (row : OrderRow)
    → find (is_row id) rows ≡ some row
    → row.id ≡ id
find-is_row id [] row found = cc
find-is_row id (x ∷ rows) row found = let later = find-is_row id rows row in ground arith

OrderChange-settled :
    (c : OrderCall) (db db' : OrderDb) (id : ℕ) (row : OrderRow)
    → is_settled (status_of row) ≡ true
    → find (is_row id) db.orders ≡ some row
    → OrderChange c db db'
    → find (is_row id) db'.orders ≡ some row
OrderChange-settled c db db' id row settled found (kept same) =
    ap (λ d. find (is_row id) d.orders) same ∙ found
OrderChange-settled c db db' id row settled found (opened new opens free rows quiet) =
    let other = find-absent id new db.orders row free found in
    ap (find (is_row id)) rows
    ∙ if_lem (λ (o : Option OrderRow). o ≡ some row) (is_row id new) (some new)
        (find (is_row id) db.orders) (λ here. absurd (ground (arith, other))) (λ there. found)
OrderChange-settled c db db' id row settled found
      (moved at old new finds (same, wired, tells, rows)) =
    let old_at = find-is_row at db.orders old finds in
    let elsewhere : at ≢ id = λ here.
      let is_same = some_inj (sym finds ∙ ap (λ i. find (is_row i) db.orders) here ∙ found) in
      let stuck =
        settled_final (status_of old) (status_of new)
          (ap (λ r. is_settled (status_of r)) is_same ∙ settled) in
      cc in
    ap (find (is_row id)) rows
    ∙ find-write_if id new db.orders (λ here. elsewhere (sym old_at ∙ sym same ∙ here))
    ∙ found
OrderChange-settled c db db' id row settled found (dropped keep doomed rows quiet) =
    ap (find (is_row id)) rows
    ∙ find-filter id keep db.orders row found (elim (Bool-cases (keep row)) [
      | inl stays ↦ stays
      | inr goes ↦ let rejected = ap is_settled (sym (doomed row goes)) ∙ settled in cc
    ])

-- A paid, failed, expired or cancelled order is found again just as it is after any further writes.
pub call_all-settled :
    (cs : List OrderCall) (db : OrderDb) (id : ℕ) (row : OrderRow)
    → is_settled (status_of row) ≡ true
    → find (is_row id) db.orders ≡ some row
    → find (is_row id) (call_all cs db).orders ≡ some row
unfolding call_all
call_all-settled [] db id row settled found = found
call_all-settled (c ∷ cs) db id row settled found =
    call_all-settled cs (call c db) id row settled
      (OrderChange-settled c db (call c db) id row settled found (call-OrderChange c db))
