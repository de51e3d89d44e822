-- ===== src/Order/Repository/Outbox.antt =====
-- The outbox against the orders: what drizzle-order.repository.ts publishes of an order.
use jcool_ecommerce_backend.Base.{
  ℕ, Bool, true, false, some, List, [], ◌∷◌, map, filter, find, any, All, All-map, All-filter,
  All-find, Bool-cases, if_lem, ◌≡◌, ◌≢◌, ◌⊎◌, inl, inr, refl, sym, subst, ap, ap₂, ◌∙◌, arith,
  ◌==◌,
}
use jcool_ecommerce_backend.Order.Status.{OrderStatus, can_transition}
use jcool_ecommerce_backend.Order.Entity.{OrderEvent}
use jcool_ecommerce_backend.Order.Repository.{
  OrderRow, OrderDb, status_of, is_row, breaks_key, write_if, OrderCall, creates, tries, changes,
  deletes, call, call_all,
}
use jcool_ecommerce_backend.Order.Repository.Changes.{
  order_of, told_status, is_told, Publishes, Moved, Opens, OrderChange, kept, opened, moved,
  dropped,
}
use jcool_ecommerce_backend.Order.Repository.Calls.{call-OrderChange}

-- The statuses published of an order, the latest first.
unfoldable pub published : ℕ → List OrderEvent → List OrderStatus
published id outbox = map told_status (filter (λ e. order_of e == id) outbox)

-- What an order in this status has published.
abbrev pub expected : OrderStatus → List OrderStatus
expected OrderStatus.pending = OrderStatus.pending ∷ []
expected OrderStatus.confirming = OrderStatus.pending ∷ []
expected OrderStatus.paid = OrderStatus.paid ∷ OrderStatus.pending ∷ []
expected OrderStatus.failed = OrderStatus.failed ∷ OrderStatus.pending ∷ []
expected OrderStatus.expired = OrderStatus.expired ∷ OrderStatus.pending ∷ []
expected OrderStatus.cancelled = OrderStatus.cancelled ∷ OrderStatus.pending ∷ []
expected _ = []

abbrev pub IsTold : List OrderEvent → OrderRow → Type 0
IsTold outbox row =
    status_of row ≢ OrderStatus.draft × published row.id outbox ≡ expected (status_of row)

-- Nothing is published of an order that is not there.
abbrev IsBare : OrderDb → Type 0
IsBare db = (id : ℕ) → any (is_row id) db.orders ≡ false → published id db.outbox ≡ []

abbrev IsFaithful : OrderDb → Type 0
IsFaithful db = All (IsTold db.outbox) db.orders × IsBare db

expected_told :
    (from to : OrderStatus)
    → from ≢ OrderStatus.draft
    → can_transition from to ≡ true
    → is_told to ≡ true
    → to ∷ expected from ≡ expected to
unfolding can_transition
expected_told from to placed wired told = ground arith

expected_silent :
    (from to : OrderStatus)
    → from ≢ OrderStatus.draft
    → can_transition from to ≡ true
    → is_told to ≡ false
    → expected from ≡ expected to × to ≢ OrderStatus.draft
unfolding can_transition
expected_silent from to placed wired silent = ground arith

-- After a row moved: its own history goes on, and that of other orders is as before.
abbrev Continues : OrderRow → OrderRow → List OrderEvent → List OrderEvent → Type 0
Continues row row' outbox outbox' =
    IsTold outbox' row' × ((id : ℕ) → id ≢ row.id → published id outbox' ≡ published id outbox)

published-own :
    (id : ℕ) (e : OrderEvent) (outbox : List OrderEvent)
    → order_of e ≡ id
    → published id (e ∷ outbox) ≡ told_status e ∷ published id outbox
unfolding published
published-own id e outbox own =
    if_lem
      (λ es.
        map told_status es
        ≡ told_status e ∷ map told_status (filter (λ x. order_of x == id) outbox))
      (order_of e == id) (e ∷ filter (λ x. order_of x == id) outbox)
      (filter (λ x. order_of x == id) outbox) (λ here. refl) (λ there. absurd (ground (arith, own)))

published-other :
    (id : ℕ) (e : OrderEvent) (outbox : List OrderEvent)
    → order_of e ≢ id
    → published id (e ∷ outbox) ≡ published id outbox
unfolding published
published-other id e outbox other =
    if_lem (λ es. map told_status es ≡ map told_status (filter (λ x. order_of x == id) outbox))
      (order_of e == id) (e ∷ filter (λ x. order_of x == id) outbox)
      (filter (λ x. order_of x == id) outbox) (λ here. absurd (ground (arith, other)))
      (λ there. refl)

publish-Continues :
    (told : Bool) (row row' : OrderRow) (outbox outbox' : List OrderEvent)
    → is_told (status_of row') ≡ told
    → row'.id ≡ row.id
    → can_transition (status_of row) (status_of row') ≡ true
    → Publishes told row.id (status_of row') outbox outbox'
    → IsTold outbox row
    → Continues row row' outbox outbox'
unfolding published
publish-Continues true row row' outbox outbox' tells same wired (e, (rows, own, says))
      (placed, known) =
    let next = expected_told (status_of row) (status_of row') placed wired tells in
    subst (Continues row row' outbox) (sym rows) (
      (
        λ at. let silent = ap is_told at in cc,
        ap (λ id. published id (e ∷ outbox)) same
            ∙ published-own row.id e outbox own
            ∙ ap₂ (λ x xs. x ∷ xs) says known
            ∙ next,
      ),
      λ id other. published-other id e outbox (λ at. other (sym at ∙ own)),
    )
publish-Continues false row row' outbox outbox' tells same wired rows (placed, known) =
    let (next, still) = expected_silent (status_of row) (status_of row') placed wired tells in
    subst (Continues row row' outbox) (sym rows)
      ((still, ap (λ id. published id outbox) same ∙ known ∙ next), λ id other. refl)

find-is_row :
    (id : ℕ) (rows : List OrderRow) (row : OrderRow)
    → find (is_row id) rows ≡ some row
    → row.id ≡ id × any (is_row id) rows ≡ true
find-is_row id [] row found = cc
find-is_row id (x ∷ rows) row found = let later = find-is_row id rows row in ground arith

any-write_if :
    (id : ℕ) (row' : OrderRow) (rows : List OrderRow)
    → any (is_row id) (map (write_if row') rows) ≡ any (is_row id) rows
any-write_if id row' [] = refl
any-write_if id row' (x ∷ rows) = let rest = any-write_if id row' rows in ground arith

Moved-IsFaithful :
    (db db' : OrderDb) (id : ℕ) (row row' : OrderRow)
    → find (is_row id) db.orders ≡ some row
    → Moved db db'.orders db'.outbox row row'
    → IsFaithful db
    → IsFaithful db'
Moved-IsFaithful db db' id row row' found (same, wired, tells, rows) (told, bare) =
    let own = find-is_row id db.orders row found in
    let (next, others) =
      publish-Continues (is_told (status_of row')) row row' db.outbox db'.outbox refl same wired
        tells (All-find (IsTold db.outbox) (is_row id) db.orders row told found) in
    (
      subst (All (IsTold db'.outbox)) (sym rows) (
          All-map (IsTold db'.outbox) (write_if row')
            (λ r known.
              if_lem (IsTold db'.outbox) (is_row row'.id r) row' r (λ here. next)
                (λ there. (known.0, others r.id (ground arith) ∙ known.1)))
            db.orders told),
      λ other absent.
          let gone =
            sym (any-write_if other row' db.orders) ∙ ap (any (is_row other)) (sym rows) ∙ absent in
          others other (ground (arith)) ∙ bare other gone,
    )

-- A create of an order that `reserve` has made.
abbrev pub IsReserving : OrderCall → Type 0
IsReserving (creates order key id) = order.status ≡ OrderStatus.reserving
IsReserving _ = Unit

Opens-reserving :
    (c : OrderCall) (row : OrderRow)
    → IsReserving c
    → Opens c row
    → status_of row ≡ OrderStatus.reserving
Opens-reserving (creates order key id) row reserving opens = ap (λ o. o.status) opens ∙ reserving
Opens-reserving (tries _ _) row reserving opens = absurd opens
Opens-reserving (changes _ _) row reserving opens = absurd opens
Opens-reserving (deletes _ _) row reserving opens = absurd opens

breaks_key-absent :
    (row : OrderRow) (rows : List OrderRow)
    → any (breaks_key row) rows ≡ false
    → any (is_row row.id) rows ≡ false
breaks_key-absent row [] free = refl
breaks_key-absent row (x ∷ rows) free = let rest = breaks_key-absent row rows in ground arith

opened-IsFaithful :
    (c : OrderCall) (db db' : OrderDb) (row : OrderRow)
    → IsReserving c
    → Opens c row
    → any (breaks_key row) db.orders ≡ false
    → db'.orders ≡ row ∷ db.orders
    → db'.outbox ≡ db.outbox
    → IsFaithful db
    → IsFaithful db'
opened-IsFaithful c db db' row reserving opens free rows quiet (told, bare) =
    let at = Opens-reserving c row reserving opens in
    let empty = bare row.id (breaks_key-absent row db.orders free) in
    let first : IsTold db.outbox row =
      ((λ draft. let same = sym at ∙ draft in cc), empty ∙ ap expected (sym at)) in
    (
      subst (λ os. All (IsTold os) db'.orders) (sym quiet)
          (subst (All (IsTold db.outbox)) (sym rows) (first, told)),
      λ id absent.
          let gone = ap (any (is_row id)) (sym rows) ∙ absent in
          ap (published id) quiet ∙ bare id (ground arith),
    )

-- What is gone had published nothing.
dropped-bare :
    (id : ℕ) (outbox : List OrderEvent) (keep : OrderRow → Bool) (rows : List OrderRow)
    → ((row : OrderRow) → keep row ≡ false → status_of row ≡ OrderStatus.rejected)
    → All (IsTold outbox) rows
    → any (is_row id) (filter keep rows) ≡ false
    → any (is_row id) rows ≡ false ⊎ published id outbox ≡ []
dropped-bare id outbox keep [] doomed told absent = inl refl
dropped-bare id outbox keep (x ∷ rows) doomed ((placed, known), told) absent =
    let rest = dropped-bare id outbox keep rows doomed told in
    if_lem
      (λ rows'.
        any (is_row id) rows' ≡ false
        → any (is_row id) (x ∷ rows) ≡ false ⊎ published id outbox ≡ [])
      (keep x) (x ∷ filter keep rows) (filter keep rows) (λ taken gone. ground arith)
      (λ left gone.
        let none_told = known ∙ ap expected (doomed x left) in
        elim (Bool-cases (is_row id x)) [
          | inl same ↦
              let here : x.id ≡ id = ground (arith, same) in
              inr (ap (λ i. published i outbox) (sym here) ∙ none_told)
          | inr differs ↦ let later = rest gone in ground arith
        ])
      absent

dropped-IsFaithful :
    (db db' : OrderDb) (keep : OrderRow → Bool)
    → ((row : OrderRow) → keep row ≡ false → status_of row ≡ OrderStatus.rejected)
    → db'.orders ≡ filter keep db.orders
    → db'.outbox ≡ db.outbox
    → IsFaithful db
    → IsFaithful db'
dropped-IsFaithful db db' keep doomed rows quiet (told, bare) = (
  subst (λ os. All (IsTold os) db'.orders) (sym quiet)
      (subst (All (IsTold db.outbox)) (sym rows)
        (All-filter (IsTold db.outbox) keep db.orders told)),
  λ id absent.
      ap (published id) quiet
      ∙ elim (dropped-bare id db.outbox keep db.orders doomed told
          (ap (any (is_row id)) (sym rows) ∙ absent)) [
            | inl gone ↦ bare id gone
            | inr nothing ↦ nothing
          ],
)

call-IsFaithful :
    (c : OrderCall) (db : OrderDb) → IsReserving c → IsFaithful db → IsFaithful (call c db)
call-IsFaithful c db reserving faithful = from (call c db) (call-OrderChange c db)
  where
    from : (db' : OrderDb) → OrderChange c db db' → IsFaithful db'
    from db' (kept same) = subst IsFaithful (sym same) faithful
    from db' (opened row opens free rows quiet) =
        opened-IsFaithful c db db' row reserving opens free rows quiet faithful
    from db' (moved id row row' found moves) =
        Moved-IsFaithful db db' id row row' found moves faithful
    from db' (dropped keep doomed rows quiet) =
        dropped-IsFaithful db db' keep doomed rows quiet faithful

call_all-IsFaithful :
    (cs : List OrderCall) (db : OrderDb)
    → All IsReserving cs
    → IsFaithful db
    → IsFaithful (call_all cs db)
unfolding call_all
call_all-IsFaithful [] db reserving faithful = faithful
call_all-IsFaithful (c ∷ cs) db (first, rest) faithful =
    call_all-IsFaithful cs (call c db) rest (call-IsFaithful c db first faithful)

abbrev pub no_orders : OrderDb
no_orders = record { orders = []; outbox = []; completed = [] }

-- Whatever the saga's writes to the orders are, repeats, stale ones, replays and deletions
-- included, the outbox has for each order exactly the history that the order's status stands for:
-- placed once, when it became pending, and its outcome once after that; nothing for an order that
-- was never placed. The creates are of orders that are reserving.
pub call_all-IsTold :
    (cs : List OrderCall)
    → All IsReserving cs
    → let db = call_all cs no_orders in All (IsTold db.outbox) db.orders
unfolding published
call_all-IsTold cs reserving =
    (call_all-IsFaithful cs no_orders reserving (tt, λ id absent. refl)).0
