-- ===== src/Outbox/Safety.antt =====
-- What no tick of the relay of packages/messaging breaks: its marks and the rows it has.
use jcool_ecommerce_backend.Base.{
  ℕ, ◌≡◌, refl, ◌∙◌, Bool, true, List, [], ◌∷◌, ◌++◌, map, contains, if◌then◌else◌, if_lem, All,
  All-map, All-weaken, arith,
}
use jcool_ecommerce_backend.Outbox.{
  OutboxRow, TickSetting, is_published, batch, Tick, mark_if, publish_each, charge_if,
  charge_failures, open_tick, RelayTickSummary, run_once, run_ticks,
}
use jcool_ecommerce_backend.Outbox.Loop.{publish_each-keeps, charge_failures-keeps}

-- A row marked published is on the queue.
abbrev pub IsDelivered : List ℕ → OutboxRow → Type 0
IsDelivered queue row = is_published row.published_at ≡ true → contains row.id queue ≡ true

-- The rows of an outbox, by their ids and types.
abbrev pub events : List OutboxRow → List (ℕ × ℕ)
events = map (λ row. (row.id, row.event_type))

pub contains-append :
    (id : ℕ) (sent queue : List ℕ) → contains id queue ≡ true → contains id (sent ++ queue) ≡ true
contains-append id [] queue there = there
contains-append id (s ∷ sent) queue there =
    let rest = contains-append id sent queue there in ground arith

-- What was queued before the tick counts.
abbrev Delivers : List ℕ → Tick → Type 0
Delivers queue t = All (IsDelivered (t.sent ++ queue)) t.rows

publish_each-Delivers :
    (setting : TickSetting) (rest : List OutboxRow) (queue : List ℕ) (t : Tick)
    → Delivers queue t
    → Delivers queue (publish_each setting rest t)
publish_each-Delivers setting rest queue t delivered =
    publish_each-keeps (Delivers queue) setting (λ row t h. h)
      (λ row t h.
        All-map (IsDelivered (row.id ∷ (t.sent ++ queue))) (mark_if row.id setting.now)
          (λ r known marked. ground (arith, known)) t.rows h)
      (λ row t h. h) rest t delivered

charge_failures-IsDelivered :
    (queue : List ℕ) (t : Tick)
    → All (IsDelivered queue) t.rows
    → All (IsDelivered queue) (charge_failures t)
charge_failures-IsDelivered queue t delivered =
    charge_failures-keeps (All (IsDelivered queue))
      (λ c rows h.
        All-map (IsDelivered queue) (charge_if c) (λ r known marked. ground (arith, known)) rows h)
      t delivered

-- A tick, as its rows and its jobs.
abbrev Ticked : List ℕ → List OutboxRow × List ℕ × RelayTickSummary → Type 0
Ticked queue out = All (IsDelivered (out.1 ++ queue)) out.0

run_once-Ticked :
    (setting : TickSetting) (rows : List OutboxRow) (queue : List ℕ)
    → All (IsDelivered queue) rows
    → Ticked queue (run_once setting rows)
unfolding run_once
run_once-Ticked setting rows queue delivered =
    let t = publish_each setting (batch setting rows) (open_tick rows) in
    if_lem (Ticked queue) setting.is_connected _ _
      (λ connected.
        charge_failures-IsDelivered (t.sent ++ queue) t
          (publish_each-Delivers setting (batch setting rows) queue (open_tick rows) delivered))
      (λ away. delivered)

pub run_ticks_queued :
    (ticks : List (TickSetting × Bool)) (rows : List OutboxRow) (queue : List ℕ)
    → All (IsDelivered queue) rows
    → let (rows', queue') = run_ticks ticks rows queue in All (IsDelivered queue') rows'
unfolding run_ticks
run_ticks_queued [] rows queue delivered = delivered
run_ticks_queued ((setting, commits) ∷ ticks) rows queue delivered =
    let (rows', sent, summary) = run_once setting rows in
    run_ticks_queued ticks (if commits then rows' else rows) (sent ++ queue) (
      if_lem (All (IsDelivered (sent ++ queue))) commits rows' rows
        (λ done. run_once-Ticked setting rows queue delivered)
        (λ crashed.
          All-weaken (λ row known marked. contains-append row.id sent queue (known marked)) rows
            delivered))

-- No update of a row changes its id or its type.
mark-events :
    (id now : ℕ) (rows : List OutboxRow) → events (map (mark_if id now) rows) ≡ events rows
mark-events id now [] = refl
mark-events id now (row ∷ rows) = let rest = mark-events id now rows in ground arith

charge-events :
    (c : OutboxRow) (rows : List OutboxRow) → events (map (charge_if c) rows) ≡ events rows
charge-events c [] = refl
charge-events c (row ∷ rows) = let rest = charge-events c rows in ground arith

abbrev Kept : List OutboxRow → List OutboxRow × List ℕ × RelayTickSummary → Type 0
Kept rows out = events out.0 ≡ events rows

run_once-events :
    (setting : TickSetting) (rows : List OutboxRow) → events (run_once setting rows).0 ≡ events rows
unfolding run_once
run_once-events setting rows =
    let t = publish_each setting (batch setting rows) (open_tick rows) in
    let looped =
      publish_each-keeps (λ t. events t.rows ≡ events rows) setting (λ row t h. h)
        (λ row t h. mark-events row.id setting.now t.rows ∙ h) (λ row t h. h) (batch setting rows)
        (open_tick rows) refl in
    if_lem (Kept rows) setting.is_connected _ _
      (λ connected.
        charge_failures-keeps (λ rows'. events rows' ≡ events rows)
          (λ c rows' h. charge-events c rows' ∙ h) t looped)
      (λ away. refl)

pub run_ticks-events :
    (ticks : List (TickSetting × Bool)) (rows : List OutboxRow) (queue : List ℕ)
    → events (run_ticks ticks rows queue).0 ≡ events rows
unfolding run_ticks
run_ticks-events [] rows queue = refl
run_ticks-events ((setting, commits) ∷ ticks) rows queue =
    let (rows', sent, summary) = run_once setting rows in
    run_ticks-events ticks (if commits then rows' else rows) (sent ++ queue)
    ∙ if_lem (λ r. events r ≡ events rows) commits rows' rows (λ done. run_once-events setting rows)
        (λ crashed. refl)
