-- ===== src/Outbox.antt =====
-- packages/messaging/src/outbox/outbox-relay.ts: one tick of the relay over the rows of the outbox,
-- in the order in which it takes them. Which rows other instances hold, which event types have a
-- route and which rows the queue takes are arguments of a tick; a crash after the queue took rows
-- leaves the rows as they were and the jobs on the queue.
mod Tests
pub mod Loop
pub mod Safety
pub mod Delivery
pub mod Outage
use jcool_ecommerce_backend.Base.{
  ℕ, zero, suc, ◌+◌, ◌-◌, Bool, true, false, not, ◌&&◌, Option, none, some, List, [], ◌∷◌, ◌++◌,
  map, filter, length, ltb, leb, ◌==◌, if◌then◌else◌,
}

abbrev pub max_refusals_per_tick : ℕ
max_refusals_per_tick = 3

pub record OutboxRow : Type 0 where
  pub id : ℕ
  pub event_type : ℕ
  pub published_at : Option ℕ
  pub attempts : ℕ

-- What a tick finds: its clock, whether the queue is connected, the routed event types, the rows no
-- other instance holds, and the rows whose `publish` does not throw.
pub record TickSetting : Type 0 where
  pub batch_size : ℕ
  pub now : ℕ
  pub is_connected : Bool
  pub is_routed : ℕ → Bool
  pub is_free : OutboxRow → Bool
  pub accepts : OutboxRow → Bool

abbrev pub is_published : Option ℕ → Bool
is_published none = false
is_published (some _) = true

abbrev pub take : ℕ → List OutboxRow → List OutboxRow
take zero rows = []
take (suc n) [] = []
take (suc n) (row ∷ rows) = row ∷ take n rows

unfoldable pub lock_unpublished :
    TickSetting → (OutboxRow → Bool) → ℕ → List OutboxRow → List OutboxRow
lock_unpublished setting scope limit rows =
    take limit
      (filter (λ row. not (is_published row.published_at) && scope row && setting.is_free row) rows)

abbrev pub routes : TickSetting → OutboxRow → Bool
routes setting row = setting.is_routed row.event_type

unfoldable pub batch : TickSetting → List OutboxRow → List OutboxRow
batch setting rows =
    let routed = lock_unpublished setting (routes setting) setting.batch_size rows in
    let stray =
      lock_unpublished setting (λ row. not (routes setting row))
        (setting.batch_size - length routed) rows in
    routed ++ (if ltb (length routed) setting.batch_size then stray else [])

-- The rows as the transaction has them, what the loop has counted, and the jobs put on the queue.
pub record Tick : Type 0 where
  pub rows : List OutboxRow
  pub refused : List OutboxRow
  pub unrouted : List OutboxRow
  pub published : ℕ
  pub sent : List ℕ

abbrev pub mark_if : ℕ → ℕ → OutboxRow → OutboxRow
mark_if id now row = if row.id == id then record row { published_at = some now } else row

abbrev pub mark : ℕ → OutboxRow → Tick → Tick
mark now row t = record t {
  rows = map (mark_if row.id now) t.rows;
  published = t.published + 1;
  sent = row.id ∷ t.sent;
}

abbrev pub refuse : OutboxRow → Tick → Tick
refuse row t = record t { refused = row ∷ t.refused }

unfoldable pub publish_each : TickSetting → List OutboxRow → Tick → Tick
publish_each setting [] t = t
publish_each setting (row ∷ rest) t =
    if not (routes setting row)
    then publish_each setting rest (record t { unrouted = row ∷ t.unrouted })
    else if setting.accepts row
    then publish_each setting rest (mark setting.now row t)
    else if leb max_refusals_per_tick (length t.refused + 1)
    then refuse row t
    else publish_each setting rest (refuse row t)

abbrev pub charge_if : OutboxRow → OutboxRow → OutboxRow
charge_if charged row =
    if row.id == charged.id then record row { attempts = charged.attempts + 1 } else row

unfoldable pub charge : List OutboxRow → List OutboxRow → List OutboxRow
charge [] rows = rows
charge (charged ∷ rest) rows = charge rest (map (charge_if charged) rows)

unfoldable pub charge_failures : Tick → List OutboxRow
charge_failures t =
    let charged = charge t.unrouted t.rows in
    if ltb 0 t.published then charge t.refused charged else charged

abbrev pub open_tick : List OutboxRow → Tick
open_tick rows = record { rows = rows; refused = []; unrouted = []; published = 0; sent = [] }

pub record RelayTickSummary : Type 0 where
  pub published : ℕ
  pub failed : ℕ

-- The rows that the transaction commits, the jobs sent, and the summary.
unfoldable pub run_once : TickSetting → List OutboxRow → List OutboxRow × List ℕ × RelayTickSummary
run_once setting rows =
    let t = publish_each setting (batch setting rows) (open_tick rows) in
    if setting.is_connected
    then (
      charge_failures t,
      t.sent,
      record { published = t.published; failed = length t.refused + length t.unrouted },
    )
    else (rows, [], record { published = 0; failed = 0 })

-- Ticks one after another over the outbox and the queue; one that crashes before its commit has
-- changed the queue only.
unfoldable pub run_ticks :
    List (TickSetting × Bool) → List OutboxRow → List ℕ → List OutboxRow × List ℕ
run_ticks [] rows queue = (rows, queue)
run_ticks ((setting, commits) ∷ ticks) rows queue =
    let (rows', sent, summary) = run_once setting rows in
    run_ticks ticks (if commits then rows' else rows) (sent ++ queue)
