-- ===== src/Outbox/Outage.antt =====
-- What a tick of the relay of packages/messaging does while the queue takes nothing.
use jcool_ecommerce_backend.Base.{◌-◌, not, ◌&&◌, List, [], ◌∷◌, filter, length, leb, if◌then◌else◌}
use jcool_ecommerce_backend.Outbox.{OutboxRow, TickSetting, is_published, routes, take, Tick}
use jcool_ecommerce_backend.Outbox.Delivery.{due}

-- The rows that wait, free, for a route that there is not.
abbrev pub astray : TickSetting → List OutboxRow → List OutboxRow
astray setting rows =
    filter
      (λ row.
        not (is_published row.published_at) && not (routes setting row) && setting.is_free row)
      rows

-- The last first, as the loop gathers them.
abbrev pub onto : List OutboxRow → List OutboxRow → List OutboxRow
onto [] gathered = gathered
onto (row ∷ rows) gathered = onto rows (row ∷ gathered)

-- A tick in which nothing is marked and nothing sent: of the rows that are due the first three that
-- the batch holds are refused, and rows without a route are put aside only where the batch has room
-- for them and fewer than three were refused.
abbrev pub outage : TickSetting → List OutboxRow → Tick
outage setting rows =
    let tried = take setting.batch_size (due setting rows) in
    record {
      rows = rows;
      refused = onto (take 3 tried) [];
      unrouted =
          if leb 3 (length tried)
          then []
          else onto (take (setting.batch_size - length tried) (astray setting rows)) [];
      published = 0;
      sent = [];
    }
