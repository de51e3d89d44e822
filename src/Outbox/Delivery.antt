-- ===== src/Outbox/Delivery.antt =====
-- What the relay of packages/messaging delivers: what is marked is on the queue, no row is lost, and
-- a tick that the queue takes delivers what is due.
use jcool_ecommerce_backend.Base.{
  ℕ, ◌≡◌, Bool, true, not, ◌&&◌, List, [], ◌∷◌, ◌++◌, map, filter, contains, ==_refl, if_lem, All,
  All-map, All-weaken, arith, sym, subst,
}
use jcool_ecommerce_backend.Outbox.{
  OutboxRow, TickSetting, is_published, routes, take, lock_unpublished, batch, Tick, mark_if, mark,
  publish_each, charge_if, open_tick, RelayTickSummary, run_once, run_ticks,
}
use jcool_ecommerce_backend.Outbox.Loop.{
  publish_each-taken, publish_each-keeps, charge_failures-keeps, All-take, filtered-All,
}
use jcool_ecommerce_backend.Outbox.Safety.{IsDelivered, events, run_ticks_queued, run_ticks-events}

-- The rows that wait for a route that there is, and that no other instance holds.
abbrev pub due : TickSetting → List OutboxRow → List OutboxRow
due setting rows =
    filter (λ row. not (is_published row.published_at) && routes setting row && setting.is_free row)
      rows

-- Every row with this id is marked, and its job is on the queue.
abbrev pub IsOut : List OutboxRow → List ℕ → OutboxRow → Type 0
IsOut rows queue row =
    (contains row.id queue ≡ true)
    × All (λ r. r.id ≡ row.id → is_published r.published_at ≡ true) rows

-- A tick that may not fail: the queue is connected and takes every row that has a route.
pub record IsWorking (setting : TickSetting) : Type 0 where
  pub connected : setting.is_connected ≡ true
  pub takes : (row : OutboxRow) → routes setting row ≡ true → setting.accepts row ≡ true

abbrev Marked : OutboxRow → List OutboxRow → Type 0
Marked row = All (λ r. r.id ≡ row.id → is_published r.published_at ≡ true)

mark-Marked :
    (row : OutboxRow) (now : ℕ) (rows : List OutboxRow) → Marked row (map (mark_if row.id now) rows)
mark-Marked row now [] = tt
mark-Marked row now (r ∷ rows) = let rest = mark-Marked row now rows in ground arith

publish_each-IsOut :
    (setting : TickSetting) (row : OutboxRow) (rest : List OutboxRow) (t : Tick)
    → IsOut t.rows t.sent row
    → let t' = publish_each setting rest t in IsOut t'.rows t'.sent row
publish_each-IsOut setting row rest t out =
    publish_each-keeps (λ t. IsOut t.rows t.sent row) setting (λ r t h. h)
      (λ r t h. (
        ground (arith, h.0),
        All-map (λ r. r.id ≡ row.id → is_published r.published_at ≡ true) (mark_if r.id setting.now)
            (λ x known same. ground (arith, known)) t.rows h.1,
      ))
      (λ r t h. h) rest t out

-- A row that has a route and is taken goes out in its turn.
publish_each_sends :
    (setting : TickSetting) (rest others : List OutboxRow) (t : Tick)
    → IsWorking setting
    → All (λ row. routes setting row ≡ true) rest
    → let t' = publish_each setting (rest ++ others) t in All (IsOut t'.rows t'.sent) rest
publish_each_sends setting [] others t working routed = tt
publish_each_sends setting (row ∷ rest) others t working (first, later) =
    let marked = mark setting.now row t in
    let taken = working.takes row first in
    let out =
      publish_each-IsOut setting row (rest ++ others) marked
        (ground (arith, ==_refl row.id), mark-Marked row setting.now t.rows) in
    subst (λ t'. All (IsOut t'.rows t'.sent) (row ∷ rest))
      (sym (publish_each-taken setting row (rest ++ others) t first taken))
      (out, publish_each_sends setting rest others marked working later)

abbrev Delivered : List OutboxRow → List ℕ → List OutboxRow × List ℕ × RelayTickSummary → Type 0
Delivered taken queue out = All (IsOut out.0 (out.1 ++ queue)) taken

append-contains :
    (id : ℕ) (sent queue : List ℕ) → contains id sent ≡ true → contains id (sent ++ queue) ≡ true
append-contains id [] queue there = cc
append-contains id (s ∷ sent) queue there = let rest = append-contains id sent queue in ground arith

run_once-Delivered :
    (setting : TickSetting) (rows : List OutboxRow) (queue : List ℕ)
    → IsWorking setting
    → Delivered (take setting.batch_size (due setting rows)) queue (run_once setting rows)
unfolding run_once batch lock_unpublished
run_once-Delivered setting rows queue working =
    let t = publish_each setting (batch setting rows) (open_tick rows) in
    let routed =
      All-take (λ row. routes setting row ≡ true) setting.batch_size (due setting rows)
        (filtered-All _ (λ row. routes setting row ≡ true) rows (λ row kept. ground arith)) in
    let out =
      publish_each_sends setting (take setting.batch_size (due setting rows)) _ (open_tick rows)
        working routed in
    if_lem (Delivered (take setting.batch_size (due setting rows)) queue) setting.is_connected _ _
      (λ connected.
        All-weaken
          (λ row sent. (
            append-contains row.id t.sent queue sent.0,
            charge_failures-keeps (Marked row)
                (λ c rows' h.
                  All-map (λ r. r.id ≡ row.id → is_published r.published_at ≡ true) (charge_if c)
                    (λ x known same. ground (arith, known)) rows' h)
                t sent.1,
          ))
          (take setting.batch_size (due setting rows)) out)
      (λ away. let up = working.connected in cc)

-- After any ticks, crashes before the commit included, the rows are the ones that there were, and a
-- row is marked published only when its job is on the queue. A tick that then finds the queue
-- connected and taking what has a route, and that commits, marks and queues the first rows that are
-- due, as many as a batch holds: delivery is at least once.
pub run_ticks-IsDelivered :
    (ticks : List (TickSetting × Bool)) (next : TickSetting) (rows : List OutboxRow)
    (queue : List ℕ)
    → All (IsDelivered queue) rows
    → IsWorking next
    → let (rows', queue') = run_ticks ticks rows queue in
      let (rows'', queue'') = run_ticks ((next, true) ∷ []) rows' queue' in
      (events rows' ≡ events rows)
      × All (IsDelivered queue') rows'
      × All (IsOut rows'' queue'') (take next.batch_size (due next rows'))
unfolding run_ticks
run_ticks-IsDelivered ticks next rows queue delivered working =
    let (rows', queue') = run_ticks ticks rows queue in
    (
      run_ticks-events ticks rows queue,
      run_ticks_queued ticks rows queue delivered,
      run_once-Delivered next rows' queue' working,
    )
