-- ===== src/Outbox/Tests.antt =====
-- The relay over two rows.
use jcool_ecommerce_backend.Base.{ℕ, ◌≡◌, refl, ◌==◌, Bool, true, false, none, List, [], ◌∷◌, All}
use jcool_ecommerce_backend.Outbox.{OutboxRow, TickSetting, take, run_ticks}
use jcool_ecommerce_backend.Outbox.Delivery.{due, IsOut, run_ticks-IsDelivered}
use jcool_ecommerce_backend.Outbox.Safety.{IsDelivered, events}

abbrev waiting : ℕ → ℕ → OutboxRow
waiting id event_type = record {
  id = id;
  event_type = event_type;
  published_at = none;
  attempts = 0;
}

abbrev two_rows : List OutboxRow
two_rows = waiting 1 5 ∷ waiting 2 6 ∷ []

abbrev working : TickSetting
working = record {
  batch_size = 10;
  now = 400;
  is_connected = true;
  is_routed = λ event_type. event_type == 5;
  is_free = λ row. true;
  accepts = λ row. true;
}

abbrev failing : TickSetting
failing = record working { accepts = λ row. false }

abbrev some_ticks : List (TickSetting × Bool)
some_ticks = (working, false) ∷ (failing, true) ∷ []

run_ticks-IsDelivered_example :
    let (rows', queue') = run_ticks some_ticks two_rows [] in
    let (rows'', queue'') = run_ticks ((working, true) ∷ []) rows' queue' in
    (events rows' ≡ (1, 5) ∷ (2, 6) ∷ [])
    × All (IsDelivered queue') rows'
    × All (IsOut rows'' queue'') (take 10 (due working rows'))
run_ticks-IsDelivered_example =
    run_ticks-IsDelivered some_ticks working two_rows [] ((λ marked. cc), ((λ marked. cc), tt))
      (record { connected = refl; takes = λ row routed. refl })
