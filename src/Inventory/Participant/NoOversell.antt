-- ===== src/Inventory/Participant/NoOversell.antt =====
-- Every command of the participant keeps the books of every variant, also when it fails.
use jcool_ecommerce_backend.Base.{
  ℕ, suc, ◌+◌, ◌≡◌, true, false, Option, none, some, List, [], ◌∷◌, arith, leb, if◌then◌else◌,
  Bool-cases, Option-cases, length, inl, inr,
}
use jcool_ecommerce_backend.Inventory.Fence.{ReservationOrderStatus, ReservationFenceDecision}
use jcool_ecommerce_backend.Inventory.Tx.{
  Tx, Db, World, Header, Answer, ok, err, pure, transaction, settled, ◌>>=◌, ◌>>◌,
}
use jcool_ecommerce_backend.Inventory.Rows.{
  ReservationLine, LineTransition, insert_header, insert_fenced_header, find_header_for_update,
  set_header_status,
}
use jcool_ecommerce_backend.Inventory.Stock.{
  commit_reservations, release_reservations, restock_reservations,
}
use jcool_ecommerce_backend.Inventory.Stock.Holds.{
  Fits, OkFits, bind-OkFits, reserve_pessimistic-OkFits, move_lines-OkFits,
}
use jcool_ecommerce_backend.Inventory.Participant.{
  Service, LockStrategy, CommandOp, CommandOutcome, TryReserveOutcome, in_transaction, reserve_by,
  try_in_tx, try_on_header, try_reserve, carry_out, is_release_without, move_lines_for,
  apply_command, command_in_tx, run_command,
}

module _ (v : ℕ) where
  insert_header-OkFits :
      (clock : ℕ → ℕ) (deadline o hold_until : ℕ) (w : World)
      → Fits v w.db
      → OkFits v (insert_header clock deadline o hold_until w)
  unfolding insert_header
  insert_header-OkFits clock deadline o hold_until w h = ground arith

  insert_fenced_header-OkFits :
      (clock : ℕ → ℕ) (deadline o : ℕ) (w : World)
      → Fits v w.db
      → OkFits v (insert_fenced_header clock deadline o w)
  unfolding insert_fenced_header
  insert_fenced_header-OkFits clock deadline o w h = ground arith

  find_header_for_update-OkFits :
      (clock : ℕ → ℕ) (deadline o : ℕ) (w : World)
      → Fits v w.db
      → OkFits v (find_header_for_update clock deadline o w)
  unfolding find_header_for_update
  find_header_for_update-OkFits clock deadline o w h = ground arith

  set_header_status-OkFits :
      (o : ℕ) (status : ReservationOrderStatus) (w : World)
      → Fits v w.db
      → OkFits v (set_header_status o status w)
  unfolding set_header_status
  set_header_status-OkFits o status w h = ground arith

  module _ (s : Service) (deadline o : ℕ) where
    move_lines_for-OkFits :
        (op : CommandOp) (w : World) → Fits v w.db → OkFits v (move_lines_for op s deadline o w)
    unfolding move_lines_for commit_reservations release_reservations restock_reservations
    move_lines_for-OkFits CommandOp.commit w h =
        move_lines-OkFits s.env deadline o v LineTransition.held_to_committed w h
    move_lines_for-OkFits CommandOp.release w h =
        move_lines-OkFits s.env deadline o v LineTransition.held_to_released w h
    move_lines_for-OkFits CommandOp.restock w h =
        move_lines-OkFits s.env deadline o v LineTransition.committed_to_restocked w h

    carry_out-OkFits :
        (op : CommandOp) (d : ReservationFenceDecision) (w : World)
        → Fits v w.db
        → OkFits v (carry_out op s deadline o d w)
    unfolding carry_out
    carry_out-OkFits op (ReservationFenceDecision.apply next) w h =
        bind-OkFits v (move_lines_for op s deadline o) _ w (move_lines_for-OkFits op w h)
          (λ _ w' h'.
            bind-OkFits v (set_header_status o next) (λ _. pure CommandOutcome.applied) w'
              (set_header_status-OkFits o next w' h') (λ _ w'' h''. h''))
    carry_out-OkFits op ReservationFenceDecision.idempotent w h = h
    carry_out-OkFits op ReservationFenceDecision.conflict w h = h

    apply_command-OkFits :
        (op : CommandOp) (header : Option Header) (w : World)
        → Fits v w.db
        → OkFits v (apply_command op s deadline o header w)
    unfolding apply_command
    apply_command-OkFits op header w h = carry_out-OkFits op _ w h

    command_in_tx-OkFits :
        (op : CommandOp) (w : World) → Fits v w.db → OkFits v (command_in_tx op s deadline o w)
    unfolding command_in_tx
    command_in_tx-OkFits op w h =
        bind-OkFits v (find_header_for_update s.env.clock deadline o) _ w
          (find_header_for_update-OkFits s.env.clock deadline o w h)
          (λ header w' h'. elim (Bool-cases (is_release_without op header)) [
            | inl first ↦ rw first (
                bind-OkFits v (insert_fenced_header s.env.clock deadline o) _ w'
                  (insert_fenced_header-OkFits s.env.clock deadline o w' h')
                  (λ fenced w₂ h₂.
                    elim fenced
                      as (λ b. OkFits v (
                        (if b then pure CommandOutcome.applied else (do
                          again ← find_header_for_update s.env.clock deadline o
                          apply_command op s deadline o again))
                          w₂)) [
                            | true ↦ h₂
                            | false ↦
                                bind-OkFits v (find_header_for_update s.env.clock deadline o) _ w₂
                                  (find_header_for_update-OkFits s.env.clock deadline o w₂ h₂)
                                  (λ again w₃ h₃. apply_command-OkFits op again w₃ h₃)
                          ]))
            | inr later ↦ rw later (apply_command-OkFits op header w' h')
          ])

    try_on_header-OkFits :
        (header : Option Header) (w : World) → Fits v w.db → OkFits v (try_on_header header w)
    try_on_header-OkFits none w h = tt
    try_on_header-OkFits (some header) w h = ground arith

    try_in_tx-OkFits :
        (hold_until : ℕ) (lines : List ReservationLine) (ids : List ℕ) (w : World)
        → s.strategy ≡ LockStrategy.pessimistic
        → Fits v w.db
        → OkFits v (try_in_tx s deadline o hold_until lines ids w)
    unfolding try_in_tx reserve_by
    try_in_tx-OkFits hold_until lines ids w p h =
        bind-OkFits v (insert_header s.env.clock deadline o hold_until) _ w
          (insert_header-OkFits s.env.clock deadline o hold_until w h)
          (λ inserted w' h'.
            elim inserted
              as (λ b. OkFits v (
                (if b
                    then (do
                      reserve_by s deadline o hold_until lines ids
                      pure TryReserveOutcome.reserved)
                    else (do
                      header ← find_header_for_update s.env.clock deadline o
                      try_on_header header))
                  w')) [
                    | true ↦
                        bind-OkFits v (reserve_by s deadline o hold_until lines ids) _ w'
                          (rw p (
                            reserve_pessimistic-OkFits s.env deadline o v hold_until lines ids w'
                              h'))
                          (λ _ w₂ h₂. h₂)
                    | false ↦
                        bind-OkFits v (find_header_for_update s.env.clock deadline o) _ w'
                          (find_header_for_update-OkFits s.env.clock deadline o w' h')
                          (λ header w₂ h₂. try_on_header-OkFits header w₂ h₂)
                  ])

  rolled_back :
      {A : Type 0} (before : Db) (r : Answer A) (w : World)
      → Fits v before
      → OkFits v (r, w)
      → Fits v (settled r before w).db
  rolled_back before (ok a) w h k = k
  rolled_back before (err e) w h k = h

  in_transaction-Fits :
      {A : Type 0} (s : Service) (deadline : ℕ) (work : Tx A) (w : World)
      → Fits v w.db
      → ((w' : World) → Fits v w'.db → OkFits v (work w'))
      → Fits v (in_transaction s deadline work w).1.db
  unfolding in_transaction transaction
  in_transaction-Fits s deadline work w h k =
      let w₀ = record w { reads = suc w.reads } in
      elim (Bool-cases (leb deadline (s.env.clock w.reads))) [
        | inl late ↦ rw late h
        | inr early ↦ rw early (rolled_back w.db (work w₀).0 (work w₀).1 h (k w₀ h))
      ]

  run_command-Fits :
      (op : CommandOp) (s : Service) (o : ℕ) (w : World)
      → Fits v w.db
      → Fits v (run_command op s o w).1.db
  unfolding run_command
  run_command-Fits op s o w h =
      let deadline = s.env.clock w.reads + s.budget_ms in
      in_transaction-Fits s deadline (command_in_tx op s deadline o)
        (record w { reads = suc w.reads }) h (λ w' h'. command_in_tx-OkFits s deadline o op w' h')

  try_reserve-Fits :
      (s : Service) (mint : ℕ → Option (List ℕ)) (o : ℕ) (lines : List ReservationLine)
      (hold_until : ℕ) (w : World)
      → s.strategy ≡ LockStrategy.pessimistic
      → Fits v w.db
      → Fits v (try_reserve s mint o lines hold_until w).1.db
  unfolding try_reserve
  try_reserve-Fits s mint o lines hold_until w p h = elim (Option-cases (mint (length lines))) [
    | inl unminted ↦ rw (unminted, try_reserve) h
    | inr (ids, minted) ↦
        let deadline = s.env.clock w.reads + s.budget_ms in
        rw (minted, try_reserve)
          (in_transaction-Fits s deadline (try_in_tx s deadline o hold_until lines ids)
            (record w { reads = suc w.reads }) h
            (λ w' h'. try_in_tx-OkFits s deadline o hold_until lines ids w' p h'))
  ]

-- The calls that reach the participant, one transaction after another.
pub data Request : Type 0 where
  try_request : ℕ → List ReservationLine → ℕ → Request
  command_request : CommandOp → ℕ → Request

abbrev pub handle : Service → (ℕ → Option (List ℕ)) → Request → World → World
handle s mint (Request.try_request o lines hold_until) w =
    (try_reserve s mint o lines hold_until w).1
handle s mint (Request.command_request op o) w = (run_command op s o w).1

abbrev pub serve : Service → (ℕ → Option (List ℕ)) → List Request → World → World
serve s mint [] w = w
serve s mint (r ∷ rs) w = serve s mint rs (handle s mint r w)

-- Under the pessimistic strategy, whatever requests are served, and whether they succeed, are
-- refused, time out or find no ids: if the books of a variant are right before, they are right after.
-- Its reserved quantity is exactly the sum of the holds on it, never more than is on hand, and no
-- order has two rows for one variant.
pub serve-Fits :
    (s : Service) (mint : ℕ → Option (List ℕ)) (requests : List Request) (w : World) (v : ℕ)
    → s.strategy ≡ LockStrategy.pessimistic
    → Fits v w.db
    → Fits v (serve s mint requests w).db
serve-Fits s mint [] w v p h = h
serve-Fits s mint (Request.try_request o lines hold_until ∷ rs) w v p h =
    serve-Fits s mint rs (try_reserve s mint o lines hold_until w).1 v p
      (try_reserve-Fits v s mint o lines hold_until w p h)
serve-Fits s mint (Request.command_request op o ∷ rs) w v p h =
    serve-Fits s mint rs (run_command op s o w).1 v p (run_command-Fits v op s o w h)
