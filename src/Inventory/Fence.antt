-- ===== src/Inventory/Fence.antt =====
-- reservation-order-status.ts and reservation-order-fence.ts of
-- apps/inventory-service/src/modules/inventory/domain.
pub mod History
use jcool_ecommerce_backend.Base.{Option, none, some}

pub data ReservationOrderStatus : Type 0 where
  held committed released fenced restocked : ReservationOrderStatus

pub data ReservationFenceOp : Type 0 where
  try commit release restock : ReservationFenceOp

pub data ReservationFenceDecision : Type 0 where
  apply : ReservationOrderStatus → ReservationFenceDecision
  idempotent conflict : ReservationFenceDecision

decide_try : Option ReservationOrderStatus → ReservationFenceDecision
decide_try none = ReservationFenceDecision.apply ReservationOrderStatus.held
decide_try (some ReservationOrderStatus.held) = ReservationFenceDecision.idempotent
decide_try (some _) = ReservationFenceDecision.conflict

decide_commit : Option ReservationOrderStatus → ReservationFenceDecision
decide_commit (some ReservationOrderStatus.held) =
    ReservationFenceDecision.apply ReservationOrderStatus.committed
decide_commit (some ReservationOrderStatus.committed) = ReservationFenceDecision.idempotent
decide_commit _ = ReservationFenceDecision.conflict

decide_release : Option ReservationOrderStatus → ReservationFenceDecision
decide_release none = ReservationFenceDecision.apply ReservationOrderStatus.fenced
decide_release (some ReservationOrderStatus.held) =
    ReservationFenceDecision.apply ReservationOrderStatus.released
decide_release (some ReservationOrderStatus.released) = ReservationFenceDecision.idempotent
decide_release (some ReservationOrderStatus.fenced) = ReservationFenceDecision.idempotent
decide_release (some _) = ReservationFenceDecision.conflict

decide_restock : Option ReservationOrderStatus → ReservationFenceDecision
decide_restock (some ReservationOrderStatus.committed) =
    ReservationFenceDecision.apply ReservationOrderStatus.restocked
decide_restock (some ReservationOrderStatus.restocked) = ReservationFenceDecision.idempotent
decide_restock _ = ReservationFenceDecision.conflict

unfoldable pub decide_reservation_fence :
    ReservationFenceOp → Option ReservationOrderStatus → ReservationFenceDecision
unfolding decide_try decide_commit decide_release decide_restock
decide_reservation_fence ReservationFenceOp.try current = decide_try current
decide_reservation_fence ReservationFenceOp.commit current = decide_commit current
decide_reservation_fence ReservationFenceOp.release current = decide_release current
decide_reservation_fence ReservationFenceOp.restock current = decide_restock current
