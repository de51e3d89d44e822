-- ===== src/Payment/Fence.antt =====
-- payment-order-status.ts and payment-order-fence.ts of .../payment/domain.
use jcool_ecommerce_backend.Base.{Option, none, some}

pub data PaymentOrderStatus : Type 0 where
  opened authorized captured cancelled fenced : PaymentOrderStatus

pub data OpenDecision : Type 0 where
  may_open closed : OpenDecision

pub data CaptureDecision : Type 0 where
  capture idempotent not_capturable conflict : CaptureDecision

pub data CancelDecision : Type 0 where
  fence cancel rescan captured_conflict : CancelDecision

-- The rows of `FENCE`; `none` is its column `NONE`.
unfoldable pub decide_open_session : Option PaymentOrderStatus → OpenDecision
decide_open_session none = OpenDecision.may_open
decide_open_session (some PaymentOrderStatus.opened) = OpenDecision.may_open
decide_open_session (some _) = OpenDecision.closed

unfoldable pub decide_capture : Option PaymentOrderStatus → CaptureDecision
decide_capture none = CaptureDecision.conflict
decide_capture (some PaymentOrderStatus.opened) = CaptureDecision.conflict
decide_capture (some PaymentOrderStatus.authorized) = CaptureDecision.capture
decide_capture (some PaymentOrderStatus.captured) = CaptureDecision.idempotent
decide_capture (some PaymentOrderStatus.cancelled) = CaptureDecision.not_capturable
decide_capture (some PaymentOrderStatus.fenced) = CaptureDecision.not_capturable

unfoldable pub decide_cancel : Option PaymentOrderStatus → CancelDecision
decide_cancel none = CancelDecision.fence
decide_cancel (some PaymentOrderStatus.opened) = CancelDecision.cancel
decide_cancel (some PaymentOrderStatus.authorized) = CancelDecision.cancel
decide_cancel (some PaymentOrderStatus.captured) = CancelDecision.captured_conflict
decide_cancel (some PaymentOrderStatus.cancelled) = CancelDecision.rescan
decide_cancel (some PaymentOrderStatus.fenced) = CancelDecision.rescan
