-- ===== src/Orders/Confirm.antt =====
-- `FulfillmentService.confirm`, `_complete` and `prepare_retry` of
-- backend/app/modules/orders/services.py.
pub mod Outcome
use travel_latest.Base.{ℕ, String, not, Option, none, some, [], ◌∷◌, if◌then◌else◌, str_eq}
use travel_latest.Base.Text.{first, or_default}
use travel_latest.Base.Exec.{◌>>=◌, ◌>>◌, pure, gets, raise, commit, with_some}
use travel_latest.Events.Outbox.{ident, text, optional_text, Payload}
use travel_latest.Orders.Model.{
  TravelOrder, FulfillmentAttempt, OrderStatus, PaymentStatus, FulfillmentStatus, AttemptStatus,
  supplier_fulfillment_unavailable,
}
use travel_latest.Orders.Names.{order_status_text, payment_status_text, fulfillment_status_text}
use travel_latest.Orders.Tables.{order_by_id, attempt_by_id, attempt_by_order}
use travel_latest.Orders.Session.{M, enqueue, advance, save_order, save_attempt}
use travel_latest.Orders.Fulfillment.{
  FulfillmentWork, ConfirmationRequest, ConfirmationResult, Reply, raised, malformed, reply,
  is_confirming, is_running,
}

abbrev pub attempt_status_of : OrderStatus → AttemptStatus
attempt_status_of OrderStatus.confirmed = AttemptStatus.succeeded
attempt_status_of _ = AttemptStatus.failed

abbrev pub payment_status_of : OrderStatus → PaymentStatus
payment_status_of OrderStatus.confirmed = PaymentStatus.paid
payment_status_of _ = PaymentStatus.failed

abbrev pub fulfillment_payload : TravelOrder → Payload
fulfillment_payload order =
    ("travel_order_id", ident order.id)
    ∷ ("user_id", ident order.user_id)
    ∷ ("status", text (order_status_text order.status))
    ∷ ("payment_status", text (payment_status_text order.payment_status))
    ∷ ("fulfillment_status", text (fulfillment_status_text order.fulfillment_status))
    ∷ ("failure_code", optional_text order.failure_code)
    ∷ []

unfoldable pub complete :
    ℕ
    → FulfillmentWork
    → OrderStatus
    → FulfillmentStatus
    → Option String
    → ConfirmationResult
    → M Unit
complete now work status fulfillment_status failure_code result = do
  found_order ← gets (λ d. order_by_id work.travel_order_id d.orders)
  with_some found_order (pure tt) λ order.
      if not (is_confirming order.fulfillment_status) then pure tt else do
        found_attempt ← gets (λ d. attempt_by_id work.attempt_id d.attempts)
        with_some found_attempt (pure tt) λ attempt.
            if not (is_running attempt.status) then pure tt else do
              changed ← advance order none (status, payment_status_of status, fulfillment_status)
              let order' = record changed { failure_code = failure_code }
              save_order order'
              save_attempt (record attempt {
                status = attempt_status_of status;
                failure_code = failure_code;
                external_confirmation_id = result.supplier_confirmation_id;
                redacted_result = some (result.confirmed, result.code);
                completed_at = some now;
              })
              enqueue now "travel_order.fulfillment_updated" "travel_order" order.id
                  (fulfillment_payload order')
              commit

-- The supplier's answer to one confirmation request.
abbrev pub Supplier : Type 0
Supplier = ConfirmationRequest → Reply ConfirmationResult

unfoldable pub settle_result : ℕ → FulfillmentWork → ConfirmationResult → M Unit
settle_result now work result =
    if result.confirmed
    then complete now work OrderStatus.confirmed FulfillmentStatus.confirmed none result
    else if str_eq result.code "SUPPLIER_UNAVAILABLE"
    then raise supplier_fulfillment_unavailable
    else complete now work OrderStatus.failed FulfillmentStatus.failed
        (some (or_default (first 64 result.code) "SUPPLIER_CONFIRMATION_FAILED")) result

unfoldable pub answer_confirmation : ℕ → FulfillmentWork → Reply ConfirmationResult → M Unit
answer_confirmation now work raised = raise supplier_fulfillment_unavailable
answer_confirmation now work malformed = raise supplier_fulfillment_unavailable
answer_confirmation now work (reply result) = settle_result now work result

unfoldable pub confirm : ℕ → Supplier → FulfillmentWork → M Unit
confirm now supplier work = answer_confirmation now work (supplier work.confirmation)

-- `if attempt is not None and attempt.status == "running"`
unfoldable pub requeue : Option FulfillmentAttempt → M Unit
requeue none = pure tt
requeue (some attempt) =
    if is_running attempt.status
    then save_attempt (record attempt {
      status = AttemptStatus.queued;
      failure_code = some "SUPPLIER_UNAVAILABLE";
    })
    else pure tt

unfoldable pub prepare_retry : ℕ → M Unit
prepare_retry travel_order_id = do
  found_order ← gets (λ d. order_by_id travel_order_id d.orders)
  with_some found_order (pure tt) λ order.
      if not (is_confirming order.fulfillment_status) then pure tt else do
        found_attempt ← gets (λ d. attempt_by_order travel_order_id d.attempts)
        changed ← advance order none (
          OrderStatus.paid_pending_fulfillment, PaymentStatus.paid,
          FulfillmentStatus.pending_confirmation,
        )
        save_order (record changed { failure_code = some "SUPPLIER_UNAVAILABLE" })
        requeue found_attempt
        commit
