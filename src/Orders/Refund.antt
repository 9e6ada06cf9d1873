-- ===== src/Orders/Refund.antt =====
-- `RefundService` of backend/app/modules/orders/services.py.
pub mod Idempotent
pub mod Outcome
pub mod Process
use travel_latest.Base.{
  ℕ, String, Bool, true, false, not, ◌&&◌, ◌||◌, Option, none, some, [], ◌∷◌, ◌==◌, if◌then◌else◌,
  is_some, str_eq,
}
use travel_latest.Base.Exec.{◌>>=◌, ◌>>◌, pure, modify, gets, raise_if, commit, with_some, or_raise}
use travel_latest.Base.Tables.{add}
use travel_latest.Events.Outbox.{ident, text, optional_text, Payload}
use travel_latest.Orders.Model.{
  TravelOrder, PaymentRecord, RefundRecord, OrderStatus, PaymentStatus, FulfillmentStatus,
  RefundStatus, order_not_found, refund_not_allowed, refund_amount_invalid, refund_in_progress,
  refund_provider_unavailable,
}
use travel_latest.Orders.Names.{refund_status_text, eq_triple}
use travel_latest.Orders.Transition.{failed_or, current, put_triple}
use travel_latest.Orders.Tables.{
  order_by_id, payment_by_id, paid_payment, refund_by_id, refund_by_key, active_refund,
}
use travel_latest.Orders.Session.{M, new_uuid, enqueue, advance, save_order, save_refund}
use travel_latest.Orders.Tables.{holds}
use travel_latest.Orders.Alipay.{
  AlipayAdapter, RefundRequest, TradeRefundResult, require_adapter, is_text, is_amount,
}

-- The statuses in which an order can be refunded.
unfoldable pub is_refundable : TravelOrder → Bool
is_refundable order =
    eq_triple (current order) (
      OrderStatus.paid_pending_fulfillment, PaymentStatus.paid,
      FulfillmentStatus.pending_confirmation,
    )
    || eq_triple (current order)
        (OrderStatus.ticket_failed_awaiting_refund, PaymentStatus.paid, FulfillmentStatus.failed)

abbrev pub new_refund : ℕ → ℕ → PaymentRecord → ℕ → ℕ → String → String → ℕ → RefundRecord
new_refund id refund_no payment idempotency_key amount currency reason requester_id = record {
  id = id;
  payment_id = payment.id;
  idempotency_key = idempotency_key;
  refund_no = refund_no;
  amount = amount;
  currency = currency;
  reason = reason;
  requested_by = requester_id;
  status = RefundStatus.requested;
  provider_refund_id = none;
  completed_at = none;
  failure_code = none;
}

-- `currency != "CNY" or amount != order.amount`
unfoldable pub is_wrong_amount : TravelOrder → ℕ → String → Bool
is_wrong_amount order amount currency = not (str_eq currency "CNY") || not (amount == order.amount)

-- What follows when the key is new.
unfoldable pub request_refund :
    ℕ → TravelOrder → PaymentRecord → ℕ → ℕ → ℕ → String → String → M RefundRecord
request_refund now order payment requester_id idempotency_key amount currency reason = do
  raise_if (not (is_refundable order)) refund_not_allowed
  raise_if (is_wrong_amount order amount currency) refund_amount_invalid
  active ← gets (λ d. active_refund payment.id d.refunds)
  raise_if (is_some active) refund_in_progress
  id ← new_uuid
  refund_no ← new_uuid
  let refund = new_refund id refund_no payment idempotency_key amount currency reason requester_id
  modify (λ d. record d { refunds = add refund d.refunds })
  advance order none (
    OrderStatus.refunding,
    PaymentStatus.refunding,
    failed_or order.fulfillment_status FulfillmentStatus.pending_confirmation,
  )
  enqueue now "refund_record.requested" "refund_record" refund.id
      (("refund_id", ident refund.id) ∷ [])
  commit
  pure refund

unfoldable pub is_foreign_order : TravelOrder → ℕ → Bool
is_foreign_order order requester_id = not (order.user_id == requester_id)

unfoldable pub create_refund :
    ℕ → Option AlipayAdapter → ℕ → ℕ → ℕ → ℕ → String → String → M RefundRecord
create_refund now adapter order_id requester_id idempotency_key amount currency reason = do
  require_adapter adapter
  found_order ← gets (λ d. order_by_id order_id d.orders)
  order ← or_raise found_order order_not_found
  raise_if (is_foreign_order order requester_id) order_not_found
  found_payment ← gets (λ d. paid_payment order.id d.payments)
  payment ← or_raise found_payment refund_not_allowed
  existing ← gets (λ d. refund_by_key payment.id idempotency_key d.refunds)
  with_some existing
      (request_refund now order payment requester_id idempotency_key amount currency reason) pure

-- `refund.status in {"refunded", "failed"}`
abbrev pub is_closed_refund : RefundStatus → Bool
is_closed_refund RefundStatus.refunded = true
is_closed_refund RefundStatus.failed = true
is_closed_refund _ = false

-- The test `valid` on the provider's answer.
unfoldable pub is_valid_refund : TradeRefundResult → PaymentRecord → RefundRecord → Bool
is_valid_refund result payment refund =
    str_eq result.gateway_code "10000"
    && holds result.out_trade_no payment.payment_no
    && holds result.out_request_no refund.refund_no
    && is_amount result.refund_fee refund.amount
    && is_text result.fund_change "Y"

abbrev pub is_failed_fulfillment : FulfillmentStatus → Bool
is_failed_fulfillment FulfillmentStatus.failed = true
is_failed_fulfillment _ = false

abbrev pub refund_payload : RefundRecord → TravelOrder → Payload
refund_payload refund order =
    ("refund_id", ident refund.id)
    ∷ ("travel_order_id", ident order.id)
    ∷ ("user_id", ident order.user_id)
    ∷ ("status", text (refund_status_text refund.status))
    ∷ ("failure_code", optional_text refund.failure_code)
    ∷ []

abbrev pub publish_refund : ℕ → RefundRecord → TravelOrder → M Unit
publish_refund now refund order = do
  enqueue now "refund_record.updated" "refund_record" refund.id (refund_payload refund order)
  commit

-- The branch `if valid`.
unfoldable pub accept_refund : ℕ → RefundRecord → TravelOrder → TradeRefundResult → M Unit
accept_refund now refund order result = do
  let refund' = record refund {
    status = RefundStatus.refunded;
    provider_refund_id = result.trade_no;
    completed_at = some now;
    failure_code = none;
  }
  save_refund refund'
  changed ← advance order none (
    OrderStatus.refunded,
    PaymentStatus.refunded,
    failed_or order.fulfillment_status FulfillmentStatus.not_supported,
  )
  publish_refund now refund' changed

-- The order after a rejection: back to waiting for a refund, or failed.
unfoldable pub reject_order : TravelOrder → M TravelOrder
reject_order order =
    if is_failed_fulfillment order.fulfillment_status
    then advance order none
        (OrderStatus.ticket_failed_awaiting_refund, PaymentStatus.paid, FulfillmentStatus.failed)
    else pure
        (put_triple (OrderStatus.failed, PaymentStatus.failed, FulfillmentStatus.failed) order)

-- The branch `else`.
unfoldable pub reject_refund : ℕ → RefundRecord → TravelOrder → M Unit
reject_refund now refund order = do
  let refund' = record refund {
    status = RefundStatus.failed;
    completed_at = some now;
    failure_code = some "REFUND_PROVIDER_REJECTED";
  }
  save_refund refund'
  changed ← reject_order order
  let order' = record changed { failure_code = some "REFUND_PROVIDER_REJECTED" }
  save_order order'
  publish_refund now refund' order'

-- From the second read of the refund on.
unfoldable pub finish_refund : ℕ → ℕ → TradeRefundResult → M Unit
finish_refund now refund_id result = do
  found_refund ← gets (λ d. refund_by_id refund_id d.refunds)
  with_some found_refund (pure tt) λ refund. do
    found_payment ← gets (λ d. payment_by_id refund.payment_id d.payments)
    with_some found_payment (pure tt) λ payment. do
      found_order ← gets (λ d. order_by_id payment.order_id d.orders)
      with_some found_order (pure tt) λ order.
          if is_valid_refund result payment refund
          then accept_refund now refund order result
          else reject_refund now refund order

-- The part before the call of the provider: the refund and the payment that it is for.
unfoldable pub begin_refund : ℕ → M (Option (RefundRecord × PaymentRecord))
begin_refund refund_id = do
  found_refund ← gets (λ d. refund_by_id refund_id d.refunds)
  with_some found_refund (pure none) λ refund.
      if is_closed_refund refund.status then pure none else do
        found_payment ← gets (λ d. payment_by_id refund.payment_id d.payments)
        with_some found_payment (pure none) λ payment. do
          save_refund (record refund { status = RefundStatus.processing })
          commit
          pure (some (refund, payment))

abbrev pub provider_refund_request : RefundRecord → PaymentRecord → RefundRequest
provider_refund_request refund payment = record {
  out_trade_no = payment.payment_no;
  refund_amount = refund.amount;
  out_request_no = refund.refund_no;
  refund_reason = refund.reason;
}

unfoldable pub process_refund : ℕ → Option AlipayAdapter → ℕ → M Unit
process_refund now adapter refund_id = do
  provider ← require_adapter adapter
  begun ← begin_refund refund_id
  with_some begun (pure tt) λ work. do
    result ←
        or_raise (provider.refund_trade (provider_refund_request work.0 work.1))
          refund_provider_unavailable
    finish_refund now refund_id result
