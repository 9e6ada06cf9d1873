-- ===== src/Orders/Checkout.antt =====
-- `PaymentService.create_checkout` of backend/app/modules/orders/services.py. The provider of every
-- payment and of every callback row is "alipay_sandbox", so that column is left out.
use travel_latest.Base.{
  ℕ, String, Bool, not, ◌&&◌, ◌||◌, Option, none, some, if◌then◌else◌, is_some, str_eq,
}
use travel_latest.Base.Exec.{◌>>=◌, ◌>>◌, pure, modify, gets, raise_if, commit, with_some, or_raise}
use travel_latest.Base.Tables.{add}
use travel_latest.Events.Outbox.{text}
use travel_latest.Orders.Model.{
  TravelOrder, PaymentRecord, OrderStatus, PaymentStatus, FulfillmentStatus, order_not_found,
  payment_not_allowed, payment_in_progress, payment_provider_unavailable,
  payment_provider_invalid_response,
}
use travel_latest.Orders.Names.{eq_order_status}
use travel_latest.Orders.Tables.{is_active_payment, order_by_id, payment_by_key, active_payment}
use travel_latest.Orders.Session.{M, new_uuid, advance}
use package.text.Mathlib.Text.{starts_with}
use travel_latest.Orders.Alipay.{AlipayAdapter, Subject, require_adapter}

-- `order.status in {...} and order.payment_status in {...}`
unfoldable pub can_be_paid : TravelOrder → Bool
can_be_paid order =
    (eq_order_status order.status OrderStatus.pending_confirmation
      || eq_order_status order.status OrderStatus.paying)
    && is_active_payment order.payment_status

abbrev pub new_payment : ℕ → ℕ → TravelOrder → ℕ → ℕ → PaymentRecord
new_payment now id order idempotency_key payment_no = record {
  id = id;
  order_id = order.id;
  idempotency_key = idempotency_key;
  payment_no = payment_no;
  amount = order.amount;
  currency = order.currency;
  status = PaymentStatus.paying;
  provider_transaction_id = none;
  paid_at = none;
  created_at = now;
}

abbrev pub start_paying : TravelOrder → M Unit
start_paying order =
    if eq_order_status order.status OrderStatus.pending_confirmation
    then (do
      advance order (some order.user_id)
          (OrderStatus.paying, PaymentStatus.paying, FulfillmentStatus.pending_confirmation)
      pure tt)
    else pure tt

unfoldable pub is_cny : TravelOrder → Bool
is_cny order = str_eq order.currency "CNY"

-- The branch `if payment is None`. `payment_no_for` is the digest of the order and the key.
unfoldable pub open_payment : ℕ → (ℕ → ℕ → ℕ) → TravelOrder → ℕ → M PaymentRecord
open_payment now payment_no_for order idempotency_key = do
  active ← gets (λ d. active_payment order.id d.payments)
  raise_if (is_some active) payment_in_progress
  id ← new_uuid
  let payment = new_payment now id order idempotency_key (payment_no_for order.id idempotency_key)
  modify (λ d. record d { payments = add payment d.payments })
  start_paying order
  commit
  pure payment

unfoldable pub is_web_url : String → Bool
is_web_url url = starts_with url "https://" || starts_with url "http://"

-- The provider's page for a payment.
unfoldable pub redirect_to :
    AlipayAdapter → TravelOrder → PaymentRecord → M (PaymentRecord × String)
redirect_to provider order payment = do
  url ←
      or_raise
        (provider.create_wap_redirect (record {
          out_trade_no = payment.payment_no;
          total_amount = payment.amount;
          subject = Subject.travel_order order.order_no;
          return_url = none;
        }))
        payment_provider_unavailable
  raise_if (not (is_web_url url)) payment_provider_invalid_response
  pure (payment, url)

unfoldable pub create_checkout :
    ℕ → (ℕ → ℕ → ℕ) → Option AlipayAdapter → ℕ → ℕ → M (PaymentRecord × String)
create_checkout now payment_no_for adapter order_id idempotency_key = do
  provider ← require_adapter adapter
  found_order ← gets (λ d. order_by_id order_id d.orders)
  order ← or_raise found_order order_not_found
  raise_if (not (can_be_paid order)) payment_not_allowed
  raise_if (not (is_cny order)) payment_not_allowed
  found_payment ← gets (λ d. payment_by_key order.id idempotency_key d.payments)
  payment ← with_some found_payment (open_payment now payment_no_for order idempotency_key) pure
  redirect_to provider order payment
