-- ===== src/Orders/Settle.antt =====
-- `PaymentService._settle` of backend/app/modules/orders/services.py: what a verified payment does.
pub mod Replay
use travel_latest.Base.{
  ℕ, String, Bool, true, false, not, ◌&&◌, ◌||◌, Option, none, some, [], ◌∷◌, ◌==◌, if◌then◌else◌,
  str_eq,
}
use travel_latest.Base.Signed.{is_nonpositive, eq_amount}
use travel_latest.Base.Exec.{◌>>=◌, ◌>>◌, pure, modify, gets, raise_if, commit, with_some, or_raise}
use travel_latest.Base.Tables.{add}
use travel_latest.Events.Outbox.{ident, text, decimal, Payload}
use travel_latest.Orders.Model.{
  TravelOrder, PaymentRecord, PaymentCallbackEvent, OrderStatus, PaymentStatus, FulfillmentStatus,
  VerificationStatus, ProcessingStatus, payment_callback_invalid,
}
use travel_latest.Orders.Names.{eq_order_status}
use travel_latest.Orders.Tables.{is_paid, order_by_id, payment_by_no, callback_by_transaction}
use travel_latest.Orders.Session.{M, new_uuid, enqueue, advance, save_payment, save_callback}
use travel_latest.Orders.Tables.{holds}
use travel_latest.Orders.Alipay.{AlipayAdapter, VerifiedAlipayCallback, require_adapter}

-- `_safe_callback_facts`
abbrev pub safe_callback_facts : VerifiedAlipayCallback → Payload
safe_callback_facts callback =
    ("out_trade_no", ident callback.out_trade_no)
    ∷ ("trade_no", ident callback.trade_no)
    ∷ ("trade_status", text callback.trade_status)
    ∷ ("total_amount", decimal callback.total_amount)
    ∷ []

-- `trade_status in {"TRADE_SUCCESS", "TRADE_FINISHED"}`
unfoldable pub is_success : String → Bool
is_success status = str_eq status "TRADE_SUCCESS" || str_eq status "TRADE_FINISHED"

-- `require_callback_app_id and (not callback_app_id or callback_app_id != adapter_app_id)`, where
-- the outer `none` stands for a settlement that does not ask for the identifier.
unfoldable pub wrong_app : AlipayAdapter → Option (Option String) → Bool
wrong_app provider none = false
wrong_app provider (some none) = true
wrong_app provider (some (some app_id)) = str_eq app_id "" || not (str_eq app_id provider.app_id)

-- `payment.provider_transaction_id and payment.provider_transaction_id != trade_no`
unfoldable pub settled_by_other : Option ℕ → ℕ → Bool
settled_by_other none trade_no = false
settled_by_other (some t) trade_no = not (t == 0) && not (t == trade_no)

-- `order.currency != "CNY" or order.currency != payment.currency`
unfoldable pub wrong_currency : TravelOrder → PaymentRecord → Bool
wrong_currency order payment =
    not (str_eq order.currency "CNY") || not (str_eq order.currency payment.currency)

unfoldable pub is_malformed : AlipayAdapter → Option (Option String) → VerifiedAlipayCallback → Bool
is_malformed provider app_id callback =
    not (is_success callback.trade_status)
    || callback.out_trade_no == 0
    || callback.trade_no == 0
    || is_nonpositive callback.total_amount
    || wrong_app provider app_id

abbrev pub new_callback : ℕ → ℕ → VerifiedAlipayCallback → PaymentRecord → PaymentCallbackEvent
new_callback now id callback payment = record {
  id = id;
  provider_transaction_id = some callback.trade_no;
  payment_id = some payment.id;
  raw_payload = safe_callback_facts callback;
  verification_status = VerificationStatus.verified;
  verification_error = none;
  verified_at = some now;
  processing_status = ProcessingStatus.pending;
  processing_error = none;
  processed_at = none;
}

-- The row of this transaction: the one that is there, if it is of this payment, or a new one.
unfoldable pub callback_row : ℕ → VerifiedAlipayCallback → PaymentRecord → M PaymentCallbackEvent
callback_row now callback payment = do
  existing ← gets (λ d. callback_by_transaction callback.trade_no d.callbacks)
  with_some existing
      (do
        id ← new_uuid
        let row = new_callback now id callback payment
        modify (λ d. record d { callbacks = add row d.callbacks })
        pure row)
      λ row. do raise_if (not (holds row.payment_id payment.id)) payment_callback_invalid; pure row

abbrev pub paid_payload : PaymentRecord → TravelOrder → Payload
paid_payload payment order =
    ("payment_id", ident payment.id)
    ∷ ("travel_order_id", ident order.id)
    ∷ ("user_id", ident order.user_id)
    ∷ ("payment_status", text "paid")
    ∷ []

unfoldable pub start_fulfillment : TravelOrder → M TravelOrder
start_fulfillment order =
    if eq_order_status order.status OrderStatus.paying
    then advance order none (
      OrderStatus.paid_pending_fulfillment, PaymentStatus.paid,
      FulfillmentStatus.pending_confirmation,
    )
    else pure order

-- The branch `if payment.status != "paid"`.
unfoldable pub mark_paid : ℕ → VerifiedAlipayCallback → PaymentRecord → TravelOrder → M TravelOrder
mark_paid now callback payment order = if is_paid payment.status then pure order else do
  save_payment (record payment {
    status = PaymentStatus.paid;
    provider_transaction_id = some callback.trade_no;
    paid_at = some now;
  })
  changed ← start_fulfillment order
  enqueue now "payment_record.paid" "payment_record" payment.id (paid_payload payment order)
  pure changed

-- From the row of the callback on.
unfoldable pub apply_callback :
    ℕ → VerifiedAlipayCallback → PaymentRecord → TravelOrder → M TravelOrder
apply_callback now callback payment order = do
  row ← callback_row now callback payment
  changed ← mark_paid now callback payment order
  save_callback (record row {
    processing_status = ProcessingStatus.processed;
    processing_error = none;
    processed_at = some now;
  })
  commit
  pure changed

-- `_settle`
unfoldable pub settle :
    ℕ → Option AlipayAdapter → Option (Option String) → VerifiedAlipayCallback → M TravelOrder
settle now adapter app_id callback = do
  provider ← require_adapter adapter
  raise_if (is_malformed provider app_id callback) payment_callback_invalid
  found_payment ← gets (λ d. payment_by_no callback.out_trade_no d.payments)
  payment ← or_raise found_payment payment_callback_invalid
  raise_if (not (eq_amount payment.amount callback.total_amount)) payment_callback_invalid
  raise_if (settled_by_other payment.provider_transaction_id callback.trade_no)
      payment_callback_invalid
  found_order ← gets (λ d. order_by_id payment.order_id d.orders)
  order ← or_raise found_order payment_callback_invalid
  raise_if (wrong_currency order payment) payment_callback_invalid
  apply_callback now callback payment order
