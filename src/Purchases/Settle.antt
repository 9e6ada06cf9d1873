-- ===== src/Purchases/Settle.antt =====
-- `_settle` of backend/app/modules/membership_purchases/service.py.
pub mod Lookups
pub mod Rows
pub mod Replay
use travel_latest.Base.{
  ℕ, String, Bool, true, false, not, ◌&&◌, ◌||◌, Option, none, some, ◌==◌, if◌then◌else◌, is_some,
  str_eq,
}
use travel_latest.Base.Signed.{is_nonpositive, eq_amount}
use travel_latest.Base.Exec.{
  Session, Result, ok, err, ◌>>=◌, ◌>>◌, pure, modify, gets, raise, raise_if, commit, with_some,
  or_raise,
}
use travel_latest.Base.Tables.{add}
use travel_latest.Orders.Alipay.{
  AlipayAdapter, VerifiedAlipayCallback, TradeQueryResult, CallbackForm,
}
use travel_latest.Orders.Callback.{form_get, safe_form_facts, kept_keys}
use travel_latest.Orders.Fulfillment.{Reply, raised, malformed, reply}
use travel_latest.Orders.Model.{VerificationStatus, ProcessingStatus}
use travel_latest.Orders.Settle.{is_success, safe_callback_facts, settled_by_other}
use travel_latest.Orders.Tables.{holds}
use travel_latest.Purchases.Model.{
  MembershipPurchase, MembershipPaymentAttempt, MembershipPaymentCallbackEvent, PurchaseDb,
  PurchaseStatus, PurchasePayment, QrStatus, PurchaseError, M, payment_callback_invalid,
  payment_provider_unavailable, payment_provider_invalid_response, purchase_by_id, purchase_by_no,
  qr_by_no, event_by_transaction, is_paid_purchase, is_open_qr, new_uuid, save_purchase, save_qr,
  save_event, require_purchase_adapter,
}
use travel_latest.Purchases.Attempts.{
  locked_purchase_for_owner, current_attempt, expire_current_attempt,
}
use travel_latest.Purchases.Authorize.{authorize_paid_purchase}

-- `require_callback_app_id and callback_app_id != adapter.app_id`, where the outer `none` stands for
-- a settlement that does not ask for the identifier.
unfoldable pub other_app : AlipayAdapter → Option (Option String) → Bool
other_app provider none = false
other_app provider (some none) = true
other_app provider (some (some app_id)) = not (str_eq app_id provider.app_id)

unfoldable pub is_rejected : AlipayAdapter → Option (Option String) → VerifiedAlipayCallback → Bool
is_rejected provider app_id callback =
    not (is_success callback.trade_status)
    || callback.out_trade_no == 0
    || callback.trade_no == 0
    || is_nonpositive callback.total_amount
    || other_app provider app_id

-- `attempt.status in {"expired", "closed", "failed"}`
abbrev is_dead : QrStatus → Bool
is_dead QrStatus.expired = true
is_dead QrStatus.closed = true
is_dead QrStatus.failed = true
is_dead _ = false

abbrev pub is_paid_qr : QrStatus → Bool
is_paid_qr QrStatus.paid = true
is_paid_qr _ = false

unfoldable pub refuses_qr : VerifiedAlipayCallback → MembershipPaymentAttempt → Bool
refuses_qr callback attempt =
    not (eq_amount attempt.amount callback.total_amount)
    || not (str_eq attempt.currency "CNY")
    || is_dead attempt.status
    || settled_by_other attempt.provider_transaction_id callback.trade_no

unfoldable pub refuses_purchase : VerifiedAlipayCallback → MembershipPurchase → Bool
refuses_purchase callback purchase =
    not (eq_amount purchase.amount callback.total_amount)
    || not (str_eq purchase.currency "CNY")
    || settled_by_other purchase.provider_transaction_id callback.trade_no

-- The QR payment of the callback's number, if there is one, and the purchase that it pays.
unfoldable pub paid_rows :
    VerifiedAlipayCallback → M (Option MembershipPaymentAttempt × MembershipPurchase)
paid_rows callback = do
  found ← gets (λ d. qr_by_no callback.out_trade_no d.attempts)
  with_some found
      (do
        found_purchase ← gets (λ d. purchase_by_no callback.out_trade_no d.purchases)
        purchase ← or_raise found_purchase payment_callback_invalid
        raise_if (refuses_purchase callback purchase) payment_callback_invalid
        pure (none, purchase))
      λ attempt. do
        found_purchase ← gets (λ d. purchase_by_id attempt.membership_purchase_id d.purchases)
        purchase ← or_raise found_purchase payment_callback_invalid
        raise_if (refuses_qr callback attempt) payment_callback_invalid
        raise_if (refuses_purchase callback purchase) payment_callback_invalid
        pure (some attempt, purchase)

abbrev new_event :
    ℕ → ℕ → VerifiedAlipayCallback → MembershipPurchase → MembershipPaymentCallbackEvent
new_event now id callback purchase = record {
  id = id;
  provider_transaction_id = some callback.trade_no;
  membership_purchase_id = some purchase.id;
  raw_payload = safe_callback_facts callback;
  verification_status = VerificationStatus.verified;
  verification_error = none;
  verified_at = some now;
  processing_status = ProcessingStatus.pending;
  processing_error = none;
  processed_at = none;
}

-- The row of this transaction: the one that is there, if it is of this purchase, or a new one.
unfoldable pub event_row :
    ℕ → VerifiedAlipayCallback → MembershipPurchase → M MembershipPaymentCallbackEvent
event_row now callback purchase = do
  existing ← gets (λ d. event_by_transaction callback.trade_no d.callbacks)
  with_some existing
      (do
        id ← new_uuid
        modify (λ d. record d { callbacks = add (new_event now id callback purchase) d.callbacks })
        pure (new_event now id callback purchase))
      λ row. do
        raise_if (not (holds row.membership_purchase_id purchase.id)) payment_callback_invalid
        pure row

abbrev pub paid_purchase : ℕ → VerifiedAlipayCallback → MembershipPurchase → MembershipPurchase
paid_purchase now callback purchase = record purchase {
  payment_status = PurchasePayment.paid;
  status = PurchaseStatus.paid;
  provider_transaction_id = some callback.trade_no;
  paid_at = some now;
}

unfoldable pub mark_purchase : ℕ → VerifiedAlipayCallback → MembershipPurchase → M Unit
mark_purchase now callback purchase =
    if is_paid_purchase purchase.payment_status
    then pure tt
    else save_purchase (paid_purchase now callback purchase)

abbrev pub paid_attempt :
    ℕ → VerifiedAlipayCallback → MembershipPaymentAttempt → MembershipPaymentAttempt
paid_attempt now callback attempt = record attempt {
  status = QrStatus.paid;
  provider_transaction_id = some callback.trade_no;
  paid_at = some now;
}

unfoldable pub mark_attempt : ℕ → VerifiedAlipayCallback → Option MembershipPaymentAttempt → M Unit
mark_attempt now callback found = with_some found (pure tt) λ attempt.
    if is_paid_qr attempt.status then pure tt else save_qr (paid_attempt now callback attempt)

abbrev pub processed_event : ℕ → MembershipPaymentCallbackEvent → MembershipPaymentCallbackEvent
processed_event now row = record row {
  processing_status = ProcessingStatus.processed;
  processing_error = none;
  processed_at = some now;
}

-- From the row of the callback to the commit.
unfoldable pub record_payment :
    ℕ → VerifiedAlipayCallback → Option MembershipPaymentAttempt → MembershipPurchase → M Unit
record_payment now callback attempt purchase = do
  row ← event_row now callback purchase
  mark_purchase now callback purchase
  mark_attempt now callback attempt
  save_event (processed_event now row)
  commit

-- `_settle`
unfoldable pub settle_purchase :
    ℕ
    → Option AlipayAdapter
    → Option (Option String)
    → VerifiedAlipayCallback
    → M MembershipPurchase
settle_purchase now adapter app_id callback = do
  provider ← require_purchase_adapter adapter
  raise_if (is_rejected provider app_id callback) payment_callback_invalid
  (attempt, purchase) ← paid_rows callback
  record_payment now callback attempt purchase
  authorize_paid_purchase now purchase.id
