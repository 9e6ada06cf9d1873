-- ===== src/Purchases/Attempts.antt =====
-- The QR payments of backend/app/modules/membership_purchases/service.py, but for their query.
pub mod Outcome
use travel_latest.Base.{
  ℕ, ◌+◌, Bool, true, false, not, ◌&&◌, ◌||◌, Option, none, some, leb, ltb, if◌then◌else◌, str_eq,
}
use travel_latest.Base.Exec.{
  ◌>>=◌, ◌>>◌, pure, modify, gets, raise, raise_if, commit, rollback, with_some, or_raise,
}
use travel_latest.Base.Tables.{add}
use travel_latest.Orders.Alipay.{AlipayAdapter, Subject}
use travel_latest.Purchases.Model.{
  MembershipPurchase, MembershipPaymentAttempt, PurchasePayment, QrStatus, M, payment_not_allowed,
  membership_purchase_not_found, payment_provider_unavailable, payment_provider_invalid_response,
  qr_payment_refresh_required, qr_payment_refresh_not_allowed, purchase_of_user, qr_by_id,
  is_pending_payment, is_open_payment, is_paid_purchase, is_authorized, is_open_qr, new_uuid,
  save_purchase, save_qr, require_purchase_adapter,
}

-- `_locked_purchase_for_owner`
unfoldable pub locked_purchase_for_owner : ℕ → ℕ → M MembershipPurchase
locked_purchase_for_owner purchase_id user_id = do
  found ← gets (λ d. purchase_of_user purchase_id user_id d.purchases)
  or_raise found membership_purchase_not_found

-- `_current_attempt`
unfoldable pub current_attempt : MembershipPurchase → M (Option MembershipPaymentAttempt)
current_attempt purchase =
    with_some purchase.current_payment_attempt_id (pure none)
      (λ i. gets (λ d. qr_by_id i d.attempts))

-- The test of `_expire_current_attempt`.
unfoldable pub is_overdue : ℕ → MembershipPaymentAttempt → Bool
is_overdue now attempt = is_open_qr attempt.status && leb attempt.expires_at now

unfoldable pub expire_current_attempt : MembershipPurchase → ℕ → M (Option MembershipPaymentAttempt)
expire_current_attempt purchase now = do
  found ← current_attempt purchase
  with_some found (pure none) λ attempt.
      if is_overdue now attempt
      then (do
        save_qr (record attempt { status = QrStatus.expired })
        pure (some (record attempt { status = QrStatus.expired })))
      else pure (some attempt)

unfoldable pub cannot_pay : MembershipPurchase → Bool
cannot_pay purchase =
    not (is_pending_payment purchase.status)
    || not (is_open_payment purchase.payment_status)
    || not (str_eq purchase.currency "CNY")

abbrev pub new_qr : ℕ → ℕ → MembershipPurchase → ℕ → MembershipPaymentAttempt
new_qr id now purchase payment_no = record {
  id = id;
  membership_purchase_id = purchase.id;
  payment_no = payment_no;
  amount = purchase.amount;
  currency = purchase.currency;
  status = QrStatus.pending;
  qr_code = none;
  expires_at = now;
  provider_transaction_id = none;
  paid_at = none;
}

-- `timedelta(minutes=10)`, in microseconds
abbrev pub ten_minutes : ℕ
ten_minutes = 600000000

-- A purchase with its QR payment: the code returns the loaded purchase, as it was changed.
abbrev pub QrPayment : Type 0
QrPayment = MembershipPurchase × MembershipPaymentAttempt

-- `_create_qr_attempt`, where `no_for` is `qr_payment_no_for`, the digest of the purchase and the
-- attempt. After a rollback nothing is left of the new row, nor of what the session flushed before.
unfoldable pub create_qr_attempt :
    (ℕ → ℕ → ℕ) → Option AlipayAdapter → MembershipPurchase → ℕ → M QrPayment
create_qr_attempt no_for adapter purchase now = do
  provider ← require_purchase_adapter adapter
  raise_if (cannot_pay purchase) payment_not_allowed
  attempt_id ← new_uuid
  let attempt = new_qr attempt_id now purchase (no_for purchase.id attempt_id)
  modify (λ d. record d { attempts = add attempt d.attempts })
  with_some
      (provider.create_precreate (record {
        out_trade_no = attempt.payment_no;
        total_amount = attempt.amount;
        subject = Subject.plan purchase.plan_name_snapshot;
        timeout_express = "10m";
      }))
      (do rollback; raise payment_provider_unavailable)
      λ code. if str_eq code "" then (do rollback; raise payment_provider_invalid_response) else do
        let attempt' = record attempt { qr_code = some code; expires_at = now + ten_minutes }
        save_qr attempt'
        let purchase' = record purchase {
          current_payment_attempt_id = some attempt.id;
          payment_status = PurchasePayment.paying;
        }
        save_purchase purchase'
        commit
        pure (purchase', attempt')

-- `purchase.authorization_status == "authorized" or purchase.payment_status == "paid"`
abbrev pub is_settled : MembershipPurchase → Bool
is_settled purchase =
    is_authorized purchase.authorization_status || is_paid_purchase purchase.payment_status

-- `attempt.status in {"pending", "paying"} and self._as_utc(attempt.expires_at) > now`
unfoldable pub is_usable : ℕ → MembershipPaymentAttempt → Bool
is_usable now attempt = is_open_qr attempt.status && ltb now attempt.expires_at

unfoldable pub create_or_get_qr_attempt :
    ℕ → (ℕ → ℕ → ℕ) → Option AlipayAdapter → ℕ → ℕ → M QrPayment
create_or_get_qr_attempt now no_for adapter purchase_id user_id = do
  purchase ← locked_purchase_for_owner purchase_id user_id
  raise_if (is_settled purchase) payment_not_allowed
  found ← expire_current_attempt purchase now
  with_some found (create_qr_attempt no_for adapter purchase now) λ attempt.
      if is_usable now attempt
      then (do commit; pure (purchase, attempt))
      else raise qr_payment_refresh_required

unfoldable pub current_qr_attempt :
    ℕ → ℕ → ℕ → M (MembershipPurchase × Option MembershipPaymentAttempt)
current_qr_attempt now purchase_id user_id = do
  purchase ← locked_purchase_for_owner purchase_id user_id
  attempt ← expire_current_attempt purchase now
  commit
  pure (purchase, attempt)

-- `attempt.status in {"expired", "closed"}`
abbrev pub is_refreshable : QrStatus → Bool
is_refreshable QrStatus.expired = true
is_refreshable QrStatus.closed = true
is_refreshable _ = false

unfoldable pub refresh_qr_attempt : ℕ → (ℕ → ℕ → ℕ) → Option AlipayAdapter → ℕ → ℕ → M QrPayment
refresh_qr_attempt now no_for adapter purchase_id user_id = do
  purchase ← locked_purchase_for_owner purchase_id user_id
  raise_if (is_settled purchase) payment_not_allowed
  found ← expire_current_attempt purchase now
  attempt ← or_raise found qr_payment_refresh_not_allowed
  raise_if (not (is_refreshable attempt.status)) qr_payment_refresh_not_allowed
  create_qr_attempt no_for adapter purchase now
