-- ===== src/Purchases/Create.antt =====
-- `create_purchase` and `create_payment` of backend/app/modules/membership_purchases/service.py.
use travel_latest.Base.{
  ℕ, String, Bool, false, not, ◌||◌, Option, none, some, ◌==◌, if◌then◌else◌, is_some, or_else,
  str_eq,
}
use travel_latest.Base.Exec.{◌>>=◌, ◌>>◌, pure, modify, gets, raise_if, commit, with_some, or_raise}
use travel_latest.Base.Tables.{add}
use travel_latest.Memberships.Model.{MembershipPlan, plan_by_id}
use travel_latest.Memberships.Plans.{is_published}
use travel_latest.Orders.Alipay.{AlipayAdapter, Subject}
use travel_latest.Orders.Checkout.{is_web_url}
use travel_latest.Purchases.Model.{
  MembershipPurchase, PurchaseStatus, PurchasePayment, Authorization, M, idempotency_conflict,
  membership_plan_not_found, membership_plan_not_purchasable, membership_plan_invalid,
  membership_purchase_not_found, payment_not_allowed, payment_in_progress,
  payment_provider_unavailable, payment_provider_invalid_response, purchase_by_id, purchase_by_key,
  is_pending_payment, is_open_payment, new_uuid, save_purchase, require_purchase_adapter,
}

abbrev pub new_purchase : ℕ → ℕ → MembershipPlan → ℕ → MembershipPurchase
new_purchase id user_id plan idempotency_key = record {
  id = id;
  user_id = user_id;
  membership_plan_id = plan.id;
  plan_name_snapshot = plan.name;
  amount = plan.price_amount;
  currency = plan.currency;
  duration_days = plan.duration_days;
  generation_quota = plan.generation_quota;
  assistant_quota = plan.assistant_quota;
  status = PurchaseStatus.pending_payment;
  payment_status = PurchasePayment.pending;
  authorization_status = Authorization.pending;
  idempotency_key = idempotency_key;
  payment_no = none;
  provider_transaction_id = none;
  current_payment_attempt_id = none;
  paid_at = none;
  authorized_at = none;
  valid_from = none;
  valid_until = none;
}

-- What follows when the key is new.
unfoldable pub purchase_plan : ℕ → ℕ → ℕ → M MembershipPurchase
purchase_plan user_id membership_plan_id idempotency_key = do
  found ← gets (λ d. plan_by_id membership_plan_id d.plans)
  plan ← or_raise found membership_plan_not_found
  raise_if (not (is_published plan.status) || not plan.purchasable) membership_plan_not_purchasable
  raise_if (not (str_eq plan.currency "CNY") || plan.price_amount == 0) membership_plan_invalid
  id ← new_uuid
  let purchase = new_purchase id user_id plan idempotency_key
  modify (λ d. record d { purchases = add purchase d.purchases })
  commit
  pure purchase

unfoldable pub create_purchase : ℕ → ℕ → ℕ → M MembershipPurchase
create_purchase user_id membership_plan_id idempotency_key = do
  found ← gets (λ d. purchase_by_key user_id idempotency_key d.purchases)
  with_some found (purchase_plan user_id membership_plan_id idempotency_key) λ existing. do
    raise_if (not (existing.membership_plan_id == membership_plan_id)) idempotency_conflict
    pure existing

-- `purchase.payment_no is not None and purchase.payment_no != expected_payment_no`
abbrev pub other_payment : Option ℕ → ℕ → Bool
other_payment none expected = false
other_payment (some n) expected = not (n == expected)

-- The branch `if purchase.payment_no is None`.
unfoldable pub open_purchase_payment : ℕ → MembershipPurchase → M MembershipPurchase
open_purchase_payment expected purchase = if is_some purchase.payment_no then pure purchase else do
  let purchase' = record purchase {
    payment_no = some expected;
    payment_status = PurchasePayment.paying;
  }
  save_purchase purchase'
  commit
  pure purchase'

-- `payment_no_for` is the digest of the purchase and the key.
unfoldable pub create_payment :
    (ℕ → ℕ → ℕ) → Option AlipayAdapter → ℕ → ℕ → Option String → M (MembershipPurchase × String)
create_payment payment_no_for adapter purchase_id idempotency_key return_url = do
  provider ← require_purchase_adapter adapter
  found ← gets (λ d. purchase_by_id purchase_id d.purchases)
  purchase ← or_raise found membership_purchase_not_found
  raise_if
      (not (is_pending_payment purchase.status) || not (is_open_payment purchase.payment_status))
      payment_not_allowed
  raise_if (not (str_eq purchase.currency "CNY")) payment_not_allowed
  let expected = payment_no_for purchase.id idempotency_key
  raise_if (other_payment purchase.payment_no expected) payment_in_progress
  purchase' ← open_purchase_payment expected purchase
  url ←
      or_raise
        (provider.create_wap_redirect (record {
          out_trade_no = or_else purchase'.payment_no expected;
          total_amount = purchase'.amount;
          subject = Subject.plan purchase'.plan_name_snapshot;
          return_url = return_url;
        }))
        payment_provider_unavailable
  raise_if (not (is_web_url url)) payment_provider_invalid_response
  pure (purchase', url)
