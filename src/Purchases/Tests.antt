-- ===== src/Purchases/Tests.antt =====
-- The theorems on purchases at concrete tables.
use travel_latest.Base.{◌+◌, ◌≡◌, refl, true, none, some, [], ◌∷◌, arith}
use travel_latest.Base.Exec.{ok, request, ◌>>=◌}
use travel_latest.Memberships.Model.{
  MembershipPlan, UserMembership, published, active, admin_grant, membership_by_id, plan_by_id,
  put_membership,
}
use travel_latest.Orders.Samples
use travel_latest.Orders.Settle.{is_success, settled_by_other}
use travel_latest.Purchases.Model.{
  MembershipPurchase, MembershipPaymentAttempt, PurchaseDb, PurchaseStatus, PurchasePayment,
  Authorization, QrStatus, purchase_by_id, purchase_by_no, purchase_of_user, put_purchase, qr_by_id,
  qr_by_no, event_by_transaction, put_event, quota_by_purchase, new_uuid, save_purchase, save_qr,
  save_event,
}
use travel_latest.Purchases.Attempts.{
  locked_purchase_for_owner, current_attempt, expire_current_attempt, cannot_pay, create_qr_attempt,
  is_usable, create_or_get_qr_attempt,
}
use travel_latest.Purchases.Attempts.Outcome.{create_or_get_qr_usable}
use travel_latest.Purchases.Authorize.{
  future_memberships, push, placed, push_back, push_back_future_memberships, authorized_purchase,
  open_membership, authorize_paid_purchase,
}
use travel_latest.Purchases.Settle.{
  is_rejected, other_app, refuses_purchase, paid_rows, event_row, mark_purchase, mark_attempt,
  record_payment, settle_purchase,
}
use travel_latest.Purchases.Settle.Replay.{SameGoods, settle_purchase_twice}

abbrev weekly : MembershipPlan
weekly = record {
  id = 1;
  code = "weekly";
  name = "Weekly";
  duration_days = 7;
  entitlement_codes = "ai" ∷ [];
  status = published;
  price_amount = 5000;
  currency = "CNY";
  generation_quota = 5;
  assistant_quota = 50;
  purchasable = true;
}

abbrev open_purchase : MembershipPurchase
open_purchase = record {
  id = 3;
  user_id = 7;
  membership_plan_id = 1;
  plan_name_snapshot = "Weekly";
  amount = 5000;
  currency = "CNY";
  duration_days = 7;
  generation_quota = 5;
  assistant_quota = 50;
  status = PurchaseStatus.pending_payment;
  payment_status = PurchasePayment.paying;
  authorization_status = Authorization.pending;
  idempotency_key = 9;
  payment_no = some 5;
  provider_transaction_id = none;
  current_payment_attempt_id = none;
  paid_at = none;
  authorized_at = none;
  valid_from = none;
  valid_until = none;
}

-- A membership of the user that starts later.
abbrev later_membership : UserMembership
later_membership = record {
  id = 2;
  user_id = 7;
  plan_id = 1;
  status = active;
  valid_from = 1000;
  valid_until = 5000;
  grant_source = admin_grant;
  granted_by = 8;
  idempotency_key = 4;
  revoked_by = none;
  revoked_at = none;
  revoke_reason = none;
}

abbrev paying_tables : PurchaseDb
paying_tables = record {
  plans = weekly ∷ [];
  memberships = later_membership ∷ [];
  entitlements = [];
  purchases = open_purchase ∷ [];
  attempts = [];
  callbacks = [];
  periods = [];
  outbox = [];
  next_uuid = 100;
}

abbrev paid_weekly : MembershipPurchase
paid_weekly = record open_purchase {
  status = PurchaseStatus.paid;
  payment_status = PurchasePayment.paid;
  provider_transaction_id = some 55;
  paid_at = some 40;
}

abbrev settled_tables : PurchaseDb
settled_tables =
    (request (settle_purchase 40 (some (Samples.provider_with none)) none Samples.paid_callback)
      paying_tables).1

settling_purchase :
    request
      (settle_purchase 40 (some (Samples.provider_with none)) none Samples.paid_callback)
      paying_tables
    ≡ (ok (authorized_purchase 40 paid_weekly), settled_tables)
unfolding settle_purchase is_rejected is_success other_app paid_rows qr_by_no purchase_by_no
    refuses_purchase settled_by_other record_payment event_row event_by_transaction mark_purchase
    mark_attempt save_event put_event authorize_paid_purchase open_membership purchase_by_id
    put_purchase plan_by_id new_uuid save_purchase ◌>>=◌
settling_purchase = refl

settle_purchase_twice_example :
    let (r, d) =
      request
        (settle_purchase 45 (some (Samples.provider_with none)) none Samples.paid_callback)
        settled_tables in
    (r ≡ ok (authorized_purchase 40 paid_weekly)) × SameGoods settled_tables d
settle_purchase_twice_example =
    settle_purchase_twice 40 45 (Samples.provider_with none) none Samples.paid_callback
      (authorized_purchase 40 paid_weekly) paying_tables settled_tables (omega arith)
      settling_purchase

abbrev paid_tables : PurchaseDb
paid_tables = record paying_tables { purchases = paid_weekly ∷ [] }

abbrev authorized_tables : PurchaseDb
authorized_tables = (request (authorize_paid_purchase 50 3) paid_tables).1

-- The later membership starts when the purchased one ends.
later_is_pushed :
    membership_by_id 2 authorized_tables.memberships
    ≡ some (record later_membership { valid_from = 604800000050; valid_until = 604800004050 })
unfolding authorize_paid_purchase open_membership purchase_by_id plan_by_id new_uuid save_purchase
    push_back_future_memberships future_memberships push_back push placed quota_by_purchase
    put_membership membership_by_id ◌>>=◌
later_is_pushed = refl

abbrev qr_tables : PurchaseDb
qr_tables =
    (request (create_or_get_qr_attempt 50 (λ i j. i + j) (some (Samples.provider_with none)) 3 7)
      paying_tables).1

abbrev new_attempt_row : MembershipPaymentAttempt
new_attempt_row = record {
  id = 100;
  membership_purchase_id = 3;
  payment_no = 103;
  amount = 5000;
  currency = "CNY";
  status = QrStatus.pending;
  qr_code = some "qr";
  expires_at = 600000050;
  provider_transaction_id = none;
  paid_at = none;
}

abbrev scanning : MembershipPurchase
scanning = record open_purchase { current_payment_attempt_id = some 100 }

qr_paying :
    request
      (create_or_get_qr_attempt 50 (λ i j. i + j) (some (Samples.provider_with none)) 3 7)
      paying_tables
    ≡ (ok (scanning, new_attempt_row), qr_tables)
unfolding create_or_get_qr_attempt locked_purchase_for_owner purchase_of_user expire_current_attempt
    current_attempt create_qr_attempt cannot_pay new_uuid save_qr save_purchase ◌>>=◌
qr_paying = refl

create_or_get_qr_usable_example :
    (is_usable 50 new_attempt_row ≡ true)
    × (scanning.current_payment_attempt_id ≡ some 100)
    × (qr_by_id 100 qr_tables.attempts ≡ some new_attempt_row)
    × (purchase_of_user 3 7 qr_tables.purchases ≡ some scanning)
create_or_get_qr_usable_example =
    create_or_get_qr_usable 50 (λ i j. i + j) (some (Samples.provider_with none)) 3 7 paying_tables
      qr_tables scanning new_attempt_row qr_paying
