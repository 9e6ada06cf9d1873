-- ===== src/Purchases/Model.antt =====
-- The tables of backend/app/modules/membership_purchases/models.py, and what the operations of
-- membership_purchases/service.py share. The columns `provider` have one value, and are left out.
use travel_latest.Base.{ℕ, suc, String, Bool, true, false, ◌&&◌, Option, List, ◌==◌}
use travel_latest.Base.Tables.{Keyed, scalar, get, save}
use travel_latest.Base.Exec.{Exec, ok, modify, or_raise}
use travel_latest.Events.Outbox.{OutboxEvent, Payload}
use travel_latest.Memberships.Model.{MembershipPlan, UserMembership, UserEntitlement}
use travel_latest.Orders.Alipay.{AlipayAdapter}
use travel_latest.Orders.Model.{VerificationStatus, ProcessingStatus}
use travel_latest.Orders.Tables.{holds}
use travel_latest.Quotas.Periods.{SourceType}

pub data PurchaseStatus : Type 0 where
  pending_payment paid closed : PurchaseStatus

pub data PurchasePayment : Type 0 where
  pending paying paid failed : PurchasePayment

pub data Authorization : Type 0 where
  pending authorized failed : Authorization

pub data QrStatus : Type 0 where
  pending paying paid expired closed failed : QrStatus

pub record MembershipPurchase : Type 0 where
  pub id : ℕ
  pub user_id : ℕ
  pub membership_plan_id : ℕ
  pub plan_name_snapshot : String
  pub amount : ℕ
  pub currency : String
  pub duration_days : ℕ
  pub generation_quota : ℕ
  pub assistant_quota : ℕ
  pub status : PurchaseStatus
  pub payment_status : PurchasePayment
  pub authorization_status : Authorization
  pub idempotency_key : ℕ
  pub payment_no : Option ℕ
  pub provider_transaction_id : Option ℕ
  pub current_payment_attempt_id : Option ℕ
  pub paid_at : Option ℕ
  pub authorized_at : Option ℕ
  pub valid_from : Option ℕ
  pub valid_until : Option ℕ

pub record MembershipPaymentAttempt : Type 0 where
  pub id : ℕ
  pub membership_purchase_id : ℕ
  pub payment_no : ℕ
  pub amount : ℕ
  pub currency : String
  pub status : QrStatus
  pub qr_code : Option String
  pub expires_at : ℕ
  pub provider_transaction_id : Option ℕ
  pub paid_at : Option ℕ

pub record MembershipPaymentCallbackEvent : Type 0 where
  pub id : ℕ
  pub provider_transaction_id : Option ℕ
  pub membership_purchase_id : Option ℕ
  pub raw_payload : Payload
  pub verification_status : VerificationStatus
  pub verification_error : Option String
  pub verified_at : Option ℕ
  pub processing_status : ProcessingStatus
  pub processing_error : Option String
  pub processed_at : Option ℕ

-- A row of `AIQuotaPeriod` as the purchases write it: its times are moments, as those of the
-- memberships are. Quotas reads the same table by the calendar.
pub record QuotaPeriod : Type 0 where
  pub id : ℕ
  pub user_id : ℕ
  pub source_type : SourceType
  pub membership_purchase_id : Option ℕ
  pub period_start : ℕ
  pub period_end : ℕ
  pub generation_limit : ℕ
  pub generation_used : ℕ
  pub assistant_limit : ℕ
  pub assistant_used : ℕ

pub record PurchaseDb : Type 0 where
  pub plans : List MembershipPlan
  pub memberships : List UserMembership
  pub entitlements : List UserEntitlement
  pub purchases : List MembershipPurchase
  pub attempts : List MembershipPaymentAttempt
  pub callbacks : List MembershipPaymentCallbackEvent
  pub periods : List QuotaPeriod
  pub outbox : List OutboxEvent
  pub next_uuid : ℕ

pub data PurchaseError : Type 0 where
  payment_not_configured idempotency_conflict : PurchaseError
  membership_plan_not_found membership_plan_not_purchasable : PurchaseError
  membership_plan_invalid membership_purchase_not_found : PurchaseError
  payment_not_allowed payment_in_progress : PurchaseError
  payment_provider_unavailable payment_provider_invalid_response : PurchaseError
  qr_payment_refresh_required qr_payment_refresh_not_allowed : PurchaseError
  payment_callback_invalid purchase_not_paid : PurchaseError

abbrev pub M : Type 0 → Type 0
M = Exec PurchaseDb PurchaseError

instance abbrev pub purchase_key : Keyed MembershipPurchase
purchase_key = record { key = λ p. p.id }

instance abbrev pub qr_key : Keyed MembershipPaymentAttempt
qr_key = record { key = λ a. a.id }

instance abbrev pub event_key : Keyed MembershipPaymentCallbackEvent
event_key = record { key = λ c. c.id }

instance abbrev pub quota_key : Keyed QuotaPeriod
quota_key = record { key = λ p. p.id }

abbrev pub is_open_payment : PurchasePayment → Bool
is_open_payment PurchasePayment.pending = true
is_open_payment PurchasePayment.paying = true
is_open_payment _ = false

abbrev pub is_paid_purchase : PurchasePayment → Bool
is_paid_purchase PurchasePayment.paid = true
is_paid_purchase _ = false

abbrev pub is_pending_payment : PurchaseStatus → Bool
is_pending_payment PurchaseStatus.pending_payment = true
is_pending_payment _ = false

abbrev pub is_authorized : Authorization → Bool
is_authorized Authorization.authorized = true
is_authorized _ = false

-- `attempt.status in {"pending", "paying"}`
abbrev pub is_open_qr : QrStatus → Bool
is_open_qr QrStatus.pending = true
is_open_qr QrStatus.paying = true
is_open_qr _ = false

unfoldable pub purchase_by_id : ℕ → List MembershipPurchase → Option MembershipPurchase
purchase_by_id i = get i

unfoldable pub purchase_by_key : ℕ → ℕ → List MembershipPurchase → Option MembershipPurchase
purchase_by_key user_id key = scalar (λ p. p.user_id == user_id && p.idempotency_key == key)

unfoldable pub purchase_of_user : ℕ → ℕ → List MembershipPurchase → Option MembershipPurchase
purchase_of_user i user_id = scalar (λ p. p.id == i && p.user_id == user_id)

unfoldable pub purchase_by_no : ℕ → List MembershipPurchase → Option MembershipPurchase
purchase_by_no n = scalar (λ p. holds p.payment_no n)

unfoldable pub put_purchase : MembershipPurchase → List MembershipPurchase → List MembershipPurchase
put_purchase p = save p

unfoldable pub qr_by_id : ℕ → List MembershipPaymentAttempt → Option MembershipPaymentAttempt
qr_by_id i = get i

unfoldable pub qr_by_no : ℕ → List MembershipPaymentAttempt → Option MembershipPaymentAttempt
qr_by_no n = scalar (λ a. a.payment_no == n)

unfoldable pub put_qr :
    MembershipPaymentAttempt → List MembershipPaymentAttempt → List MembershipPaymentAttempt
put_qr a = save a

unfoldable pub event_by_transaction :
    ℕ → List MembershipPaymentCallbackEvent → Option MembershipPaymentCallbackEvent
event_by_transaction trade_no = scalar (λ c. holds c.provider_transaction_id trade_no)

unfoldable pub put_event :
    MembershipPaymentCallbackEvent
    → List MembershipPaymentCallbackEvent
    → List MembershipPaymentCallbackEvent
put_event c = save c

unfoldable pub quota_by_purchase : ℕ → List QuotaPeriod → Option QuotaPeriod
quota_by_purchase i = scalar (λ p. holds p.membership_purchase_id i)

unfoldable pub put_quota : QuotaPeriod → List QuotaPeriod → List QuotaPeriod
put_quota p = save p

unfoldable pub new_uuid : M ℕ
new_uuid s = (ok s.db.next_uuid, record s { db = record s.db { next_uuid = suc s.db.next_uuid } })

unfoldable pub save_purchase : MembershipPurchase → M Unit
save_purchase p = modify (λ d. record d { purchases = put_purchase p d.purchases })

unfoldable pub save_qr : MembershipPaymentAttempt → M Unit
save_qr a = modify (λ d. record d { attempts = put_qr a d.attempts })

unfoldable pub save_event : MembershipPaymentCallbackEvent → M Unit
save_event c = modify (λ d. record d { callbacks = put_event c d.callbacks })

-- `_require_adapter`: `none` is no adapter, or an `UnavailableAlipayAdapter`.
abbrev pub require_purchase_adapter : Option AlipayAdapter → M AlipayAdapter
require_purchase_adapter adapter = or_raise adapter payment_not_configured
