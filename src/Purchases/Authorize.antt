-- ===== src/Purchases/Authorize.antt =====
-- `authorize_paid_purchase` and `_push_back_future_memberships` of
-- backend/app/modules/membership_purchases/service.py.
pub mod Chain
pub mod Outcome
use travel_latest.Base.{
  ℕ, ◌+◌, ◌-◌, Bool, not, ◌&&◌, Option, none, some, List, [], ◌∷◌, ◌++◌, map, ◌==◌, ltb, leb,
  if◌then◌else◌,
}
use travel_latest.Base.Exec.{◌>>=◌, ◌>>◌, pure, modify, gets, raise_if, commit, or_raise}
use travel_latest.Base.Tables.{add}
use travel_latest.Events.Outbox.{ident, moment, Payload}
use travel_latest.Memberships.Model.{
  UserMembership, UserEntitlement, active, membership_purchase, plan_by_id, put_membership,
}
use travel_latest.Memberships.Grants.{days, entitlement_of, is_active}
use travel_latest.Orders.Session.{outbox_row}
use travel_latest.Quotas.Periods.{SourceType}
use travel_latest.Purchases.Model.{
  MembershipPurchase, QuotaPeriod, PurchaseDb, Authorization, M, membership_plan_not_found,
  membership_purchase_not_found, purchase_not_paid, purchase_by_id, quota_by_purchase, put_quota,
  is_paid_purchase, is_authorized, new_uuid, save_purchase,
}

-- The query of `_push_back_future_memberships`: the memberships of the user that are active and have
-- not started, by their start.
abbrev pub insert_by_start : UserMembership → List UserMembership → List UserMembership
insert_by_start m [] = m ∷ []
insert_by_start m (x ∷ xs) =
    if leb m.valid_from x.valid_from then m ∷ x ∷ xs else x ∷ insert_by_start m xs

abbrev pub is_future : ℕ → ℕ → UserMembership → Bool
is_future user_id now m = m.user_id == user_id && is_active m.status && ltb now m.valid_from

unfoldable pub future_memberships : ℕ → ℕ → List UserMembership → List UserMembership
future_memberships user_id now [] = []
future_memberships user_id now (m ∷ ms) =
    let rest = future_memberships user_id now ms in
    if is_future user_id now m then insert_by_start m rest else rest

-- `membership.valid_from = cursor; membership.valid_until = cursor + length`
abbrev pub pushed : ℕ → UserMembership → UserMembership
pushed cursor m = record m {
  valid_from = cursor;
  valid_until = cursor + (m.valid_until - m.valid_from);
}

abbrev pub shift_entitlement : ℕ → ℕ → UserEntitlement → UserEntitlement
shift_entitlement membership_id shift e =
    if e.membership_id == membership_id
    then record e { valid_from = e.valid_from + shift; valid_until = e.valid_until + shift }
    else e

abbrev pub shift_quota : ℕ → Option QuotaPeriod → List QuotaPeriod → List QuotaPeriod
shift_quota shift none periods = periods
shift_quota shift (some p) periods =
    put_quota
      (record p { period_start = p.period_start + shift; period_end = p.period_end + shift })
      periods

-- What the loop writes for a membership that starts before the cursor.
unfoldable pub push : ℕ → UserMembership → PurchaseDb → PurchaseDb
push cursor m d = record d {
  memberships = put_membership (pushed cursor m) d.memberships;
  entitlements = map (shift_entitlement m.id (cursor - m.valid_from)) d.entitlements;
  periods =
      shift_quota (cursor - m.valid_from) (quota_by_purchase m.idempotency_key d.periods) d.periods;
}

-- The row as the loop leaves it, and the cursor after it.
unfoldable pub placed : ℕ → UserMembership → UserMembership
placed cursor m = if ltb m.valid_from cursor then pushed cursor m else m

-- The loop of `_push_back_future_memberships`.
unfoldable pub push_back : ℕ → List UserMembership → PurchaseDb → PurchaseDb
unfolding push placed
push_back cursor [] d = d
push_back cursor (m ∷ ms) d =
    push_back (placed cursor m).valid_until ms
      (if ltb m.valid_from cursor then push cursor m d else d)

unfoldable pub push_back_future_memberships : ℕ → ℕ → ℕ → PurchaseDb → PurchaseDb
push_back_future_memberships user_id chain_start now d =
    push_back chain_start (future_memberships user_id now d.memberships) d

abbrev pub purchased_membership : ℕ → ℕ → MembershipPurchase → UserMembership
purchased_membership id now purchase = record {
  id = id;
  user_id = purchase.user_id;
  plan_id = purchase.membership_plan_id;
  status = active;
  valid_from = now;
  valid_until = now + days purchase.duration_days;
  grant_source = membership_purchase;
  granted_by = purchase.user_id;
  idempotency_key = purchase.id;
  revoked_by = none;
  revoked_at = none;
  revoke_reason = none;
}

abbrev pub purchased_quota : ℕ → ℕ → MembershipPurchase → QuotaPeriod
purchased_quota id now purchase = record {
  id = id;
  user_id = purchase.user_id;
  source_type = SourceType.membership_purchase;
  membership_purchase_id = some purchase.id;
  period_start = now;
  period_end = now + days purchase.duration_days;
  generation_limit = purchase.generation_quota;
  generation_used = 0;
  assistant_limit = purchase.assistant_quota;
  assistant_used = 0;
}

abbrev pub authorized_purchase : ℕ → MembershipPurchase → MembershipPurchase
authorized_purchase now purchase = record purchase {
  authorization_status = Authorization.authorized;
  authorized_at = some now;
  valid_from = some now;
  valid_until = some (now + days purchase.duration_days);
}

abbrev pub entitlement_payload : ℕ → MembershipPurchase → Payload
entitlement_payload now purchase =
    ("user_id", ident purchase.user_id)
    ∷ ("membership_purchase_id", ident purchase.id)
    ∷ ("valid_until", moment (now + days purchase.duration_days))
    ∷ []

-- What follows for a paid purchase that is not authorized yet.
unfoldable pub open_membership : ℕ → MembershipPurchase → M MembershipPurchase
open_membership now purchase = do
  found_plan ← gets (λ d. plan_by_id purchase.membership_plan_id d.plans)
  plan ← or_raise found_plan membership_plan_not_found
  id ← new_uuid
  let membership = purchased_membership id now purchase
  modify (λ d. record d { memberships = add membership d.memberships })
  modify λ d. record d {
    entitlements = d.entitlements ++ map (entitlement_of membership) plan.entitlement_codes;
  }
  period_id ← new_uuid
  modify (λ d. record d { periods = add (purchased_quota period_id now purchase) d.periods })
  modify (push_back_future_memberships purchase.user_id membership.valid_until now)
  save_purchase (authorized_purchase now purchase)
  trace_id ← new_uuid
  event_id ← new_uuid
  modify λ d. record d {
    outbox =
        add
          (outbox_row event_id trace_id now "membership.entitlement_updated" "membership_purchase"
            purchase.id (entitlement_payload now purchase))
          d.outbox;
  }
  commit
  pure (authorized_purchase now purchase)

unfoldable pub authorize_paid_purchase : ℕ → ℕ → M MembershipPurchase
authorize_paid_purchase now purchase_id = do
  found ← gets (λ d. purchase_by_id purchase_id d.purchases)
  purchase ← or_raise found membership_purchase_not_found
  raise_if (not (is_paid_purchase purchase.payment_status)) purchase_not_paid
  if is_authorized purchase.authorization_status
      then pure purchase
      else open_membership now purchase
