-- ===== src/Memberships/Tests.antt =====
-- The theorems on memberships at concrete tables.
use travel_latest.Base.{List, ◌≤◌, ◌<◌, ◌↔◌, ◌+◌, ◌≡◌, refl, true, none, some, [], ◌∷◌}
use travel_latest.Base.Exec.{ok, err, request, ◌>>=◌}
use travel_latest.Memberships.Model.{
  MembershipDb, MembershipPlan, UserMembership, published, active, revoked, admin_grant,
  revoke_not_allowed, membership_by_id, membership_by_key, put_membership, plan_by_id, has_user,
  new_uuid, locked_plan, audit, enqueue, effective_membership_status,
}
use travel_latest.Memberships.Plans.{
  MembershipPlanCreate, PlanEdit, create, publish, archive, edit_all,
}
use travel_latest.Memberships.Plans.Sellable.{
  IsSellableTable, empty-IsSellable, edit_all-IsSellable,
}
use travel_latest.Memberships.Grants.{MembershipGrantCreate, grant, new_grant, revoke, days}
use travel_latest.Memberships.Grants.Outcomes.{grant_window, revoke_final}

abbrev monthly : MembershipPlan
monthly = record {
  id = 1;
  code = "monthly";
  name = "Monthly";
  duration_days = 30;
  entitlement_codes = "ai" ∷ [];
  status = published;
  price_amount = 1900;
  currency = "CNY";
  generation_quota = 5;
  assistant_quota = 50;
  purchasable = true;
}

abbrev empty_tables : MembershipDb
empty_tables = record {
  plans = [];
  memberships = [];
  entitlements = [];
  users = 7 ∷ [];
  actions = [];
  outbox = [];
  next_uuid = 100;
}

abbrev with_plan : MembershipDb
with_plan = record empty_tables { plans = monthly ∷ [] }

abbrev plan_body : MembershipPlanCreate
plan_body = record {
  code = "yearly";
  name = "Yearly";
  duration_days = 365;
  entitlement_codes = "ai" ∷ [];
  price_amount = 19900;
  generation_quota = 5;
  assistant_quota = 50;
}

abbrev plan_edits : List PlanEdit
plan_edits = create plan_body 2 ∷ publish 100 2 ∷ archive 100 2 ∷ []

edit_all_example : IsSellableTable (edit_all plan_edits empty_tables).plans
edit_all_example = edit_all-IsSellable plan_edits empty_tables empty-IsSellable

abbrev grant_body : MembershipGrantCreate
grant_body = record { user_id = 7; plan_id = 1; valid_from = some 1000; reason = "support" }

abbrev granted_membership : UserMembership
granted_membership = record {
  id = 100;
  user_id = 7;
  plan_id = 1;
  status = active;
  valid_from = 1000;
  valid_until = 2592000001000;
  grant_source = admin_grant;
  granted_by = 2;
  idempotency_key = 9;
  revoked_by = none;
  revoked_at = none;
  revoke_reason = none;
}

abbrev granted_tables : MembershipDb
granted_tables = (request (grant 500 grant_body 2 9) with_plan).1

granting : request (grant 500 grant_body 2 9) with_plan ≡ (ok granted_membership, granted_tables)
unfolding grant new_grant locked_plan plan_by_id has_user membership_by_key new_uuid audit enqueue
    ◌>>=◌
granting = refl

fresh : membership_by_key 2 9 with_plan.memberships ≡ none
unfolding membership_by_key
fresh = refl

the_plan : plan_by_id 1 with_plan.plans ≡ some monthly
unfolding plan_by_id
the_plan = refl

grant_window_example :
    (effective_membership_status 2000 granted_membership ≡ active)
    ↔ ((1000 ≤ 2000) × (2000 < 1000 + days 30))
grant_window_example =
    grant_window 500 2000 grant_body 2 9 with_plan granted_tables granted_membership monthly fresh
      the_plan granting

abbrev member_tables : MembershipDb
member_tables = record with_plan { memberships = granted_membership ∷ [] }

abbrev revoked_tables : MembershipDb
revoked_tables = (request (revoke 3000 100 2 "abuse") member_tables).1

abbrev revoked_membership : UserMembership
revoked_membership = record granted_membership {
  status = revoked;
  revoked_by = some 2;
  revoked_at = some 3000;
  revoke_reason = some "abuse";
}

revoking :
    request (revoke 3000 100 2 "abuse") member_tables ≡ (ok revoked_membership, revoked_tables)
unfolding revoke membership_by_id put_membership effective_membership_status new_uuid audit enqueue
    ◌>>=◌
revoking = refl

revoke_final_example :
    (effective_membership_status 4000 revoked_membership ≡ revoked)
    × (membership_by_id 100 revoked_tables.memberships ≡ some revoked_membership)
    × (request (revoke 5000 100 2 "again") revoked_tables
        ≡ (err revoke_not_allowed, revoked_tables))
revoke_final_example =
    revoke_final 3000 5000 4000 100 2 2 "abuse" "again" member_tables revoked_tables
      revoked_membership revoking
