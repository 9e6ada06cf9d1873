-- ===== src/Memberships/Grants.antt =====
-- Memberships that administrators grant and revoke.
pub mod Outcomes
use travel_latest.Base.{
  ℕ, ◌+◌, ◌*◌, String, Bool, true, false, not, ◌&&◌, ◌||◌, Option, none, some, List, [], ◌∷◌, map,
  ◌++◌, ◌==◌, if◌then◌else◌, or_else,
}
use travel_latest.Base.Exec.{◌>>=◌, ◌>>◌, pure, gets, modify, raise_if, commit, with_some, or_raise}
use travel_latest.Base.Tables.{add}
use travel_latest.Events.Outbox.{ident, text, moment}
use travel_latest.Memberships.Model.{
  MembershipPlan, UserMembership, UserEntitlement, MembershipStatus, active, revoked, GrantSource,
  admin_grant, M, MembershipError, idempotency_conflict, plan_not_grantable, user_not_found,
  membership_not_found, revoke_not_allowed, membership_by_id, membership_by_key, put_membership,
  has_user, new_uuid, locked_plan, audit, enqueue, effective_membership_status,
}
use travel_latest.Memberships.Plans.{is_published}

-- `MembershipGrantCreate`, after its validation.
pub record MembershipGrantCreate : Type 0 where
  pub user_id : ℕ
  pub plan_id : ℕ
  pub valid_from : Option ℕ
  pub reason : String

-- `timedelta(days=...)`, in microseconds
abbrev pub days : ℕ → ℕ
days n = 86400000000 * n

abbrev pub other_start : Option ℕ → UserMembership → Bool
other_start none membership = false
other_start (some t) membership = not (membership.valid_from == t)

-- The test for a key that is bound to another grant.
unfoldable pub is_other_grant : MembershipGrantCreate → UserMembership → Bool
is_other_grant body existing =
    not (existing.user_id == body.user_id)
    || not (existing.plan_id == body.plan_id)
    || other_start body.valid_from existing

abbrev pub new_membership : ℕ → ℕ → MembershipGrantCreate → MembershipPlan → ℕ → ℕ → UserMembership
new_membership id now body plan actor_id idempotency_key = record {
  id = id;
  user_id = body.user_id;
  plan_id = plan.id;
  status = active;
  valid_from = or_else body.valid_from now;
  valid_until = or_else body.valid_from now + days plan.duration_days;
  grant_source = admin_grant;
  granted_by = actor_id;
  idempotency_key = idempotency_key;
  revoked_by = none;
  revoked_at = none;
  revoke_reason = none;
}

abbrev pub entitlement_of : UserMembership → String → UserEntitlement
entitlement_of membership code = record {
  membership_id = membership.id;
  user_id = membership.user_id;
  entitlement_code = code;
  valid_from = membership.valid_from;
  valid_until = membership.valid_until;
}

-- What follows when the key is new.
unfoldable pub new_grant : ℕ → MembershipGrantCreate → ℕ → ℕ → M UserMembership
new_grant now body actor_id idempotency_key = do
  plan ← locked_plan body.plan_id
  raise_if (not (is_published plan.status)) plan_not_grantable
  known ← gets (λ d. has_user body.user_id d.users)
  raise_if (not known) user_not_found
  id ← new_uuid
  let membership = new_membership id now body plan actor_id idempotency_key
  modify (λ d. record d { memberships = add membership d.memberships })
  modify λ d. record d {
    entitlements = d.entitlements ++ map (entitlement_of membership) plan.entitlement_codes;
  }
  audit actor_id "membership.granted" "user_membership" membership.id body.reason (
      ("user_id", ident membership.user_id)
      ∷ ("plan_id", ident plan.id)
      ∷ ("valid_until", moment membership.valid_until)
      ∷ [])
  enqueue now membership
  commit
  pure membership

unfoldable pub grant : ℕ → MembershipGrantCreate → ℕ → ℕ → M UserMembership
grant now body actor_id idempotency_key = do
  found ← gets (λ d. membership_by_key actor_id idempotency_key d.memberships)
  with_some found (new_grant now body actor_id idempotency_key)
      λ existing. do raise_if (is_other_grant body existing) idempotency_conflict; pure existing

abbrev pub is_active : MembershipStatus → Bool
is_active active = true
is_active _ = false

unfoldable pub revoke : ℕ → ℕ → ℕ → String → M UserMembership
revoke now membership_id actor_id reason = do
  found ← gets (λ d. membership_by_id membership_id d.memberships)
  membership ← or_raise found membership_not_found
  raise_if (not (is_active (effective_membership_status now membership))) revoke_not_allowed
  let membership' = record membership {
    status = revoked;
    revoked_by = some actor_id;
    revoked_at = some now;
    revoke_reason = some reason;
  }
  modify (λ d. record d { memberships = put_membership membership' d.memberships })
  audit actor_id "membership.revoked" "user_membership" membership.id reason (
      ("user_id", ident membership.user_id)
      ∷ ("status", text "revoked")
      ∷ ("valid_until", moment membership.valid_until)
      ∷ [])
  enqueue now membership'
  commit
  pure membership'
