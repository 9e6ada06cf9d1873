-- ===== src/Memberships/Model.antt =====
-- The tables of backend/app/modules/memberships/models.py, the actions of administrators
-- (backend/app/modules/admin/models.py), and what the operations of memberships/service.py share.
use travel_latest.Base.{
  ℕ, suc, String, Bool, false, ◌&&◌, ◌||◌, Option, none, List, [], ◌∷◌, ◌==◌, ltb, leb,
  if◌then◌else◌, str_eq,
}
use travel_latest.Base.Tables.{Keyed, scalar, get, save, add}
use travel_latest.Base.Exec.{Exec, ok, ◌>>=◌, gets, modify, or_raise}
use travel_latest.Events.Outbox.{OutboxEvent, Payload, ident, text, moment}

pub data PlanStatus : Type 0 where
  draft published archived : PlanStatus

pub data MembershipStatus : Type 0 where
  active revoked expired : MembershipStatus

pub data GrantSource : Type 0 where
  admin_grant membership_purchase : GrantSource

pub record MembershipPlan : Type 0 where
  pub id : ℕ
  pub code : String
  pub name : String
  pub duration_days : ℕ
  pub entitlement_codes : List String
  pub status : PlanStatus
  pub price_amount : ℕ
  pub currency : String
  pub generation_quota : ℕ
  pub assistant_quota : ℕ
  pub purchasable : Bool

pub record UserMembership : Type 0 where
  pub id : ℕ
  pub user_id : ℕ
  pub plan_id : ℕ
  pub status : MembershipStatus
  pub valid_from : ℕ
  pub valid_until : ℕ
  pub grant_source : GrantSource
  pub granted_by : ℕ
  pub idempotency_key : ℕ
  pub revoked_by : Option ℕ
  pub revoked_at : Option ℕ
  pub revoke_reason : Option String

pub record UserEntitlement : Type 0 where
  pub membership_id : ℕ
  pub user_id : ℕ
  pub entitlement_code : String
  pub valid_from : ℕ
  pub valid_until : ℕ

pub record AdminAction : Type 0 where
  pub actor_id : ℕ
  pub action : String
  pub target_type : String
  pub target_id : ℕ
  pub reason : String
  pub result_json : Payload

pub record MembershipDb : Type 0 where
  pub plans : List MembershipPlan
  pub memberships : List UserMembership
  pub entitlements : List UserEntitlement
  pub users : List ℕ
  pub actions : List AdminAction
  pub outbox : List OutboxEvent
  pub next_uuid : ℕ

pub data MembershipError : Type 0 where
  plan_code_exists plan_publish_not_allowed plan_not_purchasable : MembershipError
  plan_archive_not_allowed idempotency_conflict plan_not_grantable : MembershipError
  user_not_found membership_not_found revoke_not_allowed plan_not_found : MembershipError

abbrev pub M : Type 0 → Type 0
M = Exec MembershipDb MembershipError

instance abbrev pub plan_key : Keyed MembershipPlan
plan_key = record { key = λ p. p.id }

instance abbrev pub membership_key : Keyed UserMembership
membership_key = record { key = λ m. m.id }

unfoldable pub plan_by_id : ℕ → List MembershipPlan → Option MembershipPlan
plan_by_id i = get i

unfoldable pub plan_by_code : String → List MembershipPlan → Option MembershipPlan
plan_by_code code = scalar (λ p. str_eq p.code code)

unfoldable pub put_plan : MembershipPlan → List MembershipPlan → List MembershipPlan
put_plan p = save p

unfoldable pub membership_by_id : ℕ → List UserMembership → Option UserMembership
membership_by_id i = get i

unfoldable pub membership_by_key : ℕ → ℕ → List UserMembership → Option UserMembership
membership_by_key granted_by key =
    scalar (λ m. m.granted_by == granted_by && m.idempotency_key == key)

unfoldable pub put_membership : UserMembership → List UserMembership → List UserMembership
put_membership m = save m

unfoldable pub has_user : ℕ → List ℕ → Bool
has_user i [] = false
has_user i (u ∷ users) = u == i || has_user i users

unfoldable pub new_uuid : M ℕ
new_uuid s = (ok s.db.next_uuid, record s { db = record s.db { next_uuid = suc s.db.next_uuid } })

-- `_locked_plan`
unfoldable pub locked_plan : ℕ → M MembershipPlan
locked_plan plan_id = do
  found ← gets (λ d. plan_by_id plan_id d.plans)
  or_raise found plan_not_found

-- `_audit`
unfoldable pub audit : ℕ → String → String → ℕ → String → Payload → M Unit
audit actor_id action target_type target_id reason result = modify λ d. record d {
  actions =
      add
        (record {
          actor_id = actor_id;
          action = action;
          target_type = target_type;
          target_id = target_id;
          reason = reason;
          result_json = result;
        })
        d.actions;
}

abbrev pub membership_status_text : MembershipStatus → String
membership_status_text active = "active"
membership_status_text revoked = "revoked"
membership_status_text expired = "expired"

abbrev pub plan_status_text : PlanStatus → String
plan_status_text draft = "draft"
plan_status_text published = "published"
plan_status_text archived = "archived"

-- `_enqueue`
unfoldable pub enqueue : ℕ → UserMembership → M Unit
enqueue now membership = do
  trace_id ← new_uuid
  event_id ← new_uuid
  modify λ d. record d {
    outbox =
        add
          (record {
            event_id = event_id;
            event_type = "membership.entitlement_updated";
            aggregate_type = "user_membership";
            aggregate_id = membership.id;
            trace_id = trace_id;
            occurred_at = now;
            payload_json =
                ("user_id", ident membership.user_id)
                ∷ ("membership_id", ident membership.id)
                ∷ ("status", text (membership_status_text membership.status))
                ∷ ("valid_until", moment membership.valid_until)
                ∷ [];
            retry_count = 0;
            published_at = none;
            created_at = now;
            updated_at = now;
          })
          d.outbox;
  }

-- `effective_membership_status`
unfoldable pub effective_membership_status : ℕ → UserMembership → MembershipStatus
effective_membership_status now membership = elim membership.status [
  | active ↦
      if ltb now membership.valid_from || leb membership.valid_until now then expired else active
  | revoked ↦ revoked
  | expired ↦ expired
]
