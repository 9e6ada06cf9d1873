-- ===== src/Memberships/Plans.antt =====
-- The life of a membership plan.
pub mod Sellable
use travel_latest.Base.{
  ℕ, String, Bool, true, false, not, ◌&&◌, Option, none, some, List, [], ◌∷◌, if◌then◌else◌,
  is_some, or_else,
}
use travel_latest.Base.Exec.{◌>>=◌, ◌>>◌, pure, gets, modify, raise_if, commit, request}
use travel_latest.Base.Tables.{add}
use travel_latest.Events.Outbox.{Json, text, flag, texts}
use travel_latest.Memberships.Model.{
  MembershipDb, MembershipPlan, PlanStatus, draft, published, archived, M, MembershipError,
  plan_code_exists, plan_publish_not_allowed, plan_not_purchasable, plan_archive_not_allowed,
  plan_by_code, put_plan, new_uuid, locked_plan, audit, plan_status_text,
}

-- `MembershipPlanCreate`, after its validation.
pub record MembershipPlanCreate : Type 0 where
  pub code : String
  pub name : String
  pub duration_days : ℕ
  pub entitlement_codes : List String
  pub price_amount : ℕ
  pub generation_quota : ℕ
  pub assistant_quota : ℕ

-- `MembershipPlanUpdate`: the fields that the request sets. A field that is set to null is refused
-- by the columns, which are not nullable.
pub record MembershipPlanUpdate : Type 0 where
  pub price_amount : Option ℕ
  pub currency : Option String
  pub duration_days : Option ℕ
  pub generation_quota : Option ℕ
  pub assistant_quota : Option ℕ
  pub purchasable : Option Bool

abbrev pub is_draft : PlanStatus → Bool
is_draft draft = true
is_draft _ = false

abbrev pub is_published : PlanStatus → Bool
is_published published = true
is_published _ = false

abbrev pub is_archived : PlanStatus → Bool
is_archived archived = true
is_archived _ = false

abbrev pub new_plan : ℕ → MembershipPlanCreate → MembershipPlan
new_plan id body = record {
  id = id;
  code = body.code;
  name = body.name;
  duration_days = body.duration_days;
  entitlement_codes = body.entitlement_codes;
  status = draft;
  price_amount = body.price_amount;
  currency = "CNY";
  generation_quota = body.generation_quota;
  assistant_quota = body.assistant_quota;
  purchasable = false;
}

unfoldable pub create_plan : MembershipPlanCreate → ℕ → M MembershipPlan
create_plan body actor_id = do
  existing ← gets (λ d. plan_by_code body.code d.plans)
  raise_if (is_some existing) plan_code_exists
  id ← new_uuid
  let plan = new_plan id body
  modify (λ d. record d { plans = add plan d.plans })
  audit actor_id "membership_plan.created" "membership_plan" plan.id "Created membership plan."
      (("status", text (plan_status_text plan.status)) ∷ ("code", text plan.code) ∷ [])
  commit
  pure plan

unfoldable pub publish_plan : ℕ → ℕ → M MembershipPlan
publish_plan plan_id actor_id = do
  plan ← locked_plan plan_id
  raise_if (not (is_draft plan.status)) plan_publish_not_allowed
  let plan' = record plan { status = published; purchasable = true }
  modify (λ d. record d { plans = put_plan plan' d.plans })
  audit actor_id "membership_plan.published" "membership_plan" plan.id "Published membership plan."
      (("status", text "published") ∷ ("purchasable", flag true) ∷ [])
  commit
  pure plan'

-- `body.model_dump(exclude_unset=True)`: the names that are set, sorted.
abbrev pub name_if : Bool → String → List String → List String
name_if true name names = name ∷ names
name_if false name names = names

unfoldable pub updated_fields : MembershipPlanUpdate → List String
updated_fields body = name_if (is_some body.assistant_quota) "assistant_quota" (
    name_if (is_some body.currency) "currency" (
      name_if (is_some body.duration_days) "duration_days" (
        name_if (is_some body.generation_quota) "generation_quota" (
          name_if (is_some body.price_amount) "price_amount"
            (name_if (is_some body.purchasable) "purchasable" [])))))

abbrev pub is_nothing : List String → Bool
is_nothing [] = true
is_nothing (_ ∷ _) = false

abbrev pub is_set_true : Option Bool → Bool
is_set_true none = false
is_set_true (some b) = b

-- `for field, value in changes.items(): setattr(plan, field, value)`
abbrev pub changed_plan : MembershipPlanUpdate → MembershipPlan → MembershipPlan
changed_plan body plan = record plan {
  price_amount = or_else body.price_amount plan.price_amount;
  currency = or_else body.currency plan.currency;
  duration_days = or_else body.duration_days plan.duration_days;
  generation_quota = or_else body.generation_quota plan.generation_quota;
  assistant_quota = or_else body.assistant_quota plan.assistant_quota;
  purchasable = or_else body.purchasable plan.purchasable;
}

unfoldable pub update_plan : ℕ → MembershipPlanUpdate → ℕ → M MembershipPlan
update_plan plan_id body actor_id = do
  plan ← locked_plan plan_id
  if is_nothing (updated_fields body) then pure plan else do
    raise_if (is_set_true body.purchasable && not (is_published plan.status)) plan_not_purchasable
    let plan' = changed_plan body plan
    modify (λ d. record d { plans = put_plan plan' d.plans })
    audit actor_id "membership_plan.updated" "membership_plan" plan.id
        "Updated membership plan configuration."
        (("updated_fields", texts (updated_fields body))
          ∷ ("purchasable", flag plan'.purchasable)
          ∷ [])
    commit
    pure plan'

unfoldable pub archive_plan : ℕ → ℕ → M MembershipPlan
archive_plan plan_id actor_id = do
  plan ← locked_plan plan_id
  raise_if (is_archived plan.status) plan_archive_not_allowed
  let plan' = record plan { status = archived; purchasable = false }
  modify (λ d. record d { plans = put_plan plan' d.plans })
  audit actor_id "membership_plan.archived" "membership_plan" plan.id "Archived membership plan."
      (("status", text "archived") ∷ ("purchasable", flag false) ∷ [])
  commit
  pure plan'

-- What an administrator can do to the plans, each on a session of its own.
pub data PlanEdit : Type 0 where
  create : MembershipPlanCreate → ℕ → PlanEdit
  publish archive : ℕ → ℕ → PlanEdit
  update : ℕ → MembershipPlanUpdate → ℕ → PlanEdit

-- The tables after one edit.
unfoldable pub edit : PlanEdit → MembershipDb → MembershipDb
edit (create body actor_id) d = (request (create_plan body actor_id) d).1
edit (publish plan_id actor_id) d = (request (publish_plan plan_id actor_id) d).1
edit (archive plan_id actor_id) d = (request (archive_plan plan_id actor_id) d).1
edit (update plan_id body actor_id) d = (request (update_plan plan_id body actor_id) d).1

unfoldable pub edit_all : List PlanEdit → MembershipDb → MembershipDb
unfolding edit
edit_all [] d = d
edit_all (e ∷ es) d = edit_all es (edit e d)
