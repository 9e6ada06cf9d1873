-- ===== src/Memberships/Plans/Sellable.antt =====
-- A plan can be bought only while it is published.
use travel_latest.Base.{
  ℕ, String, ◌≡◌, refl, Bool, true, false, not, ◌||◌, ◌&&◌, some, List, [], ◌∷◌, arith,
}
use travel_latest.Base.Tables.{All, add, All-add, All-save, scalar-All}
use travel_latest.Base.Exec.{Session, ok, commit, modify, ◌>>=◌}
use travel_latest.Base.Exec.Keeps.{Keeps, Keeps-modify, Keeps-bind_with, after_check, keeps_rules}
use travel_latest.Events.Outbox.{Payload}
use travel_latest.Memberships.Model.{
  MembershipDb, MembershipPlan, M, published, archived, plan_by_id, put_plan, plan_key, new_uuid,
  locked_plan, audit,
}
use travel_latest.Memberships.Plans.{
  MembershipPlanCreate, MembershipPlanUpdate, new_plan, is_published, is_set_true, changed_plan,
  create_plan, publish_plan, update_plan, archive_plan, PlanEdit, create, publish, archive, update,
  edit, edit_all,
}

pub IsSellable : MembershipPlan → Type 0
IsSellable p = (not p.purchasable || is_published p.status) ≡ true

pub IsSellableTable : List MembershipPlan → Type 0
IsSellableTable rows = All IsSellable rows

-- What the session sees, and what is durable.
abbrev pub IsSellableSession : Session MembershipDb → Type 0
IsSellableSession s = IsSellableTable s.db.plans × IsSellableTable s.saved.plans

abbrev pub Sellable : {A : Type 0} → M A → Type 0
Sellable = Keeps IsSellableSession

pub empty-IsSellable : IsSellableTable []
unfolding IsSellableTable
empty-IsSellable = tt

commit-Sellable : Sellable commit
unfolding commit
commit-Sellable = record { at = λ s c. (c.0, c.0) }

new_uuid-Sellable : Sellable new_uuid
unfolding new_uuid
new_uuid-Sellable = record { at = λ s c. c }

audit-Sellable :
    (actor : ℕ) (action target : String) (i : ℕ) (reason : String) (result : Payload)
    → Sellable (audit actor action target i reason result)
unfolding audit
audit-Sellable actor action target i reason result = Keeps-modify _ (λ s h. h)

add_plan-Sellable :
    (p : MembershipPlan)
    → IsSellable p
    → Sellable (modify (λ d. record d { plans = add p d.plans }))
unfolding IsSellableTable
add_plan-Sellable p h = Keeps-modify _ (λ s c. (All-add IsSellable s.db.plans p c.0 h, c.1))

put_plan-Sellable :
    (p : MembershipPlan)
    → IsSellable p
    → Sellable (modify (λ d. record d { plans = put_plan p d.plans }))
unfolding IsSellableTable put_plan
put_plan-Sellable p h = Keeps-modify _ (λ s c. (All-save IsSellable p s.db.plans c.0 h, c.1))

locked_plan-Sellable : (i : ℕ) → Sellable (locked_plan i)
unfolding locked_plan
locked_plan-Sellable i = search keeps_rules

plan_by_id-IsSellable :
    (i : ℕ) (rows : List MembershipPlan) (p : MembershipPlan)
    → IsSellableTable rows
    → plan_by_id i rows ≡ some p
    → IsSellable p
unfolding IsSellableTable plan_by_id
plan_by_id-IsSellable i rows p c h = scalar-All IsSellable _ rows p c h

locked_plan-returns :
    (i : ℕ) (s : Session MembershipDb) (p : MembershipPlan)
    → IsSellableSession s
    → (locked_plan i s).0 ≡ ok p
    → IsSellable p
unfolding locked_plan ◌>>=◌
locked_plan-returns i s p c h = plan_by_id-IsSellable i s.db.plans p c.0 (ground arith)

after_lock :
    {A : Type 0} (i : ℕ) (f : MembershipPlan → M A)
    → ((p : MembershipPlan) → IsSellable p → Sellable (f p))
    → Sellable (locked_plan i >>= f)
after_lock i f =
    Keeps-bind_with IsSellable _ f (locked_plan-Sellable i)
      (λ s p c e. locked_plan-returns i s p c e)

new_plan-IsSellable : (i : ℕ) (body : MembershipPlanCreate) → IsSellable (new_plan i body)
unfolding IsSellable
new_plan-IsSellable i body = refl

published-IsSellable :
    (p : MembershipPlan) (b : Bool) → IsSellable (record p { status = published; purchasable = b })
unfolding IsSellable
published-IsSellable p b = ground arith

archived-IsSellable :
    (p : MembershipPlan) → IsSellable (record p { status = archived; purchasable = false })
unfolding IsSellable
archived-IsSellable p = refl

changed_plan-IsSellable :
    (body : MembershipPlanUpdate) (p : MembershipPlan)
    → IsSellable p
    → (is_set_true body.purchasable && not (is_published p.status)) ≡ false
    → IsSellable (changed_plan body p)
unfolding IsSellable
changed_plan-IsSellable body p h allowed = ground arith

ruleset sellable = (
  after_lock, keeps_rules, commit-Sellable, new_uuid-Sellable, audit-Sellable, add_plan-Sellable,
  put_plan-Sellable,
)

create_plan-Sellable : (body : MembershipPlanCreate) (actor : ℕ) → Sellable (create_plan body actor)
unfolding create_plan
create_plan-Sellable body actor = search (sellable, new_plan-IsSellable) depth 20

publish_plan-Sellable : (i actor : ℕ) → Sellable (publish_plan i actor)
unfolding publish_plan
publish_plan-Sellable i actor = search (sellable, published-IsSellable) depth 20

archive_plan-Sellable : (i actor : ℕ) → Sellable (archive_plan i actor)
unfolding archive_plan
archive_plan-Sellable i actor = search (sellable, archived-IsSellable) depth 20

update_plan-Sellable :
    (i : ℕ) (body : MembershipPlanUpdate) (actor : ℕ) → Sellable (update_plan i body actor)
unfolding update_plan
update_plan-Sellable i body actor = search (after_check, sellable, changed_plan-IsSellable) depth 20

edit-IsSellable :
    (e : PlanEdit) (d : MembershipDb) → IsSellableTable d.plans → IsSellableTable (edit e d).plans
unfolding edit
edit-IsSellable (create body actor) d c = ((create_plan-Sellable body actor).at _ (c, c)).1
edit-IsSellable (publish i actor) d c = ((publish_plan-Sellable i actor).at _ (c, c)).1
edit-IsSellable (archive i actor) d c = ((archive_plan-Sellable i actor).at _ (c, c)).1
edit-IsSellable (update i body actor) d c = ((update_plan-Sellable i body actor).at _ (c, c)).1

-- From tables in which only published plans can be bought, any sequence of edits leaves tables in
-- which only published plans can be bought.
pub edit_all-IsSellable :
    (es : List PlanEdit) (d : MembershipDb)
    → IsSellableTable d.plans
    → IsSellableTable (edit_all es d).plans
unfolding edit_all
edit_all-IsSellable [] d c = c
edit_all-IsSellable (e ∷ es) d c = edit_all-IsSellable es (edit e d) (edit-IsSellable e d c)
