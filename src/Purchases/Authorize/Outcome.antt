-- ===== src/Purchases/Authorize/Outcome.antt =====
-- What `authorize_paid_purchase` leaves.
use travel_latest.Base.{
  ℕ, suc, ◌+◌, ◌++◌, map, ◌≡◌, some, List, [], ◌∷◌, arith, refl, Option-cases, Bool-cases, inl, inr,
  if◌then◌else◌,
}
use travel_latest.Base.Exec.{ok, ◌>>=◌, begin}
use travel_latest.Base.Tables.{add}
use travel_latest.Memberships.Model.{MembershipPlan, UserMembership, membership_key, plan_by_id}
use travel_latest.Memberships.Grants.{days, entitlement_of}
use travel_latest.Purchases.Model.{
  MembershipPurchase, PurchaseDb, PurchasePayment, purchase_by_id, put_purchase, is_authorized,
  new_uuid, save_purchase,
}
use travel_latest.Purchases.Authorize.{
  push, placed, push_back, push_back_future_memberships, purchased_membership, purchased_quota,
  authorized_purchase, open_membership, authorize_paid_purchase,
}
use travel_latest.Purchases.Authorize.Chain.{step}

-- The tables that the loop leaves alone.
pub record SameRest (d d' : PurchaseDb) : Type 0 where
  pub plans : d'.plans ≡ d.plans
  pub purchases : d'.purchases ≡ d.purchases
  pub attempts : d'.attempts ≡ d.attempts
  pub callbacks : d'.callbacks ≡ d.callbacks
  pub outbox : d'.outbox ≡ d.outbox
  pub next_uuid : d'.next_uuid ≡ d.next_uuid

pub push_back-SameRest :
    (cursor : ℕ) (ms : List UserMembership) (d : PurchaseDb) → SameRest d (push_back cursor ms d)
unfolding push_back push step
push_back-SameRest cursor [] d = record {
  plans = refl;
  purchases = refl;
  attempts = refl;
  callbacks = refl;
  outbox = refl;
  next_uuid = refl;
}
push_back-SameRest cursor (m ∷ ms) d =
    let rest = push_back-SameRest (placed cursor m).valid_until ms (step cursor m d) in ground arith

-- The tables before the later memberships are pushed back.
abbrev pub unshifted : ℕ → MembershipPurchase → MembershipPlan → PurchaseDb → PurchaseDb
unshifted now q plan d = record d {
  memberships = add (purchased_membership d.next_uuid now q) d.memberships;
  entitlements =
      d.entitlements
      ++ map (entitlement_of (purchased_membership d.next_uuid now q)) plan.entitlement_codes;
  periods = add (purchased_quota (suc d.next_uuid) now q) d.periods;
  next_uuid = suc (suc d.next_uuid);
}

abbrev pub authorized_rows :
    ℕ → MembershipPurchase → List MembershipPurchase → List MembershipPurchase
authorized_rows now q rows =
    if is_authorized q.authorization_status
    then rows
    else put_purchase (authorized_purchase now q) rows

abbrev pub finished : ℕ → MembershipPurchase → MembershipPurchase
finished now q = if is_authorized q.authorization_status then q else authorized_purchase now q

shifted-SameRest :
    (now : ℕ) (q : MembershipPurchase) (plan : MembershipPlan) (d : PurchaseDb)
    → SameRest (unshifted now q plan d) (
        push_back_future_memberships q.user_id
          (now + days q.duration_days)
          now
          (unshifted now q plan d))
unfolding push_back_future_memberships
shifted-SameRest now q plan d = push_back-SameRest _ _ (unshifted now q plan d)

-- The other tables after an authorization.
pub authorize_rows :
    (now i : ℕ) (q p : MembershipPurchase) (d : PurchaseDb)
    → purchase_by_id i d.purchases ≡ some q
    → (authorize_paid_purchase now i (begin d)).0 ≡ ok p
    → let d' = (authorize_paid_purchase now i (begin d)).1.saved in
      (p ≡ finished now q)
      × (q.payment_status ≡ PurchasePayment.paid)
      × (d'.purchases ≡ authorized_rows now q d.purchases)
      × (d'.attempts ≡ d.attempts)
      × (d'.callbacks ≡ d.callbacks)
unfolding authorize_paid_purchase open_membership new_uuid save_purchase ◌>>=◌
authorize_rows now i q p d e h = elim (Bool-cases (is_authorized q.authorization_status)) [
  | inl old ↦ ground arith
  | inr new ↦ elim (Option-cases (plan_by_id q.membership_plan_id d.plans)) [
    | inl absent ↦ absurd (ground arith)
    | inr (plan, found) ↦ let rest = shifted-SameRest now q plan d in ground arith
  ]
]
