-- ===== src/Memberships/Grants/Outcomes.antt =====
-- What grants and revocations leave.
use travel_latest.Base.{
  ℕ, ◌+◌, ◌≤◌, ◌<◌, ◌↔◌, String, ◌≡◌, false, none, some, List, arith, or_else, Option-cases, inl,
  inr,
}
use travel_latest.Base.Tables.{add, scalar_sound, scalar-add_hit, scalar-save_self}
use travel_latest.Base.Exec.{ok, err, ◌>>=◌, request}
use travel_latest.Memberships.Model.{
  MembershipDb, revoke_not_allowed, MembershipPlan, UserMembership, active, revoked,
  membership_by_id, membership_by_key, put_membership, membership_key, plan_by_id, new_uuid,
  locked_plan, audit, enqueue, effective_membership_status,
}
use travel_latest.Memberships.Grants.{
  MembershipGrantCreate, days, is_other_grant, new_grant, grant, revoke,
}

membership_by_key-add :
    (g k : ℕ) (rows : List UserMembership) (m : UserMembership)
    → membership_by_key g k rows ≡ none
    → m.granted_by ≡ g
    → m.idempotency_key ≡ k
    → membership_by_key g k (add m rows) ≡ some m
unfolding membership_by_key
membership_by_key-add g k rows m h e f = scalar-add_hit _ rows m h (ground arith)

membership_by_id_sound :
    (i : ℕ) (rows : List UserMembership) (m : UserMembership)
    → membership_by_id i rows ≡ some m
    → m.id ≡ i
unfolding membership_by_id
membership_by_id_sound i rows m h = let e = scalar_sound _ rows m h in ground arith

membership_by_id-put :
    (i : ℕ) (rows : List UserMembership) (m n : UserMembership)
    → membership_by_id i rows ≡ some m
    → n.id ≡ m.id
    → membership_by_id i (put_membership n rows) ≡ some n
unfolding membership_by_id put_membership
membership_by_id-put i rows m n h e =
    scalar-save_self _ rows m n h e (let f = scalar_sound _ rows m h in ground arith)

plan_by_id_sound :
    (i : ℕ) (rows : List MembershipPlan) (p : MembershipPlan)
    → plan_by_id i rows ≡ some p
    → p.id ≡ i
unfolding plan_by_id
plan_by_id_sound i rows p h = let e = scalar_sound _ rows p h in ground arith

-- A grant under a new key.
new_grant_lem :
    (now : ℕ) (body : MembershipGrantCreate) (actor k : ℕ) (d d' : MembershipDb)
    (m : UserMembership)
    → membership_by_key actor k d.memberships ≡ none
    → request (new_grant now body actor k) d ≡ (ok m, d')
    → (membership_by_key actor k d'.memberships ≡ some m) × (is_other_grant body m ≡ false)
unfolding new_grant locked_plan audit enqueue new_uuid is_other_grant ◌>>=◌
new_grant_lem now body actor k d d' m fresh h =
    elim (Option-cases (plan_by_id body.plan_id d.plans)) [
      | inl absent ↦ absurd (ground arith)
      | inr (p, found) ↦ (
        ground (arith, membership_by_key-add actor k d.memberships m fresh),
        ground (arith, plan_by_id_sound body.plan_id d.plans p found),
      )
    ]

-- A second request under the same administrator and key for the same grant returns the membership of
-- the first one, and writes nothing.
pub grant_twice :
    (now now' : ℕ) (body : MembershipGrantCreate) (actor k : ℕ) (d d' : MembershipDb)
    (m : UserMembership)
    → request (grant now body actor k) d ≡ (ok m, d')
    → request (grant now' body actor k) d' ≡ (ok m, d')
unfolding grant ◌>>=◌
grant_twice now now' body actor k d d' m h =
    elim (Option-cases (membership_by_key actor k d.memberships)) [
      | inl fresh ↦ ground (arith, new_grant_lem now body actor k d d' m fresh)
      | inr (x, e) ↦ ground arith
    ]

-- The window of a new membership.
new_grant_window :
    (now : ℕ) (body : MembershipGrantCreate) (actor k : ℕ) (d d' : MembershipDb)
    (m : UserMembership) (p : MembershipPlan)
    → plan_by_id body.plan_id d.plans ≡ some p
    → request (new_grant now body actor k) d ≡ (ok m, d')
    → (m.status ≡ active)
      × (m.valid_from ≡ or_else body.valid_from now)
      × (m.valid_until ≡ or_else body.valid_from now + days p.duration_days)
unfolding new_grant locked_plan audit enqueue new_uuid ◌>>=◌
new_grant_window now body actor k d d' m p found h = (ground arith, ground arith, ground arith)

effective_iff :
    (t : ℕ) (m : UserMembership)
    → m.status ≡ active
    → (effective_membership_status t m ≡ active) ↔ ((m.valid_from ≤ t) × (t < m.valid_until))
unfolding effective_membership_status
effective_iff t m e = (λ h. (ground arith, ground arith), λ h. ground arith)

-- A membership that is granted under a new key is in effect from its start, which is the requested
-- one or the present, for the days of its plan, and at no other time.
pub grant_window :
    (now t : ℕ) (body : MembershipGrantCreate) (actor k : ℕ) (d d' : MembershipDb)
    (m : UserMembership) (p : MembershipPlan)
    → membership_by_key actor k d.memberships ≡ none
    → plan_by_id body.plan_id d.plans ≡ some p
    → request (grant now body actor k) d ≡ (ok m, d')
    → (effective_membership_status t m ≡ active) ↔ (
        (or_else body.valid_from now ≤ t)
        × (t < or_else body.valid_from now + days p.duration_days))
unfolding grant ◌>>=◌
grant_window now t body actor k d d' m p fresh found h =
    let (alive, start, end) = new_grant_window now body actor k d d' m p found (ground arith) in
    rw⁻¹ (end, start) (effective_iff t m alive)

-- A revocation that succeeds revokes the membership at all times, and a second one is refused and
-- writes nothing.
pub revoke_final :
    (now now' t i actor actor' : ℕ) (reason reason' : String) (d d' : MembershipDb)
    (m : UserMembership)
    → request (revoke now i actor reason) d ≡ (ok m, d')
    → (effective_membership_status t m ≡ revoked)
      × (membership_by_id i d'.memberships ≡ some m)
      × (request (revoke now' i actor' reason') d' ≡ (err revoke_not_allowed, d'))
unfolding revoke audit enqueue new_uuid effective_membership_status ◌>>=◌
revoke_final now now' t i actor actor' reason reason' d d' m h =
    elim (Option-cases (membership_by_id i d.memberships)) [
      | inl absent ↦ absurd (ground arith)
      | inr (x, e) ↦
          let kept = membership_by_id-put i d.memberships x m e in
          (ground arith, ground (arith, kept), ground (arith, kept))
    ]
