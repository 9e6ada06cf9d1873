-- ===== src/Purchases/Authorize/Chain.antt =====
-- What the loop of `_push_back_future_memberships` does to the memberships that have not started.
use travel_latest.Base.{
  ℕ, ◌+◌, ◌≡◌, ◌≤◌, ◌<◌, ◌∙◌, refl, false, some, List, [], ◌∷◌, ◌==◌, arith, if◌then◌else◌, ltb,
  leb, Bool-cases, inl, inr,
}
use travel_latest.Base.Tables.{All}
use travel_latest.Base.Keys.{Lacks, Distinct, get-Distinct, get-save}
use travel_latest.Memberships.Model.{
  UserMembership, membership_key, membership_by_id, put_membership,
}
use travel_latest.Purchases.Model.{PurchaseDb}
use travel_latest.Purchases.Authorize.{
  insert_by_start, is_future, future_memberships, pushed, push, placed, push_back,
}

-- The memberships `ms`, as the table holds them afterwards, follow one another from the cursor on:
-- each is found under its identifier, starts at the end of the one before or later, starts no
-- earlier than it did, and keeps its length.
pub Chained : ℕ → List UserMembership → List UserMembership → Type 0
Chained cursor [] rows = Unit
Chained cursor (m ∷ ms) rows =
    (m' : UserMembership) × (membership_by_id m.id rows ≡ some m')
    × (cursor ≤ m'.valid_from)
    × (m.valid_from ≤ m'.valid_from)
    × (m'.valid_until + m.valid_from ≡ m'.valid_from + m.valid_until)
    × Chained m'.valid_until ms rows

-- The check constraint on the windows.
abbrev pub HasWindow : UserMembership → Type 0
HasWindow m = m.valid_from < m.valid_until

put-other :
    (i : ℕ) (m : UserMembership) (rows : List UserMembership)
    → (m.id == i) ≡ false
    → membership_by_id i (put_membership m rows) ≡ membership_by_id i rows
unfolding membership_by_id put_membership
put-other i m rows h = ground (arith, get-save i m rows)

put-same :
    (m x : UserMembership) (rows : List UserMembership)
    → membership_by_id m.id rows ≡ some x
    → membership_by_id m.id (put_membership m rows) ≡ some m
unfolding membership_by_id put_membership
put-same m x rows h = ground (arith, get-save m.id m rows)

unfoldable pub step : ℕ → UserMembership → PurchaseDb → PurchaseDb
step cursor m d = if ltb m.valid_from cursor then push cursor m d else d

step-other :
    (cursor i : ℕ) (m : UserMembership) (d : PurchaseDb)
    → (m.id == i) ≡ false
    → membership_by_id i (step cursor m d).memberships ≡ membership_by_id i d.memberships
unfolding step push
step-other cursor i m d h = ground (arith, put-other i (pushed cursor m) d.memberships h)

step-same :
    (cursor : ℕ) (m : UserMembership) (d : PurchaseDb)
    → membership_by_id m.id d.memberships ≡ some m
    → membership_by_id m.id (step cursor m d).memberships ≡ some (placed cursor m)
unfolding step push placed
step-same cursor m d h = ground (arith, put-same (pushed cursor m) m d.memberships)

pub push_back-other :
    (cursor i : ℕ) (ms : List UserMembership) (d : PurchaseDb)
    → Lacks i ms
    → membership_by_id i (push_back cursor ms d).memberships ≡ membership_by_id i d.memberships
unfolding push_back step
push_back-other cursor i [] d h = refl
push_back-other cursor i (m ∷ ms) d h =
    push_back-other (placed cursor m).valid_until i ms (step cursor m d) h.1
    ∙ step-other cursor i m d h.0

abbrev FoundIn : PurchaseDb → List UserMembership → Type 0
FoundIn d ms = All (λ x. membership_by_id x.id d.memberships ≡ some x) ms

FoundIn-step :
    (cursor : ℕ) (m : UserMembership) (ms : List UserMembership) (d : PurchaseDb)
    → Lacks m.id ms
    → FoundIn d ms
    → FoundIn (step cursor m d) ms
FoundIn-step cursor m [] d l f = tt
FoundIn-step cursor m (x ∷ ms) d l f =
    (step-other cursor x.id m d (ground (arith, l.0)) ∙ f.0, FoundIn-step cursor m ms d l.1 f.1)

-- The loop, from any cursor.
pub push_back-Chained :
    (cursor : ℕ) (ms : List UserMembership) (d : PurchaseDb)
    → Distinct ms
    → FoundIn d ms
    → All HasWindow ms
    → Chained cursor ms (push_back cursor ms d).memberships
unfolding push_back Chained step placed
push_back-Chained cursor [] d u f w = tt
push_back-Chained cursor (m ∷ ms) d u f w = (
  placed cursor m,
  push_back-other (placed cursor m).valid_until m.id ms (step cursor m d) u.0
      ∙ step-same cursor m d f.0,
  ground arith,
  ground arith,
  ground arith,
  push_back-Chained (placed cursor m).valid_until ms (step cursor m d) u.1
      (FoundIn-step cursor m ms d u.0 f.1) w.1,
)

-- What the query keeps of its table.
insert_by_start-All :
    (P : UserMembership → Type 0) (m : UserMembership) (ms : List UserMembership)
    → P m
    → All P ms
    → All P (insert_by_start m ms)
insert_by_start-All P m [] p a = (p, tt)
insert_by_start-All P m (x ∷ ms) p a = elim (Bool-cases (leb m.valid_from x.valid_from)) [
  | inl first ↦ rw first (p, a)
  | inr later ↦ rw later (a.0, insert_by_start-All P m ms p a.1)
]

pub future-All :
    (P : UserMembership → Type 0) (u now : ℕ) (rows : List UserMembership)
    → All P rows
    → All P (future_memberships u now rows)
unfolding future_memberships
future-All P u now [] a = tt
future-All P u now (m ∷ rows) a = elim (Bool-cases (is_future u now m)) [
  | inl taken ↦ rw taken (insert_by_start-All P m _ a.0 (future-All P u now rows a.1))
  | inr left ↦ rw left (future-All P u now rows a.1)
]

insert_by_start-Distinct :
    (m : UserMembership) (ms : List UserMembership)
    → Lacks m.id ms
    → Distinct ms
    → Distinct (insert_by_start m ms)
insert_by_start-Distinct m [] l u = (tt, tt)
insert_by_start-Distinct m (x ∷ ms) l u = elim (Bool-cases (leb m.valid_from x.valid_from)) [
  | inl first ↦ rw first (l, u)
  | inr later ↦ rw later (
    insert_by_start-All (λ y. (y.id == x.id) ≡ false) m ms (ground (arith, l.0)) u.0,
    insert_by_start-Distinct m ms l.1 u.1,
  )
]

pub future-Distinct :
    (u now : ℕ) (rows : List UserMembership)
    → Distinct rows
    → Distinct (future_memberships u now rows)
unfolding future_memberships
future-Distinct u now [] d = tt
future-Distinct u now (m ∷ rows) d = elim (Bool-cases (is_future u now m)) [
  | inl taken ↦
      rw taken (
        insert_by_start-Distinct m _ (future-All _ u now rows d.0) (future-Distinct u now rows d.1))
  | inr left ↦ rw left (future-Distinct u now rows d.1)
]

-- The query over the table that the loop changes.
pub future-Chained :
    (chain_start u now : ℕ) (d : PurchaseDb)
    → Distinct d.memberships
    → All HasWindow d.memberships
    → Chained chain_start
        (future_memberships u now d.memberships)
        (push_back chain_start (future_memberships u now d.memberships) d).memberships
unfolding membership_by_id
future-Chained chain_start u now d distinct windows =
    push_back-Chained chain_start (future_memberships u now d.memberships) d
      (future-Distinct u now d.memberships distinct)
      (future-All _ u now d.memberships (get-Distinct d.memberships distinct))
      (future-All _ u now d.memberships windows)
