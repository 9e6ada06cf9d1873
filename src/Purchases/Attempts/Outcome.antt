-- ===== src/Purchases/Attempts/Outcome.antt =====
-- What a request for a QR payment leaves.
use travel_latest.Base.{
  ℕ, ◌≡◌, true, Option, none, some, List, arith, Option-cases, inl, inr, Bool-cases,
}
use travel_latest.Base.Exec.{Session, ok, ◌>>=◌, request, begin, Result-cases}
use travel_latest.Base.Exec.Clean.{Clean}
use travel_latest.Base.Tables.{add, scalar_sound, scalar-save_self}
use travel_latest.Base.Keys.{get-save, get-add_some, get_sound}
use travel_latest.Orders.Alipay.{AlipayAdapter}
use travel_latest.Purchases.Model.{
  MembershipPurchase, MembershipPaymentAttempt, PurchaseDb, purchase_of_user, put_purchase,
  purchase_key, qr_by_id, put_qr, qr_key, new_uuid, save_purchase, save_qr,
}
use travel_latest.Purchases.Attempts.{
  locked_purchase_for_owner, current_attempt, is_overdue, expire_current_attempt, new_qr,
  create_qr_attempt, is_usable, create_or_get_qr_attempt,
}

qr_by_id_sound :
    (i : ℕ) (rows : List MembershipPaymentAttempt) (a : MembershipPaymentAttempt)
    → qr_by_id i rows ≡ some a
    → a.id ≡ i
unfolding qr_by_id
qr_by_id_sound i rows a h = get_sound i rows a h

qr-put_new :
    (a b : MembershipPaymentAttempt) (rows : List MembershipPaymentAttempt)
    → b.id ≡ a.id
    → qr_by_id a.id (put_qr b (add a rows)) ≡ some b
unfolding qr_by_id put_qr
qr-put_new a b rows h = ground (arith, get-save a.id b (add a rows), get-add_some a rows)

purchase-put :
    (i u : ℕ) (rows : List MembershipPurchase) (p q : MembershipPurchase)
    → purchase_of_user i u rows ≡ some p
    → q.id ≡ p.id
    → q.user_id ≡ p.user_id
    → purchase_of_user i u (put_purchase q rows) ≡ some q
unfolding purchase_of_user put_purchase
purchase-put i u rows p q h e f =
    scalar-save_self _ rows p q h e (let g = scalar_sound _ rows p h in ground arith)

-- The payment that a purchase names.
expire_returns :
    (now : ℕ) (p : MembershipPurchase) (s : Session PurchaseDb) (a : MembershipPaymentAttempt)
    → (expire_current_attempt p now s).0 ≡ ok (some a)
    → is_usable now a ≡ true
    → (p.current_payment_attempt_id ≡ some a.id)
      × (qr_by_id a.id s.db.attempts ≡ some a)
      × ((expire_current_attempt p now s).1 ≡ s)
unfolding expire_current_attempt current_attempt save_qr is_usable is_overdue ◌>>=◌
expire_returns now p s a h usable = elim (Option-cases p.current_payment_attempt_id) [
  | inl absent ↦ absurd (ground arith)
  | inr (i, e) ↦ elim (Option-cases (qr_by_id i s.db.attempts)) [
    | inl absent ↦ absurd (ground arith)
    | inr (x, f) ↦
        let g = qr_by_id_sound i s.db.attempts x f in (ground arith, ground arith, ground arith)
  ]
]

expire_purchases :
    (now : ℕ) (p : MembershipPurchase) (s : Session PurchaseDb)
    → (expire_current_attempt p now s).1.db.purchases ≡ s.db.purchases
unfolding expire_current_attempt current_attempt save_qr ◌>>=◌
expire_purchases now p s = ground arith

create_qr_returns :
    (now : ℕ) (no_for : ℕ → ℕ → ℕ) (adapter : Option AlipayAdapter) (i u : ℕ)
    (q p : MembershipPurchase) (s : Session PurchaseDb) (a : MembershipPaymentAttempt)
    → purchase_of_user i u s.db.purchases ≡ some q
    → (create_qr_attempt no_for adapter q now s).0 ≡ ok (p, a)
    → let d' = (create_qr_attempt no_for adapter q now s).1.saved in
      (is_usable now a ≡ true)
      × (p.current_payment_attempt_id ≡ some a.id)
      × (qr_by_id a.id d'.attempts ≡ some a)
      × (purchase_of_user i u d'.purchases ≡ some p)
unfolding create_qr_attempt save_qr save_purchase new_uuid is_usable ◌>>=◌
create_qr_returns now no_for adapter i u q p s a e h = (
  ground arith,
  ground arith,
  ground (
    arith,
    qr-put_new (new_qr s.db.next_uuid now q (no_for q.id s.db.next_uuid)) a s.db.attempts,
  ),
  ground (arith, purchase-put i u s.db.purchases q p e),
)

-- A request for a QR payment that succeeds returns the purchase of the user and a payment of it that
-- can be used now, and both are in the tables: the payment under its identifier, which the purchase
-- names as its current one.
pub create_or_get_qr_usable :
    (now : ℕ) (no_for : ℕ → ℕ → ℕ) (adapter : Option AlipayAdapter) (i u : ℕ) (d d' : PurchaseDb)
    (p : MembershipPurchase) (a : MembershipPaymentAttempt)
    → request (create_or_get_qr_attempt now no_for adapter i u) d ≡ (ok (p, a), d')
    → (is_usable now a ≡ true)
      × (p.current_payment_attempt_id ≡ some a.id)
      × (qr_by_id a.id d'.attempts ≡ some a)
      × (purchase_of_user i u d'.purchases ≡ some p)
unfolding create_or_get_qr_attempt locked_purchase_for_owner ◌>>=◌
create_or_get_qr_usable now no_for adapter i u d d' p a h =
    elim (Option-cases (purchase_of_user i u d.purchases)) [
      | inl absent ↦ absurd (ground arith)
      | inr (q, found) ↦ elim (Result-cases (expire_current_attempt q now (begin d)).0) [
        | inr (x, e) ↦ absurd (ground arith)
        | inl (none, e) ↦ ground (
          arith,
          expire_purchases now q (begin d),
          create_qr_returns now no_for adapter i u q p (expire_current_attempt q now (begin d)).1 a,
        )
        | inl (some b, e) ↦ elim (Bool-cases (is_usable now b)) [
          | inr refused ↦ absurd (ground arith)
          | inl usable ↦ ground (arith, expire_returns now q (begin d) b e usable)
        ]
      ]
    ]
