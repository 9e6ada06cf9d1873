-- ===== src/Purchases/Settle/Replay.antt =====
-- A purchase whose payment is settled twice: the provider repeats its notifications.
use mathlib.Core.Path.{subst}
use travel_latest.Base.{
  ℕ, ◌≡◌, ◌∙◌, ap, true, false, Option, some, String, arith, Option-cases, inl, inr,
}
use travel_latest.Base.Exec.{Result, Result-cases, ok, ◌>>=◌, request, begin}
use travel_latest.Base.Keys.{Distinct}
use travel_latest.Orders.Alipay.{AlipayAdapter, VerifiedAlipayCallback}
use travel_latest.Orders.Tables.{holds}
use travel_latest.Purchases.Model.{
  MembershipPurchase, MembershipPaymentAttempt, MembershipPaymentCallbackEvent, PurchaseDb,
  PurchaseError, PurchasePayment, purchase_by_id, purchase_key, qr_key, event_by_transaction,
  put_event, event_key, is_authorized, save_event,
}
use travel_latest.Purchases.Authorize.{authorize_paid_purchase}
use travel_latest.Purchases.Authorize.Outcome.{authorized_rows, finished, authorize_rows}
use travel_latest.Purchases.Settle.{
  is_rejected, paid_rows, event_row, mark_purchase, mark_attempt, processed_event, record_payment,
  settle_purchase,
}
use travel_latest.Purchases.Settle.Rows.{
  bought, is_marked, Located, paid_rows-Located, Located-rows, bought_rows, scanned_rows,
  record_payment_lem, bought-by_id, finished-by_id, scanned_of, scanned-is_marked, Located-settled,
  Located-by_id,
}

-- What a settlement of `c` leaves: the rows of the callback are a purchase that is paid and
-- authorized, found under its identifier too, and its QR payment, if it has one, which is paid; the
-- transaction is on record for the purchase.
pub record IsBought (c : VerifiedAlipayCallback) (p : MembershipPurchase) (d : PurchaseDb)
    : Type 0 where
  pub attempt : Option MembershipPaymentAttempt
  pub rows : paid_rows c (begin d) ≡ (ok (attempt, p), begin d)
  pub marked : is_marked attempt ≡ true
  pub found : purchase_by_id p.id d.purchases ≡ some p
  pub paid : p.payment_status ≡ PurchasePayment.paid
  pub authorized : is_authorized p.authorization_status ≡ true
  pub event : MembershipPaymentCallbackEvent
  pub event_found : event_by_transaction c.trade_no d.callbacks ≡ some event
  pub event_purchase : holds event.membership_purchase_id p.id ≡ true

-- What stays when only the row of the callback is written.
pub record SameGoods (d d' : PurchaseDb) : Type 0 where
  pub purchases : d'.purchases ≡ d.purchases
  pub attempts : d'.attempts ≡ d.attempts
  pub memberships : d'.memberships ≡ d.memberships
  pub entitlements : d'.entitlements ≡ d.entitlements
  pub periods : d'.periods ≡ d.periods
  pub outbox : d'.outbox ≡ d.outbox

record_again :
    (now : ℕ) (c : VerifiedAlipayCallback) (p : MembershipPurchase) (d : PurchaseDb)
    (h : IsBought c p d)
    → ((record_payment now c h.attempt p (begin d)).0 ≡ ok tt)
      × ((record_payment now c h.attempt p (begin d)).1
          ≡ begin (record d { callbacks = put_event (processed_event now h.event) d.callbacks }))
unfolding record_payment event_row mark_purchase mark_attempt save_event ◌>>=◌
record_again now c p d h = elim (Option-cases h.attempt) [
  | inl bare ↦ ground arith
  | inr (a, e) ↦ ground arith
]

settle_bought :
    (now : ℕ) (a : AlipayAdapter) (app : Option (Option String)) (c : VerifiedAlipayCallback)
    (p : MembershipPurchase) (d : PurchaseDb)
    → is_rejected a app c ≡ false
    → IsBought c p d
    → let (r, d') = request (settle_purchase now (some a) app c) d in (r ≡ ok p) × SameGoods d d'
unfolding settle_purchase authorize_paid_purchase ◌>>=◌
settle_bought now a app c p d wf h = let again = record_again now c p d h in ground arith

-- A settlement that succeeds found the rows of its callback, recorded the payment, and authorized
-- the purchase.
record Settled (now : ℕ) (a : AlipayAdapter) (app : Option (Option String))
    (c : VerifiedAlipayCallback) (p : MembershipPurchase) (d : PurchaseDb) : Type 0 where
  attempt : Option MembershipPaymentAttempt
  purchase : MembershipPurchase
  well_formed : is_rejected a app c ≡ false
  located : Located c purchase d attempt
  recorded : (record_payment now c attempt purchase (begin d)).0 ≡ ok tt
  after :
      settle_purchase now (some a) app c (begin d)
      ≡ authorize_paid_purchase now purchase.id (record_payment now c attempt purchase (begin d)).1

settle-Settled :
    (now : ℕ) (a : AlipayAdapter) (app : Option (Option String)) (c : VerifiedAlipayCallback)
    (p : MembershipPurchase) (d : PurchaseDb)
    → (settle_purchase now (some a) app c (begin d)).0 ≡ ok p
    → Settled now a app c p d
unfolding settle_purchase ◌>>=◌
settle-Settled now a app c p d h = elim (Result-cases (paid_rows c (begin d)).0) [
  | inr (x, refused) ↦ absurd (ground arith)
  | inl ((o, q), e) ↦
      let (located, same) = paid_rows-Located c q o d e in
      record {
        attempt = o;
        purchase = q;
        well_formed = ground arith;
        located = located;
        recorded = ground arith;
        after = ground arith;
      }
]

-- What the authorization leaves of the rows that the payment has left in `e`.
authorized-IsBought :
    (now : ℕ) (c : VerifiedAlipayCallback) (q p : MembershipPurchase)
    (o : Option MembershipPaymentAttempt) (d e : PurchaseDb) (row : MembershipPaymentCallbackEvent)
    → Distinct d.purchases
    → Located c q d o
    → e.purchases ≡ bought_rows now c q d.purchases
    → e.attempts ≡ scanned_rows now c o d.attempts
    → event_by_transaction c.trade_no e.callbacks ≡ some row
    → holds row.membership_purchase_id q.id ≡ true
    → (authorize_paid_purchase now q.id (begin e)).0 ≡ ok p
    → IsBought c p (authorize_paid_purchase now q.id (begin e)).1.saved
authorized-IsBought now c q p o d e row u l f g ev hold h =
    let d' = (authorize_paid_purchase now q.id (begin e)).1.saved in
    let by_id : purchase_by_id q.id e.purchases ≡ some (bought now c q) =
      rw f (bought-by_id now c q d.purchases q.id (Located-by_id c q o d u l)) in
    let (same, paid, purchases, attempts, callbacks) =
      authorize_rows now q.id (bought now c q) p e by_id h in
    let located : Located c (finished now (bought now c q)) d' (scanned_of now c o) =
      Located-settled now c q o d d' l (attempts ∙ g)
        (purchases ∙ ap (authorized_rows now (bought now c q)) f) in
    let found : purchase_by_id q.id d'.purchases ≡ some (finished now (bought now c q)) =
      rw purchases (finished-by_id now (bought now c q) e.purchases q.id by_id) in
    rw same (record {
      attempt = scanned_of now c o;
      rows = Located-rows c (finished now (bought now c q)) (scanned_of now c o) d' located;
      marked = scanned-is_marked now c o;
      found = ground arith;
      paid = ground arith;
      authorized = ground arith;
      event = row;
      event_found = rw callbacks ev;
      event_purchase = ground arith;
    })

-- What a settlement leaves, if no two purchases have the same identifier.
pub settle-IsBought :
    (now : ℕ) (a : AlipayAdapter) (app : Option (Option String)) (c : VerifiedAlipayCallback)
    (p : MembershipPurchase) (d : PurchaseDb)
    → Distinct d.purchases
    → (settle_purchase now (some a) app c (begin d)).0 ≡ ok p
    → (is_rejected a app c ≡ false)
      × IsBought c p (settle_purchase now (some a) app c (begin d)).1.saved
settle-IsBought now a app c p d u h =
    let t = settle-Settled now a app c p d h in
    let s = (record_payment now c t.attempt t.purchase (begin d)).1 in
    let paid = record_payment_lem now c t.attempt t.purchase d t.recorded in
    let after : settle_purchase now (some a) app c (begin d)
        ≡ authorize_paid_purchase now t.purchase.id (begin s.saved) =
      t.after ∙ ap (authorize_paid_purchase now t.purchase.id) paid.0 in
    (
      t.well_formed,
      rw after (
          authorized-IsBought now c t.purchase p t.attempt d s.saved paid.3 u t.located paid.1
            paid.2 paid.4 paid.5 (rw after at h)),
    )

-- The provider repeats its notifications. After a settlement of a membership purchase that
-- succeeded, a second one for the same callback succeeds with the same purchase and changes no
-- purchase, no QR payment, no membership, no entitlement, no quota and no event: one payment opens
-- one membership. Here no two purchases have the same identifier.
pub settle_purchase_twice :
    (now now' : ℕ) (a : AlipayAdapter) (app : Option (Option String)) (c : VerifiedAlipayCallback)
    (p : MembershipPurchase) (d d' : PurchaseDb)
    → Distinct d.purchases
    → request (settle_purchase now (some a) app c) d ≡ (ok p, d')
    → let (r, d'') = request (settle_purchase now' (some a) app c) d' in
      (r ≡ ok p) × SameGoods d' d''
settle_purchase_twice now now' a app c p d d' u h =
    let (wf, done) =
      settle-IsBought now a app c p d u
        (ap (λ (x : Result PurchaseError MembershipPurchase × PurchaseDb). x.0) h) in
    settle_bought now' a app c p d' wf (
      subst (IsBought c p)
        (ap (λ (x : Result PurchaseError MembershipPurchase × PurchaseDb). x.1) h) done)
