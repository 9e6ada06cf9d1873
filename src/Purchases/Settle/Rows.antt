-- ===== src/Purchases/Settle/Rows.antt =====
-- The rows of a payment notification, before and after its settlement.
use travel_latest.Base.{
  ℕ, ◌≡◌, refl, Bool, true, false, Option, none, some, List, arith, if◌then◌else◌, inl, inr,
}
use travel_latest.Base.Exec.{Session, Result-cases, ok, ◌>>=◌, begin}
use travel_latest.Base.Keys.{Distinct}
use travel_latest.Orders.Alipay.{VerifiedAlipayCallback}
use travel_latest.Orders.Settle.{settled_by_other}
use travel_latest.Orders.Tables.{holds}
use travel_latest.Purchases.Model.{
  MembershipPurchase, MembershipPaymentAttempt, MembershipPaymentCallbackEvent, PurchaseDb,
  purchase_by_id, purchase_by_no, put_purchase, purchase_key, qr_by_no, put_qr, qr_key,
  event_by_transaction, event_key, is_paid_purchase, new_uuid, save_purchase, save_qr, save_event,
}
use travel_latest.Purchases.Authorize.{authorized_purchase}
use travel_latest.Purchases.Authorize.Outcome.{authorized_rows, finished}
use travel_latest.Purchases.Settle.{
  is_paid_qr, refuses_qr, refuses_purchase, paid_rows, event_row, paid_purchase, mark_purchase,
  paid_attempt, mark_attempt, processed_event, record_payment,
}
use travel_latest.Purchases.Settle.Lookups.{
  purchase_by_no-put, purchase_by_id-put, purchase_by_id_sound, purchase_by_no-id, qr_by_no-put,
  event-put, event-add,
}

-- What a settlement leaves on the purchase and on its QR payment.
abbrev pub bought : ℕ → VerifiedAlipayCallback → MembershipPurchase → MembershipPurchase
bought now c p = if is_paid_purchase p.payment_status then p else paid_purchase now c p

abbrev pub scanned :
    ℕ → VerifiedAlipayCallback → MembershipPaymentAttempt → MembershipPaymentAttempt
scanned now c a = if is_paid_qr a.status then a else paid_attempt now c a

abbrev pub is_marked : Option MembershipPaymentAttempt → Bool
is_marked none = true
is_marked (some a) = is_paid_qr a.status

-- How the rows of a callback were found: the purchase by its own number, or through a QR payment.
abbrev pub Located :
    VerifiedAlipayCallback
    → MembershipPurchase
    → PurchaseDb
    → Option MembershipPaymentAttempt
    → Type 0
Located c p d none =
    (qr_by_no c.out_trade_no d.attempts ≡ none)
    × (purchase_by_no c.out_trade_no d.purchases ≡ some p)
    × (refuses_purchase c p ≡ false)
Located c p d (some a) =
    (qr_by_no c.out_trade_no d.attempts ≡ some a)
    × (purchase_by_id a.membership_purchase_id d.purchases ≡ some p)
    × (refuses_qr c a ≡ false)
    × (refuses_purchase c p ≡ false)

pub paid_rows-Located :
    (c : VerifiedAlipayCallback) (p : MembershipPurchase) (o : Option MembershipPaymentAttempt)
    (d : PurchaseDb)
    → (paid_rows c (begin d)).0 ≡ ok (o, p)
    → Located c p d o × ((paid_rows c (begin d)).1 ≡ begin d)
unfolding paid_rows ◌>>=◌
paid_rows-Located c p none d h = ground arith
paid_rows-Located c p (some a) d h = ground arith

pub Located-rows :
    (c : VerifiedAlipayCallback) (p : MembershipPurchase) (o : Option MembershipPaymentAttempt)
    (d : PurchaseDb)
    → Located c p d o
    → paid_rows c (begin d) ≡ (ok (o, p), begin d)
unfolding paid_rows ◌>>=◌
Located-rows c p none d l = ground arith
Located-rows c p (some a) d l = ground arith

pub settled_by_self : (t : ℕ) → settled_by_other (some t) t ≡ false
unfolding settled_by_other
settled_by_self t = ground arith

pub refuses-bought :
    (now : ℕ) (c : VerifiedAlipayCallback) (p : MembershipPurchase)
    → refuses_purchase c p ≡ false
    → refuses_purchase c (finished now (bought now c p)) ≡ false
unfolding refuses_purchase
refuses-bought now c p h = ground (arith, settled_by_self c.trade_no)

pub refuses-scanned :
    (now : ℕ) (c : VerifiedAlipayCallback) (a : MembershipPaymentAttempt)
    → refuses_qr c a ≡ false
    → refuses_qr c (scanned now c a) ≡ false
unfolding refuses_qr
refuses-scanned now c a h = ground (arith, settled_by_self c.trade_no)

-- The tables after the payment has been recorded.
abbrev pub bought_rows :
    ℕ
    → VerifiedAlipayCallback
    → MembershipPurchase
    → List MembershipPurchase
    → List MembershipPurchase
bought_rows now c p rows =
    if is_paid_purchase p.payment_status then rows else put_purchase (paid_purchase now c p) rows

abbrev pub scanned_rows :
    ℕ
    → VerifiedAlipayCallback
    → Option MembershipPaymentAttempt
    → List MembershipPaymentAttempt
    → List MembershipPaymentAttempt
scanned_rows now c none rows = rows
scanned_rows now c (some a) rows =
    if is_paid_qr a.status then rows else put_qr (paid_attempt now c a) rows

pub event_row_lem :
    (now : ℕ) (c : VerifiedAlipayCallback) (p : MembershipPurchase)
    (row : MembershipPaymentCallbackEvent) (s : Session PurchaseDb)
    → (event_row now c p s).0 ≡ ok row
    → (event_by_transaction c.trade_no (event_row now c p s).1.db.callbacks ≡ some row)
      × (holds row.membership_purchase_id p.id ≡ true)
      × ((event_row now c p s).1.db.purchases ≡ s.db.purchases)
      × ((event_row now c p s).1.db.attempts ≡ s.db.attempts)
unfolding event_row new_uuid ◌>>=◌
event_row_lem now c p row s h = ground (arith, event-add c.trade_no s.db.callbacks row)

pub mark_purchase_lem :
    (now : ℕ) (c : VerifiedAlipayCallback) (p : MembershipPurchase) (s : Session PurchaseDb)
    → mark_purchase now c p s
      ≡ (ok tt, record s { db = record s.db { purchases = bought_rows now c p s.db.purchases } })
unfolding mark_purchase save_purchase ◌>>=◌
mark_purchase_lem now c p s = ground arith

pub mark_attempt_lem :
    (now : ℕ) (c : VerifiedAlipayCallback) (o : Option MembershipPaymentAttempt)
    (s : Session PurchaseDb)
    → mark_attempt now c o s
      ≡ (ok tt, record s { db = record s.db { attempts = scanned_rows now c o s.db.attempts } })
unfolding mark_attempt save_qr ◌>>=◌
mark_attempt_lem now c none s = ground arith
mark_attempt_lem now c (some a) s = ground arith

pub record_payment_lem :
    (now : ℕ) (c : VerifiedAlipayCallback) (o : Option MembershipPaymentAttempt)
    (p : MembershipPurchase) (d : PurchaseDb)
    → (record_payment now c o p (begin d)).0 ≡ ok tt
    → let s = (record_payment now c o p (begin d)).1 in
      (s ≡ begin s.saved)
      × (s.saved.purchases ≡ bought_rows now c p d.purchases)
      × (s.saved.attempts ≡ scanned_rows now c o d.attempts)
      × (row : MembershipPaymentCallbackEvent) × (event_by_transaction c.trade_no s.saved.callbacks
          ≡ some row)
      × (holds row.membership_purchase_id p.id ≡ true)
unfolding record_payment save_event ◌>>=◌
record_payment_lem now c o p d h = elim (Result-cases (event_row now c p (begin d)).0) [
  | inr (x, refused) ↦ absurd (ground arith)
  | inl (row, r) ↦
      let s = (event_row now c p (begin d)).1 in
      let rows = event_row_lem now c p row (begin d) r in
      let again = event-put c.trade_no s.db.callbacks row (processed_event now row) rows.0 in
      let bought_ = mark_purchase_lem now c p s in
      let scanned_ =
        mark_attempt_lem now c o
          (record s { db = record s.db { purchases = bought_rows now c p s.db.purchases } }) in
      (ground arith, ground arith, ground arith, processed_event now row, ground arith, rows.1)
]

module _ (now : ℕ) (c : VerifiedAlipayCallback) (p : MembershipPurchase)
    (rows : List MembershipPurchase) where
  -- The purchase after its payment has been recorded, and after it has been authorized.
  pub bought-by_id :
      (i : ℕ)
      → purchase_by_id i rows ≡ some p
      → purchase_by_id i (bought_rows now c p rows) ≡ some (bought now c p)
  bought-by_id i h = ground (arith, purchase_by_id-put rows p (paid_purchase now c p) i h)

  pub bought-by_no :
      (n : ℕ)
      → purchase_by_no n rows ≡ some p
      → purchase_by_no n (bought_rows now c p rows) ≡ some (bought now c p)
  bought-by_no n h = ground (arith, purchase_by_no-put rows p (paid_purchase now c p) n h)

module _ (now : ℕ) (p : MembershipPurchase) (rows : List MembershipPurchase) where
  pub finished-by_id :
      (i : ℕ)
      → purchase_by_id i rows ≡ some p
      → purchase_by_id i (authorized_rows now p rows) ≡ some (finished now p)
  finished-by_id i h = ground (arith, purchase_by_id-put rows p (authorized_purchase now p) i h)

  pub finished-by_no :
      (n : ℕ)
      → purchase_by_no n rows ≡ some p
      → purchase_by_no n (authorized_rows now p rows) ≡ some (finished now p)
  finished-by_no n h = ground (arith, purchase_by_no-put rows p (authorized_purchase now p) n h)

pub scanned-by_no :
    (now : ℕ) (c : VerifiedAlipayCallback) (a : MembershipPaymentAttempt) (n : ℕ)
    (rows : List MembershipPaymentAttempt)
    → qr_by_no n rows ≡ some a
    → qr_by_no n (scanned_rows now c (some a) rows) ≡ some (scanned now c a)
scanned-by_no now c a n rows h = ground (arith, qr_by_no-put n rows a (paid_attempt now c a) h)

abbrev pub scanned_of :
    ℕ → VerifiedAlipayCallback → Option MembershipPaymentAttempt → Option MembershipPaymentAttempt
scanned_of now c none = none
scanned_of now c (some a) = some (scanned now c a)

pub scanned-purchase :
    (now : ℕ) (c : VerifiedAlipayCallback) (a : MembershipPaymentAttempt)
    → (scanned now c a).membership_purchase_id ≡ a.membership_purchase_id
scanned-purchase now c a = ground arith

pub scanned-is_marked :
    (now : ℕ) (c : VerifiedAlipayCallback) (o : Option MembershipPaymentAttempt)
    → is_marked (scanned_of now c o) ≡ true
scanned-is_marked now c none = refl
scanned-is_marked now c (some a) = ground arith

-- The rows of a callback are found again after its settlement.
pub Located-settled :
    (now : ℕ) (c : VerifiedAlipayCallback) (p : MembershipPurchase)
    (o : Option MembershipPaymentAttempt) (d d' : PurchaseDb)
    → Located c p d o
    → d'.attempts ≡ scanned_rows now c o d.attempts
    → d'.purchases ≡ authorized_rows now (bought now c p) (bought_rows now c p d.purchases)
    → Located c (finished now (bought now c p)) d' (scanned_of now c o)
Located-settled now c p none d d' l e f = (
  rw e l.0,
  rw f (
      finished-by_no now (bought now c p) _ c.out_trade_no
        (bought-by_no now c p d.purchases c.out_trade_no l.1)),
  refuses-bought now c p l.2,
)
Located-settled now c p (some a) d d' l e f = (
  rw e (scanned-by_no now c a c.out_trade_no d.attempts l.0),
  rw (scanned-purchase now c a, f)
      (finished-by_id now (bought now c p) _ a.membership_purchase_id
        (bought-by_id now c p d.purchases a.membership_purchase_id l.1)),
  refuses-scanned now c a l.2,
  refuses-bought now c p l.3,
)

pub Located-by_id :
    (c : VerifiedAlipayCallback) (p : MembershipPurchase) (o : Option MembershipPaymentAttempt)
    (d : PurchaseDb)
    → Distinct d.purchases
    → Located c p d o
    → purchase_by_id p.id d.purchases ≡ some p
Located-by_id c p none d u l = purchase_by_no-id c.out_trade_no d.purchases p u l.1
Located-by_id c p (some a) d u l =
    ground (arith, purchase_by_id_sound a.membership_purchase_id d.purchases p l.1)
