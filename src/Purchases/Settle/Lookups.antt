-- ===== src/Purchases/Settle/Lookups.antt =====
-- Queries for purchases, QR payments and notifications after a row has been written.
use travel_latest.Base.{ℕ, ◌≡◌, none, some, List, arith}
use travel_latest.Base.Tables.{add, scalar_sound, scalar-add_hit, scalar-save_self}
use travel_latest.Base.Keys.{Distinct, get-scalar, get_sound}
use travel_latest.Purchases.Model.{
  MembershipPurchase, MembershipPaymentAttempt, MembershipPaymentCallbackEvent, purchase_by_id,
  purchase_by_no, put_purchase, purchase_key, qr_by_no, put_qr, qr_key, event_by_transaction,
  put_event, event_key,
}

module _ (rows : List MembershipPurchase) (p q : MembershipPurchase) where
  pub purchase_by_no-put :
      (n : ℕ)
      → purchase_by_no n rows ≡ some p
      → q.id ≡ p.id
      → q.payment_no ≡ p.payment_no
      → purchase_by_no n (put_purchase q rows) ≡ some q
  unfolding purchase_by_no put_purchase
  purchase_by_no-put n h e f =
      scalar-save_self _ rows p q h e (let g = scalar_sound _ rows p h in ground arith)

  pub purchase_by_id-put :
      (i : ℕ)
      → purchase_by_id i rows ≡ some p
      → q.id ≡ p.id
      → purchase_by_id i (put_purchase q rows) ≡ some q
  unfolding purchase_by_id put_purchase
  purchase_by_id-put i h e =
      scalar-save_self _ rows p q h e (let g = scalar_sound _ rows p h in ground arith)

pub purchase_by_id_sound :
    (i : ℕ) (rows : List MembershipPurchase) (p : MembershipPurchase)
    → purchase_by_id i rows ≡ some p
    → p.id ≡ i
unfolding purchase_by_id
purchase_by_id_sound i rows p h = get_sound i rows p h

-- The row of a payment number is the row of its identifier.
pub purchase_by_no-id :
    (n : ℕ) (rows : List MembershipPurchase) (p : MembershipPurchase)
    → Distinct rows
    → purchase_by_no n rows ≡ some p
    → purchase_by_id p.id rows ≡ some p
unfolding purchase_by_no purchase_by_id
purchase_by_no-id n rows p u h = get-scalar _ rows p u h

pub qr_by_no-put :
    (n : ℕ) (rows : List MembershipPaymentAttempt) (a b : MembershipPaymentAttempt)
    → qr_by_no n rows ≡ some a
    → b.id ≡ a.id
    → b.payment_no ≡ a.payment_no
    → qr_by_no n (put_qr b rows) ≡ some b
unfolding qr_by_no put_qr
qr_by_no-put n rows a b h e f =
    scalar-save_self _ rows a b h e (let g = scalar_sound _ rows a h in ground arith)

module _ (t : ℕ) (rows : List MembershipPaymentCallbackEvent) where
  pub event-put :
      (x y : MembershipPaymentCallbackEvent)
      → event_by_transaction t rows ≡ some x
      → y.id ≡ x.id
      → y.provider_transaction_id ≡ x.provider_transaction_id
      → event_by_transaction t (put_event y rows) ≡ some y
  unfolding event_by_transaction put_event
  event-put x y h e f =
      scalar-save_self _ rows x y h e (let g = scalar_sound _ rows x h in ground arith)

  pub event-add :
      (x : MembershipPaymentCallbackEvent)
      → event_by_transaction t rows ≡ none
      → x.provider_transaction_id ≡ some t
      → event_by_transaction t (add x rows) ≡ some x
  unfolding event_by_transaction
  event-add x h e = scalar-add_hit _ rows x h (ground arith)
