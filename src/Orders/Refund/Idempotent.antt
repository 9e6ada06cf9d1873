-- ===== src/Orders/Refund/Idempotent.antt =====
-- Asking for a refund, and asking again.
use travel_latest.Base.{sym, ℕ, String, ◌≡◌, true, false, none, some, arith}
use mathlib.Core.Path.{subst}
use travel_latest.Base.Exec.{ok, err, ◌>>=◌, begin, request}
use travel_latest.Orders.Model.{
  Db, TravelOrder, PaymentRecord, RefundRecord, OrderStatus, PaymentStatus, FulfillmentStatus,
  refund_not_allowed, Triple,
}
use travel_latest.Orders.Names.{eq_triple}
use travel_latest.Orders.Transition.{failed_or, put_triple}
use travel_latest.Orders.Tables.{order_by_id, paid_payment, refund_by_key}
use travel_latest.Orders.Tables.Laws.{order_by_id_sound, refund_by_key-add}
use travel_latest.Orders.Session.{new_uuid, enqueue}
use travel_latest.Orders.Session.Advance.{advance_ok, advanced-found}
use travel_latest.Orders.Alipay.{AlipayAdapter}
use travel_latest.Orders.Refund.{
  is_refundable, is_wrong_amount, is_foreign_order, request_refund, create_refund,
}

-- The statuses of an order whose refund was asked for.
abbrev pub refunding : TravelOrder → Triple
refunding o = (
  OrderStatus.refunding,
  PaymentStatus.refunding,
  failed_or o.fulfillment_status FulfillmentStatus.pending_confirmation,
)

-- What a new refund leaves, for the order `o` and its payment `p`.
pub record IsRequested (u k : ℕ) (o : TravelOrder) (p : PaymentRecord) (r : RefundRecord) (d : Db)
    : Type 0 where
  pub refundable : is_refundable o ≡ true
  pub amount : r.amount ≡ o.amount
  pub requested_by : r.requested_by ≡ u
  pub payment_id : r.payment_id ≡ p.id
  pub found : refund_by_key p.id k d.refunds ≡ some r
  pub moved : order_by_id o.id d.orders ≡ some (put_triple (refunding o) o)

right_amount :
    (o : TravelOrder) (amount : ℕ) (currency : String)
    → is_wrong_amount o amount currency ≡ false
    → amount ≡ o.amount
unfolding is_wrong_amount
right_amount o amount currency h = ground arith

request_refund_lem :
    (now u k amount : ℕ) (currency reason : String) (o : TravelOrder) (p : PaymentRecord)
    (r : RefundRecord) (d d' : Db)
    → order_by_id o.id d.orders ≡ some o
    → refund_by_key p.id k d.refunds ≡ none
    → request (request_refund now o p u k amount currency reason) d ≡ (ok r, d')
    → IsRequested u k o p r d' × (d'.payments ≡ d.payments)
unfolding request_refund new_uuid enqueue ◌>>=◌
request_refund_lem now u k amount currency reason o p r d d' e f h = (
  record {
    refundable = ground arith;
    amount = ground (arith, right_amount o amount currency);
    requested_by = ground arith;
    payment_id = ground arith;
    found = grind (arith, advance_ok o, refund_by_key-add p.id k d.refunds r f);
    moved = grind (arith, advance_ok o, advanced-found o.id o (refunding o) (begin d) e);
  },
  grind (arith, advance_ok o),
)

-- Without a refund under the key, the request is `request_refund` for the order's owner.
create_refund_new :
    (now i u k amount : ℕ) (a : AlipayAdapter) (currency reason : String) (o : TravelOrder)
    (p : PaymentRecord) (r : RefundRecord) (d d' : Db)
    → order_by_id i d.orders ≡ some o
    → paid_payment o.id d.payments ≡ some p
    → refund_by_key p.id k d.refunds ≡ none
    → request (create_refund now (some a) i u k amount currency reason) d ≡ (ok r, d')
    → (is_foreign_order o u ≡ false)
      × (request (request_refund now o p u k amount currency reason) d ≡ (ok r, d'))
unfolding create_refund ◌>>=◌
create_refund_new now i u k amount a currency reason o p r d d' e f g h = ground arith

-- A refund that is granted under a new key is for the whole amount of an order that its owner may
-- have refunded, is on record under the key, and moves the order to the status of being refunded.
pub create_refund_granted :
    (now i u k amount : ℕ) (a : AlipayAdapter) (currency reason : String) (o : TravelOrder)
    (p : PaymentRecord) (r : RefundRecord) (d d' : Db)
    → order_by_id i d.orders ≡ some o
    → paid_payment o.id d.payments ≡ some p
    → refund_by_key p.id k d.refunds ≡ none
    → request (create_refund now (some a) i u k amount currency reason) d ≡ (ok r, d')
    → (is_foreign_order o u ≡ false) × IsRequested u k o p r d'
create_refund_granted now i u k amount a currency reason o p r d d' e f g h =
    let (owner, same) = create_refund_new now i u k amount a currency reason o p r d d' e f g h in
    let id = order_by_id_sound i d.orders o e in
    (
      owner,
      (request_refund_lem now u k amount currency reason o p r d d'
          (subst (λ j. order_by_id j d.orders ≡ some o) (sym id) e) g same).0,
    )

-- A key that is there gives its refund back, and nothing is written.
create_refund_existing :
    (now i u k amount : ℕ) (a : AlipayAdapter) (currency reason : String) (o : TravelOrder)
    (p : PaymentRecord) (r : RefundRecord) (d : Db)
    → order_by_id i d.orders ≡ some o
    → is_foreign_order o u ≡ false
    → paid_payment o.id d.payments ≡ some p
    → refund_by_key p.id k d.refunds ≡ some r
    → request (create_refund now (some a) i u k amount currency reason) d ≡ (ok r, d)
unfolding create_refund ◌>>=◌
create_refund_existing now i u k amount a currency reason o p r d e c f g = ground arith

-- What a granted refund leaves for the requests after it.
refunding_order :
    (now i u k amount : ℕ) (a : AlipayAdapter) (currency reason : String) (o : TravelOrder)
    (p : PaymentRecord) (r : RefundRecord) (d d' : Db)
    → order_by_id i d.orders ≡ some o
    → paid_payment o.id d.payments ≡ some p
    → refund_by_key p.id k d.refunds ≡ none
    → request (create_refund now (some a) i u k amount currency reason) d ≡ (ok r, d')
    → (order_by_id i d'.orders ≡ some (put_triple (refunding o) o))
      × (is_foreign_order (put_triple (refunding o) o) u ≡ false)
      × (paid_payment o.id d'.payments ≡ some p)
      × (refund_by_key p.id k d'.refunds ≡ some r)
unfolding is_foreign_order
refunding_order now i u k amount a currency reason o p r d d' e f g h =
    let (owner, same) = create_refund_new now i u k amount a currency reason o p r d d' e f g h in
    let id = order_by_id_sound i d.orders o e in
    let (asked, rows) =
      request_refund_lem now u k amount currency reason o p r d d'
        (subst (λ j. order_by_id j d.orders ≡ some o) (sym id) e) g same in
    (
      subst (λ j. order_by_id j d'.orders ≡ some (put_triple (refunding o) o)) id asked.moved,
      owner,
      ground arith,
      asked.found,
    )

refunding-is_refundable : (o : TravelOrder) → is_refundable (put_triple (refunding o) o) ≡ false
unfolding is_refundable eq_triple
refunding-is_refundable o = ground arith

-- While the refund is under way, the same request under its key returns it and writes nothing.
pub create_refund_again :
    (now now' i u k amount : ℕ) (a : AlipayAdapter) (currency reason : String) (o : TravelOrder)
    (p : PaymentRecord) (r : RefundRecord) (d d' : Db)
    → order_by_id i d.orders ≡ some o
    → paid_payment o.id d.payments ≡ some p
    → refund_by_key p.id k d.refunds ≡ none
    → request (create_refund now (some a) i u k amount currency reason) d ≡ (ok r, d')
    → request (create_refund now' (some a) i u k amount currency reason) d' ≡ (ok r, d')
create_refund_again now now' i u k amount a currency reason o p r d d' e f g h =
    let (found, owner, payment, refund) =
      refunding_order now i u k amount a currency reason o p r d d' e f g h in
    create_refund_existing now' i u k amount a currency reason (put_triple (refunding o) o) p r d'
      found owner payment refund

-- While the refund is under way, a request of the owner under a key that is new is refused, whatever
-- its amount, and nothing is written: an order has one refund at a time.
pub second_refund_refused :
    (now now' i u k k' amount amount' : ℕ) (a : AlipayAdapter) (currency reason : String)
    (o : TravelOrder) (p : PaymentRecord) (r : RefundRecord) (d d' : Db)
    → order_by_id i d.orders ≡ some o
    → paid_payment o.id d.payments ≡ some p
    → refund_by_key p.id k d.refunds ≡ none
    → request (create_refund now (some a) i u k amount currency reason) d ≡ (ok r, d')
    → refund_by_key p.id k' d'.refunds ≡ none
    → request (create_refund now' (some a) i u k' amount' currency reason) d'
      ≡ (err refund_not_allowed, d')
unfolding create_refund request_refund ◌>>=◌
second_refund_refused now now' i u k k' amount amount' a currency reason o p r d d' e f g h fresh =
    let before = refunding_order now i u k amount a currency reason o p r d d' e f g h in
    let closed = refunding-is_refundable o in ground arith
