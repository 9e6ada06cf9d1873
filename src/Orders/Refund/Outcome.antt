-- ===== src/Orders/Refund/Outcome.antt =====
-- What becomes of a refund that the provider answered.
use travel_latest.Base.{ℕ, ◌≡◌, refl, Bool, true, false, none, some, arith, Bool-cases, inl, inr}
use travel_latest.Base.Exec.{Result, ok, ◌>>=◌, Session}
use travel_latest.Orders.Model.{
  Db, TravelOrder, PaymentRecord, RefundRecord, OrderStatus, PaymentStatus, FulfillmentStatus,
  RefundStatus, OrderError, Triple,
}
use travel_latest.Orders.Transition.{current, put_triple, failed_or}
use travel_latest.Orders.Transition.Lifecycle.{IsCoherent}
use travel_latest.Orders.Transition.Outcomes.{refunding_targets}
use travel_latest.Orders.Tables.{order_by_id, payment_by_id, refund_by_id, put_refund}
use travel_latest.Orders.Tables.Laws.{
  order_by_id_sound, order_by_id-put, refund_by_id_sound, refund_by_id-put,
}
use travel_latest.Orders.Session.{new_uuid, enqueue, save_order, save_refund}
use travel_latest.Orders.Session.Advance.{advance_permitted, advanced-found}
use travel_latest.Orders.Alipay.{TradeRefundResult}
use travel_latest.Orders.Refund.{accept_refund, reject_order, reject_refund, is_failed_fulfillment}

-- A refund with its payment and its order, which waits for the provider's answer.
pub record IsAwaited (i : ℕ) (r : RefundRecord) (p : PaymentRecord) (o : TravelOrder) (d : Db)
    : Type 0 where
  pub refund : refund_by_id i d.refunds ≡ some r
  pub payment : payment_by_id r.payment_id d.payments ≡ some p
  pub order : order_by_id p.order_id d.orders ≡ some o
  pub refunding : o.status ≡ OrderStatus.refunding
  pub coherent : IsCoherent (current o)

-- The statuses of the order, by its fulfillment status, and of its refund after the answer.
abbrev pub order_after : Bool → FulfillmentStatus → Triple
order_after true f =
    (OrderStatus.refunded, PaymentStatus.refunded, failed_or f FulfillmentStatus.not_supported)
order_after false FulfillmentStatus.failed =
    (OrderStatus.ticket_failed_awaiting_refund, PaymentStatus.paid, FulfillmentStatus.failed)
order_after false _ = (OrderStatus.failed, PaymentStatus.failed, FulfillmentStatus.failed)

abbrev pub refund_after : Bool → RefundStatus
refund_after true = RefundStatus.refunded
refund_after false = RefundStatus.failed

-- The tables after the answer, for the refund `i` and the order `j`, which was at `f`.
pub record IsAnswered (valid : Bool) (i j : ℕ) (f : FulfillmentStatus) (r : Result OrderError Unit)
    (d : Db) : Type 0 where
  pub returned : r ≡ ok tt
  pub refund : RefundRecord
  pub refund_found : refund_by_id i d.refunds ≡ some refund
  pub refund_status : refund.status ≡ refund_after valid
  pub order : TravelOrder
  pub order_found : order_by_id j d.orders ≡ some order
  pub order_status : current order ≡ order_after valid f

-- Two runs with the same outcome.
pub IsAnswered-by :
    {b c : Bool} {i j : ℕ} {f : FulfillmentStatus} {x y : Result OrderError Unit × Db}
    → b ≡ c
    → x ≡ y
    → IsAnswered c i j f y.0 y.1
    → IsAnswered b i j f x.0 x.1
IsAnswered-by {i = i} {j = j} {f = f} p q a = rw (p, q) a

-- The session after the refund was written back.
abbrev refunded : RefundRecord → Session Db → Session Db
refunded r s = record s { db = record s.db { refunds = put_refund r s.db.refunds } }

pub accept_refund_lem :
    (now i j : ℕ) (r : RefundRecord) (o : TravelOrder) (result : TradeRefundResult) (s : Session Db)
    → refund_by_id i s.db.refunds ≡ some r
    → order_by_id j s.db.orders ≡ some o
    → o.status ≡ OrderStatus.refunding
    → IsCoherent (current o)
    → let (x, s') = accept_refund now r o result s in
      IsAnswered true i j o.fulfillment_status x s'.saved
unfolding accept_refund new_uuid enqueue save_refund ◌>>=◌
accept_refund_lem now i j r o result s e f w c =
    let r' = record r {
      status = RefundStatus.refunded;
      provider_refund_id = result.trade_no;
      completed_at = some now;
      failure_code = none;
    } in
    let target = order_after true o.fulfillment_status in
    let targets = refunding_targets o.status o.payment_status o.fulfillment_status w c in
    let step = advance_permitted o target (refunded r' s) (ground arith) in
    record {
      returned = ground (arith, step);
      refund = r';
      refund_found = ground (
        arith,
        step,
        refund_by_id_sound i s.db.refunds r e,
        refund_by_id-put i s.db.refunds r r' e,
      );
      refund_status = refl;
      order = put_triple target o;
      order_found = ground (arith, step, advanced-found j o target (refunded r' s) f);
      order_status = refl;
    }

-- The order after a rejection, and a row with its identifier that writing it back will find.
reject_order_lem :
    (j : ℕ) (o : TravelOrder) (s : Session Db)
    → order_by_id j s.db.orders ≡ some o
    → o.status ≡ OrderStatus.refunding
    → IsCoherent (current o)
    → let (x, s') = reject_order o s in
      (x ≡ ok (put_triple (order_after false o.fulfillment_status) o))
      × (s'.db.refunds ≡ s.db.refunds)
      × (y : TravelOrder) × (order_by_id j s'.db.orders ≡ some y)
      × (y.id ≡ o.id)
unfolding reject_order ◌>>=◌
reject_order_lem j o s f w c =
    let target = order_after false FulfillmentStatus.failed in
    let targets = refunding_targets o.status o.payment_status o.fulfillment_status w c in
    elim (Bool-cases (is_failed_fulfillment o.fulfillment_status)) [
      | inl failed ↦
          let step = advance_permitted o target s (ground arith) in
          (
            ground (arith, step),
            ground (arith, step),
            put_triple target o,
            ground (arith, step, advanced-found j o target s f),
            refl,
          )
      | inr other ↦ (ground arith, ground arith, o, ground arith, refl)
    ]

pub reject_refund_lem :
    (now i j : ℕ) (r : RefundRecord) (o : TravelOrder) (s : Session Db)
    → refund_by_id i s.db.refunds ≡ some r
    → order_by_id j s.db.orders ≡ some o
    → o.status ≡ OrderStatus.refunding
    → IsCoherent (current o)
    → let (x, s') = reject_refund now r o s in IsAnswered false i j o.fulfillment_status x s'.saved
unfolding reject_refund new_uuid enqueue save_refund save_order ◌>>=◌
reject_refund_lem now i j r o s e f w c =
    let r' = record r {
      status = RefundStatus.failed;
      completed_at = some now;
      failure_code = some "REFUND_PROVIDER_REJECTED";
    } in
    let o' = record (put_triple (order_after false o.fulfillment_status) o) {
      failure_code = some "REFUND_PROVIDER_REJECTED";
    } in
    let (done, rows, y, found, same) = reject_order_lem j o (refunded r' s) f w c in
    record {
      returned = ground (arith, done);
      refund = r';
      refund_found = ground (
        arith,
        done,
        rows,
        refund_by_id_sound i s.db.refunds r e,
        refund_by_id-put i s.db.refunds r r' e,
      );
      refund_status = refl;
      order = o';
      order_found = ground (
        arith,
        done,
        same,
        order_by_id_sound j s.db.orders o f,
        order_by_id-put j (reject_order o (refunded r' s)).1.db.orders y o' found,
      );
      order_status = ground arith;
    }
