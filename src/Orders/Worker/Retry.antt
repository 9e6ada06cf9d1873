-- ===== src/Orders/Worker/Retry.antt =====
-- A confirmation that is tried again after an outage of the supplier.
use travel_latest.Base.{ℕ, ◌≡◌, true, some}
use travel_latest.Orders.Model.{
  Db, TravelOrder, FulfillmentAttempt, PaymentRecord, OrderStatus, PaymentStatus, FulfillmentStatus,
  AttemptStatus, Triple,
}
use travel_latest.Orders.Transition.{current, put_triple}
use travel_latest.Orders.Transition.Lifecycle.{IsCoherent}
use travel_latest.Orders.Tables.{is_paid, order_by_id, payment_by_id, attempt_by_order}

-- An order whose confirmation waits to be tried again.
pub record IsRequeued (i : ℕ) (p : PaymentRecord) (o : TravelOrder) (t : FulfillmentAttempt)
    (d : Db) : Type 0 where
  pub payment : payment_by_id i d.payments ≡ some p
  pub paid : is_paid p.status ≡ true
  pub order : order_by_id p.order_id d.orders ≡ some o
  pub statuses : current o ≡ (
    OrderStatus.paid_pending_fulfillment, PaymentStatus.paid,
    FulfillmentStatus.pending_confirmation,
  )
  pub attempt : attempt_by_order o.id d.attempts ≡ some t
  pub queued : t.status ≡ AttemptStatus.queued

-- An order whose supplier was asked for a confirmation.
pub record IsAsked (i : ℕ) (p : PaymentRecord) (o : TravelOrder) (t : FulfillmentAttempt) (d : Db)
    : Type 0 where
  pub payment : payment_by_id i d.payments ≡ some p
  pub paid : is_paid p.status ≡ true
  pub order : order_by_id p.order_id d.orders ≡ some o
  pub confirming : o.fulfillment_status ≡ FulfillmentStatus.confirming
  pub coherent : IsCoherent (current o)
  pub attempt : attempt_by_order p.order_id d.attempts ≡ some t
  pub running : t.status ≡ AttemptStatus.running

abbrev waiting_again : Triple
waiting_again = (
  OrderStatus.paid_pending_fulfillment, PaymentStatus.paid, FulfillmentStatus.pending_confirmation,
)

abbrev requeued : FulfillmentAttempt → FulfillmentAttempt
requeued t = record t { status = AttemptStatus.queued; failure_code = some "SUPPLIER_UNAVAILABLE" }

abbrev asked_again : TravelOrder → TravelOrder
asked_again o = record (put_triple waiting_again o) { failure_code = some "SUPPLIER_UNAVAILABLE" }
