-- ===== src/Orders/Confirm/Outcome.antt =====
-- What becomes of an order when its supplier answers.
use travel_latest.Base.{ℕ, String, ◌≡◌, Bool, true, false, not, ◌&&◌, Option, some, str_eq}
use travel_latest.Base.Exec.{Result, ok}
use travel_latest.Orders.Model.{
  Db, TravelOrder, FulfillmentAttempt, OrderStatus, PaymentStatus, FulfillmentStatus, AttemptStatus,
  OrderError, Triple,
}
use travel_latest.Orders.Transition.{current}
use travel_latest.Orders.Transition.Lifecycle.{IsCoherent}
use travel_latest.Orders.Tables.{order_by_id, attempt_by_id}
use travel_latest.Orders.Fulfillment.{FulfillmentWork, ConfirmationResult}
use travel_latest.Orders.Confirm.{attempt_status_of}

-- The order and the attempt of a piece of work whose answer is waited for.
pub record IsRunning (w : FulfillmentWork) (o : TravelOrder) (t : FulfillmentAttempt) (d : Db)
    : Type 0 where
  pub order : order_by_id w.travel_order_id d.orders ≡ some o
  pub confirming : o.fulfillment_status ≡ FulfillmentStatus.confirming
  pub coherent : IsCoherent (current o)
  pub attempt : attempt_by_id w.attempt_id d.attempts ≡ some t
  pub running : t.status ≡ AttemptStatus.running

-- The statuses of the order and of the attempt after the answer.
abbrev pub order_after : Bool → Triple
order_after true = (OrderStatus.confirmed, PaymentStatus.paid, FulfillmentStatus.confirmed)
order_after false = (OrderStatus.failed, PaymentStatus.failed, FulfillmentStatus.failed)

abbrev pub attempt_after : Bool → AttemptStatus
attempt_after true = AttemptStatus.succeeded
attempt_after false = AttemptStatus.failed

-- The tables after the answer.
pub record IsAnswered (confirmed : Bool) (w : FulfillmentWork) (r : Result OrderError Unit) (d : Db)
    : Type 0 where
  pub returned : r ≡ ok tt
  pub order : TravelOrder
  pub order_found : order_by_id w.travel_order_id d.orders ≡ some order
  pub order_status : current order ≡ order_after confirmed
  pub attempt : FulfillmentAttempt
  pub attempt_found : attempt_by_id w.attempt_id d.attempts ≡ some attempt
  pub attempt_status : attempt.status ≡ attempt_after confirmed
  pub same_code : attempt.failure_code ≡ order.failure_code

abbrev completed :
    ℕ → OrderStatus → Option String → ConfirmationResult → FulfillmentAttempt → FulfillmentAttempt
completed now status code result t = record t {
  status = attempt_status_of status;
  failure_code = code;
  external_confirmation_id = result.supplier_confirmation_id;
  redacted_result = some (result.confirmed, result.code);
  completed_at = some now;
}

-- `answer` is one that the order can be settled by: not the code for an outage.
abbrev pub is_outage : ConfirmationResult → Bool
is_outage answer = not answer.confirmed && str_eq answer.code "SUPPLIER_UNAVAILABLE"
