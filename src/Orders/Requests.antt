-- ===== src/Orders/Requests.antt =====
-- All that can change the tables of the orders: the routes of
-- backend/app/modules/orders/router.py and the worker's handlers, each with the answers that the
-- providers give. Each runs on a session of its own, whose uncommitted writes are lost.
pub mod Invariant
use travel_latest.Base.{ℕ, String, Option, List, [], ◌∷◌}
use travel_latest.Base.Exec.{request}
use travel_latest.Orders.Model.{Db, TravelOrder}
use travel_latest.Orders.Passengers.{Passenger}
use travel_latest.Orders.Create.{create_from_offer}
use travel_latest.Orders.Ticket.{OfferProvider, TicketIssuer}
use travel_latest.Orders.Confirm.{Supplier}
use travel_latest.Orders.Alipay.{AlipayAdapter, CallbackForm}
use travel_latest.Orders.Checkout.{create_checkout}
use travel_latest.Orders.Callback.{handle_callback, query_order_payment}
use travel_latest.Orders.Refund.{create_refund, process_refund}
use travel_latest.Orders.Worker.{fulfill_paid_order}

pub data Request : Type 0 where
  place : ℕ → ℕ → ℕ → ℕ → List Passenger → Request
  check_out : ℕ → (ℕ → ℕ → ℕ) → Option AlipayAdapter → ℕ → ℕ → Request
  query_payment : ℕ → Option AlipayAdapter → TravelOrder → Request
  call_back : ℕ → Option AlipayAdapter → CallbackForm → Request
  ask_refund : ℕ → Option AlipayAdapter → ℕ → ℕ → ℕ → ℕ → String → String → Request
  payment_paid : ℕ → OfferProvider → TicketIssuer → Supplier → ℕ → Request
  refund_requested : ℕ → Option AlipayAdapter → ℕ → Request

-- The tables after one request.
unfoldable pub perform : Request → Db → Db
perform (place now u off k ps) d = (request (create_from_offer now u off k ps) d).1
perform (check_out now digest a i k) d = (request (create_checkout now digest a i k) d).1
perform (query_payment now a o) d = (request (query_order_payment now a o) d).1
perform (call_back now a form) d = (request (handle_callback now a form) d).1
perform (ask_refund now a i u k amount currency reason) d =
    (request (create_refund now a i u k amount currency reason) d).1
perform (payment_paid now provider issuer supplier i) d =
    (request (fulfill_paid_order now provider issuer supplier i) d).1
perform (refund_requested now a i) d = (request (process_refund now a i) d).1

unfoldable pub perform_all : List Request → Db → Db
unfolding perform
perform_all [] d = d
perform_all (r ∷ rs) d = perform_all rs (perform r d)
