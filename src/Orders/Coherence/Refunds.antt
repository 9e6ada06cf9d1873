-- ===== src/Orders/Coherence/Refunds.antt =====
-- Refunds, and new orders.
use travel_latest.Base.{ℕ, ◌≡◌, Option, none, arith, String, List}
use travel_latest.Base.Exec.{Session, ok, ◌>>=◌, modify, pure}
use travel_latest.Orders.Session.{M}
use travel_latest.Orders.Model.{
  Db, TravelOrder, OrderStatus, PaymentStatus, FulfillmentStatus, TravelOffer, TravelSearchJob,
  PaymentRecord, RefundRecord,
}
use travel_latest.Orders.Alipay.{AlipayAdapter, TradeRefundResult}
use travel_latest.Orders.Passengers.{Passenger}
use travel_latest.Orders.Create.{
  place_order, check_passengers, add_ticket, create_from_offer, new_order,
}
use travel_latest.Orders.Refund.{
  request_refund, create_refund, accept_refund, reject_refund, reject_order, finish_refund,
  begin_refund, process_refund,
}
use travel_latest.Base.Exec.Keeps.{Keeps-bind_with, Keeps-modify}
use travel_latest.Base.Tables.{add}
use travel_latest.Orders.Coherence.{
  Coherent, IsCoherentOrder, advance-returns, coherence, add-IsCoherent, new_order-IsCoherent,
  rejected-IsCoherent,
}

request_refund-Coherent :
    (now : ℕ) (o : TravelOrder) (p : PaymentRecord) (u k a : ℕ) (cur why : String)
    → Coherent (request_refund now o p u k a cur why)
unfolding request_refund
request_refund-Coherent now o p u k a cur why = search coherence depth 20

pub create_refund-Coherent :
    (now : ℕ) (ad : Option AlipayAdapter) (i u k a : ℕ) (cur why : String)
    → Coherent (create_refund now ad i u k a cur why)
unfolding create_refund
create_refund-Coherent now ad i u k a cur why = search (coherence, request_refund-Coherent) depth 20

accept_refund-Coherent :
    (now : ℕ) (r : RefundRecord) (o : TravelOrder) (res : TradeRefundResult)
    → Coherent (accept_refund now r o res)
unfolding accept_refund
accept_refund-Coherent now r o res = search coherence depth 20

reject_order-Coherent : (o : TravelOrder) → Coherent (reject_order o)
unfolding reject_order
reject_order-Coherent o = search coherence depth 5

reject_order-returns :
    (o o' : TravelOrder) (s : Session Db) → (reject_order o s).0 ≡ ok o' → IsCoherentOrder o'
unfolding reject_order pure
reject_order-returns o o' s e = grind (
  arith,
  advance-returns o o' none
      (OrderStatus.ticket_failed_awaiting_refund, PaymentStatus.paid, FulfillmentStatus.failed) s,
  rejected-IsCoherent o,
)

after_rejection :
    {A : Type 0} (o : TravelOrder) (f : TravelOrder → M A)
    → ((changed : TravelOrder) → IsCoherentOrder changed → Coherent (f changed))
    → Coherent (reject_order o >>= f)
after_rejection o f kf =
    Keeps-bind_with IsCoherentOrder _ f (reject_order-Coherent o)
      (λ s o' _ e. reject_order-returns o o' s e) kf

reject_refund-Coherent :
    (now : ℕ) (r : RefundRecord) (o : TravelOrder) → Coherent (reject_refund now r o)
unfolding reject_refund
reject_refund-Coherent now r o = search (after_rejection, coherence) depth 20

pub finish_refund-Coherent :
    (now i : ℕ) (res : TradeRefundResult) → Coherent (finish_refund now i res)
unfolding finish_refund
finish_refund-Coherent now i res =
    search (coherence, accept_refund-Coherent, reject_refund-Coherent) depth 20

pub begin_refund-Coherent : (i : ℕ) → Coherent (begin_refund i)
unfolding begin_refund
begin_refund-Coherent i = search coherence depth 20

pub process_refund-Coherent :
    (now : ℕ) (ad : Option AlipayAdapter) (i : ℕ) → Coherent (process_refund now ad i)
unfolding process_refund
process_refund-Coherent now ad i =
    search (coherence, begin_refund-Coherent, finish_refund-Coherent) depth 20

add_order-Coherent :
    (id number u k : ℕ) (offer : TravelOffer)
    → Coherent (modify (λ d. record d { orders = add (new_order id number u k offer) d.orders }))
add_order-Coherent id number u k offer =
    Keeps-modify _
      λ s c. (add-IsCoherent _ s.db.orders c.0 (new_order-IsCoherent id number u k offer), c.1)

check_passengers-Coherent :
    (job : TravelSearchJob) (ps : List Passenger) → Coherent (check_passengers job ps)
unfolding check_passengers
check_passengers-Coherent job ps = search coherence depth 5

add_ticket-Coherent :
    (o : TravelOrder) (job : TravelSearchJob) (ps : List Passenger) → Coherent (add_ticket o job ps)
unfolding add_ticket
add_ticket-Coherent o job ps = search coherence depth 5

place_order-Coherent :
    (now u off k : ℕ) (ps : List Passenger) → Coherent (place_order now u off k ps)
unfolding place_order
place_order-Coherent now u off k ps =
    search (add_order-Coherent, check_passengers-Coherent, add_ticket-Coherent, coherence) depth 20

pub create_from_offer-Coherent :
    (now u off k : ℕ) (ps : List Passenger) → Coherent (create_from_offer now u off k ps)
unfolding create_from_offer
create_from_offer-Coherent now u off k ps = search (coherence, place_order-Coherent) depth 20
