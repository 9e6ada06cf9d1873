-- ===== src/Orders/Samples.antt =====
-- Concrete rows, providers and answers for the tests of the orders.
use travel_latest.Base.{true, Option, none, some, [], ◌∷◌}
use travel_latest.Base.Signed.{pos}
use travel_latest.Events.Outbox.{int}
use travel_latest.Orders.Model.{
  Db, TravelSearchJob, TravelOffer, TravelOrder, FulfillmentAttempt, MockTransportTicket,
  PaymentRecord, RefundRecord, OrderStatus, PaymentStatus, FulfillmentStatus, AttemptStatus,
  TicketStatus, RefundStatus, SearchType, Triple,
}
use travel_latest.Orders.Fulfillment.{raised, FulfillmentWork, ConfirmationResult}
use travel_latest.Orders.Ticket.{OfferValidation, MockTicketIssueResult}
use travel_latest.Orders.Alipay.{AlipayAdapter, VerifiedAlipayCallback, TradeRefundResult}

abbrev pub hotel_job : TravelSearchJob
hotel_job = record {
  id = 1;
  user_id = 1;
  idempotency_key = 1;
  search_type = SearchType.hotel;
  passenger_count = int 1;
  status = "completed";
  source = "mock";
  unavailable_code = none;
}

abbrev pub hotel_offer : TravelOffer
hotel_offer = record {
  id = 2;
  search_job_id = 1;
  source = "mock";
  external_offer_id = 20;
  title = "Hotel";
  amount = 5000;
  currency = "CNY";
  available = true;
  valid_until = 100;
  snapshot = [];
}

-- An order of user 1 at the given statuses.
abbrev pub order_at : Triple → TravelOrder
order_at (s, p, f) = record {
  id = 3;
  user_id = 1;
  offer_id = 2;
  idempotency_key = 9;
  order_no = 30;
  amount = 5000;
  currency = "CNY";
  offer_snapshot = [];
  status = s;
  payment_status = p;
  fulfillment_status = f;
  failure_code = none;
}

abbrev pub paying_order : TravelOrder
paying_order =
    order_at (OrderStatus.paying, PaymentStatus.paying, FulfillmentStatus.pending_confirmation)

abbrev pub paid_order : TravelOrder
paid_order = order_at (
  OrderStatus.paid_pending_fulfillment, PaymentStatus.paid, FulfillmentStatus.pending_confirmation,
)

abbrev pub confirming_order : TravelOrder
confirming_order =
    order_at
      (OrderStatus.paid_pending_fulfillment, PaymentStatus.paid, FulfillmentStatus.confirming)

abbrev pub refunding_order : TravelOrder
refunding_order =
    order_at
      (OrderStatus.refunding, PaymentStatus.refunding, FulfillmentStatus.pending_confirmation)

abbrev pub payment_at : PaymentStatus → PaymentRecord
payment_at s = record {
  id = 4;
  order_id = 3;
  idempotency_key = 8;
  payment_no = 5;
  amount = 5000;
  currency = "CNY";
  status = s;
  provider_transaction_id = none;
  paid_at = none;
  created_at = 10;
}

abbrev pub running_attempt : FulfillmentAttempt
running_attempt = record {
  id = 6;
  order_id = 3;
  source = "mock";
  idempotency_key = 3;
  status = AttemptStatus.running;
  external_confirmation_id = none;
  failure_code = none;
  redacted_result = none;
  attempt_count = 1;
  last_attempt_at = some 20;
  started_at = some 20;
  completed_at = none;
}

abbrev pub pending_ticket : MockTransportTicket
pending_ticket = record {
  id = 7;
  order_id = 3;
  transport_type = SearchType.train;
  status = TicketStatus.pending;
  mock_ticket_no = none;
  seat_assignments = [];
  passenger_facts = [];
  failure_code = none;
}

abbrev pub requested_refund : RefundRecord
requested_refund = record {
  id = 8;
  payment_id = 4;
  idempotency_key = 7;
  refund_no = 80;
  amount = 5000;
  currency = "CNY";
  reason = "plans changed";
  requested_by = 1;
  status = RefundStatus.requested;
  provider_refund_id = none;
  completed_at = none;
  failure_code = none;
}

abbrev pub searched : Db
searched = record {
  jobs = hotel_job ∷ [];
  offers = hotel_offer ∷ [];
  orders = [];
  attempts = [];
  tickets = [];
  payments = [];
  callbacks = [];
  refunds = [];
  outbox = [];
  next_uuid = 100;
}

-- The tables with one order and one payment.
abbrev pub ordered : TravelOrder → PaymentStatus → Db
ordered o s = record searched { orders = o ∷ []; payments = payment_at s ∷ [] }

abbrev pub paying : Db
paying = ordered paying_order PaymentStatus.paying

abbrev pub paid : Db
paid = ordered paid_order PaymentStatus.paid

abbrev pub ticketed : Db
ticketed = record paid { tickets = pending_ticket ∷ [] }

abbrev pub confirming : Db
confirming = record (ordered confirming_order PaymentStatus.paid) {
  attempts = running_attempt ∷ [];
}

abbrev pub refunding : Db
refunding = record (ordered refunding_order PaymentStatus.paid) { refunds = requested_refund ∷ [] }

abbrev pub refund_answer : TradeRefundResult
refund_answer = record {
  out_trade_no = some 5;
  trade_no = some 55;
  out_request_no = some 80;
  refund_fee = some (pos 5000);
  fund_change = some "Y";
  gateway_code = "10000";
}

abbrev pub provider_with : Option TradeRefundResult → AlipayAdapter
provider_with answer = record {
  app_id = "app";
  create_wap_redirect = λ request. some "https://pay.example";
  create_precreate = λ request. some "qr";
  verify_callback = λ form. none;
  query_trade = λ payment_no. raised;
  refund_trade = λ request. answer;
}

abbrev pub paid_callback : VerifiedAlipayCallback
paid_callback = record {
  out_trade_no = 5;
  trade_no = 55;
  trade_status = "TRADE_SUCCESS";
  total_amount = pos 5000;
}

abbrev pub still_valid : OfferValidation
still_valid = record { valid = true; code = "OK" }

abbrev pub ticket_issued : MockTicketIssueResult
ticket_issued = record {
  issued = true;
  code = "OK";
  mock_ticket_no = some "T1";
  seat_assignments = [];
}

abbrev pub confirmation_work : FulfillmentWork
confirmation_work = record {
  travel_order_id = 3;
  attempt_id = 6;
  confirmation = record {
    source = "mock";
    external_offer_id = 20;
    order_reference = 30;
    idempotency_key = 3;
  };
}

abbrev pub supplier_confirmed : ConfirmationResult
supplier_confirmed = record { confirmed = true; code = "OK"; supplier_confirmation_id = some 66 }
