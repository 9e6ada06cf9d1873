-- ===== src/Orders/Names.antt =====
-- The texts that the columns of backend/app/modules/orders/models.py hold for each status, and
-- the comparison of statuses.
use travel_latest.Base.{ℕ, String, ◌≡◌, ◌↔◌, Bool, true, ◌&&◌, arith, ◌==◌}
use travel_latest.Orders.Model.{
  OrderStatus, PaymentStatus, FulfillmentStatus, TicketStatus, RefundStatus, Triple,
}

abbrev pub order_status_text : OrderStatus → String
order_status_text OrderStatus.pending_confirmation = "PENDING_CONFIRMATION"
order_status_text OrderStatus.paying = "PAYING"
order_status_text OrderStatus.paid_pending_fulfillment = "PAID_PENDING_FULFILLMENT"
order_status_text OrderStatus.confirmed = "CONFIRMED"
order_status_text OrderStatus.failed = "FAILED"
order_status_text OrderStatus.ticket_failed_awaiting_refund = "TICKET_FAILED_AWAITING_REFUND"
order_status_text OrderStatus.refunding = "REFUNDING"
order_status_text OrderStatus.refunded = "REFUNDED"
order_status_text OrderStatus.closed = "CLOSED"

abbrev pub payment_status_text : PaymentStatus → String
payment_status_text PaymentStatus.pending = "pending"
payment_status_text PaymentStatus.paying = "paying"
payment_status_text PaymentStatus.paid = "paid"
payment_status_text PaymentStatus.failed = "failed"
payment_status_text PaymentStatus.refunding = "refunding"
payment_status_text PaymentStatus.refunded = "refunded"

abbrev pub fulfillment_status_text : FulfillmentStatus → String
fulfillment_status_text FulfillmentStatus.pending_confirmation = "pending_confirmation"
fulfillment_status_text FulfillmentStatus.confirming = "confirming"
fulfillment_status_text FulfillmentStatus.confirmed = "confirmed"
fulfillment_status_text FulfillmentStatus.failed = "failed"
fulfillment_status_text FulfillmentStatus.not_supported = "not_supported"

abbrev pub ticket_status_text : TicketStatus → String
ticket_status_text TicketStatus.pending = "pending"
ticket_status_text TicketStatus.issued = "issued"
ticket_status_text TicketStatus.failed = "failed"

abbrev pub refund_status_text : RefundStatus → String
refund_status_text RefundStatus.requested = "requested"
refund_status_text RefundStatus.processing = "processing"
refund_status_text RefundStatus.refunded = "refunded"
refund_status_text RefundStatus.failed = "failed"

-- Statuses are compared through their position in the check constraints of the tables.
abbrev pub order_status_index : OrderStatus → ℕ
order_status_index OrderStatus.pending_confirmation = 0
order_status_index OrderStatus.paying = 1
order_status_index OrderStatus.paid_pending_fulfillment = 2
order_status_index OrderStatus.confirmed = 3
order_status_index OrderStatus.failed = 4
order_status_index OrderStatus.ticket_failed_awaiting_refund = 5
order_status_index OrderStatus.refunding = 6
order_status_index OrderStatus.refunded = 7
order_status_index OrderStatus.closed = 8

abbrev pub payment_status_index : PaymentStatus → ℕ
payment_status_index PaymentStatus.pending = 0
payment_status_index PaymentStatus.paying = 1
payment_status_index PaymentStatus.paid = 2
payment_status_index PaymentStatus.failed = 3
payment_status_index PaymentStatus.refunding = 4
payment_status_index PaymentStatus.refunded = 5

abbrev pub fulfillment_status_index : FulfillmentStatus → ℕ
fulfillment_status_index FulfillmentStatus.pending_confirmation = 0
fulfillment_status_index FulfillmentStatus.confirming = 1
fulfillment_status_index FulfillmentStatus.confirmed = 2
fulfillment_status_index FulfillmentStatus.failed = 3
fulfillment_status_index FulfillmentStatus.not_supported = 4

abbrev pub eq_order_status : OrderStatus → OrderStatus → Bool
eq_order_status a b = order_status_index a == order_status_index b

abbrev pub eq_payment_status : PaymentStatus → PaymentStatus → Bool
eq_payment_status a b = payment_status_index a == payment_status_index b

abbrev pub eq_fulfillment_status : FulfillmentStatus → FulfillmentStatus → Bool
eq_fulfillment_status a b = fulfillment_status_index a == fulfillment_status_index b

-- Python's equality of two tuples of statuses.
unfoldable pub eq_triple : Triple → Triple → Bool
eq_triple (s, p, f) (s', p', f') =
    eq_order_status s s' && eq_payment_status p p' && eq_fulfillment_status f f'

eq_order_status_iff : (a b : OrderStatus) → (eq_order_status a b ≡ true) ↔ (a ≡ b)
eq_order_status_iff a b = ground arith

eq_payment_status_iff : (a b : PaymentStatus) → (eq_payment_status a b ≡ true) ↔ (a ≡ b)
eq_payment_status_iff a b = ground arith

eq_fulfillment_status_iff : (a b : FulfillmentStatus) → (eq_fulfillment_status a b ≡ true) ↔ (a ≡ b)
eq_fulfillment_status_iff a b = ground arith

pub eq_triple_iff : (t u : Triple) → (eq_triple t u ≡ true) ↔ (t ≡ u)
unfolding eq_triple
eq_triple_iff (s, p, f) (s', p', f') =
    grind
      (arith, eq_order_status_iff s s', eq_payment_status_iff p p', eq_fulfillment_status_iff f f')
