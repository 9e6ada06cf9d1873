-- ===== src/Orders/Tables.antt =====
-- The queries of backend/app/modules/orders/services.py, and the writes that assignments to a loaded
-- row make. The rows come back in the order in which they were added.
pub mod Laws
use travel_latest.Base.{
  ℕ, Bool, true, false, ◌&&◌, Option, none, some, List, [], ◌∷◌, ◌==◌, leb, if◌then◌else◌,
}
use travel_latest.Base.Tables.{scalar, get, save}
use travel_latest.Orders.Model.{
  TravelSearchJob, TravelOffer, TravelOrder, FulfillmentAttempt, MockTransportTicket, PaymentRecord,
  PaymentCallbackEvent, RefundRecord, PaymentStatus, RefundStatus, offer_key, order_key,
  attempt_key, ticket_key, payment_key, callback_key, refund_key,
}

-- A nullable column against a value.
abbrev pub holds : Option ℕ → ℕ → Bool
holds none i = false
holds (some j) i = j == i

abbrev pub is_paid : PaymentStatus → Bool
is_paid PaymentStatus.paid = true
is_paid _ = false

-- `status in ("pending", "paying")`
abbrev pub is_active_payment : PaymentStatus → Bool
is_active_payment PaymentStatus.pending = true
is_active_payment PaymentStatus.paying = true
is_active_payment _ = false

-- `status in ("requested", "processing")`
abbrev pub is_active_refund : RefundStatus → Bool
is_active_refund RefundStatus.requested = true
is_active_refund RefundStatus.processing = true
is_active_refund _ = false

unfoldable pub offer_by_id : ℕ → List TravelOffer → Option TravelOffer
offer_by_id i = get i

unfoldable pub job_of_offer : ℕ → ℕ → List TravelSearchJob → Option TravelSearchJob
job_of_offer offer_job user_id = scalar (λ j. j.id == offer_job && j.user_id == user_id)

unfoldable pub order_by_id : ℕ → List TravelOrder → Option TravelOrder
order_by_id i = get i

unfoldable pub order_by_key : ℕ → ℕ → List TravelOrder → Option TravelOrder
order_by_key user_id key = scalar (λ o. o.user_id == user_id && o.idempotency_key == key)

unfoldable pub attempt_by_id : ℕ → List FulfillmentAttempt → Option FulfillmentAttempt
attempt_by_id i = get i

unfoldable pub attempt_by_order : ℕ → List FulfillmentAttempt → Option FulfillmentAttempt
attempt_by_order order_id = scalar (λ a. a.order_id == order_id)

unfoldable pub ticket_by_order : ℕ → List MockTransportTicket → Option MockTransportTicket
ticket_by_order order_id = scalar (λ t. t.order_id == order_id)

unfoldable pub payment_by_id : ℕ → List PaymentRecord → Option PaymentRecord
payment_by_id i = get i

unfoldable pub payment_by_key : ℕ → ℕ → List PaymentRecord → Option PaymentRecord
payment_by_key order_id key = scalar (λ p. p.order_id == order_id && p.idempotency_key == key)

unfoldable pub payment_by_no : ℕ → List PaymentRecord → Option PaymentRecord
payment_by_no payment_no = scalar (λ p. p.payment_no == payment_no)

unfoldable pub paid_payment : ℕ → List PaymentRecord → Option PaymentRecord
paid_payment order_id = scalar (λ p. p.order_id == order_id && is_paid p.status)

unfoldable pub active_payment : ℕ → List PaymentRecord → Option PaymentRecord
active_payment order_id = scalar (λ p. p.order_id == order_id && is_active_payment p.status)

unfoldable pub callback_by_transaction : ℕ → List PaymentCallbackEvent → Option PaymentCallbackEvent
callback_by_transaction trade_no = scalar (λ c. holds c.provider_transaction_id trade_no)

unfoldable pub refund_by_id : ℕ → List RefundRecord → Option RefundRecord
refund_by_id i = get i

unfoldable pub refund_by_key : ℕ → ℕ → List RefundRecord → Option RefundRecord
refund_by_key payment_id key = scalar (λ r. r.payment_id == payment_id && r.idempotency_key == key)

unfoldable pub active_refund : ℕ → List RefundRecord → Option RefundRecord
active_refund payment_id = scalar (λ r. r.payment_id == payment_id && is_active_refund r.status)

-- `order_by(created_at.desc())`: the latest of the payments of an order; of two that were created
-- at one instant, the first.
abbrev pub later_payment : PaymentRecord → Option PaymentRecord → PaymentRecord
later_payment p none = p
later_payment p (some q) = if leb q.created_at p.created_at then p else q

unfoldable pub latest_payment : ℕ → List PaymentRecord → Option PaymentRecord
latest_payment order_id [] = none
latest_payment order_id (p ∷ rows) =
    let rest = latest_payment order_id rows in
    if p.order_id == order_id then some (later_payment p rest) else rest

unfoldable pub put_order : TravelOrder → List TravelOrder → List TravelOrder
put_order = save

unfoldable pub put_attempt : FulfillmentAttempt → List FulfillmentAttempt → List FulfillmentAttempt
put_attempt = save

unfoldable pub put_ticket :
    MockTransportTicket → List MockTransportTicket → List MockTransportTicket
put_ticket = save

unfoldable pub put_payment : PaymentRecord → List PaymentRecord → List PaymentRecord
put_payment = save

unfoldable pub put_callback :
    PaymentCallbackEvent → List PaymentCallbackEvent → List PaymentCallbackEvent
put_callback = save

unfoldable pub put_refund : RefundRecord → List RefundRecord → List RefundRecord
put_refund = save
