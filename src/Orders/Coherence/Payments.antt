-- ===== src/Orders/Coherence/Payments.antt =====
-- Payments.
use travel_latest.Base.{ℕ, Option, String}
use travel_latest.Base.Exec.{Session, Result, ok, err, ◌>>◌, raise}
use travel_latest.Orders.Session.{M}
use travel_latest.Orders.Model.{
  OrderError, payment_provider_unavailable, payment_provider_invalid_response, Db, TravelOrder,
  PaymentRecord,
}
use travel_latest.Orders.Alipay.{
  AlipayAdapter, VerifiedAlipayCallback, TradeQueryResult, CallbackForm,
}
use travel_latest.Orders.Fulfillment.{Reply, raised, malformed, reply}
use travel_latest.Orders.Checkout.{open_payment, redirect_to, create_checkout}
use travel_latest.Orders.Settle.{callback_row, mark_paid, start_fulfillment, apply_callback, settle}
use travel_latest.Orders.Callback.{
  record_rejected_callback, record_verified_callback_failure, handle_callback, record_failure,
  after_settlement, answer_query, query_order_payment,
}
use travel_latest.Base.Exec.Keeps.{Keeps-raise}
use travel_latest.Orders.Coherence.{Coherent, IsCoherentSession, coherence}

open_payment-Coherent :
    (now : ℕ) (digest : ℕ → ℕ → ℕ) (o : TravelOrder) (k : ℕ)
    → Coherent (open_payment now digest o k)
unfolding open_payment
open_payment-Coherent now digest o k = search coherence depth 20

pub create_checkout-Coherent :
    (now : ℕ) (digest : ℕ → ℕ → ℕ) (a : Option AlipayAdapter) (i k : ℕ)
    → Coherent (create_checkout now digest a i k)
unfolding create_checkout redirect_to
create_checkout-Coherent now digest a i k = search (coherence, open_payment-Coherent) depth 20

callback_row-Coherent :
    (now : ℕ) (c : VerifiedAlipayCallback) (p : PaymentRecord) → Coherent (callback_row now c p)
unfolding callback_row
callback_row-Coherent now cb p = search coherence depth 20

start_fulfillment-Coherent : (o : TravelOrder) → Coherent (start_fulfillment o)
unfolding start_fulfillment
start_fulfillment-Coherent o = search coherence depth 20

mark_paid-Coherent :
    (now : ℕ) (c : VerifiedAlipayCallback) (p : PaymentRecord) (o : TravelOrder)
    → Coherent (mark_paid now c p o)
unfolding mark_paid
mark_paid-Coherent now cb p o = search (coherence, start_fulfillment-Coherent) depth 20

apply_callback-Coherent :
    (now : ℕ) (c : VerifiedAlipayCallback) (p : PaymentRecord) (o : TravelOrder)
    → Coherent (apply_callback now c p o)
unfolding apply_callback
apply_callback-Coherent now cb p o =
    search (coherence, callback_row-Coherent, mark_paid-Coherent) depth 20

pub settle-Coherent :
    (now : ℕ) (a : Option AlipayAdapter) (app : Option (Option String)) (c : VerifiedAlipayCallback)
    → Coherent (settle now a app c)
unfolding settle
settle-Coherent now a app cb = search (coherence, apply_callback-Coherent) depth 20

record_rejected-Coherent : (f : CallbackForm) → Coherent (record_rejected_callback f)
unfolding record_rejected_callback
record_rejected-Coherent f = search coherence depth 20

record_failure-Coherent :
    (now : ℕ) (c : VerifiedAlipayCallback) → Coherent (record_verified_callback_failure now c)
unfolding record_verified_callback_failure
record_failure-Coherent now cb = search coherence depth 20

settled-Coherent :
    (now : ℕ) (c : VerifiedAlipayCallback) (m : M TravelOrder)
    → Coherent m
    → Coherent (record_failure now c m)
unfolding record_failure
settled-Coherent now cb m h = record { at = λ s p. go (m s) (h.at s p) }
  where
    failing :
        (e : OrderError)
        → Coherent {A = TravelOrder} (record_verified_callback_failure now cb >> raise e)
    failing e = search (coherence, record_failure-Coherent) depth 5

    go :
        (x : Result OrderError TravelOrder × Session Db)
        → IsCoherentSession x.1
        → IsCoherentSession (after_settlement now cb x).1
    go (ok o, s) c = c
    go (err e, s) c = (failing e).at s c

pub handle_callback-Coherent :
    (now : ℕ) (a : Option AlipayAdapter) (f : CallbackForm) → Coherent (handle_callback now a f)
unfolding handle_callback
handle_callback-Coherent now a f =
    search (coherence, settle-Coherent, record_rejected-Coherent, settled-Coherent) depth 20

answer_query-Coherent :
    (now : ℕ) (a : Option AlipayAdapter) (o : TravelOrder) (p : PaymentRecord)
    (r : Reply TradeQueryResult)
    → Coherent (answer_query now a o p r)
unfolding answer_query
answer_query-Coherent now a o p raised = Keeps-raise payment_provider_unavailable
answer_query-Coherent now a o p malformed = Keeps-raise payment_provider_invalid_response
answer_query-Coherent now a o p (reply r) = search (coherence, settle-Coherent) depth 20

pub query-Coherent :
    (now : ℕ) (a : Option AlipayAdapter) (o : TravelOrder) → Coherent (query_order_payment now a o)
unfolding query_order_payment
query-Coherent now a o = search (coherence, answer_query-Coherent) depth 20
