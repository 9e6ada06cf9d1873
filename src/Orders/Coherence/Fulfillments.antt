-- ===== src/Orders/Coherence/Fulfillments.antt =====
-- Fulfillment.
use travel_latest.Base.{ℕ, Option, none, some, String, Bool}
use travel_latest.Orders.Model.{
  supplier_fulfillment_unavailable, TravelOrder, OrderStatus, FulfillmentStatus, FulfillmentAttempt,
  TravelOffer,
}
use travel_latest.Orders.Fulfillment.{
  FulfillmentWork, ConfirmationResult, Reply, raised, malformed, reply, claim, claim_new,
  start_attempt, begin_attempt,
}
use travel_latest.Orders.Confirm.{
  Supplier, complete, settle_result, confirm, prepare_retry, answer_confirmation, requeue,
}
use travel_latest.Base.Exec.Keeps.{Keeps-pure, Keeps-raise}
use travel_latest.Orders.Coherence.{Coherent, coherence}

begin_attempt-Coherent :
    (now : ℕ) (o : TravelOrder) (a : FulfillmentAttempt) → Coherent (begin_attempt now o a)
unfolding begin_attempt
begin_attempt-Coherent now o a = search coherence depth 5

claim-Coherent :
    (now : ℕ) (o : TravelOrder) (resuming : Bool) (a : FulfillmentAttempt)
    (offer : Option TravelOffer)
    → Coherent (claim now o resuming a offer)
unfolding claim
claim-Coherent now o resuming a offer = search (coherence, begin_attempt-Coherent) depth 20

claim_new-Coherent :
    (now : ℕ) (o : TravelOrder) (resuming : Bool) → Coherent (claim_new now o resuming)
unfolding claim_new
claim_new-Coherent now o resuming = search (coherence, claim-Coherent) depth 20

pub start_attempt-Coherent : (now payment_id : ℕ) → Coherent (start_attempt now payment_id)
unfolding start_attempt
start_attempt-Coherent now payment_id =
    search (coherence, claim-Coherent, claim_new-Coherent) depth 20

complete-Coherent :
    (now : ℕ) (w : FulfillmentWork) (st : OrderStatus) (f : FulfillmentStatus)
    (code : Option String) (r : ConfirmationResult)
    → Coherent (complete now w st f code r)
unfolding complete
complete-Coherent now w st f code r = search coherence depth 20

settle_result-Coherent :
    (now : ℕ) (w : FulfillmentWork) (r : ConfirmationResult) → Coherent (settle_result now w r)
unfolding settle_result
settle_result-Coherent now w r = search (coherence, complete-Coherent) depth 20

answer-Coherent :
    (now : ℕ) (w : FulfillmentWork) (r : Reply ConfirmationResult)
    → Coherent (answer_confirmation now w r)
unfolding answer_confirmation
answer-Coherent now w raised = Keeps-raise supplier_fulfillment_unavailable
answer-Coherent now w malformed = Keeps-raise supplier_fulfillment_unavailable
answer-Coherent now w (reply r) = settle_result-Coherent now w r

pub confirm-Coherent :
    (now : ℕ) (supplier : Supplier) (w : FulfillmentWork) → Coherent (confirm now supplier w)
unfolding confirm
confirm-Coherent now supplier w = answer-Coherent now w (supplier w.confirmation)

requeue-Coherent : (a : Option FulfillmentAttempt) → Coherent (requeue a)
unfolding requeue
requeue-Coherent none = Keeps-pure tt
requeue-Coherent (some a) = search coherence depth 5

pub prepare_retry-Coherent : (i : ℕ) → Coherent (prepare_retry i)
unfolding prepare_retry
prepare_retry-Coherent i = search (coherence, requeue-Coherent) depth 20
