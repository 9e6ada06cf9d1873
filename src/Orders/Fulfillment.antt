-- ===== src/Orders/Fulfillment.antt =====
-- `FulfillmentService` of backend/app/modules/orders/services.py.
use travel_latest.Base.{
  ℕ, ◌+◌, String, Bool, true, false, not, ◌&&◌, Option, none, some, if◌then◌else◌, or_else,
}
use travel_latest.Base.Exec.{◌>>=◌, ◌>>◌, pure, modify, gets, with_some, or_raise}
use travel_latest.Base.Tables.{add}
use travel_latest.Orders.Model.{
  TravelOrder, TravelOffer, FulfillmentAttempt, OrderStatus, PaymentStatus, FulfillmentStatus,
  AttemptStatus, unbound_local,
}
use travel_latest.Orders.Names.{eq_order_status, eq_payment_status}
use travel_latest.Orders.Tables.{is_paid, offer_by_id, order_by_id, attempt_by_order, payment_by_id}
use travel_latest.Orders.Session.{M, new_uuid, advance, save_attempt}

-- `SupplierFulfillmentConfirmationRequest`; its key is `f"fulfillment:{order.id}"`, so it is given
-- by the identifier of the order.
pub record ConfirmationRequest : Type 0 where
  pub source : String
  pub external_offer_id : ℕ
  pub order_reference : ℕ
  pub idempotency_key : ℕ

pub record FulfillmentWork : Type 0 where
  pub travel_order_id : ℕ
  pub attempt_id : ℕ
  pub confirmation : ConfirmationRequest

pub record ConfirmationResult : Type 0 where
  pub confirmed : Bool
  pub code : String
  pub supplier_confirmation_id : Option ℕ

-- What a call of a provider gives back: it raises, or returns a value of another type, or a result.
pub data Reply (A : Type 0) : Type 0 where
  raised malformed : Reply A
  reply : A → Reply A

abbrev pub is_confirming : FulfillmentStatus → Bool
is_confirming FulfillmentStatus.confirming = true
is_confirming _ = false

abbrev pub is_pending_confirmation : FulfillmentStatus → Bool
is_pending_confirmation FulfillmentStatus.pending_confirmation = true
is_pending_confirmation _ = false

abbrev pub is_running : AttemptStatus → Bool
is_running AttemptStatus.running = true
is_running _ = false

abbrev pub is_queued : AttemptStatus → Bool
is_queued AttemptStatus.queued = true
is_queued _ = false

-- `attempt is not None and attempt.status == "running"`
abbrev pub has_running : Option FulfillmentAttempt → Bool
has_running none = false
has_running (some attempt) = is_running attempt.status

abbrev pub new_attempt : ℕ → TravelOrder → TravelOffer → FulfillmentAttempt
new_attempt id order offer = record {
  id = id;
  order_id = order.id;
  source = offer.source;
  idempotency_key = order.id;
  status = AttemptStatus.queued;
  external_confirmation_id = none;
  failure_code = none;
  redacted_result = none;
  attempt_count = 0;
  last_attempt_at = none;
  started_at = none;
  completed_at = none;
}

abbrev pub started_attempt : ℕ → FulfillmentAttempt → FulfillmentAttempt
started_attempt now attempt = record attempt {
  status = AttemptStatus.running;
  attempt_count = attempt.attempt_count + 1;
  started_at = some (or_else attempt.started_at now);
  failure_code = none;
}

-- The part `if not resuming`.
unfoldable pub begin_attempt : ℕ → TravelOrder → FulfillmentAttempt → M FulfillmentAttempt
begin_attempt now order attempt = do
  advance order none
      (OrderStatus.paid_pending_fulfillment, PaymentStatus.paid, FulfillmentStatus.confirming)
  pure (started_attempt now attempt)

-- From the row of the attempt on. `offer` is a local variable that is bound only where the attempt
-- is new, and the request at the end reads it.
unfoldable pub claim :
    ℕ → TravelOrder → Bool → FulfillmentAttempt → Option TravelOffer → M (Option FulfillmentWork)
claim now order resuming attempt offer =
    if not resuming && not (is_queued attempt.status) then pure none else do
      started ← if resuming then pure attempt else begin_attempt now order attempt
      save_attempt (record started { last_attempt_at = some now })
      bound ← or_raise offer unbound_local
      pure (
          some (record {
            travel_order_id = order.id;
            attempt_id = attempt.id;
            confirmation = record {
              source = attempt.source;
              external_offer_id = bound.external_offer_id;
              order_reference = order.order_no;
              idempotency_key = order.id;
            };
          }))

-- `if attempt is None: ...`
unfoldable pub claim_new : ℕ → TravelOrder → Bool → M (Option FulfillmentWork)
claim_new now order resuming = do
  found_offer ← gets (λ d. offer_by_id order.offer_id d.offers)
  with_some found_offer (pure none) λ offer. do
    id ← new_uuid
    let attempt = new_attempt id order offer
    modify (λ d. record d { attempts = add attempt d.attempts })
    claim now order resuming attempt (some offer)

unfoldable pub awaits_supplier : TravelOrder → Bool
awaits_supplier order =
    eq_order_status order.status OrderStatus.paid_pending_fulfillment
    && eq_payment_status order.payment_status PaymentStatus.paid

unfoldable pub start_attempt : ℕ → ℕ → M (Option FulfillmentWork)
start_attempt now payment_id = do
  found_payment ← gets (λ d. payment_by_id payment_id d.payments)
  with_some found_payment (pure none) λ payment.
      if not (is_paid payment.status) then pure none else do
        found_order ← gets (λ d. order_by_id payment.order_id d.orders)
        with_some found_order (pure none) λ order.
            if not (awaits_supplier order) then pure none else do
              found_attempt ← gets (λ d. attempt_by_order order.id d.attempts)
              let resuming = is_confirming order.fulfillment_status && has_running found_attempt
              if not (is_pending_confirmation order.fulfillment_status) && not resuming
                  then pure none
                  else with_some found_attempt (claim_new now order resuming)
                      λ attempt. claim now order resuming attempt none
