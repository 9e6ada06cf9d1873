-- ===== src/Orders/Transition.antt =====
-- `OrderStateService` of backend/app/modules/orders/services.py.
pub mod Lifecycle
pub mod Outcomes
use travel_latest.Base.{
  ℕ, Bool, true, false, ◌&&◌, ◌||◌, not, Option, none, some, List, [], ◌∷◌, ◌==◌, if◌then◌else◌,
}
use travel_latest.Base.Exec.{Result, ok, err}
use travel_latest.Orders.Model.{
  OrderStatus, PaymentStatus, FulfillmentStatus, Triple, TravelOrder, OrderError, forbidden,
  invalid_order_transition,
}
use travel_latest.Orders.Names.{eq_triple}

-- `_allowed.get(current, set())`
unfoldable pub allowed : Triple → List Triple
allowed
      (
        OrderStatus.pending_confirmation, PaymentStatus.pending,
        FulfillmentStatus.pending_confirmation,
      ) =
    (OrderStatus.paying, PaymentStatus.paying, FulfillmentStatus.pending_confirmation)
    ∷ (OrderStatus.failed, PaymentStatus.failed, FulfillmentStatus.not_supported)
    ∷ []
allowed (OrderStatus.paying, PaymentStatus.paying, FulfillmentStatus.pending_confirmation) =
    (
      OrderStatus.paid_pending_fulfillment, PaymentStatus.paid,
      FulfillmentStatus.pending_confirmation,
    )
    ∷ (OrderStatus.failed, PaymentStatus.failed, FulfillmentStatus.not_supported)
    ∷ []
allowed
      (
        OrderStatus.paid_pending_fulfillment, PaymentStatus.paid,
        FulfillmentStatus.pending_confirmation,
      ) =
    (OrderStatus.paid_pending_fulfillment, PaymentStatus.paid, FulfillmentStatus.confirming)
    ∷ (OrderStatus.confirmed, PaymentStatus.paid, FulfillmentStatus.confirmed)
    ∷ (OrderStatus.refunding, PaymentStatus.refunding, FulfillmentStatus.pending_confirmation)
    ∷ (OrderStatus.failed, PaymentStatus.failed, FulfillmentStatus.failed)
    ∷ (OrderStatus.ticket_failed_awaiting_refund, PaymentStatus.paid, FulfillmentStatus.failed)
    ∷ []
allowed (OrderStatus.paid_pending_fulfillment, PaymentStatus.paid, FulfillmentStatus.confirming) =
    (
      OrderStatus.paid_pending_fulfillment, PaymentStatus.paid,
      FulfillmentStatus.pending_confirmation,
    )
    ∷ (OrderStatus.confirmed, PaymentStatus.paid, FulfillmentStatus.confirmed)
    ∷ (OrderStatus.failed, PaymentStatus.failed, FulfillmentStatus.failed)
    ∷ (OrderStatus.ticket_failed_awaiting_refund, PaymentStatus.paid, FulfillmentStatus.failed)
    ∷ []
allowed (OrderStatus.ticket_failed_awaiting_refund, PaymentStatus.paid, FulfillmentStatus.failed) =
    (OrderStatus.refunding, PaymentStatus.refunding, FulfillmentStatus.failed) ∷ []
allowed (OrderStatus.refunding, PaymentStatus.refunding, FulfillmentStatus.failed) =
    (OrderStatus.refunded, PaymentStatus.refunded, FulfillmentStatus.failed)
    ∷ (OrderStatus.ticket_failed_awaiting_refund, PaymentStatus.paid, FulfillmentStatus.failed)
    ∷ []
allowed (OrderStatus.refunding, PaymentStatus.refunding, FulfillmentStatus.pending_confirmation) =
    (OrderStatus.refunded, PaymentStatus.refunded, FulfillmentStatus.not_supported)
    ∷ (OrderStatus.failed, PaymentStatus.failed, FulfillmentStatus.failed)
    ∷ []
allowed _ = []

-- `target in targets`
unfoldable pub member : Triple → List Triple → Bool
unfolding eq_triple
member t [] = false
member t (u ∷ us) = eq_triple t u || member t us

abbrev pub current : TravelOrder → Triple
current o = (o.status, o.payment_status, o.fulfillment_status)

abbrev pub put_triple : Triple → TravelOrder → TravelOrder
put_triple (s, p, f) o = record o { status = s; payment_status = p; fulfillment_status = f }

-- `actor_user_id is not None and actor_user_id != order.user_id`
abbrev pub is_foreign : Option ℕ → TravelOrder → Bool
is_foreign none o = false
is_foreign (some a) o = not (a == o.user_id)

-- `"failed" if order.fulfillment_status == "failed" else <other>`
abbrev pub failed_or : FulfillmentStatus → FulfillmentStatus → FulfillmentStatus
failed_or FulfillmentStatus.failed other = FulfillmentStatus.failed
failed_or _ other = other

unfoldable pub transition : TravelOrder → Option ℕ → Triple → Result OrderError TravelOrder
transition order actor_user_id target =
    if is_foreign actor_user_id order
    then err forbidden
    else if not (member target (allowed (current order)))
    then err invalid_order_transition
    else ok (put_triple target order)
