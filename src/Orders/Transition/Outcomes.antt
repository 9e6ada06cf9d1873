-- ===== src/Orders/Transition/Outcomes.antt =====
-- What `OrderStateService.transition` returns.
use travel_latest.Base.{ℕ, ◌≡◌, ◌↔◌, true, false, Option, none, arith}
use travel_latest.Base.Exec.{ok}
use travel_latest.Orders.Model.{OrderStatus, PaymentStatus, FulfillmentStatus, Triple, TravelOrder}
use travel_latest.Orders.Names.{eq_triple}
use travel_latest.Orders.Transition.{
  failed_or, allowed, member, current, put_triple, is_foreign, transition,
}
use travel_latest.Orders.Transition.Lifecycle.{IsCoherent, Step, permitted}

pub transition_iff :
    (o o' : TravelOrder) (actor : Option ℕ) (t : Triple)
    → (transition o actor t ≡ ok o')
      ↔ ((is_foreign actor o ≡ false) × Step (current o) t × (o' ≡ put_triple t o))
unfolding transition
transition_iff o o' actor t = (
  λ h. (ground arith, permitted (ground arith), ground arith),
  λ h. let m : member t (allowed (current o)) ≡ true = granted h.1 in ground (arith, h.0, h.2),
)
  where
    granted : {t u : Triple} → Step t u → member u (allowed t) ≡ true
    granted (permitted m) = m

-- A transition changes no field but the statuses.
pub transition_fields :
    (o o' : TravelOrder) (actor : Option ℕ) (t : Triple)
    → transition o actor t ≡ ok o'
    → (o'.id ≡ o.id) × (o'.amount ≡ o.amount) × (o'.currency ≡ o.currency) × (current o' ≡ t)
unfolding transition
transition_fields o o' actor t h = ground arith

-- The system may make every permitted change.
pub transition_permitted :
    (o : TravelOrder) (t : Triple)
    → member t (allowed (current o)) ≡ true
    → transition o none t ≡ ok (put_triple t o)
unfolding transition
transition_permitted o t h = ground arith

-- A paid order that waits for its ticket or its supplier, in the terms of `IsCoherent`.
abbrev pub IsWaiting : TravelOrder → Type 0
IsWaiting o =
    (o.status ≡ OrderStatus.paid_pending_fulfillment) × (o.payment_status ≡ PaymentStatus.paid)

pub waiting_targets :
    (s : OrderStatus) (p : PaymentStatus) (f : FulfillmentStatus)
    → s ≡ OrderStatus.paid_pending_fulfillment
    → IsCoherent (s, p, f)
    → (member
          (OrderStatus.confirmed, PaymentStatus.paid, FulfillmentStatus.confirmed)
          (allowed (s, p, f))
        ≡ true)
      × (member
            (
              OrderStatus.ticket_failed_awaiting_refund, PaymentStatus.paid,
              FulfillmentStatus.failed,
            )
            (allowed (s, p, f))
          ≡ true)
      × (member
            (OrderStatus.failed, PaymentStatus.failed, FulfillmentStatus.failed)
            (allowed (s, p, f))
          ≡ true)
unfolding allowed member eq_triple
waiting_targets s p f e c = ground arith

pub refunding_targets :
    (s : OrderStatus) (p : PaymentStatus) (f : FulfillmentStatus)
    → s ≡ OrderStatus.refunding
    → IsCoherent (s, p, f)
    → (member
          (
            OrderStatus.refunded,
            PaymentStatus.refunded,
            failed_or f FulfillmentStatus.not_supported,
          )
          (allowed (s, p, f))
        ≡ true)
      × (f ≡ FulfillmentStatus.failed
          → member
              (
                OrderStatus.ticket_failed_awaiting_refund, PaymentStatus.paid,
                FulfillmentStatus.failed,
              )
              (allowed (s, p, f))
            ≡ true)
unfolding allowed member eq_triple
refunding_targets s p f e c = (ground arith, λ h. ground arith)

-- An order that waits for its supplier's confirmation can be confirmed, fail, or wait again.
pub confirming_targets :
    (s : OrderStatus) (p : PaymentStatus) (f : FulfillmentStatus)
    → f ≡ FulfillmentStatus.confirming
    → IsCoherent (s, p, f)
    → (member
          (OrderStatus.confirmed, PaymentStatus.paid, FulfillmentStatus.confirmed)
          (allowed (s, p, f))
        ≡ true)
      × (member
            (OrderStatus.failed, PaymentStatus.failed, FulfillmentStatus.failed)
            (allowed (s, p, f))
          ≡ true)
      × (member
            (
              OrderStatus.paid_pending_fulfillment, PaymentStatus.paid,
              FulfillmentStatus.pending_confirmation,
            )
            (allowed (s, p, f))
          ≡ true)
unfolding allowed member eq_triple
confirming_targets s p f e c = ground arith
