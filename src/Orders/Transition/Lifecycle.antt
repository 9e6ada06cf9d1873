-- ===== src/Orders/Transition/Lifecycle.antt =====
-- What the table of `OrderStateService` permits: the life of one order, as a relation.
use mathlib.Core.Bool.{false≢true}
use travel_latest.Base.{
  ◌≡◌, refl, sym, ap, ◌∙◌, ◌↔◌, inl, inr, Bool, true, false, Option, none, some, List, [], ◌∷◌,
  arith, Bool-cases,
}
use mathlib.Core.Path.{subst}
use travel_latest.Base.Tables.{All}
use travel_latest.Orders.Model.{OrderStatus, PaymentStatus, FulfillmentStatus, Triple}
use travel_latest.Orders.Names.{eq_triple, eq_triple_iff}
use travel_latest.Orders.Transition.{allowed, member}

-- One permitted change of the three statuses.
pub data Step (t u : Triple) : Type 0 where
  permitted : member u (allowed t) ≡ true → Step t u

pub data Reach (s : Triple) : Triple → Type 0 where
  here : Reach s s
  next : {t u : Triple} → Reach s t → Step t u → Reach s u

-- The statuses of a new order.
abbrev pub initial : Triple
initial = (
  OrderStatus.pending_confirmation, PaymentStatus.pending, FulfillmentStatus.pending_confirmation,
)

-- The payment status that belongs to an order status and a fulfillment status, if they may meet.
abbrev pub expected_payment : OrderStatus → FulfillmentStatus → Option PaymentStatus
expected_payment OrderStatus.pending_confirmation FulfillmentStatus.pending_confirmation =
    some PaymentStatus.pending
expected_payment OrderStatus.paying FulfillmentStatus.pending_confirmation =
    some PaymentStatus.paying
expected_payment OrderStatus.paid_pending_fulfillment FulfillmentStatus.pending_confirmation =
    some PaymentStatus.paid
expected_payment OrderStatus.paid_pending_fulfillment FulfillmentStatus.confirming =
    some PaymentStatus.paid
expected_payment OrderStatus.confirmed FulfillmentStatus.confirmed = some PaymentStatus.paid
expected_payment OrderStatus.failed FulfillmentStatus.failed = some PaymentStatus.failed
expected_payment OrderStatus.failed FulfillmentStatus.not_supported = some PaymentStatus.failed
expected_payment OrderStatus.ticket_failed_awaiting_refund FulfillmentStatus.failed =
    some PaymentStatus.paid
expected_payment OrderStatus.refunding FulfillmentStatus.pending_confirmation =
    some PaymentStatus.refunding
expected_payment OrderStatus.refunding FulfillmentStatus.failed = some PaymentStatus.refunding
expected_payment OrderStatus.refunded FulfillmentStatus.failed = some PaymentStatus.refunded
expected_payment OrderStatus.refunded FulfillmentStatus.not_supported = some PaymentStatus.refunded
expected_payment _ _ = none

abbrev pub IsCoherent : Triple → Type 0
IsCoherent (s, p, f) = expected_payment s f ≡ some p

allowed-IsCoherent :
    (s : OrderStatus) (p : PaymentStatus) (f : FulfillmentStatus)
    → All IsCoherent (allowed (s, p, f))
unfolding allowed
allowed-IsCoherent s p f = ground arith

-- What holds of every target in a list holds of each member.
pub member-All {κ} :
    (P : Triple → Type κ) (u : Triple) (ts : List Triple) → All P ts → member u ts ≡ true → P u
unfolding member
member-All P u [] h m = absurd (false≢true m)
member-All P u (t ∷ ts) h m = elim (Bool-cases (eq_triple u t)) [
  | inl same ↦ subst P (sym ((eq_triple_iff u t).0 same)) h.0
  | inr other ↦ member-All P u ts h.1 (rw other at m)
]

pub Step-IsCoherent : (t u : Triple) → Step t u → IsCoherent u
Step-IsCoherent (s, p, f) u (permitted m) = member-All IsCoherent u _ (allowed-IsCoherent s p f) m

Reach-IsCoherent : {t u : Triple} → IsCoherent t → Reach t u → IsCoherent u
Reach-IsCoherent c here = c
Reach-IsCoherent c (next {t = t} {u = u} r st) = Step-IsCoherent t u st

by_table : (t u : Triple) → member u (allowed t) ≡ true → Reach initial t → Reach initial u
by_table t u m r = next r (permitted m)

module _ where
  Reach-paying :
      Reach initial
        (OrderStatus.paying, PaymentStatus.paying, FulfillmentStatus.pending_confirmation)
  unfolding allowed member
  Reach-paying = by_table initial _ refl here

  Reach-unpaid_failure :
      Reach initial (OrderStatus.failed, PaymentStatus.failed, FulfillmentStatus.not_supported)
  unfolding allowed member
  Reach-unpaid_failure = by_table initial _ refl here

  Reach-paid : Reach initial (
    OrderStatus.paid_pending_fulfillment, PaymentStatus.paid,
    FulfillmentStatus.pending_confirmation,
  )
  unfolding allowed member
  Reach-paid = by_table _ _ refl Reach-paying

  Reach-ticket_failed :
      Reach initial
        (OrderStatus.ticket_failed_awaiting_refund, PaymentStatus.paid, FulfillmentStatus.failed)
  unfolding allowed member
  Reach-ticket_failed = by_table _ _ refl Reach-paid

  Reach-refunding :
      Reach initial
        (OrderStatus.refunding, PaymentStatus.refunding, FulfillmentStatus.pending_confirmation)
  unfolding allowed member
  Reach-refunding = by_table _ _ refl Reach-paid

  Reach-refunding_failed :
      Reach initial (OrderStatus.refunding, PaymentStatus.refunding, FulfillmentStatus.failed)
  unfolding allowed member
  Reach-refunding_failed = by_table _ _ refl Reach-ticket_failed

IsCoherent-Reach :
    (s : OrderStatus) (p : PaymentStatus) (f : FulfillmentStatus)
    → IsCoherent (s, p, f)
    → Reach initial (s, p, f)
unfolding allowed member
IsCoherent-Reach OrderStatus.pending_confirmation PaymentStatus.pending
      FulfillmentStatus.pending_confirmation c =
    here
IsCoherent-Reach OrderStatus.paying PaymentStatus.paying FulfillmentStatus.pending_confirmation c =
    Reach-paying
IsCoherent-Reach OrderStatus.paid_pending_fulfillment PaymentStatus.paid
      FulfillmentStatus.pending_confirmation c =
    Reach-paid
IsCoherent-Reach OrderStatus.paid_pending_fulfillment PaymentStatus.paid
      FulfillmentStatus.confirming c =
    by_table _ _ refl Reach-paid
IsCoherent-Reach OrderStatus.confirmed PaymentStatus.paid FulfillmentStatus.confirmed c =
    by_table _ _ refl Reach-paid
IsCoherent-Reach OrderStatus.failed PaymentStatus.failed FulfillmentStatus.failed c =
    by_table _ _ refl Reach-paid
IsCoherent-Reach OrderStatus.failed PaymentStatus.failed FulfillmentStatus.not_supported c =
    Reach-unpaid_failure
IsCoherent-Reach OrderStatus.ticket_failed_awaiting_refund PaymentStatus.paid
      FulfillmentStatus.failed c =
    Reach-ticket_failed
IsCoherent-Reach OrderStatus.refunding PaymentStatus.refunding
      FulfillmentStatus.pending_confirmation c =
    Reach-refunding
IsCoherent-Reach OrderStatus.refunding PaymentStatus.refunding FulfillmentStatus.failed c =
    Reach-refunding_failed
IsCoherent-Reach OrderStatus.refunded PaymentStatus.refunded FulfillmentStatus.failed c =
    by_table _ _ refl Reach-refunding_failed
IsCoherent-Reach OrderStatus.refunded PaymentStatus.refunded FulfillmentStatus.not_supported c =
    by_table _ _ refl Reach-refunding
IsCoherent-Reach _ _ _ c = absurd (ground arith)

-- A new order reaches, by transitions that the table permits, exactly the triples of statuses in
-- which the payment status is the one that belongs to the order status and the fulfillment status.
pub reachable_iff : (t : Triple) → Reach initial t ↔ IsCoherent t
reachable_iff (s, p, f) = (Reach-IsCoherent refl, IsCoherent-Reach s p f)

-- Statuses that an order cannot leave.
abbrev pub is_final : OrderStatus → Bool
is_final OrderStatus.confirmed = true
is_final OrderStatus.failed = true
is_final OrderStatus.refunded = true
is_final OrderStatus.closed = true
is_final _ = false

abbrev pub is_payable : OrderStatus → Bool
is_payable OrderStatus.pending_confirmation = true
is_payable OrderStatus.paying = true
is_payable _ = false

final-allowed :
    (s : OrderStatus) (p : PaymentStatus) (f : FulfillmentStatus)
    → is_final s ≡ true
    → allowed (s, p, f) ≡ []
unfolding allowed
final-allowed s p f h = ground arith

payable-allowed :
    (s : OrderStatus) (p : PaymentStatus) (f : FulfillmentStatus)
    → is_payable s ≡ false
    → All (λ u. is_payable u.0 ≡ false) (allowed (s, p, f))
unfolding allowed
payable-allowed s p f h = ground arith

-- An order that is confirmed, failed, refunded or closed has reached its last state, and an order
-- that has left the two statuses in which it can be paid never enters them again.
pub Reach-forward :
    {t u : Triple}
    → Reach t u
    → (is_final t.0 ≡ true → u ≡ t) × (is_payable t.0 ≡ false → is_payable u.0 ≡ false)
Reach-forward here = (λ h. refl, λ h. h)
Reach-forward {t} (next {t = (s, p, f)} {u = u} r (permitted m)) =
    let ih = Reach-forward r in
    (
      λ h. absurd (not_final (ap (λ (x : Triple). is_final x.0) (ih.0 h) ∙ h)),
      λ h. member-All (λ x. is_payable x.0 ≡ false) u _ (payable-allowed s p f (ih.1 h)) m,
    )
  where
    not_final : ¬ (is_final s ≡ true)
    not_final h = false≢true (unfold member in rw (final-allowed s p f h) at m)
