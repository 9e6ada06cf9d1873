-- ===== src/Orders/Coherence.antt =====
-- The three statuses of every order stay among the triples that `OrderStateService` can reach.
-- The predicates are shut: the proofs about operations use the lemmas below.
pub mod Tickets
pub mod Fulfillments
pub mod Payments
pub mod Refunds
use mathlib.Core.Path.{subst}
use travel_latest.Base.{ℕ, ◌≡◌, refl, sym, Option, some, List, [], arith, String}
use travel_latest.Base.Exec.{Session, ok, commit, lift, ◌>>=◌}
use travel_latest.Base.Exec.Keeps.{
  Keeps, Keeps-modify, Keeps-bind, Keeps-bind_with, Keeps-lift, Keeps-pure, keeps_rules,
}
use travel_latest.Events.Outbox.{Payload}
use travel_latest.Orders.Session.{
  M, new_uuid, save_order, advance, enqueue, save_attempt, save_ticket, save_payment, save_refund,
  save_callback,
}
use travel_latest.Base.Tables.{All, add, All-add, All-save, scalar-All}
use travel_latest.Orders.Model.{
  FulfillmentAttempt, MockTransportTicket, PaymentRecord, RefundRecord, PaymentCallbackEvent,
  OrderError, Db, TravelOrder, TravelOffer, Triple, order_key, OrderStatus, PaymentStatus,
  FulfillmentStatus,
}
use travel_latest.Orders.Create.{new_order}
use travel_latest.Orders.Transition.{current, put_triple, is_foreign, transition}
use travel_latest.Orders.Transition.Lifecycle.{IsCoherent, Step, Step-IsCoherent}
use travel_latest.Orders.Transition.Outcomes.{transition_iff}
use travel_latest.Orders.Tables.{order_by_id, order_by_key, put_order}

pub IsCoherentOrder : TravelOrder → Type 0
IsCoherentOrder o = IsCoherent (current o)

pub IsCoherentTable : List TravelOrder → Type 0
unfolding IsCoherentOrder
IsCoherentTable rows = All IsCoherentOrder rows

-- What the session sees, and what is durable.
abbrev pub IsCoherentSession : Session Db → Type 0
IsCoherentSession s = IsCoherentTable s.db.orders × IsCoherentTable s.saved.orders

pub IsCoherentOrder-iff : (o : TravelOrder) → IsCoherentOrder o → IsCoherent (current o)
unfolding IsCoherentOrder
IsCoherentOrder-iff o c = c

pub put_order-IsCoherent :
    (o : TravelOrder) (rows : List TravelOrder)
    → IsCoherentTable rows
    → IsCoherentOrder o
    → IsCoherentTable (put_order o rows)
unfolding IsCoherentTable put_order
put_order-IsCoherent o rows c h = All-save IsCoherentOrder o rows c h

pub add-IsCoherent :
    (o : TravelOrder) (rows : List TravelOrder)
    → IsCoherentTable rows
    → IsCoherentOrder o
    → IsCoherentTable (add o rows)
unfolding IsCoherentTable
add-IsCoherent o rows c h = All-add IsCoherentOrder rows o c h

pub order_by_id-IsCoherent :
    (i : ℕ) (rows : List TravelOrder) (o : TravelOrder)
    → IsCoherentTable rows
    → order_by_id i rows ≡ some o
    → IsCoherentOrder o
unfolding IsCoherentTable order_by_id
order_by_id-IsCoherent i rows o c h = scalar-All IsCoherentOrder _ rows o c h

-- Whatever the order was, a transition that succeeds makes it coherent.
pub transition-IsCoherent :
    (o : TravelOrder) (actor : Option ℕ) (t : Triple) (o' : TravelOrder)
    → transition o actor t ≡ ok o'
    → IsCoherentOrder o'
unfolding IsCoherentOrder
transition-IsCoherent o actor t o' h =
    let (_, step, same) = (transition_iff o o' actor t).0 h in
    subst (λ x. IsCoherent (current x)) (sym same) (Step-IsCoherent (current o) t step)

-- A failure code is no status.
pub failure_code-IsCoherent :
    (o : TravelOrder) (code : Option String)
    → IsCoherentOrder o
    → IsCoherentOrder (record o { failure_code = code })
unfolding IsCoherentOrder
failure_code-IsCoherent o code c = c

pub empty-IsCoherent : IsCoherentTable []
unfolding IsCoherentTable
empty-IsCoherent = tt

pub new_order-IsCoherent :
    (id number u k : ℕ) (offer : TravelOffer) → IsCoherentOrder (new_order id number u k offer)
unfolding IsCoherentOrder
new_order-IsCoherent id number u k offer = refl

pub rejected-IsCoherent :
    (o : TravelOrder)
    → IsCoherentOrder
        (put_triple (OrderStatus.failed, PaymentStatus.failed, FulfillmentStatus.failed) o)
unfolding IsCoherentOrder
rejected-IsCoherent o = refl

-- Actions that keep every order coherent.
abbrev pub Coherent : {A : Type 0} → M A → Type 0
Coherent = Keeps IsCoherentSession

pub commit-Coherent : Coherent commit
unfolding commit
commit-Coherent = record { at = λ s c. (c.0, c.0) }

pub new_uuid-Coherent : Coherent new_uuid
unfolding new_uuid
new_uuid-Coherent = record { at = λ s c. c }

pub save_order-Coherent : (o : TravelOrder) → IsCoherentOrder o → Coherent (save_order o)
unfolding save_order
save_order-Coherent o h = Keeps-modify _ (λ s c. (put_order-IsCoherent o s.db.orders c.0 h, c.1))

-- What a transition returns is coherent.
lifted-IsCoherent :
    (o : TravelOrder) (actor : Option ℕ) (t : Triple) (s : Session Db) (o' : TravelOrder)
    → IsCoherentSession s
    → (lift (transition o actor t) s).0 ≡ ok o'
    → IsCoherentOrder o'
unfolding lift
lifted-IsCoherent o actor t s o' c e = transition-IsCoherent o actor t o' e

pub advance-Coherent :
    (o : TravelOrder) (actor : Option ℕ) (t : Triple) → Coherent (advance o actor t)
unfolding advance
advance-Coherent o actor t =
    Keeps-bind_with IsCoherentOrder _ _ (Keeps-lift _) (lifted-IsCoherent o actor t)
      λ changed h. Keeps-bind _ _ (save_order-Coherent changed h) (λ _. Keeps-pure changed)

-- An order that was advanced is coherent.
pub advance-returns :
    (o o' : TravelOrder) (actor : Option ℕ) (t : Triple) (s : Session Db)
    → (advance o actor t s).0 ≡ ok o'
    → IsCoherentOrder o'
unfolding advance ◌>>=◌ save_order
advance-returns o o' actor t s h = grind (arith, transition-IsCoherent)

pub after_advance :
    {A : Type 0} (o : TravelOrder) (actor : Option ℕ) (t : Triple) (f : TravelOrder → M A)
    → ((changed : TravelOrder) → IsCoherentOrder changed → Coherent (f changed))
    → Coherent (advance o actor t >>= f)
after_advance o actor t f =
    Keeps-bind_with IsCoherentOrder _ f (advance-Coherent o actor t)
      (λ s changed _ e. advance-returns o changed actor t s e)

pub enqueue-Coherent :
    (now : ℕ) (event aggregate : String) (i : ℕ) (payload : Payload)
    → Coherent (enqueue now event aggregate i payload)
unfolding enqueue
enqueue-Coherent now event aggregate i payload = search (keeps_rules, new_uuid-Coherent)

pub save_attempt-Coherent : (a : FulfillmentAttempt) → Coherent (save_attempt a)
unfolding save_attempt
save_attempt-Coherent a = Keeps-modify _ (λ s h. h)

pub save_ticket-Coherent : (t : MockTransportTicket) → Coherent (save_ticket t)
unfolding save_ticket
save_ticket-Coherent t = Keeps-modify _ (λ s h. h)

pub save_payment-Coherent : (p : PaymentRecord) → Coherent (save_payment p)
unfolding save_payment
save_payment-Coherent p = Keeps-modify _ (λ s h. h)

pub save_refund-Coherent : (r : RefundRecord) → Coherent (save_refund r)
unfolding save_refund
save_refund-Coherent r = Keeps-modify _ (λ s h. h)

pub save_callback-Coherent : (c : PaymentCallbackEvent) → Coherent (save_callback c)
unfolding save_callback
save_callback-Coherent c = Keeps-modify _ (λ s h. h)

pub ruleset coherence = (
  after_advance, keeps_rules, commit-Coherent, new_uuid-Coherent, save_order-Coherent,
  advance-Coherent, enqueue-Coherent, save_attempt-Coherent, save_ticket-Coherent,
  save_payment-Coherent, save_refund-Coherent, save_callback-Coherent, failure_code-IsCoherent,
)
