-- ===== src/Orders/Ticket/Outcome.antt =====
-- What becomes of a paid order that waits for its ticket.
use travel_latest.Base.{
  ℕ, ◌≡◌, refl, sym, ap, Bool, true, false, ◌&&◌, Option, none, some, arith, Bool-cases, inl, inr,
  str_eq, if◌then◌else◌,
}
use mathlib.Core.Path.{subst}
use travel_latest.Base.Exec.{Result, ok, err, ◌>>=◌, Session, begin, request}
use travel_latest.Orders.Model.{
  Db, TravelOrder, PaymentRecord, MockTransportTicket, OrderStatus, PaymentStatus,
  FulfillmentStatus, TicketStatus, OrderError, Triple, supplier_fulfillment_unavailable,
}
use travel_latest.Orders.Transition.{current, put_triple}
use travel_latest.Orders.Transition.Lifecycle.{IsCoherent}
use travel_latest.Orders.Transition.Outcomes.{IsWaiting, waiting_targets}
use travel_latest.Orders.Tables.{order_by_id, payment_by_id, ticket_by_order, put_ticket, is_paid}
use travel_latest.Orders.Tables.Laws.{ticket_by_order_sound, ticket_by_order-put}
use travel_latest.Orders.Session.{new_uuid, enqueue, save_order, save_ticket}
use travel_latest.Orders.Session.Advance.{advance_permitted, coded-found}
use travel_latest.Orders.Ticket.{
  OfferValidation, MockTicketIssueResult, OfferProvider, TicketIssuer, failed_ticket, fail_ticket,
  issue_ticket, revalidate_and_issue, awaits_fulfillment, issue_paid_ticket,
}

-- A paid order with its payment and its pending ticket.
pub record IsDue (i : ℕ) (p : PaymentRecord) (o : TravelOrder) (t : MockTransportTicket) (d : Db)
    : Type 0 where
  pub payment : payment_by_id i d.payments ≡ some p
  pub paid : is_paid p.status ≡ true
  pub order : order_by_id p.order_id d.orders ≡ some o
  pub waiting : IsWaiting o
  pub coherent : IsCoherent (current o)
  pub ticket : ticket_by_order o.id d.tickets ≡ some t
  pub pending : t.status ≡ TicketStatus.pending

-- The statuses of the order and of its ticket after the answer.
abbrev pub order_after : Bool → Triple
order_after true = (OrderStatus.confirmed, PaymentStatus.paid, FulfillmentStatus.confirmed)
order_after false =
    (OrderStatus.ticket_failed_awaiting_refund, PaymentStatus.paid, FulfillmentStatus.failed)

abbrev pub ticket_after : Bool → TicketStatus
ticket_after true = TicketStatus.issued
ticket_after false = TicketStatus.failed

-- The tables after the answer, which were `before`.
pub record IsAnswered (issued : Bool) (order_id : ℕ) (o : TravelOrder) (before : Db)
    (r : Result OrderError (Option MockTransportTicket)) (d : Db) : Type 0 where
  pub ticket : MockTransportTicket
  pub returned : r ≡ ok (some ticket)
  pub ticket_found : ticket_by_order o.id d.tickets ≡ some ticket
  pub ticket_status : ticket.status ≡ ticket_after issued
  pub order : TravelOrder
  pub order_found : order_by_id order_id d.orders ≡ some order
  pub order_status : current order ≡ order_after issued
  pub same_payments : d.payments ≡ before.payments
  pub code : order.failure_code ≡ (if issued then none else ticket.failure_code)

-- The session after the ticket was written back.
abbrev ticketed : MockTransportTicket → Db → Session Db
ticketed t d = record { db = record d { tickets = put_ticket t d.tickets }; saved = d }

fail_ticket_lem :
    (now i : ℕ) (o : TravelOrder) (t : MockTransportTicket) (v : OfferValidation) (d : Db)
    → order_by_id i d.orders ≡ some o
    → IsWaiting o
    → IsCoherent (current o)
    → ticket_by_order o.id d.tickets ≡ some t
    → let (r, d') = request (fail_ticket now o t v) d in IsAnswered false i o d r d'
unfolding fail_ticket new_uuid enqueue save_ticket save_order ◌>>=◌
fail_ticket_lem now i o t v d e w c f =
    let t' = failed_ticket t v.code in
    let targets =
      waiting_targets o.status o.payment_status o.fulfillment_status w.0 (ground arith) in
    let step = advance_permitted o (order_after false) (ticketed t' d) (ground arith) in
    record {
      ticket = t';
      returned = ground (arith, step);
      ticket_found = ground (
        arith,
        step,
        ticket_by_order_sound o.id d.tickets t f,
        ticket_by_order-put o.id d.tickets t t' f,
      );
      ticket_status = refl;
      order = record (put_triple (order_after false) o) { failure_code = t'.failure_code };
      order_found =
          ground
            (arith, step, coded-found i o (order_after false) t'.failure_code (ticketed t' d) e);
      order_status = refl;
      same_payments = ground (arith, step);
      code = refl;
    }

abbrev issued_ticket : MockTransportTicket → MockTicketIssueResult → MockTransportTicket
issued_ticket t result = record t {
  status = TicketStatus.issued;
  mock_ticket_no = result.mock_ticket_no;
  seat_assignments = result.seat_assignments;
}

issue_ticket_lem :
    (now i : ℕ) (o : TravelOrder) (t : MockTransportTicket) (result : MockTicketIssueResult)
    (d : Db)
    → order_by_id i d.orders ≡ some o
    → IsWaiting o
    → IsCoherent (current o)
    → ticket_by_order o.id d.tickets ≡ some t
    → result.issued ≡ true
    → let (r, d') = request (issue_ticket now o t result) d in IsAnswered true i o d r d'
unfolding issue_ticket new_uuid enqueue save_ticket save_order ◌>>=◌
issue_ticket_lem now i o t result d e w c f h =
    let t' = issued_ticket t result in
    let targets =
      waiting_targets o.status o.payment_status o.fulfillment_status w.0 (ground arith) in
    let step = advance_permitted o (order_after true) (ticketed t' d) (ground arith) in
    record {
      ticket = t';
      returned = ground (arith, step);
      ticket_found = ground (
        arith,
        step,
        ticket_by_order_sound o.id d.tickets t f,
        ticket_by_order-put o.id d.tickets t t' f,
      );
      ticket_status = refl;
      order = record (put_triple (order_after true) o) { failure_code = none };
      order_found = ground (arith, step, coded-found i o (order_after true) none (ticketed t' d) e);
      order_status = refl;
      same_payments = ground (arith, step);
      code = refl;
    }

issue_due :
    (now i : ℕ) (provider : Option OfferProvider) (issuer : TicketIssuer) (p : PaymentRecord)
    (o : TravelOrder) (t : MockTransportTicket) (d : Db)
    → IsDue i p o t d
    → issue_paid_ticket now provider issuer i (begin d)
      ≡ revalidate_and_issue now provider issuer o t (begin d)
unfolding issue_paid_ticket awaits_fulfillment ◌>>=◌
issue_due now i provider issuer p o t d due =
    ground (arith, due.payment, due.paid, due.order, due.waiting, due.ticket, due.pending)

-- Two runs with the same outcome.
IsAnswered-by :
    {b c : Bool} {i : ℕ} {o : TravelOrder} {d : Db}
    {x y : Result OrderError (Option MockTransportTicket) × Db}
    → b ≡ c
    → x ≡ y
    → IsAnswered c i o d y.0 y.1
    → IsAnswered b i o d x.0 x.1
IsAnswered-by {i = i} {o = o} {d = d} p q a = rw (p, q) a

revalidate_lem :
    (now i : ℕ) (provider : OfferProvider) (issuer : TicketIssuer) (o : TravelOrder)
    (t : MockTransportTicket) (v : OfferValidation) (d : Db)
    → order_by_id i d.orders ≡ some o
    → IsWaiting o
    → IsCoherent (current o)
    → ticket_by_order o.id d.tickets ≡ some t
    → provider o t ≡ some v
    → str_eq v.code "REALTIME_TRANSPORT_UNAVAILABLE" ≡ false
    → let (r, d') = request (revalidate_and_issue now (some provider) issuer o t) d in
      IsAnswered (v.valid && (issuer t).issued) i o d r d'
unfolding revalidate_and_issue issue_ticket ◌>>=◌
revalidate_lem now i provider issuer o t v d e w c f g h = elim (Bool-cases v.valid) [
  | inr invalid ↦
      IsAnswered-by (ground arith) (ground arith) (fail_ticket_lem now i o t v d e w c f)
  | inl valid ↦ elim (Bool-cases (issuer t).issued) [
    | inr refused ↦
        IsAnswered-by (ground arith) (ground arith)
          (fail_ticket_lem now i o t (record { valid = false; code = (issuer t).code }) d e w c f)
    | inl issued ↦
        IsAnswered-by (ground arith) (ground arith)
          (issue_ticket_lem now i o t (issuer t) d e w c f issued)
  ]
]

-- A paid order of which the offer was checked ends with its ticket issued and the order confirmed if
-- the offer is still valid and the issuer issues the ticket, and otherwise with both failed and the
-- order waiting for a refund, with the failure code of the ticket. No other outcome is possible.
pub issue_paid_ticket-IsAnswered :
    (now i : ℕ) (provider : OfferProvider) (issuer : TicketIssuer) (p : PaymentRecord)
    (o : TravelOrder) (t : MockTransportTicket) (v : OfferValidation) (d : Db)
    → IsDue i p o t d
    → provider o t ≡ some v
    → str_eq v.code "REALTIME_TRANSPORT_UNAVAILABLE" ≡ false
    → let (r, d') = request (issue_paid_ticket now (some provider) issuer i) d in
      IsAnswered (v.valid && (issuer t).issued) p.order_id o d r d'
issue_paid_ticket-IsAnswered now i provider issuer p o t v d due g h =
    IsAnswered-by refl
      (ap (λ x. (x.0, x.1.saved)) (issue_due now i (some provider) issuer p o t d due))
      (revalidate_lem now p.order_id provider issuer o t v d due.order due.waiting due.coherent
        due.ticket g h)

-- While the offer cannot be checked, the handler raises, so that the event is delivered again, and
-- nothing is written.
pub issue_paid_ticket_unavailable :
    (now i : ℕ) (provider : OfferProvider) (issuer : TicketIssuer) (p : PaymentRecord)
    (o : TravelOrder) (t : MockTransportTicket) (d : Db)
    → IsDue i p o t d
    → provider o t ≡ none
    → request (issue_paid_ticket now (some provider) issuer i) d
      ≡ (err supplier_fulfillment_unavailable, d)
unfolding revalidate_and_issue ◌>>=◌
issue_paid_ticket_unavailable now i provider issuer p o t d due g =
    rw (issue_due now i (some provider) issuer p o t d due, g)

answered-awaits :
    (o : TravelOrder) (b : Bool) → current o ≡ order_after b → awaits_fulfillment o ≡ false
unfolding awaits_fulfillment
answered-awaits o b h = ground arith

nothing_due :
    (now i : ℕ) (provider : Option OfferProvider) (issuer : TicketIssuer) (p : PaymentRecord)
    (o : TravelOrder) (d : Db)
    → payment_by_id i d.payments ≡ some p
    → order_by_id p.order_id d.orders ≡ some o
    → awaits_fulfillment o ≡ false
    → request (issue_paid_ticket now provider issuer i) d ≡ (ok none, d)
unfolding issue_paid_ticket ◌>>=◌
nothing_due now i provider issuer p o d e f h = ground arith

-- Once the ticket was answered for, a repeated event neither issues a ticket nor writes a row,
-- whatever the provider and the issuer would say.
pub issue_paid_ticket_once :
    (now now' i : ℕ) (provider : OfferProvider) (provider' : Option OfferProvider)
    (issuer issuer' : TicketIssuer) (p : PaymentRecord) (o : TravelOrder) (t : MockTransportTicket)
    (v : OfferValidation) (d : Db)
    → IsDue i p o t d
    → provider o t ≡ some v
    → str_eq v.code "REALTIME_TRANSPORT_UNAVAILABLE" ≡ false
    → let d' = (request (issue_paid_ticket now (some provider) issuer i) d).1 in
      request (issue_paid_ticket now' provider' issuer' i) d' ≡ (ok none, d')
issue_paid_ticket_once now now' i provider provider' issuer issuer' p o t v d due g h =
    let a = issue_paid_ticket-IsAnswered now i provider issuer p o t v d due g h in
    nothing_due now' i provider' issuer' p a.order _
      (subst (λ rows. payment_by_id i rows ≡ some p) (sym a.same_payments) due.payment)
      a.order_found (answered-awaits a.order (v.valid && (issuer t).issued) a.order_status)
