-- ===== src/Orders/Coherence/Tickets.antt =====
-- Tickets.
use travel_latest.Base.{ℕ, Option, none, some}
use travel_latest.Orders.Model.{TravelOrder, MockTransportTicket}
use travel_latest.Orders.Ticket.{
  OfferValidation, MockTicketIssueResult, issue_ticket, fail_ticket, OfferProvider, TicketIssuer,
  issue_paid_ticket, revalidate_and_issue,
}
use travel_latest.Orders.Coherence.{Coherent, coherence}

fail_ticket-Coherent :
    (now : ℕ) (o : TravelOrder) (t : MockTransportTicket) (v : OfferValidation)
    → Coherent (fail_ticket now o t v)
unfolding fail_ticket
fail_ticket-Coherent now o t v = search coherence depth 14

issue_ticket-Coherent :
    (now : ℕ) (o : TravelOrder) (t : MockTransportTicket) (r : MockTicketIssueResult)
    → Coherent (issue_ticket now o t r)
unfolding issue_ticket
issue_ticket-Coherent now o t r = search (coherence, fail_ticket-Coherent) depth 14

revalidate-Coherent :
    (now : ℕ) (p : Option OfferProvider) (i : TicketIssuer) (o : TravelOrder)
    (t : MockTransportTicket)
    → Coherent (revalidate_and_issue now p i o t)
unfolding revalidate_and_issue
revalidate-Coherent now none i o t = issue_ticket-Coherent now o t (i t)
revalidate-Coherent now (some p) i o t =
    search (coherence, fail_ticket-Coherent, issue_ticket-Coherent) depth 14

pub issue_paid_ticket-Coherent :
    (now : ℕ) (p : Option OfferProvider) (i : TicketIssuer) (payment_id : ℕ)
    → Coherent (issue_paid_ticket now p i payment_id)
unfolding issue_paid_ticket
issue_paid_ticket-Coherent now p i payment_id = search (coherence, revalidate-Coherent) depth 14
