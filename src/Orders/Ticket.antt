-- ===== src/Orders/Ticket.antt =====
-- `MockTicketService` of backend/app/modules/orders/services.py.
pub mod Outcome
use travel_latest.Base.{
  ℕ, String, Bool, true, false, not, ◌&&◌, Option, none, some, List, [], ◌∷◌, if◌then◌else◌, str_eq,
}
use travel_latest.Base.Text.{first, or_default}
use travel_latest.Base.Exec.{◌>>=◌, ◌>>◌, pure, gets, raise_if, commit, with_some, or_raise}
use travel_latest.Events.Outbox.{Json, ident, text, optional_text, Payload}
use travel_latest.Orders.Model.{
  TravelOrder, MockTransportTicket, OrderStatus, PaymentStatus, FulfillmentStatus, TicketStatus,
  supplier_fulfillment_unavailable,
}
use travel_latest.Orders.Names.{ticket_status_text, eq_order_status, eq_payment_status}
use travel_latest.Orders.Tables.{is_paid, order_by_id, ticket_by_order, payment_by_id}
use travel_latest.Orders.Session.{M, enqueue, advance, save_order, save_ticket}

-- `OfferValidation` of backend/app/integrations/mcp/transport.py, as far as the service reads it.
pub record OfferValidation : Type 0 where
  pub valid : Bool
  pub code : String

-- `MockTicketIssueResult` of backend/app/integrations/suppliers/mock_transport.py.
pub record MockTicketIssueResult : Type 0 where
  pub issued : Bool
  pub code : String
  pub mock_ticket_no : Option String
  pub seat_assignments : List (String × Json)

abbrev pub ticket_payload : TravelOrder → MockTransportTicket → Payload
ticket_payload order ticket =
    ("mock_transport_ticket_id", ident ticket.id)
    ∷ ("travel_order_id", ident order.id)
    ∷ ("user_id", ident order.user_id)
    ∷ ("status", text (ticket_status_text ticket.status))
    ∷ ("failure_code", optional_text ticket.failure_code)
    ∷ []

-- The row, and the outbox row of it, at the end of both branches.
abbrev pub publish_ticket : ℕ → TravelOrder → MockTransportTicket → M (Option MockTransportTicket)
publish_ticket now order ticket = do
  enqueue now "mock_transport_ticket.updated" "mock_transport_ticket" ticket.id
      (ticket_payload order ticket)
  commit
  pure (some ticket)

abbrev pub failed_ticket : MockTransportTicket → String → MockTransportTicket
failed_ticket ticket code = record ticket {
  status = TicketStatus.failed;
  mock_ticket_no = none;
  seat_assignments = [];
  failure_code = some (or_default (first 64 code) "MOCK_TICKET_ISSUANCE_FAILED");
}

unfoldable pub fail_ticket :
    ℕ → TravelOrder → MockTransportTicket → OfferValidation → M (Option MockTransportTicket)
fail_ticket now order ticket validation = do
  let ticket' = failed_ticket ticket validation.code
  save_ticket ticket'
  changed ←
      advance order none
        (OrderStatus.ticket_failed_awaiting_refund, PaymentStatus.paid, FulfillmentStatus.failed)
  let order' = record changed { failure_code = ticket'.failure_code }
  save_order order'
  publish_ticket now order' ticket'

unfoldable pub issue_ticket :
    ℕ → TravelOrder → MockTransportTicket → MockTicketIssueResult → M (Option MockTransportTicket)
issue_ticket now order ticket result =
    if result.issued
    then (do
      let ticket' = record ticket {
        status = TicketStatus.issued;
        mock_ticket_no = result.mock_ticket_no;
        seat_assignments = result.seat_assignments;
      }
      save_ticket ticket'
      changed ←
          advance order none
            (OrderStatus.confirmed, PaymentStatus.paid, FulfillmentStatus.confirmed)
      let order' = record changed { failure_code = none }
      save_order order'
      publish_ticket now order' ticket')
    else fail_ticket now order ticket (record { valid = false; code = result.code })

-- The offer provider, if there is one: `none` where it raises, or where the offer cannot be rebuilt
-- from the snapshot of the order.
abbrev pub OfferProvider : Type 0
OfferProvider = TravelOrder → MockTransportTicket → Option OfferValidation

abbrev pub TicketIssuer : Type 0
TicketIssuer = MockTransportTicket → MockTicketIssueResult

-- A payment for an order whose ticket is still to be issued.
unfoldable pub revalidate_and_issue :
    ℕ
    → Option OfferProvider
    → TicketIssuer
    → TravelOrder
    → MockTransportTicket
    → M (Option MockTransportTicket)
revalidate_and_issue now none issuer order ticket = issue_ticket now order ticket (issuer ticket)
revalidate_and_issue now (some revalidate) issuer order ticket = do
  validation ← or_raise (revalidate order ticket) supplier_fulfillment_unavailable
  raise_if (str_eq validation.code "REALTIME_TRANSPORT_UNAVAILABLE")
      supplier_fulfillment_unavailable
  if not validation.valid
      then fail_ticket now order ticket validation
      else issue_ticket now order ticket (issuer ticket)

unfoldable pub awaits_fulfillment : TravelOrder → Bool
awaits_fulfillment order =
    eq_order_status order.status OrderStatus.paid_pending_fulfillment
    && eq_payment_status order.payment_status PaymentStatus.paid

abbrev pub is_pending_ticket : MockTransportTicket → Bool
is_pending_ticket ticket = elim ticket.status [
  | TicketStatus.pending ↦ true
  | TicketStatus.issued ↦ false
  | TicketStatus.failed ↦ false
]

unfoldable pub issue_paid_ticket :
    ℕ → Option OfferProvider → TicketIssuer → ℕ → M (Option MockTransportTicket)
issue_paid_ticket now provider issuer payment_id = do
  found_payment ← gets (λ d. payment_by_id payment_id d.payments)
  with_some found_payment (pure none) λ payment.
      if not (is_paid payment.status) then pure none else do
        found_order ← gets (λ d. order_by_id payment.order_id d.orders)
        with_some found_order (pure none) λ order.
            if not (awaits_fulfillment order) then pure none else do
              found_ticket ← gets (λ d. ticket_by_order order.id d.tickets)
              with_some found_ticket (pure none) λ ticket.
                  if not (is_pending_ticket ticket)
                  then pure (some ticket)
                  else revalidate_and_issue now provider issuer order ticket
