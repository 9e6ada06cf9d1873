-- ===== src/Orders/Worker.antt =====
-- The event handlers of backend/app/workers/domain_handlers.py that drive payments to an end:
-- `_fulfill_paid_order` and `_process_refund`.
pub mod Retry
use travel_latest.Base.{ℕ, some}
use travel_latest.Base.Exec.{
  Session, Result, err, ◌>>=◌, ◌>>◌, pure, gets, raise, commit, with_some,
}
use travel_latest.Orders.Model.{Db, OrderError, supplier_fulfillment_unavailable}
use travel_latest.Orders.Tables.{payment_by_id, ticket_by_order}
use travel_latest.Orders.Session.{M}
use travel_latest.Orders.Ticket.{OfferProvider, TicketIssuer, issue_paid_ticket}
use travel_latest.Orders.Fulfillment.{FulfillmentWork, start_attempt}
use travel_latest.Orders.Confirm.{Supplier, confirm, prepare_retry}

-- `except SupplierFulfillmentUnavailable: await service.prepare_retry(...); raise`
unfoldable pub after_confirmation :
    ℕ → Result OrderError Unit × Session Db → Result OrderError Unit × Session Db
after_confirmation travel_order_id (err supplier_fulfillment_unavailable, s) =
    (prepare_retry travel_order_id >> raise supplier_fulfillment_unavailable) s
after_confirmation travel_order_id other = other

unfoldable pub confirm_or_retry : ℕ → Supplier → FulfillmentWork → M Unit
unfolding after_confirmation
confirm_or_retry now supplier work s =
    after_confirmation work.travel_order_id (confirm now supplier work s)

-- The parameters are the offer provider for the ticket, the issuer and the supplier.
unfoldable pub fulfill_paid_order : ℕ → OfferProvider → TicketIssuer → Supplier → ℕ → M Unit
fulfill_paid_order now provider issuer supplier payment_id = do
  found_payment ← gets (λ d. payment_by_id payment_id d.payments)
  with_some found_payment (pure tt) λ payment. do
    found_ticket ← gets (λ d. ticket_by_order payment.order_id d.tickets)
    with_some found_ticket
        (do
          started ← start_attempt now payment_id
          with_some started (pure tt) λ work. do commit; confirm_or_retry now supplier work)
        λ ticket. do issue_paid_ticket now (some provider) issuer payment.id; pure tt
