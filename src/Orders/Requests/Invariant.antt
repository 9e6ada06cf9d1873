-- ===== src/Orders/Requests/Invariant.antt =====
-- What holds of the tables after any requests, in any order, whatever the providers answer.
use travel_latest.Base.{ℕ, List, [], ◌∷◌}
use travel_latest.Base.Exec.{Session, Result, ok, err, ◌>>◌, raise}
use travel_latest.Orders.Model.{Db, OrderError, supplier_fulfillment_unavailable}
use travel_latest.Orders.Ticket.{OfferProvider, TicketIssuer}
use travel_latest.Orders.Fulfillment.{FulfillmentWork}
use travel_latest.Orders.Confirm.{Supplier, confirm, prepare_retry}
use travel_latest.Orders.Worker.{after_confirmation, confirm_or_retry, fulfill_paid_order}
use travel_latest.Orders.Coherence.{Coherent, IsCoherentTable, IsCoherentSession, coherence}
use travel_latest.Orders.Coherence.Tickets.{issue_paid_ticket-Coherent}
use travel_latest.Orders.Coherence.Fulfillments.{
  start_attempt-Coherent, confirm-Coherent, prepare_retry-Coherent,
}
use travel_latest.Orders.Coherence.Payments.{
  create_checkout-Coherent, handle_callback-Coherent, query-Coherent,
}
use travel_latest.Orders.Coherence.Refunds.{
  create_refund-Coherent, process_refund-Coherent, create_from_offer-Coherent,
}
use travel_latest.Orders.Requests.{
  Request, place, check_out, query_payment, call_back, ask_refund, payment_paid, refund_requested,
  perform, perform_all,
}

retry-Coherent :
    (i : ℕ) → Coherent {A = Unit} (prepare_retry i >> raise supplier_fulfillment_unavailable)
retry-Coherent i = search (coherence, prepare_retry-Coherent) depth 5

after_confirmation-Coherent :
    (i : ℕ) (r : Result OrderError Unit) (s : Session Db)
    → IsCoherentSession s
    → IsCoherentSession (after_confirmation i (r, s)).1
unfolding after_confirmation
after_confirmation-Coherent i (ok u) s c = c
after_confirmation-Coherent i (err supplier_fulfillment_unavailable) s c = (retry-Coherent i).at s c
after_confirmation-Coherent i (err _) s c = c

confirm_or_retry-Coherent :
    (now : ℕ) (supplier : Supplier) (w : FulfillmentWork)
    → Coherent (confirm_or_retry now supplier w)
unfolding confirm_or_retry
confirm_or_retry-Coherent now supplier w = record {
  at = λ s c.
      let (r, s') = confirm now supplier w s in
      after_confirmation-Coherent w.travel_order_id r s' ((confirm-Coherent now supplier w).at s c);
}

fulfill-Coherent :
    (now : ℕ) (p : OfferProvider) (issuer : TicketIssuer) (supplier : Supplier) (i : ℕ)
    → Coherent (fulfill_paid_order now p issuer supplier i)
unfolding fulfill_paid_order
fulfill-Coherent now p issuer supplier i =
    search
      (coherence, start_attempt-Coherent, issue_paid_ticket-Coherent, confirm_or_retry-Coherent)
      depth 20

perform-IsCoherent :
    (r : Request) (d : Db) → IsCoherentTable d.orders → IsCoherentTable (perform r d).orders
unfolding perform
perform-IsCoherent (place now u off k ps) d c =
    ((create_from_offer-Coherent now u off k ps).at _ (c, c)).1
perform-IsCoherent (check_out now digest a i k) d c =
    ((create_checkout-Coherent now digest a i k).at _ (c, c)).1
perform-IsCoherent (query_payment now a o) d c = ((query-Coherent now a o).at _ (c, c)).1
perform-IsCoherent (call_back now a form) d c =
    ((handle_callback-Coherent now a form).at _ (c, c)).1
perform-IsCoherent (ask_refund now a i u k amount currency reason) d c =
    ((create_refund-Coherent now a i u k amount currency reason).at _ (c, c)).1
perform-IsCoherent (payment_paid now p issuer supplier i) d c =
    ((fulfill-Coherent now p issuer supplier i).at _ (c, c)).1
perform-IsCoherent (refund_requested now a i) d c =
    ((process_refund-Coherent now a i).at _ (c, c)).1

-- From tables in which every order's three statuses belong together, any sequence of requests, with
-- any answers of the providers, leaves tables in which they do.
pub perform_all-IsCoherent :
    (rs : List Request) (d : Db)
    → IsCoherentTable d.orders
    → IsCoherentTable (perform_all rs d).orders
unfolding perform_all
perform_all-IsCoherent [] d c = c
perform_all-IsCoherent (r ∷ rs) d c =
    perform_all-IsCoherent rs (perform r d) (perform-IsCoherent r d c)
