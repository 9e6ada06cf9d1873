-- ===== src/Orders/Tests.antt =====
-- The theorems on the orders at concrete tables.
use mathlib.Core.List.{[], ◌∷◌}
use travel_latest.Base.{ap, ◌≡◌, ◌↔◌, refl, true, false, none, some, arith}
use travel_latest.Base.Exec.{ok, err, request, begin, ◌>>=◌}
use travel_latest.Orders.Model.{
  Db, TravelOrder, TravelSearchJob, SearchType, RefundRecord, OrderStatus, PaymentStatus,
  FulfillmentStatus, Triple, idempotency_conflict, refund_not_allowed,
}
use travel_latest.Orders.Names.{eq_triple}
use travel_latest.Orders.Transition.{current, transition, allowed, member}
use travel_latest.Orders.Transition.Lifecycle.{
  Step, permitted, Reach, here, next, initial, IsCoherent, reachable_iff, Reach-forward, is_final,
  is_payable,
}
use travel_latest.Orders.Tables.{
  order_by_id, order_by_key, offer_by_id, job_of_offer, paid_payment, refund_by_key, active_refund,
  payment_by_id, payment_by_no, callback_by_transaction, ticket_by_order, refund_by_id,
}
use travel_latest.Orders.Session.{
  new_uuid, enqueue, advance, save_order, save_payment, save_callback,
}
use travel_latest.Orders.Create.{
  new_order, create_from_offer, place_order, offer_and_job, check_passengers, add_ticket,
}
use travel_latest.Orders.Create.Idempotent.{create_twice, create_conflict}
use travel_latest.Orders.Settle.{
  settle, apply_callback, callback_row, mark_paid, start_fulfillment, is_malformed, is_success,
  wrong_app, settled_by_other, wrong_currency,
}
use travel_latest.Orders.Settle.Replay.{IsSettled, settle_twice, settle-IsSettled}
use travel_latest.Orders.Ticket.{issue_paid_ticket}
use travel_latest.Orders.Ticket.Outcome.{
  IsDue, issue_paid_ticket-IsAnswered, issue_paid_ticket_once, issue_paid_ticket_unavailable,
}
use travel_latest.Orders.Refund.{
  create_refund, request_refund, is_refundable, is_wrong_amount, is_foreign_order, process_refund,
  is_valid_refund,
}
use travel_latest.Orders.Refund.Idempotent.{
  IsRequested, create_refund_granted, second_refund_refused,
}
use travel_latest.Orders.Refund.Process.{process_refund-IsAnswered, process_refund_once}
use travel_latest.Orders.Coherence.{IsCoherentTable, empty-IsCoherent}
use travel_latest.Orders.Requests.{perform_all, place, ask_refund}
use travel_latest.Orders.Requests.Invariant.{perform_all-IsCoherent}
use travel_latest.Events.Outbox.{int}
use travel_latest.Orders.Search.{
  SupplierSearchRequest, SearchSupplier, job_by_key, put_job, add_offers, new_search, create_search,
}
use travel_latest.Orders.Samples
use travel_latest.Orders.Ticket.Outcome as Ticketing
use travel_latest.Orders.Confirm.Outcome as Confirming
use travel_latest.Orders.Refund.Outcome as Refunding

abbrev first_order : TravelOrder
first_order = new_order 100 101 1 9 Samples.hotel_offer

abbrev placed : Db
placed = (request (create_from_offer 50 1 2 9 []) Samples.searched).1

placing : request (create_from_offer 50 1 2 9 []) Samples.searched ≡ (ok first_order, placed)
unfolding create_from_offer place_order offer_and_job check_passengers add_ticket order_by_key
    offer_by_id job_of_offer new_uuid enqueue ◌>>=◌
placing = refl

create_twice_example : request (create_from_offer 60 1 2 9 []) placed ≡ (ok first_order, placed)
create_twice_example = create_twice 50 60 1 2 9 [] [] Samples.searched placed first_order placing

create_conflict_example :
    request (create_from_offer 60 1 5 9 []) placed ≡ (err idempotency_conflict, placed)
create_conflict_example =
    create_conflict 50 60 1 2 5 9 [] [] Samples.searched placed first_order (λ e. ground arith)
      placing

abbrev settled : Db
settled =
    (request (settle 40 (some (Samples.provider_with none)) none Samples.paid_callback)
      Samples.paying).1

settling :
    request
      (settle 40 (some (Samples.provider_with none)) none Samples.paid_callback)
      Samples.paying
    ≡ (ok Samples.paid_order, settled)
unfolding settle is_malformed is_success wrong_app settled_by_other wrong_currency apply_callback
    callback_row mark_paid start_fulfillment payment_by_no order_by_id callback_by_transaction
    new_uuid enqueue advance transition allowed member save_order save_payment save_callback ◌>>=◌
settling = refl

settle_twice_example :
    let (r, d) =
      request (settle 45 (some (Samples.provider_with none)) none Samples.paid_callback) settled in
    (r ≡ ok Samples.paid_order)
    × (d.payments ≡ settled.payments)
    × (d.orders ≡ settled.orders)
    × (d.outbox ≡ settled.outbox)
settle_twice_example =
    settle_twice 40 45 (Samples.provider_with none) none Samples.paid_callback Samples.paid_order
      Samples.paying settled settling

reachable_example :
    Reach initial (current Samples.refunding_order) ↔ IsCoherent (current Samples.refunding_order)
reachable_example = reachable_iff (current Samples.refunding_order)

abbrev refunded_triple : Triple
refunded_triple = (OrderStatus.refunded, PaymentStatus.refunded, FulfillmentStatus.not_supported)

Step-to_refunded : Step (current Samples.refunding_order) refunded_triple
unfolding allowed member eq_triple
Step-to_refunded = permitted refl

Reach-forward_example :
    (is_final OrderStatus.refunding ≡ true → refunded_triple ≡ current Samples.refunding_order)
    × (is_payable OrderStatus.refunding ≡ false → is_payable OrderStatus.refunded ≡ false)
Reach-forward_example = Reach-forward (next here Step-to_refunded)

due :
    IsDue 4
      (Samples.payment_at PaymentStatus.paid)
      Samples.paid_order
      Samples.pending_ticket
      Samples.ticketed
unfolding payment_by_id order_by_id ticket_by_order
due = record {
  payment = refl;
  paid = refl;
  order = refl;
  waiting = (refl, refl);
  coherent = refl;
  ticket = refl;
  pending = refl;
}

issue_paid_ticket-IsAnswered_example :
    let (r, d) =
      request
        (issue_paid_ticket 50
          (some (λ o t. some Samples.still_valid))
          (λ t. Samples.ticket_issued)
          4)
        Samples.ticketed in
    Ticketing.IsAnswered true 3 Samples.paid_order Samples.ticketed r d
issue_paid_ticket-IsAnswered_example =
    issue_paid_ticket-IsAnswered 50 4 (λ o t. some Samples.still_valid) (λ t. Samples.ticket_issued)
      (Samples.payment_at PaymentStatus.paid) Samples.paid_order Samples.pending_ticket
      Samples.still_valid Samples.ticketed due refl refl

issue_paid_ticket_once_example :
    let d =
      (request
        (issue_paid_ticket 50
          (some (λ o t. some Samples.still_valid))
          (λ t. Samples.ticket_issued)
          4)
        Samples.ticketed).1 in
    request (issue_paid_ticket 60 none (λ t. Samples.ticket_issued) 4) d ≡ (ok none, d)
issue_paid_ticket_once_example =
    issue_paid_ticket_once 50 60 4 (λ o t. some Samples.still_valid) none
      (λ t. Samples.ticket_issued) (λ t. Samples.ticket_issued)
      (Samples.payment_at PaymentStatus.paid) Samples.paid_order Samples.pending_ticket
      Samples.still_valid Samples.ticketed due refl refl

settle-IsSettled_example :
    (is_malformed (Samples.provider_with none) none Samples.paid_callback ≡ false)
    × IsSettled Samples.paid_callback Samples.paid_order
        (settle 40
          (some (Samples.provider_with none))
          none
          Samples.paid_callback
          (begin Samples.paying)).1.saved
settle-IsSettled_example =
    settle-IsSettled 40 (Samples.provider_with none) none Samples.paid_callback Samples.paid_order
      Samples.paying (ap (λ x. x.0) settling)

awaited :
    Refunding.IsAwaited 8 Samples.requested_refund
      (Samples.payment_at PaymentStatus.paid)
      Samples.refunding_order
      Samples.refunding
unfolding refund_by_id payment_by_id order_by_id
awaited = record { refund = refl; payment = refl; order = refl; refunding = refl; coherent = refl }

process_refund-IsAnswered_example :
    let (r, d) =
      request
        (process_refund 60 (some (Samples.provider_with (some Samples.refund_answer))) 8)
        Samples.refunding in
    Refunding.IsAnswered
      (is_valid_refund Samples.refund_answer
        (Samples.payment_at PaymentStatus.paid)
        Samples.requested_refund)
      8
      3
      FulfillmentStatus.pending_confirmation
      r
      d
process_refund-IsAnswered_example =
    process_refund-IsAnswered 60 8 (Samples.provider_with (some Samples.refund_answer))
      Samples.requested_refund (Samples.payment_at PaymentStatus.paid) Samples.refunding_order
      Samples.refund_answer Samples.refunding awaited refl refl

process_refund_once_example :
    let d =
      (request
        (process_refund 60 (some (Samples.provider_with (some Samples.refund_answer))) 8)
        Samples.refunding).1 in
    request (process_refund 70 (some (Samples.provider_with none)) 8) d ≡ (ok tt, d)
process_refund_once_example =
    process_refund_once 60 70 8 (Samples.provider_with (some Samples.refund_answer))
      (Samples.provider_with none) Samples.requested_refund (Samples.payment_at PaymentStatus.paid)
      Samples.refunding_order Samples.refund_answer Samples.refunding awaited refl refl

abbrev new_refund_row : RefundRecord
new_refund_row = record Samples.requested_refund { id = 100; refund_no = 101 }

abbrev asked_for : Db
asked_for =
    (request (create_refund 50 (some (Samples.provider_with none)) 3 1 7 5000 "CNY" "plans changed")
      Samples.paid).1

asking_for :
    request
      (create_refund 50 (some (Samples.provider_with none)) 3 1 7 5000 "CNY" "plans changed")
      Samples.paid
    ≡ (ok new_refund_row, asked_for)
unfolding create_refund request_refund is_refundable is_wrong_amount is_foreign_order active_refund
    refund_by_key paid_payment order_by_id new_uuid enqueue advance transition allowed member
    save_order ◌>>=◌
asking_for = refl

found_order : order_by_id 3 Samples.paid.orders ≡ some Samples.paid_order
unfolding order_by_id
found_order = refl

found_payment : paid_payment 3 Samples.paid.payments ≡ some (Samples.payment_at PaymentStatus.paid)
unfolding paid_payment
found_payment = refl

fresh_key : refund_by_key 4 7 Samples.paid.refunds ≡ none
unfolding refund_by_key
fresh_key = refl

create_refund_granted_example :
    (is_foreign_order Samples.paid_order 1 ≡ false)
    × IsRequested 1 7 Samples.paid_order
        (Samples.payment_at PaymentStatus.paid)
        new_refund_row
        asked_for
create_refund_granted_example =
    create_refund_granted 50 3 1 7 5000 (Samples.provider_with none) "CNY" "plans changed"
      Samples.paid_order (Samples.payment_at PaymentStatus.paid) new_refund_row Samples.paid
      asked_for found_order found_payment fresh_key asking_for

second_key : refund_by_key 4 6 asked_for.refunds ≡ none
unfolding create_refund request_refund is_refundable is_wrong_amount is_foreign_order active_refund
    refund_by_key paid_payment order_by_id new_uuid enqueue advance transition allowed member
    save_order ◌>>=◌
second_key = refl

second_refund_refused_example :
    request
      (create_refund 60 (some (Samples.provider_with none)) 3 1 6 100 "CNY" "plans changed")
      asked_for
    ≡ (err refund_not_allowed, asked_for)
second_refund_refused_example =
    second_refund_refused 50 60 3 1 7 6 5000 100 (Samples.provider_with none) "CNY" "plans changed"
      Samples.paid_order (Samples.payment_at PaymentStatus.paid) new_refund_row Samples.paid
      asked_for found_order found_payment fresh_key asking_for second_key

perform_all_example :
    IsCoherentTable
      (perform_all
        (place 50 1 2 9 []
          ∷ ask_refund 60 (some (Samples.provider_with none)) 3 1 7 5000 "CNY" "plans changed"
          ∷ [])
        Samples.searched).orders
perform_all_example =
    perform_all-IsCoherent
      (place 50 1 2 9 []
        ∷ ask_refund 60 (some (Samples.provider_with none)) 3 1 7 5000 "CNY" "plans changed"
        ∷ [])
      Samples.searched empty-IsCoherent

abbrev hotel_search : SupplierSearchRequest
hotel_search = record {
  search_type = SearchType.hotel;
  origin = "SHA";
  destination = "PEK";
  depart_date = 90;
  passenger_count = 1;
}

abbrev no_offers : SearchSupplier
no_offers search = some (record { available = false; code = "SUPPLIER_UNAVAILABLE"; offers = [] })

abbrev empty_job : TravelSearchJob
empty_job = record {
  id = 100;
  user_id = 1;
  idempotency_key = 6;
  search_type = SearchType.hotel;
  passenger_count = int 1;
  status = "empty";
  source = "supplier_unavailable";
  unavailable_code = some "SUPPLIER_UNAVAILABLE";
}

abbrev searched_again : Db
searched_again = (request (create_search 50 no_offers 1 6 hotel_search) Samples.searched).1

searching :
    request (create_search 50 no_offers 1 6 hotel_search) Samples.searched
    ≡ (ok empty_job, searched_again)
unfolding create_search new_search job_by_key put_job add_offers new_uuid enqueue ◌>>=◌
searching = refl
