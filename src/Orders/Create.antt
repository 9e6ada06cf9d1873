-- ===== src/Orders/Create.antt =====
-- `OrderService.create_from_offer` of backend/app/modules/orders/services.py.
pub mod Idempotent
use travel_latest.Base.{
  ℕ, Bool, true, false, not, ◌&&◌, Option, none, some, List, [], ◌∷◌, map, ◌==◌, leb, if◌then◌else◌,
}
use travel_latest.Base.Exec.{◌>>=◌, ◌>>◌, pure, modify, gets, raise_if, commit, with_some, or_raise}
use travel_latest.Base.Tables.{add}
use travel_latest.Orders.Tables.{offer_by_id, job_of_offer, order_by_key}
use travel_latest.Base.Lists.{length}
use travel_latest.Events.Outbox.{Json, int, ident, text, Payload}
use travel_latest.Orders.Model.{
  Db, TravelOrder, TravelOffer, TravelSearchJob, MockTransportTicket, OrderStatus, PaymentStatus,
  FulfillmentStatus, TicketStatus, SearchType, offer_key, job_key, idempotency_conflict,
  offer_not_found, offer_unavailable, offer_expired, passengers_required, passenger_count_mismatch,
}
use travel_latest.Orders.Names.{order_status_text, payment_status_text, fulfillment_status_text}
use travel_latest.Orders.Passengers.{Passenger, masked_passenger_facts}
use travel_latest.Orders.Session.{M, new_uuid, enqueue}

-- `search_type in {"train", "flight"}`
abbrev pub is_transport : SearchType → Bool
is_transport SearchType.train = true
is_transport SearchType.flight = true
is_transport _ = false

-- `isinstance(expected, int) and not isinstance(expected, bool) and len(passengers) == expected`
unfoldable pub count_matches : Json → List Passenger → Bool
count_matches (int n) passengers = length passengers == n
count_matches _ passengers = false

abbrev pub is_empty {ℓ} : {A : Type ℓ} → List A → Bool
is_empty [] = true
is_empty (_ ∷ _) = false

-- The join of an offer with its search job, for the user who searched.
unfoldable pub offer_and_job : ℕ → ℕ → Db → Option (TravelOffer × TravelSearchJob)
offer_and_job user_id offer_id d = elim (offer_by_id offer_id d.offers) [
  | none ↦ none
  | some offer ↦ elim (job_of_offer offer.search_job_id user_id d.jobs) [
    | none ↦ none
    | some job ↦ some (offer, job)
  ]
]

abbrev pub new_order : ℕ → ℕ → ℕ → ℕ → TravelOffer → TravelOrder
new_order id order_no user_id idempotency_key offer = record {
  id = id;
  user_id = user_id;
  offer_id = offer.id;
  idempotency_key = idempotency_key;
  order_no = order_no;
  amount = offer.amount;
  currency = offer.currency;
  offer_snapshot = offer.snapshot;
  status = OrderStatus.pending_confirmation;
  payment_status = PaymentStatus.pending;
  fulfillment_status = FulfillmentStatus.pending_confirmation;
  failure_code = none;
}

abbrev pub new_ticket : ℕ → ℕ → SearchType → List Passenger → MockTransportTicket
new_ticket id order_id transport_type passengers = record {
  id = id;
  order_id = order_id;
  transport_type = transport_type;
  status = TicketStatus.pending;
  mock_ticket_no = none;
  seat_assignments = [];
  passenger_facts = map masked_passenger_facts passengers;
  failure_code = none;
}

unfoldable pub created_payload : TravelOrder → Payload
created_payload o =
    ("travel_order_id", ident o.id)
    ∷ ("user_id", ident o.user_id)
    ∷ ("order_no", ident o.order_no)
    ∷ ("status", text (order_status_text o.status))
    ∷ ("payment_status", text (payment_status_text o.payment_status))
    ∷ ("fulfillment_status", text (fulfillment_status_text o.fulfillment_status))
    ∷ []

-- The two tests on the passengers of a transport order.
unfoldable pub check_passengers : TravelSearchJob → List Passenger → M Unit
check_passengers job passengers =
    if is_transport job.search_type
    then (do
      raise_if (is_empty passengers) passengers_required
      raise_if (not (count_matches job.passenger_count passengers)) passenger_count_mismatch)
    else pure tt

-- The ticket that a transport order waits for.
unfoldable pub add_ticket : TravelOrder → TravelSearchJob → List Passenger → M Unit
add_ticket order job passengers =
    if is_transport job.search_type
    then (do
      id ← new_uuid
      modify λ d. record d {
        tickets = add (new_ticket id order.id job.search_type passengers) d.tickets;
      })
    else pure tt

-- What follows when the key is new.
unfoldable pub place_order : ℕ → ℕ → ℕ → ℕ → List Passenger → M TravelOrder
place_order now user_id offer_id idempotency_key passengers = do
  row ← gets (offer_and_job user_id offer_id)
  (offer, job) ← or_raise row offer_not_found
  raise_if (not offer.available) offer_unavailable
  raise_if (leb offer.valid_until now) offer_expired
  check_passengers job passengers
  id ← new_uuid
  order_no ← new_uuid
  let order = new_order id order_no user_id idempotency_key offer
  modify (λ d. record d { orders = add order d.orders })
  add_ticket order job passengers
  enqueue now "travel_order.created" "travel_order" order.id (created_payload order)
  commit
  pure order

unfoldable pub create_from_offer : ℕ → ℕ → ℕ → ℕ → List Passenger → M TravelOrder
create_from_offer now user_id offer_id idempotency_key passengers = do
  found ← gets (λ d. order_by_key user_id idempotency_key d.orders)
  with_some found (place_order now user_id offer_id idempotency_key passengers) λ existing. do
    raise_if (not (existing.offer_id == offer_id)) idempotency_conflict
    pure existing
