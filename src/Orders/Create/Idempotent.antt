-- ===== src/Orders/Create/Idempotent.antt =====
-- Placing an order twice.
use travel_latest.Base.{ℕ, ◌≡◌, ◌≢◌, none, some, List, arith, Option-cases, inl, inr}
use travel_latest.Base.Exec.{ok, err, ◌>>=◌, Session, request}
use travel_latest.Orders.Model.{Db, TravelOrder, TravelOffer, TravelSearchJob, idempotency_conflict}
use travel_latest.Orders.Passengers.{Passenger}
use travel_latest.Orders.Tables.{order_by_key, offer_by_id}
use travel_latest.Orders.Tables.Laws.{offer_by_id-id, order_by_key-add}
use travel_latest.Orders.Session.{new_uuid, enqueue}
use travel_latest.Orders.Create.{
  check_passengers, add_ticket, offer_and_job, place_order, create_from_offer,
}

check_passengers-session :
    (job : TravelSearchJob) (ps : List Passenger) (s : Session Db)
    → (check_passengers job ps s).1 ≡ s
unfolding check_passengers ◌>>=◌
check_passengers-session job ps s = ground arith

-- A ticket is added to its own table, and the step never raises.
add_ticket-orders :
    (o : TravelOrder) (job : TravelSearchJob) (ps : List Passenger) (s : Session Db)
    → ((add_ticket o job ps s).1.db.orders ≡ s.db.orders) × ((add_ticket o job ps s).0 ≡ ok tt)
unfolding add_ticket new_uuid ◌>>=◌
add_ticket-orders o job ps s = ground arith

offer_and_job-offer :
    (u off : ℕ) (d : Db) (r : TravelOffer × TravelSearchJob)
    → offer_and_job u off d ≡ some r
    → r.0.id ≡ off
unfolding offer_and_job
offer_and_job-offer u off d r h = elim (Option-cases (offer_by_id off d.offers)) [
  | inl absent ↦ ground arith
  | inr (x, e) ↦ ground (arith, offer_by_id-id off d.offers x e)
]

-- An order that was placed is found under its key, with the offer that was asked for.
place_order-found :
    (now u off k : ℕ) (ps : List Passenger) (d d' : Db) (o : TravelOrder)
    → order_by_key u k d.orders ≡ none
    → request (place_order now u off k ps) d ≡ (ok o, d')
    → (order_by_key u k d'.orders ≡ some o) × (o.offer_id ≡ off)
unfolding place_order ◌>>=◌ new_uuid enqueue
place_order-found now u off k ps d d' o fresh h = grind (
  arith,
  order_by_key-add u k d.orders o fresh,
  offer_and_job-offer u off d,
  check_passengers-session,
  add_ticket-orders,
)

-- A second request under the same user and key returns the order that the first one placed, and
-- leaves the tables as they are, whatever its time and its passengers.
pub create_twice :
    (now now' u off k : ℕ) (ps ps' : List Passenger) (d d' : Db) (o : TravelOrder)
    → request (create_from_offer now u off k ps) d ≡ (ok o, d')
    → request (create_from_offer now' u off k ps') d' ≡ (ok o, d')
unfolding create_from_offer ◌>>=◌
create_twice now now' u off k ps ps' d d' o h = elim (Option-cases (order_by_key u k d.orders)) [
  | inl fresh ↦ ground (arith, place_order-found now u off k ps d d' o fresh)
  | inr (x, e) ↦ ground arith
]

-- The key of an order that was placed is refused for every other offer, and nothing changes.
pub create_conflict :
    (now now' u off off' k : ℕ) (ps ps' : List Passenger) (d d' : Db) (o : TravelOrder)
    → off ≢ off'
    → request (create_from_offer now u off k ps) d ≡ (ok o, d')
    → request (create_from_offer now' u off' k ps') d' ≡ (err idempotency_conflict, d')
unfolding create_from_offer ◌>>=◌
create_conflict now now' u off off' k ps ps' d d' o ne h =
    elim (Option-cases (order_by_key u k d.orders)) [
      | inl fresh ↦ ground (arith, place_order-found now u off k ps d d' o fresh)
      | inr (x, e) ↦ ground arith
    ]
