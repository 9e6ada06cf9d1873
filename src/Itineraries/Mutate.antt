-- ===== src/Itineraries/Mutate.antt =====
-- `_mutate` of backend/app/modules/itineraries/service.py, but for the preview of a generated plan.
-- A payload that lacks an identifier is looked up under the empty text.
use travel_latest.Base.{
  ℕ, suc, ◌&&◌, Option, none, some, List, [], ◌∷◌, map, ◌==◌, ltb, if◌then◌else◌, is_some, or_else,
}
use travel_latest.Base.Exec.{◌>>=◌, ◌>>◌, pure, modify, gets, raise_if, with_some}
use travel_latest.Base.Lists.{length}
use travel_latest.Base.Tables.{scalar, get, save, add}
use travel_latest.Base.Queries.{rows_where, delete_where, order_by, next_position}
use travel_latest.Events.Outbox.{ident}
use travel_latest.Itineraries.Model.{
  Itinerary, ItineraryDay, PoiSnapshot, ItineraryEvent, RouteStatus, Snapshot, TripDb, M,
  value_error, day_key, stop_key, new_uuid, save_itinerary, announce,
}
use travel_latest.Itineraries.Snapshots.{events_of, snapshot_of}

-- `OperationResult`, but for `code == "APPLIED"`.
pub data Refusal : Type 0 where
  not_found : Option ℕ → Refusal
  forbidden : ℕ → Refusal
  version_conflict map_unavailable preview_invalid : ℕ → Snapshot → Refusal

-- What `_mutate` gives: a result that ends the operation, or the changed itinerary.
pub data Mutation : Type 0 where
  refused : Refusal → Mutation
  changed : Itinerary → Mutation

-- The map service's answer for a place: `none` is a `MapUnavailable`.
pub record VerifiedPoi : Type 0 where
  pub id : ℕ
  pub snapshot : PoiSnapshot

unfoldable pub day_by_id : ℕ → List ItineraryDay → Option ItineraryDay
day_by_id i = get i

unfoldable pub stop_by_id : ℕ → List ItineraryEvent → Option ItineraryEvent
stop_by_id i = get i

unfoldable pub day_by_date : ℕ → ℕ → List ItineraryDay → Option ItineraryDay
day_by_date itinerary_id day_date =
    scalar (λ x. x.itinerary_id == itinerary_id && x.day_date == day_date)

abbrev pub min : ℕ → ℕ → ℕ
min a b = if ltb a b then a else b

abbrev pub max : ℕ → ℕ → ℕ
max a b = if ltb a b then b else a

-- `operation_type == "add_day"`
unfoldable pub add_day : Itinerary → ℕ → M Mutation
add_day itinerary day_date = do
  exists ← gets (λ d. day_by_date itinerary.id day_date d.days)
  raise_if (is_some exists) value_error
  let itinerary' = record itinerary {
    start_date = min itinerary.start_date day_date;
    end_date = max itinerary.end_date day_date;
  }
  save_itinerary itinerary'
  display_order ← gets (λ d.
      next_position (λ x. x.display_order)
        (rows_where (λ x. x.itinerary_id == itinerary.id) d.days))
  id ← new_uuid
  modify λ d. record d {
    days =
        add
          (record {
            id = id;
            itinerary_id = itinerary.id;
            day_date = day_date;
            display_order = display_order;
          })
          d.days;
  }
  pure (changed itinerary')

-- `day is None or day.itinerary_id != itinerary.id`
unfoldable pub own_day : Itinerary → ℕ → TripDb → Option ItineraryDay
own_day itinerary day_id d = elim (day_by_id day_id d.days) [
  | none ↦ none
  | some day ↦ if day.itinerary_id == itinerary.id then some day else none
]

abbrev pub delete_segments : ℕ → TripDb → TripDb
delete_segments day_id d = record d { segments = delete_where (λ x. x.day_id == day_id) d.segments }

-- What hangs on a day, and the day.
unfoldable pub delete_day : ℕ → TripDb → TripDb
delete_day day_id d = record (delete_segments day_id d) {
  route_jobs = delete_where (λ x. x.day_id == day_id) d.route_jobs;
  events = delete_where (λ x. x.day_id == day_id) d.events;
  days = delete_where (λ x. x.id == day_id) d.days;
}

-- `for order, remaining in enumerate(remaining_days): remaining.display_order = order`
abbrev pub numbered_days : ℕ → List ItineraryDay → List ItineraryDay
numbered_days n [] = []
numbered_days n (x ∷ xs) = record x { display_order = n } ∷ numbered_days (suc n) xs

unfoldable pub put_days : List ItineraryDay → List ItineraryDay → List ItineraryDay
put_days [] rows = rows
put_days (x ∷ xs) rows = put_days xs (save x rows)

abbrev pub earliest : ItineraryDay → List ItineraryDay → ℕ
earliest x [] = x.day_date
earliest x (y ∷ ys) = min x.day_date (earliest y ys)

abbrev pub latest : ItineraryDay → List ItineraryDay → ℕ
latest x [] = x.day_date
latest x (y ∷ ys) = max x.day_date (latest y ys)

abbrev pub shrunk : Itinerary → List ItineraryDay → Itinerary
shrunk itinerary [] = itinerary
shrunk itinerary (x ∷ xs) = record itinerary { start_date = earliest x xs; end_date = latest x xs }

-- `operation_type == "remove_day"`. The days are numbered twice, first above the numbers in use,
-- for the sake of the unique constraint; the second numbering stays.
unfoldable pub remove_day : Itinerary → ℕ → M Mutation
remove_day itinerary day_id = do
  found ← gets (own_day itinerary day_id)
  with_some found (pure (refused (not_found (some itinerary.version)))) λ day. do
    modify (delete_day day.id)
    remaining ← gets (λ d.
        order_by (λ x. x.day_date)
          (order_by (λ x. x.id) (rows_where (λ x. x.itinerary_id == itinerary.id) d.days)))
    modify (λ d. record d {
      days = put_days (numbered_days (suc (length remaining)) remaining) d.days;
    })
    modify (λ d. record d { days = put_days (numbered_days 0 remaining) d.days })
    save_itinerary (shrunk itinerary remaining)
    pure (changed (shrunk itinerary remaining))

-- `operation_type == "add_event"`
unfoldable pub add_event : Itinerary → Option VerifiedPoi → ℕ → M Mutation
add_event itinerary verification day_id =
    with_some verification
      (do
        snapshot ← gets (snapshot_of itinerary)
        pure (refused (map_unavailable itinerary.version snapshot)))
      λ poi. do
        found ← gets (own_day itinerary day_id)
        with_some found (pure (refused (not_found (some itinerary.version)))) λ day. do
          display_order ← gets (λ d.
              next_position (λ x. x.display_order) (rows_where (λ x. x.day_id == day.id) d.events))
          id ← new_uuid
          modify λ d. record d {
            events =
                add
                  (record {
                    id = id;
                    day_id = day.id;
                    poi_id = poi.id;
                    poi_snapshot = poi.snapshot;
                    starts_at = none;
                    ends_at = none;
                    display_order = display_order;
                    notes = none;
                  })
                  d.events;
          }
          modify (delete_segments day.id)
          pure (changed itinerary)

-- A route calculation is put on the queue.
unfoldable pub request_route : ℕ → Itinerary → ℕ → ℕ → M Unit
request_route now itinerary actor_id day_id = do
  events ← gets (λ d. events_of day_id d.events)
  id ← new_uuid
  modify λ d. record d {
    route_jobs =
        add
          (record {
            id = id;
            itinerary_id = itinerary.id;
            day_id = day_id;
            requested_by = actor_id;
            event_ids = map (λ x. x.id) events;
            status = RouteStatus.queued;
            error_code = none;
            completed_at = none;
            created_at = now;
          })
          d.route_jobs;
  }
  announce now "itinerary.route_calculation_requested" itinerary.id
      (("route_calculation_job_id", ident id) ∷ [])

-- `operation_type == "recalculate_route"`
unfoldable pub recalculate_route : ℕ → Itinerary → ℕ → ℕ → M Mutation
recalculate_route now itinerary actor_id day_id = do
  found ← gets (own_day itinerary day_id)
  with_some found (pure (refused (not_found (some itinerary.version))))
      λ day. do request_route now itinerary actor_id day.id; pure (changed itinerary)

-- The event of an operation, with its day.
unfoldable pub own_event : Itinerary → ℕ → TripDb → Option (ItineraryEvent × ItineraryDay)
own_event itinerary event_id d = elim (stop_by_id event_id d.events) [
  | none ↦ none
  | some e ↦ elim (own_day itinerary e.day_id d) [ none ↦ none | some day ↦ some (e, day) ]
]

unfoldable pub remove_event : Itinerary → ItineraryEvent → ItineraryDay → M Mutation
remove_event itinerary e day = do
  modify (λ d. record d { events = delete_where (λ x. x.id == e.id) d.events })
  modify (delete_segments day.id)
  pure (changed itinerary)

unfoldable pub put_event : ItineraryEvent → List ItineraryEvent → List ItineraryEvent
put_event e = save e

-- The fields of the payload: the outer `none` is a field that is not in it.
pub record EventUpdate : Type 0 where
  pub notes : Option (Option (List ℕ))
  pub starts_at : Option (Option ℕ)
  pub ends_at : Option (Option ℕ)

unfoldable pub update_event : Itinerary → ItineraryEvent → EventUpdate → M Mutation
update_event itinerary e payload = do
  modify λ d. record d {
    events =
        put_event
          (record e {
            notes = or_else payload.notes e.notes;
            starts_at = or_else payload.starts_at e.starts_at;
            ends_at = or_else payload.ends_at e.ends_at;
          })
          d.events;
  }
  pure (changed itinerary)
