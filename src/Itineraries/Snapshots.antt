-- ===== src/Itineraries/Snapshots.antt =====
-- `_snapshot`, `_record_version` and `_replace_snapshot` of
-- backend/app/modules/itineraries/service.py.
use travel_latest.Base.{
  ℕ, Bool, false, ◌&&◌, ◌||◌, Option, none, some, List, [], ◌∷◌, map, ◌==◌, ltb, if◌then◌else◌,
}
use travel_latest.Base.Exec.{◌>>=◌, ◌>>◌, pure, modify, gets}
use travel_latest.Base.Tables.{add}
use travel_latest.Base.Queries.{rows_where, delete_where, order_by}
use travel_latest.Itineraries.Model.{
  Itinerary, ItineraryDay, ItineraryEvent, RouteSegment, RouteCalculationJob, EventSnapshot,
  SegmentSnapshot, RouteSnapshot, DaySnapshot, Snapshot, TripDb, M, new_uuid, save_itinerary,
}

unfoldable pub days_of : ℕ → List ItineraryDay → List ItineraryDay
days_of itinerary_id rows =
    order_by (λ x. x.display_order) (rows_where (λ x. x.itinerary_id == itinerary_id) rows)

unfoldable pub events_of : ℕ → List ItineraryEvent → List ItineraryEvent
events_of day_id rows = order_by (λ x. x.display_order) (rows_where (λ x. x.day_id == day_id) rows)

unfoldable pub segments_of : ℕ → List RouteSegment → List RouteSegment
segments_of day_id rows =
    order_by (λ x. x.display_order) (rows_where (λ x. x.day_id == day_id) rows)

-- `order_by(RouteCalculationJob.created_at.desc())`, the first row
abbrev pub later_job : RouteCalculationJob → Option RouteCalculationJob → RouteCalculationJob
later_job j none = j
later_job j (some k) = if ltb j.created_at k.created_at then k else j

-- `_latest_route_job`
unfoldable pub latest_route_job : ℕ → ℕ → List RouteCalculationJob → Option RouteCalculationJob
latest_route_job itinerary_id day_id [] = none
latest_route_job itinerary_id day_id (j ∷ js) =
    let rest = latest_route_job itinerary_id day_id js in
    if j.itinerary_id == itinerary_id && j.day_id == day_id then some (later_job j rest) else rest

-- `_route_job_snapshot`
abbrev pub route_job_snapshot : Option RouteCalculationJob → Option RouteSnapshot
route_job_snapshot none = none
route_job_snapshot (some j) =
    some (record { id = j.id; status = j.status; error_code = j.error_code })

abbrev pub event_snapshot : ItineraryEvent → EventSnapshot
event_snapshot e = record {
  id = e.id;
  poi_id = e.poi_id;
  poi_snapshot = e.poi_snapshot;
  starts_at = e.starts_at;
  ends_at = e.ends_at;
  display_order = e.display_order;
  notes = e.notes;
}

abbrev pub segment_snapshot : RouteSegment → SegmentSnapshot
segment_snapshot s = record {
  display_order = s.display_order;
  travel_mode = s.travel_mode;
  distance_meters = s.distance_meters;
  duration_seconds = s.duration_seconds;
  polyline = s.polyline;
}

unfoldable pub day_snapshot : TripDb → ItineraryDay → DaySnapshot
unfolding events_of segments_of latest_route_job
day_snapshot d day = record {
  id = day.id;
  day_date = day.day_date;
  display_order = day.display_order;
  events = map event_snapshot (events_of day.id d.events);
  route_segments = map segment_snapshot (segments_of day.id d.segments);
  route_calculation = route_job_snapshot (latest_route_job day.itinerary_id day.id d.route_jobs);
}

-- `_snapshot`
unfoldable pub snapshot_of : Itinerary → TripDb → Snapshot
unfolding days_of day_snapshot
snapshot_of itinerary d = record {
  title = itinerary.title;
  start_date = itinerary.start_date;
  end_date = itinerary.end_date;
  days = map (day_snapshot d) (days_of itinerary.id d.days);
}

-- `_record_version`
unfoldable pub record_version : Itinerary → ℕ → M Snapshot
record_version itinerary actor_id = do
  snapshot ← gets (snapshot_of itinerary)
  id ← new_uuid
  modify λ d. record d {
    versions =
        add
          (record {
            id = id;
            itinerary_id = itinerary.id;
            version = itinerary.version;
            snapshot = snapshot;
            created_by = actor_id;
          })
          d.versions;
  }
  pure snapshot

abbrev pub has_day : ℕ → List ItineraryDay → Bool
has_day i [] = false
has_day i (x ∷ xs) = x.id == i || has_day i xs

-- The three `delete` statements on the days of an itinerary, with what hangs on them.
unfoldable pub delete_days : ℕ → TripDb → TripDb
delete_days itinerary_id d =
    let days = rows_where (λ x. x.itinerary_id == itinerary_id) d.days in
    record d {
      segments = delete_where (λ x. has_day x.day_id days) d.segments;
      events = delete_where (λ x. has_day x.day_id days) d.events;
      days = delete_where (λ x. x.itinerary_id == itinerary_id) d.days;
    }

abbrev pub restored_event : ℕ → ℕ → EventSnapshot → ItineraryEvent
restored_event id day_id e = record {
  id = id;
  day_id = day_id;
  poi_id = e.poi_id;
  poi_snapshot = e.poi_snapshot;
  starts_at = e.starts_at;
  ends_at = e.ends_at;
  display_order = e.display_order;
  notes = e.notes;
}

abbrev pub restored_segment : ℕ → ℕ → SegmentSnapshot → RouteSegment
restored_segment id day_id s = record {
  id = id;
  day_id = day_id;
  display_order = s.display_order;
  travel_mode = s.travel_mode;
  distance_meters = s.distance_meters;
  duration_seconds = s.duration_seconds;
  polyline = s.polyline;
}

unfoldable pub restore_events : ℕ → List EventSnapshot → M Unit
restore_events day_id [] = pure tt
restore_events day_id (e ∷ es) = do
  id ← new_uuid
  modify (λ d. record d { events = add (restored_event id day_id e) d.events })
  restore_events day_id es

unfoldable pub restore_segments : ℕ → List SegmentSnapshot → M Unit
restore_segments day_id [] = pure tt
restore_segments day_id (s ∷ ss) = do
  id ← new_uuid
  modify (λ d. record d { segments = add (restored_segment id day_id s) d.segments })
  restore_segments day_id ss

unfoldable pub restore_day : ℕ → DaySnapshot → M Unit
restore_day itinerary_id day = do
  id ← new_uuid
  modify λ d. record d {
    days =
        add
          (record {
            id = id;
            itinerary_id = itinerary_id;
            day_date = day.day_date;
            display_order = day.display_order;
          })
          d.days;
  }
  restore_events id day.events
  restore_segments id day.route_segments

unfoldable pub restore_days : ℕ → List DaySnapshot → M Unit
unfolding restore_day restore_events restore_segments
restore_days itinerary_id [] = pure tt
restore_days itinerary_id (day ∷ days) = do
  restore_day itinerary_id day
  restore_days itinerary_id days

-- `_replace_snapshot`: the itinerary with the title of the snapshot, and its days. The dates of the
-- itinerary stay.
unfoldable pub replace_snapshot : Itinerary → Snapshot → M Itinerary
unfolding restore_days
replace_snapshot itinerary snapshot = do
  modify (delete_days itinerary.id)
  let itinerary' = record itinerary { title = snapshot.title }
  save_itinerary itinerary'
  restore_days itinerary.id snapshot.days
  pure itinerary'
