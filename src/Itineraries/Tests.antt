-- ===== src/Itineraries/Tests.antt =====
-- The theorems on itineraries at concrete tables.
use travel_latest.Base.{ℕ, ◌≡◌, refl, true, false, none, some, Option, [], ◌∷◌, if◌then◌else◌}
use travel_latest.Base.Exec.{ok, request, ◌>>=◌}
use travel_latest.Itineraries.Model.{
  Itinerary, ItineraryEvent, PoiSnapshot, Snapshot, ItineraryVersion, TripDb, itinerary_by_id,
  operation_by_id, version_by_no, put_itinerary, new_uuid, save_itinerary,
}
use travel_latest.Itineraries.Samples.{trip, first_snapshot, tables}
use travel_latest.Itineraries.Access.{can_edit}
use travel_latest.Itineraries.Snapshots.{
  snapshot_of, days_of, record_version, replace_snapshot, delete_days,
}
use travel_latest.Itineraries.Mutate.{VerifiedPoi, version_conflict, add_day, day_by_date}
use travel_latest.Itineraries.Reorder.{reordered}
use travel_latest.Itineraries.Reorder.Swap.{IsSwap, reordered-IsSwap}
use travel_latest.Itineraries.Operations.{
  adding_day, applied, denied, guarded, mutate, after_mutation, finish_operation, apply_operation,
  restore_from, restore_version, operating, restoring, perform_edit,
}
use travel_latest.Itineraries.Operations.Locking.{edit_twice, no_lost_update, edit_recorded}
use travel_latest.Itineraries.Operations.Restored.{restore_keeps_dates}

abbrev no_poi : ℕ → Option VerifiedPoi
no_poi i = none

abbrev edited : TripDb
edited = (request (perform_edit (operating 30 no_poi (adding_day (some 12))) 1 7 2 21) tables).1

abbrev longer : Itinerary
longer = record trip { end_date = 12; version = 3 }

adding_a_day :
    request (perform_edit (operating 30 no_poi (adding_day (some 12))) 1 7 2 21) tables
    ≡ (ok (applied 3 (snapshot_of longer edited) false none), edited)
unfolding perform_edit apply_operation guarded itinerary_by_id can_edit operation_by_id mutate
    add_day day_by_date save_itinerary put_itinerary new_uuid after_mutation finish_operation
    record_version snapshot_of ◌>>=◌
adding_a_day = refl

edit_twice_example :
    request (perform_edit (operating 30 no_poi (adding_day (some 12))) 1 7 2 21) edited
    ≡ (ok (applied 3 (snapshot_of longer edited) true none), edited)
edit_twice_example =
    edit_twice (operating 30 no_poi (adding_day (some 12)))
      (operating 30 no_poi (adding_day (some 12))) 1 7 2 2 21 3 (snapshot_of longer edited) none
      tables edited adding_a_day

longer_found : itinerary_by_id 1 edited.itineraries ≡ some longer
unfolding perform_edit apply_operation guarded itinerary_by_id can_edit operation_by_id mutate
    add_day day_by_date save_itinerary put_itinerary new_uuid after_mutation finish_operation
    record_version ◌>>=◌
longer_found = refl

owner_edits : can_edit longer 7 edited ≡ true
unfolding can_edit
owner_edits = refl

operation_fresh : operation_by_id 1 22 edited.operations ≡ none
unfolding perform_edit apply_operation guarded itinerary_by_id can_edit operation_by_id mutate
    add_day day_by_date save_itinerary put_itinerary new_uuid after_mutation finish_operation
    record_version ◌>>=◌
operation_fresh = refl

no_lost_update_example :
    request (perform_edit (restoring 1) 1 7 2 22) edited
    ≡ (ok (denied (version_conflict 3 (snapshot_of longer edited))), edited)
no_lost_update_example =
    no_lost_update (operating 30 no_poi (adding_day (some 12))) (restoring 1) 1 7 7 2 21 22 3
      (snapshot_of longer edited) none tables edited longer adding_a_day longer_found owner_edits
      operation_fresh

third_is_new : version_by_no 1 3 tables.versions ≡ none
unfolding version_by_no
third_is_new = refl

edit_recorded_example :
    (x : Itinerary) × (y : Itinerary) × (w : ItineraryVersion) × (itinerary_by_id 1
        tables.itineraries
      ≡ some x)
    × (x.version ≡ 2)
    × (itinerary_by_id 1 edited.itineraries ≡ some y)
    × (y.version ≡ 3)
    × (y.owner_id ≡ x.owner_id)
    × (◌≡◌ {A = ℕ} 3 3)
    × (snapshot_of longer edited ≡ snapshot_of y edited)
    × (version_by_no 1 3 edited.versions ≡ some w)
    × (w.snapshot ≡ snapshot_of longer edited)
edit_recorded_example =
    edit_recorded (operating 30 no_poi (adding_day (some 12))) 1 7 2 21 3
      (snapshot_of longer edited) none tables edited third_is_new adding_a_day

abbrev restored : TripDb
restored = (request (restore_version 1 7 2 1 21) tables).1

-- The dates of the restored snapshot are those of the trip, not those of the version.
abbrev restored_snapshot : Snapshot
restored_snapshot = record first_snapshot { start_date = 11; end_date = 11 }

restoring_first :
    request (restore_version 1 7 2 1 21) tables
    ≡ (ok (applied 3 restored_snapshot false none), restored)
unfolding restore_version guarded itinerary_by_id can_edit operation_by_id restore_from
    version_by_no replace_snapshot delete_days save_itinerary put_itinerary new_uuid
    finish_operation record_version snapshot_of days_of ◌>>=◌
restoring_first = refl

restore_keeps_dates_example :
    (x : Itinerary) × (source : ItineraryVersion) × (itinerary_by_id 1 tables.itineraries ≡ some x)
    × (version_by_no 1 1 tables.versions ≡ some source)
    × (restored_snapshot.title ≡ source.snapshot.title)
    × (restored_snapshot.start_date ≡ x.start_date)
    × (restored_snapshot.end_date ≡ x.end_date)
restore_keeps_dates_example =
    restore_keeps_dates 1 7 2 1 21 3 restored_snapshot none tables restored restoring_first

abbrev place : PoiSnapshot
place = record {
  name = "West Lake";
  address = none;
  longitude = 120;
  latitude = 30;
  city = none;
  type_name = none;
  source = none;
}

abbrev stop : ℕ → ℕ → ItineraryEvent
stop id display_order = record {
  id = id;
  day_id = 4;
  poi_id = id;
  poi_snapshot = place;
  starts_at = none;
  ends_at = none;
  display_order = display_order;
  notes = none;
}

moving_down :
    reordered false 32 (stop 31 0 ∷ stop 32 1 ∷ stop 33 2 ∷ [])
    ≡ some (stop 31 0 ∷ stop 33 2 ∷ stop 32 1 ∷ [])
unfolding reordered
moving_down = refl

reordered_example :
    (a : ItineraryEvent) × (b : ItineraryEvent) × IsSwap
      (stop 31 0 ∷ stop 32 1 ∷ stop 33 2 ∷ [])
      (stop 31 0 ∷ stop 33 2 ∷ stop 32 1 ∷ [])
      a
      b
    × (if false then b.id else a.id) ≡ 32
reordered_example =
    reordered-IsSwap false 32 (stop 31 0 ∷ stop 32 1 ∷ stop 33 2 ∷ [])
      (stop 31 0 ∷ stop 33 2 ∷ stop 32 1 ∷ []) moving_down
