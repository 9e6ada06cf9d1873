-- ===== src/Itineraries/Operations.antt =====
-- `apply_operation`, `create_version`, `restore_version` and `create_itinerary` of
-- backend/app/modules/itineraries/service.py.
pub mod Frame
pub mod Results
pub mod Versions
pub mod Locking
pub mod Restored
use travel_latest.Base.{
  ℕ, zero, suc, ◌+◌, ◌-◌, String, Bool, true, false, not, ◌&&◌, Option, none, some, List, [], ◌∷◌,
  ◌==◌, leb, if◌then◌else◌,
}
use travel_latest.Base.Exec.{◌>>=◌, ◌>>◌, pure, modify, gets, raise, raise_if, commit, with_some}
use travel_latest.Base.Tables.{add}
use travel_latest.Orders.Passengers.{strip}
use travel_latest.Itineraries.Model.{
  Itinerary, ItineraryDay, ItineraryEvent, RouteCalculationJob, Snapshot, TripOperation, TripDb, M,
  value_error, itinerary_by_id, operation_by_id, version_by_no, new_uuid, save_itinerary,
}
use travel_latest.Itineraries.Access.{can_edit}
use travel_latest.Itineraries.Snapshots.{
  snapshot_of, record_version, replace_snapshot, latest_route_job,
}
use travel_latest.Itineraries.Mutate.{
  Refusal, not_found, forbidden, version_conflict, Mutation, refused, changed, VerifiedPoi,
  EventUpdate, own_event, add_day, remove_day, add_event, recalculate_route, remove_event,
  update_event,
}
use travel_latest.Itineraries.Reorder.{reorder_event}
use travel_latest.Itineraries.Preview.{PreviewPayload, apply_ai_preview}

-- An operation with its payload. A date is `none` where it is not in ISO format.
pub data Operation : Type 0 where
  ai_preview : PreviewPayload → Operation
  adding_day : Option ℕ → Operation
  removing_day : ℕ → Operation
  adding_event : ℕ → ℕ → Operation
  recalculating_route : ℕ → Operation
  removing_event : ℕ → Operation
  updating_event : ℕ → EventUpdate → Operation
  reordering_event : ℕ → String → Operation
  unsupported : String → ℕ → Operation

abbrev pub operation_type : Operation → String
operation_type (ai_preview payload) = "apply_ai_preview"
operation_type (adding_day day_date) = "add_day"
operation_type (removing_day day_id) = "remove_day"
operation_type (adding_event poi_id day_id) = "add_event"
operation_type (recalculating_route day_id) = "recalculate_route"
operation_type (removing_event event_id) = "remove_event"
operation_type (updating_event event_id payload) = "update_event"
operation_type (reordering_event event_id direction) = "reorder_event"
operation_type (unsupported name event_id) = name

pub data OperationResult : Type 0 where
  applied : ℕ → Snapshot → Bool → Option RouteCalculationJob → OperationResult
  denied : Refusal → OperationResult

-- The lookup that the operations on events share.
unfoldable pub on_event : Itinerary → ℕ → (ItineraryEvent → ItineraryDay → M Mutation) → M Mutation
on_event itinerary event_id act = do
  found ← gets (own_event itinerary event_id)
  with_some found (pure (refused (not_found (some itinerary.version)))) (λ (e, day). act e day)

-- `_mutate`, where `verify_poi` is the map service.
unfoldable pub mutate : ℕ → (ℕ → Option VerifiedPoi) → Itinerary → ℕ → Operation → M Mutation
mutate now verify_poi itinerary actor_id (ai_preview payload) =
    apply_ai_preview now itinerary actor_id payload
mutate now verify_poi itinerary actor_id (adding_day day_date) =
    with_some day_date (raise value_error) (add_day itinerary)
mutate now verify_poi itinerary actor_id (removing_day day_id) = remove_day itinerary day_id
mutate now verify_poi itinerary actor_id (adding_event poi_id day_id) =
    add_event itinerary (verify_poi poi_id) day_id
mutate now verify_poi itinerary actor_id (recalculating_route day_id) =
    recalculate_route now itinerary actor_id day_id
mutate now verify_poi itinerary actor_id (removing_event event_id) =
    on_event itinerary event_id (remove_event itinerary)
mutate now verify_poi itinerary actor_id (updating_event event_id payload) =
    on_event itinerary event_id (λ e day. update_event itinerary e payload)
mutate now verify_poi itinerary actor_id (reordering_event event_id direction) =
    on_event itinerary event_id (λ e day. reorder_event itinerary e day direction)
mutate now verify_poi itinerary actor_id (unsupported name event_id) =
    on_event itinerary event_id (λ e day. raise value_error)

-- The route calculation that the result carries.
abbrev pub result_job : ℕ → Operation → TripDb → Option RouteCalculationJob
result_job itinerary_id (recalculating_route day_id) d =
    latest_route_job itinerary_id day_id d.route_jobs
result_job itinerary_id _ d = none

-- The next version of an itinerary, with its row and the row of the operation.
unfoldable pub finish_operation : Itinerary → ℕ → ℕ → ℕ → String → M (ℕ × Snapshot)
finish_operation itinerary actor_id base_version operation_id name = do
  let itinerary' = record itinerary { version = itinerary.version + 1 }
  save_itinerary itinerary'
  snapshot ← record_version itinerary' actor_id
  id ← new_uuid
  modify λ d. record d {
    operations =
        add
          (record {
            id = id;
            itinerary_id = itinerary'.id;
            operation_id = operation_id;
            actor_id = actor_id;
            operation_type = name;
            base_version = base_version;
            result_version = itinerary'.version;
            result_snapshot = snapshot;
          })
          d.operations;
  }
  commit
  pure (itinerary'.version, snapshot)

-- The tests that an edit passes first: the itinerary is there, the actor may edit it, the operation
-- is not on record, and the base version is the current one.
unfoldable pub guarded : ℕ → ℕ → ℕ → ℕ → (Itinerary → M OperationResult) → M OperationResult
guarded itinerary_id actor_id base_version operation_id act = do
  found ← gets (λ d. itinerary_by_id itinerary_id d.itineraries)
  with_some found (pure (denied (not_found none))) λ itinerary. do
    allowed ← gets (can_edit itinerary actor_id)
    if not allowed then pure (denied (forbidden itinerary.version)) else do
      recorded ← gets (λ d. operation_by_id itinerary_id operation_id d.operations)
      with_some recorded
          (if not (base_version == itinerary.version)
            then (do
              snapshot ← gets (snapshot_of itinerary)
              pure (denied (version_conflict itinerary.version snapshot)))
            else act itinerary)
          (λ o. pure (applied o.result_version o.result_snapshot true none))

-- What follows the change of an operation.
unfoldable pub after_mutation : ℕ → ℕ → ℕ → ℕ → Operation → Mutation → M OperationResult
after_mutation itinerary_id actor_id base_version operation_id operation (refused r) =
    pure (denied r)
after_mutation itinerary_id actor_id base_version operation_id operation (changed itinerary) = do
  (version, snapshot) ←
      finish_operation itinerary actor_id base_version operation_id (operation_type operation)
  job ← gets (result_job itinerary_id operation)
  pure (applied version snapshot false job)

unfoldable pub apply_operation :
    ℕ → (ℕ → Option VerifiedPoi) → ℕ → ℕ → ℕ → ℕ → Operation → M OperationResult
apply_operation now verify_poi itinerary_id actor_id base_version operation_id operation =
    guarded itinerary_id actor_id base_version operation_id λ itinerary. do
      mutation ← mutate now verify_poi itinerary actor_id operation
      after_mutation itinerary_id actor_id base_version operation_id operation mutation

unfoldable pub create_version : ℕ → ℕ → M OperationResult
create_version itinerary_id actor_id = do
  found ← gets (λ d. itinerary_by_id itinerary_id d.itineraries)
  with_some found (pure (denied (not_found none))) λ itinerary. do
    allowed ← gets (can_edit itinerary actor_id)
    if not allowed then pure (denied (forbidden itinerary.version)) else do
      existing ← gets (λ d. version_by_no itinerary.id itinerary.version d.versions)
      snapshot ← with_some existing (record_version itinerary actor_id) (λ v. pure v.snapshot)
      commit
      pure (applied itinerary.version snapshot false none)

-- `restore_version`, from the query for the source on
unfoldable pub restore_from : ℕ → ℕ → ℕ → ℕ → ℕ → Itinerary → M OperationResult
restore_from itinerary_id actor_id base_version version operation_id itinerary = do
  found ← gets (λ d. version_by_no itinerary_id version d.versions)
  with_some found (pure (denied (not_found (some itinerary.version)))) λ source. do
    itinerary' ← replace_snapshot itinerary source.snapshot
    (result_version, snapshot) ←
        finish_operation itinerary' actor_id base_version operation_id "restore_version"
    pure (applied result_version snapshot false none)

unfoldable pub restore_version : ℕ → ℕ → ℕ → ℕ → ℕ → M OperationResult
restore_version itinerary_id actor_id base_version version operation_id =
    guarded itinerary_id actor_id base_version operation_id
      (restore_from itinerary_id actor_id base_version version operation_id)

-- `duration = (end_date - start_date).days + 1; not 1 <= duration <= 7`
unfoldable pub is_wrong_span : ℕ → ℕ → Bool
is_wrong_span start_date end_date =
    not (leb start_date end_date && leb (end_date + 1 - start_date) 7)

abbrev pub new_itinerary : ℕ → ℕ → List ℕ → ℕ → ℕ → Itinerary
new_itinerary id owner_id title start_date end_date = record {
  id = id;
  owner_id = owner_id;
  title = title;
  start_date = start_date;
  end_date = end_date;
  version = 1;
  source_post_id = none;
}

unfoldable pub create_itinerary : ℕ → List ℕ → ℕ → ℕ → M Itinerary
create_itinerary owner_id title start_date end_date = do
  raise_if (is_wrong_span start_date end_date) value_error
  id ← new_uuid
  let itinerary = new_itinerary id owner_id title start_date end_date
  modify (λ d. record d { itineraries = add itinerary d.itineraries })
  record_version itinerary owner_id
  commit
  pure itinerary

-- The two ways to the next version of an itinerary.
pub data TripEdit : Type 0 where
  operating : ℕ → (ℕ → Option VerifiedPoi) → Operation → TripEdit
  restoring : ℕ → TripEdit

-- A request for an edit, on a base version and under an operation's identifier.
unfoldable pub perform_edit : TripEdit → ℕ → ℕ → ℕ → ℕ → M OperationResult
perform_edit (operating now verify_poi operation) itinerary_id actor_id base_version operation_id =
    apply_operation now verify_poi itinerary_id actor_id base_version operation_id operation
perform_edit (restoring version) itinerary_id actor_id base_version operation_id =
    restore_version itinerary_id actor_id base_version version operation_id
