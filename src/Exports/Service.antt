-- ===== src/Exports/Service.antt =====
-- `create`, `get` and `retry` of backend/app/modules/exports/service.py, and the events of an export.
use travel_latest.Base.{
  ℕ, String, Bool, not, ◌&&◌, ◌||◌, Option, none, some, List, [], ◌∷◌, ◌==◌, if◌then◌else◌, is_some,
  str_eq,
}
use travel_latest.Base.Exec.{◌>>=◌, ◌>>◌, pure, modify, gets, raise_if, commit, with_some, or_raise}
use travel_latest.Base.Tables.{scalar, add}
use travel_latest.Events.Outbox.{Json, null, text, ident, optional_text, Payload}
use travel_latest.Orders.Session.{outbox_row}
use travel_latest.Itineraries.Model.{Itinerary, ItineraryVersion, TripDb, itinerary_by_id}
use travel_latest.Itineraries.Access.{can_edit}
use travel_latest.Exports.Model.{
  ExportTask, ExportStatus, ObjectKey, ExportDb, M, itinerary_not_found, idempotency_conflict,
  itinerary_version_not_found, export_retry_not_allowed, task_by_id, task_by_key, new_uuid,
  save_task, is_retryable,
}

-- `body.version_id` if it is given, or `body.version_no`
pub data VersionRef : Type 0 where
  version_id version_no : ℕ → VersionRef

pub record ExportTaskCreate : Type 0 where
  pub itinerary_id : ℕ
  pub version : VersionRef
  pub format : String

-- `none` is a `StorageUnavailable`.
pub record ObjectStorage : Type 0 where
  pub upload_bytes : ObjectKey → List ℕ → Option ℕ
  pub presign_attachment_get : ObjectKey → Option ℕ

-- `itinerary is None or not can_export(...)`
unfoldable pub exportable : ℕ → ℕ → TripDb → Option Itinerary
exportable itinerary_id requester_id trips = elim (itinerary_by_id itinerary_id trips.itineraries) [
  | none ↦ none
  | some itinerary ↦ if can_edit itinerary requester_id trips then some itinerary else none
]

abbrev is_version : VersionRef → ExportTask → Bool
is_version (version_id i) t = t.itinerary_version_id == i
is_version (version_no n) t = t.version_no == n

unfoldable pub is_other_request : ExportTaskCreate → ExportTask → Bool
is_other_request body t =
    not (t.itinerary_id == body.itinerary_id)
    || not (str_eq t.format body.format)
    || not (is_version body.version t)

abbrev names_version : VersionRef → ItineraryVersion → Bool
names_version (version_id i) v = v.id == i
names_version (version_no n) v = v.version == n

unfoldable pub requested_version : ℕ → VersionRef → List ItineraryVersion → Option ItineraryVersion
requested_version itinerary_id ref =
    scalar (λ v. v.itinerary_id == itinerary_id && names_version ref v)

abbrev requested_payload : ExportTask → Payload
requested_payload t =
    ("export_task_id", ident t.id)
    ∷ ("itinerary_id", ident t.itinerary_id)
    ∷ ("version_id", ident t.itinerary_version_id)
    ∷ ("format", text t.format)
    ∷ []

-- `_enqueue`: the task gets the new trace.
unfoldable pub enqueue : ℕ → ExportTask → M ExportTask
enqueue now t = do
  trace_id ← new_uuid
  let t' = record t { trace_id = some trace_id }
  save_task t'
  event_id ← new_uuid
  modify λ d. record d {
    outbox =
        add
          (outbox_row event_id trace_id now "export_task.requested" "export_task" t.id
            (requested_payload t))
          d.outbox;
  }
  pure t'

abbrev status_text : ExportStatus → String
status_text ExportStatus.queued = "queued"
status_text ExportStatus.running = "running"
status_text ExportStatus.succeeded = "succeeded"
status_text ExportStatus.failed = "failed"
status_text ExportStatus.cancelled = "cancelled"
status_text ExportStatus.expired = "expired"

abbrev optional_ident : Option ℕ → Json
optional_ident none = null
optional_ident (some i) = ident i

abbrev completed_payload : ExportTask → Payload
completed_payload t =
    ("export_task_id", ident t.id)
    ∷ ("status", text (status_text t.status))
    ∷ ("asset_id", optional_ident t.output_asset_id)
    ∷ ("error_code", optional_text t.last_error_code)
    ∷ ("user_id", ident t.requester_id)
    ∷ []

-- `task.trace_id or new_uuid()`
unfoldable pub trace_or_new : Option ℕ → M ℕ
trace_or_new none = new_uuid
trace_or_new (some i) = if i == 0 then new_uuid else pure i

-- `_enqueue_completed`
unfoldable pub enqueue_completed : ℕ → ExportTask → M Unit
enqueue_completed now t = do
  trace_id ← trace_or_new t.trace_id
  event_id ← new_uuid
  modify λ d. record d {
    outbox =
        add
          (outbox_row event_id trace_id now "export_task.completed" "export_task" t.id
            (completed_payload t))
          d.outbox;
  }

abbrev pub new_task : ℕ → ℕ → ℕ → ExportTaskCreate → ItineraryVersion → ExportTask
new_task id requester_id idempotency_key body version = record {
  id = id;
  requester_id = requester_id;
  itinerary_id = body.itinerary_id;
  itinerary_version_id = version.id;
  version_no = version.version;
  format = body.format;
  idempotency_key = idempotency_key;
  snapshot_json = version.snapshot;
  status = ExportStatus.queued;
  progress = 0;
  output_asset_id = none;
  attempt_count = 0;
  last_attempt_at = none;
  last_error_code = none;
  last_error_message = none;
  trace_id = none;
  finished_at = none;
  expires_at = none;
}

-- What follows when the key is new.
unfoldable pub request_export : ℕ → ℕ → ℕ → ExportTaskCreate → M ExportTask
request_export now requester_id idempotency_key body = do
  found ← gets (λ d. requested_version body.itinerary_id body.version d.trips.versions)
  version ← or_raise found itinerary_version_not_found
  id ← new_uuid
  let task = new_task id requester_id idempotency_key body version
  modify (λ d. record d { tasks = add task d.tasks })
  task' ← enqueue now task
  commit
  pure task'

unfoldable pub create_export : ℕ → ℕ → ℕ → ExportTaskCreate → M ExportTask
create_export now requester_id idempotency_key body = do
  itinerary ← gets (λ d. exportable body.itinerary_id requester_id d.trips)
  raise_if (not (is_some itinerary)) itinerary_not_found
  existing ← gets (λ d. task_by_key requester_id idempotency_key d.tasks)
  with_some existing (request_export now requester_id idempotency_key body)
      λ t. do raise_if (is_other_request body t) idempotency_conflict; pure t

-- `get`
unfoldable pub get_export : ℕ → ℕ → ExportDb → Option ExportTask
get_export task_id requester_id d = elim (task_by_id task_id d.tasks) [
  | none ↦ none
  | some t ↦
      if not (t.requester_id == requester_id)
        || not (is_some (exportable t.itinerary_id requester_id d.trips))
      then none
      else some t
]

abbrev pub requeued : ExportTask → ExportTask
requeued t = record t {
  status = ExportStatus.queued;
  progress = 0;
  output_asset_id = none;
  last_error_code = none;
  last_error_message = none;
  finished_at = none;
  expires_at = none;
}

unfoldable pub retry_export : ℕ → ℕ → ℕ → M (Option ExportTask)
retry_export now task_id requester_id = do
  found ← gets (get_export task_id requester_id)
  with_some found (pure none) λ t. do
    raise_if (not (is_retryable t.status)) export_retry_not_allowed
    t' ← enqueue now (requeued t)
    commit
    pure (some t')
