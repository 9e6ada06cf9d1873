-- ===== src/Exports/Model.antt =====
-- The tables of backend/app/modules/exports/models.py and media/models.py, and what the operations of
-- exports/service.py share.
use travel_latest.Base.{ℕ, suc, String, Bool, true, false, ◌&&◌, Option, List, ◌==◌}
use travel_latest.Base.Tables.{Keyed, scalar, get, save}
use travel_latest.Base.Exec.{Exec, ok, modify}
use travel_latest.Events.Outbox.{OutboxEvent}
use travel_latest.Itineraries.Model.{Snapshot, TripDb}

pub data ExportStatus : Type 0 where
  queued running succeeded failed cancelled expired : ExportStatus

pub record ExportTask : Type 0 where
  pub id : ℕ
  pub requester_id : ℕ
  pub itinerary_id : ℕ
  pub itinerary_version_id : ℕ
  pub version_no : ℕ
  pub format : String
  pub idempotency_key : ℕ
  pub snapshot_json : Snapshot
  pub status : ExportStatus
  pub progress : ℕ
  pub output_asset_id : Option ℕ
  pub attempt_count : ℕ
  pub last_attempt_at : Option ℕ
  pub last_error_code : Option String
  pub last_error_message : Option String
  pub trace_id : Option ℕ
  pub finished_at : Option ℕ
  pub expires_at : Option ℕ

pub data MediaStatus : Type 0 where
  pending completed expired : MediaStatus

-- The object of an export, `f"exports/{requester_id}/{task_id}.docx"`.
pub record ObjectKey : Type 0 where
  pub requester_id : ℕ
  pub task_id : ℕ

pub record MediaAsset : Type 0 where
  pub id : ℕ
  pub owner_id : ℕ
  pub purpose : String
  pub mime_type : String
  pub size_bytes : ℕ
  pub sha256 : ℕ
  pub object_key : ObjectKey
  pub status : MediaStatus
  pub upload_expires_at : Option ℕ
  pub etag : Option ℕ

-- The itineraries are only read.
pub record ExportDb : Type 0 where
  pub trips : TripDb
  pub tasks : List ExportTask
  pub assets : List MediaAsset
  pub outbox : List OutboxEvent
  pub next_uuid : ℕ

pub data ExportError : Type 0 where
  itinerary_not_found idempotency_conflict itinerary_version_not_found : ExportError
  export_retry_not_allowed export_task_not_found export_expired export_not_ready : ExportError
  export_storage_unavailable render_failed : ExportError

abbrev pub M : Type 0 → Type 0
M = Exec ExportDb ExportError

instance abbrev pub task_key : Keyed ExportTask
task_key = record { key = λ t. t.id }

instance abbrev pub asset_key : Keyed MediaAsset
asset_key = record { key = λ a. a.id }

unfoldable pub task_by_id : ℕ → List ExportTask → Option ExportTask
task_by_id i = get i

unfoldable pub task_by_key : ℕ → ℕ → List ExportTask → Option ExportTask
task_by_key requester_id key =
    scalar (λ t. t.requester_id == requester_id && t.idempotency_key == key)

unfoldable pub put_task : ExportTask → List ExportTask → List ExportTask
put_task t = save t

unfoldable pub asset_by_id : ℕ → List MediaAsset → Option MediaAsset
asset_by_id i = get i

unfoldable pub new_uuid : M ℕ
new_uuid s = (ok s.db.next_uuid, record s { db = record s.db { next_uuid = suc s.db.next_uuid } })

unfoldable pub save_task : ExportTask → M Unit
save_task t = modify (λ d. record d { tasks = put_task t d.tasks })

abbrev pub is_queued_task : ExportStatus → Bool
is_queued_task ExportStatus.queued = true
is_queued_task _ = false

abbrev pub is_running_task : ExportStatus → Bool
is_running_task ExportStatus.running = true
is_running_task _ = false

abbrev pub is_succeeded_task : ExportStatus → Bool
is_succeeded_task ExportStatus.succeeded = true
is_succeeded_task _ = false

abbrev pub is_expired_task : ExportStatus → Bool
is_expired_task ExportStatus.expired = true
is_expired_task _ = false

-- `task.status in {"failed", "cancelled"}`
abbrev pub is_retryable : ExportStatus → Bool
is_retryable ExportStatus.failed = true
is_retryable ExportStatus.cancelled = true
is_retryable _ = false
