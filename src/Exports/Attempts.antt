-- ===== src/Exports/Attempts.antt =====
-- `start_attempt`, `complete`, `prepare_retry` and `finalize_failure` of
-- backend/app/modules/exports/service.py. The object storage and the digest are parameters.
use travel_latest.Base.{ℕ, suc, ◌+◌, String, not, Option, none, some, List, if◌then◌else◌}
use travel_latest.Base.Exec.{◌>>=◌, ◌>>◌, pure, modify, gets, commit, with_some, or_raise}
use travel_latest.Base.Lists.{length}
use travel_latest.Base.Tables.{add}
use travel_latest.Exports.Model.{
  ExportTask, ExportStatus, MediaAsset, MediaStatus, M, export_storage_unavailable, task_by_id,
  new_uuid, save_task, is_queued_task, is_running_task,
}
use travel_latest.Exports.Service.{ObjectStorage, trace_or_new, enqueue_completed}

-- `trace_id or task.trace_id or new_uuid()`
unfoldable pub attempt_trace : Option ℕ → ExportTask → M ℕ
attempt_trace trace_id t = with_some trace_id (trace_or_new t.trace_id) pure

abbrev pub attempted : ℕ → ℕ → ExportTask → ExportTask
attempted now trace_id t = record t {
  attempt_count = suc t.attempt_count;
  last_attempt_at = some now;
  trace_id = some trace_id;
  status = ExportStatus.running;
  progress = 10;
  last_error_code = none;
  last_error_message = none;
  finished_at = none;
}

-- `start_attempt`
unfoldable pub start_export : ℕ → ℕ → Option ℕ → M (Option ExportTask)
start_export now task_id trace_id = do
  found ← gets (λ d. task_by_id task_id d.tasks)
  with_some found (pure none) λ t. if not (is_queued_task t.status) then pure none else do
    trace ← attempt_trace trace_id t
    save_task (attempted now trace t)
    pure (some (attempted now trace t))

abbrev pub docx_mime_type : String
docx_mime_type = "application/vnd.openxmlformats-officedocument.wordprocessingml.document"

-- `EXPORT_OUTPUT_TTL`, in microseconds
abbrev export_output_ttl : ℕ
export_output_ttl = 604800000000

abbrev export_asset : ℕ → ℕ → ExportTask → List ℕ → ℕ → ℕ → MediaAsset
export_asset id now t document digest etag = record {
  id = id;
  owner_id = t.requester_id;
  purpose = "itinerary_export";
  mime_type = docx_mime_type;
  size_bytes = length document;
  sha256 = digest;
  object_key = record { requester_id = t.requester_id; task_id = t.id };
  status = MediaStatus.completed;
  upload_expires_at = some (now + export_output_ttl);
  etag = some etag;
}

abbrev pub finished_task : ℕ → ℕ → ExportTask → ExportTask
finished_task now asset_id t = record t {
  output_asset_id = some asset_id;
  status = ExportStatus.succeeded;
  progress = 100;
  finished_at = some now;
  expires_at = some (now + export_output_ttl);
  last_error_code = none;
  last_error_message = none;
}

-- `complete`
unfoldable pub complete_export : ℕ → (List ℕ → ℕ) → ObjectStorage → ℕ → List ℕ → M Unit
complete_export now sha256 storage task_id document = do
  found ← gets (λ d. task_by_id task_id d.tasks)
  with_some found (pure tt) λ t. if not (is_running_task t.status) then pure tt else do
    save_task (record t { progress = 70 })
    etag ←
        or_raise
          (storage.upload_bytes (record { requester_id = t.requester_id; task_id = t.id }) document)
          export_storage_unavailable
    asset_id ← new_uuid
    modify λ d. record d {
      assets = add (export_asset asset_id now t document (sha256 document) etag) d.assets;
    }
    save_task (finished_task now asset_id t)
    enqueue_completed now (finished_task now asset_id t)

abbrev pub storage_failed : ExportTask → ExportTask
storage_failed t = record t {
  status = ExportStatus.queued;
  progress = 0;
  last_error_code = some "EXPORT_STORAGE_UNAVAILABLE";
  last_error_message = some "Private export storage is temporarily unavailable.";
}

-- `prepare_retry`
unfoldable pub prepare_export_retry : ℕ → M Unit
prepare_export_retry task_id = do
  found ← gets (λ d. task_by_id task_id d.tasks)
  with_some found (pure tt) λ t.
      if not (is_running_task t.status) then pure tt else do save_task (storage_failed t); commit

abbrev pub failed_task : ℕ → ExportTask → ExportTask
failed_task now t = record t {
  status = ExportStatus.failed;
  progress = 100;
  last_error_code = some "EXPORT_STORAGE_UNAVAILABLE";
  last_error_message = some "Private export storage is temporarily unavailable.";
  finished_at = some now;
}

-- `finalize_failure`
unfoldable pub finalize_export_failure : ℕ → ℕ → M Unit
finalize_export_failure now task_id = do
  found ← gets (λ d. task_by_id task_id d.tasks)
  with_some found (pure tt) λ t.
      if not (is_queued_task t.status)
      then pure tt
      else do save_task (failed_task now t); enqueue_completed now (failed_task now t)
