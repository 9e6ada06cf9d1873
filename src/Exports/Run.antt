-- ===== src/Exports/Run.antt =====
-- The worker's handlers of exports, backend/app/workers/domain_handlers.py. The consumer commits what
-- a handler leaves uncommitted (backend/app/events/consumer.py).
use travel_latest.Base.{ℕ, Option, List, [], ◌∷◌}
use travel_latest.Base.Exec.{
  Session, Result, ok, err, ◌>>=◌, ◌>>◌, pure, raise, commit, with_some, or_raise, request,
}
use travel_latest.Itineraries.Model.{Snapshot}
use travel_latest.Exports.Model.{ExportTask, ExportDb, ExportError, M, render_failed}
use travel_latest.Exports.Service.{ObjectStorage, ExportTaskCreate, create_export, retry_export}
use travel_latest.Exports.Attempts.{
  start_export, complete_export, prepare_export_retry, finalize_export_failure,
}
use travel_latest.Exports.Downloads.{expire_succeeded_exports}

-- The `try` block: the document and its upload. `render` gives no document where it raises.
unfoldable pub export_document :
    ℕ → (List ℕ → ℕ) → (Snapshot → Option (List ℕ)) → ObjectStorage → ExportTask → M Unit
export_document now sha256 render storage t = do
  document ← or_raise (render t.snapshot_json) render_failed
  complete_export now sha256 storage t.id document

-- `except ...: await service.prepare_retry(task.id); raise`
unfoldable pub after_export :
    ℕ → Result ExportError Unit × Session ExportDb → Result ExportError Unit × Session ExportDb
after_export task_id (ok u, s) = (ok u, s)
after_export task_id (err e, s) = (prepare_export_retry task_id >> raise e) s

unfoldable pub retry_on_failure : ℕ → M Unit → M Unit
unfolding after_export
retry_on_failure task_id m s = after_export task_id (m s)

-- `_run_export`
unfoldable pub run_export :
    ℕ → (List ℕ → ℕ) → (Snapshot → Option (List ℕ)) → ObjectStorage → ℕ → Option ℕ → M Unit
run_export now sha256 render storage task_id trace_id = do
  started ← start_export now task_id trace_id
  with_some started (pure tt)
      λ t. do commit; retry_on_failure t.id (export_document now sha256 render storage t)

-- What happens to the tasks, each on a session of its own. The consumer commits after a handler.
pub data ExportRequest : Type 0 where
  creating : ℕ → ℕ → ℕ → ExportTaskCreate → ExportRequest
  retrying : ℕ → ℕ → ℕ → ExportRequest
  exporting :
      ℕ → (List ℕ → ℕ) → (Snapshot → Option (List ℕ)) → ObjectStorage → ℕ → Option ℕ → ExportRequest
  giving_up : ℕ → ℕ → ExportRequest
  expiring : ℕ → ExportRequest

unfoldable pub serve : ExportRequest → M Unit
unfolding run_export
serve (creating now requester_id idempotency_key body) = do
  create_export now requester_id idempotency_key body
  pure tt
serve (retrying now task_id requester_id) = do retry_export now task_id requester_id; pure tt
serve (exporting now sha256 render storage task_id trace_id) = do
  run_export now sha256 render storage task_id trace_id
  commit
serve (giving_up now task_id) = do finalize_export_failure now task_id; commit
serve (expiring now) = do expire_succeeded_exports now; commit

-- The durable tables after a sequence of requests.
unfoldable pub serve_all : List ExportRequest → ExportDb → ExportDb
serve_all [] d = d
serve_all (r ∷ rs) d = serve_all rs (request (serve r) d).1
