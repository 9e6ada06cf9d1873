-- ===== src/Exports/Consistent/Requests.antt =====
-- Every request keeps the export tasks consistent.
use travel_latest.Base.{ℕ, Option, none, some, List, [], ◌∷◌}
use travel_latest.Base.Exec.{Result, ok, err, Session, modify, raise, ◌>>◌, begin}
use travel_latest.Base.Exec.Keeps.{Keeps-modify, keeps_rules}
use travel_latest.Itineraries.Model.{Snapshot}
use travel_latest.Exports.Model.{ExportTask, ExportDb, ExportError, M, task_key}
use travel_latest.Exports.Service.{
  ExportTaskCreate, ObjectStorage, enqueue, trace_or_new, enqueue_completed, request_export,
  create_export, retry_export,
}
use travel_latest.Exports.Attempts.{
  attempt_trace, start_export, complete_export, prepare_export_retry, finalize_export_failure,
}
use travel_latest.Exports.Downloads.{expire_rows, expire_succeeded_exports}
use travel_latest.Exports.Run.{
  export_document, after_export, retry_on_failure, run_export, ExportRequest, creating, retrying,
  exporting, giving_up, expiring, serve, serve_all,
}
use travel_latest.Exports.Consistent.{
  IsConsistent, IsConsistentTable, IsConsistentSession, Consistent, new_uuid-Consistent,
  expire_rows-IsConsistent, consistent,
}

trace_or_new-Consistent : (o : Option ℕ) → Consistent (trace_or_new o)
unfolding trace_or_new
trace_or_new-Consistent none = new_uuid-Consistent
trace_or_new-Consistent (some i) = search consistent

enqueue-Consistent : (now : ℕ) (t : ExportTask) → IsConsistent t → Consistent (enqueue now t)
unfolding enqueue
enqueue-Consistent now t h = search consistent depth 16

enqueue_completed-Consistent : (now : ℕ) (t : ExportTask) → Consistent (enqueue_completed now t)
unfolding enqueue_completed
enqueue_completed-Consistent now t = search (consistent, trace_or_new-Consistent) depth 16

create_export-Consistent :
    (now requester key : ℕ) (body : ExportTaskCreate)
    → Consistent (create_export now requester key body)
unfolding create_export request_export
create_export-Consistent now requester key body = search (consistent, enqueue-Consistent) depth 24

retry_export-Consistent : (now i requester : ℕ) → Consistent (retry_export now i requester)
unfolding retry_export
retry_export-Consistent now i requester = search (consistent, enqueue-Consistent) depth 24

start_export-Consistent : (now i : ℕ) (trace : Option ℕ) → Consistent (start_export now i trace)
unfolding start_export attempt_trace
start_export-Consistent now i trace = search (consistent, trace_or_new-Consistent) depth 24

complete_export-Consistent :
    (now : ℕ) (sha256 : List ℕ → ℕ) (storage : ObjectStorage) (i : ℕ) (document : List ℕ)
    → Consistent (complete_export now sha256 storage i document)
unfolding complete_export
complete_export-Consistent now sha256 storage i document =
    search (consistent, enqueue_completed-Consistent) depth 24

prepare_retry-Consistent : (i : ℕ) → Consistent (prepare_export_retry i)
unfolding prepare_export_retry
prepare_retry-Consistent i = search consistent depth 24

finalize-Consistent : (now i : ℕ) → Consistent (finalize_export_failure now i)
unfolding finalize_export_failure
finalize-Consistent now i = search (consistent, enqueue_completed-Consistent) depth 24

expire_tasks-Consistent :
    (now : ℕ) → Consistent (modify (λ d. record d { tasks = expire_rows now d.tasks }))
expire_tasks-Consistent now =
    Keeps-modify _ (λ s c. (expire_rows-IsConsistent now s.db.tasks c.0, c.1))

expire-Consistent : (now : ℕ) → Consistent (expire_succeeded_exports now)
unfolding expire_succeeded_exports
expire-Consistent now = search (expire_tasks-Consistent, keeps_rules) depth 16

after_failure-Consistent :
    (i : ℕ) (x : ExportError) → Consistent (prepare_export_retry i >> raise {A = Unit} x)
after_failure-Consistent i x = search (prepare_retry-Consistent, keeps_rules)

after_export-IsConsistent :
    (i : ℕ) (r : Result ExportError Unit) (s : Session ExportDb)
    → IsConsistentSession s
    → IsConsistentSession (after_export i (r, s)).1
unfolding after_export
after_export-IsConsistent i (ok u) s c = c
after_export-IsConsistent i (err x) s c = (after_failure-Consistent i x).at s c

retry_on_failure-Consistent :
    (i : ℕ) (m : M Unit) → Consistent m → Consistent (retry_on_failure i m)
unfolding retry_on_failure
retry_on_failure-Consistent i m km = record {
  at = λ s c. after_export-IsConsistent i (m s).0 (m s).1 (km.at s c);
}

run_export-Consistent :
    (now : ℕ) (sha256 : List ℕ → ℕ) (render : Snapshot → Option (List ℕ)) (storage : ObjectStorage)
    (i : ℕ) (trace : Option ℕ)
    → Consistent (run_export now sha256 render storage i trace)
unfolding run_export export_document
run_export-Consistent now sha256 render storage i trace =
    search
      (consistent, start_export-Consistent, retry_on_failure-Consistent, complete_export-Consistent)
      depth 24

serve-Consistent : (r : ExportRequest) → Consistent (serve r)
unfolding serve
serve-Consistent (creating now requester key body) =
    search (create_export-Consistent, consistent) depth 12
serve-Consistent (retrying now i requester) = search (retry_export-Consistent, consistent) depth 12
serve-Consistent (exporting now sha256 render storage i trace) =
    search (run_export-Consistent, consistent) depth 12
serve-Consistent (giving_up now i) = search (finalize-Consistent, consistent) depth 12
serve-Consistent (expiring now) = search (expire-Consistent, consistent) depth 12

-- Whatever is asked for, in whatever order, whether it fails or not, each task on record stays
-- consistent: an open one has no output, no end and no progress of 100, a delivered one has all
-- three and the date on which it expires, and no error, and a failed one has an error and no output.
pub serve_all-IsConsistent :
    (rs : List ExportRequest) (d : ExportDb)
    → IsConsistentTable d.tasks
    → IsConsistentTable (serve_all rs d).tasks
unfolding serve_all
serve_all-IsConsistent [] d c = c
serve_all-IsConsistent (r ∷ rs) d c =
    serve_all-IsConsistent rs _ ((serve-Consistent r).at (begin d) (c, c)).1
