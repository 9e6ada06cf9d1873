-- ===== src/Exports/Tests.antt =====
-- The theorems on exports at concrete tables.
use travel_latest.Base.{ℕ, ◌≡◌, refl, Option, none, some, List, [], ◌∷◌, map}
use travel_latest.Base.Exec.{◌>>=◌}
use travel_latest.Itineraries.Model.{Snapshot, itinerary_by_id}
use travel_latest.Itineraries.Samples
use travel_latest.Itineraries.Access.{can_edit}
use travel_latest.Exports.Model.{
  ExportTask, ExportStatus, ExportDb, task_by_id, task_by_key, put_task, new_uuid, save_task,
}
use travel_latest.Exports.Service.{
  ExportTaskCreate, VersionRef, ObjectStorage, exportable, requested_version, enqueue, trace_or_new,
  enqueue_completed, new_task, request_export, create_export,
}
use travel_latest.Exports.Attempts.{
  attempted, attempt_trace, start_export, complete_export, finalize_export_failure,
}
use travel_latest.Exports.Run.{
  export_document, after_export, retry_on_failure, run_export, ExportRequest, creating, exporting,
  giving_up, serve, serve_all,
}
use travel_latest.Exports.Consistent.{IsConsistentTable, empty-IsConsistent}
use travel_latest.Exports.Consistent.Requests.{serve_all-IsConsistent}

abbrev body : ExportTaskCreate
body = record { itinerary_id = 1; version = VersionRef.version_no 1; format = "docx" }

abbrev storage : ObjectStorage
storage = record { upload_bytes = λ key document. some 77; presign_attachment_get = λ key. some 88 }

abbrev one_page : Snapshot → Option (List ℕ)
one_page snapshot = some (1 ∷ 2 ∷ [])

abbrev tables : ExportDb
tables = record { trips = Samples.tables; tasks = []; assets = []; outbox = []; next_uuid = 200 }

abbrev export_and_download : List ExportRequest
export_and_download =
    creating 10 7 3 body
    ∷ exporting 20 (λ document. 5) one_page storage 200 none
    ∷ giving_up 30 200
    ∷ []

serve_all-IsConsistent_example : IsConsistentTable (serve_all export_and_download tables).tasks
serve_all-IsConsistent_example =
    serve_all-IsConsistent export_and_download tables empty-IsConsistent

export_is_delivered :
    map (λ x. x.status) (serve_all export_and_download tables).tasks ≡ ExportStatus.succeeded ∷ []
unfolding serve_all serve create_export exportable itinerary_by_id can_edit task_by_key
    request_export requested_version new_uuid enqueue save_task put_task run_export start_export
    task_by_id attempt_trace trace_or_new retry_on_failure after_export export_document
    complete_export enqueue_completed finalize_export_failure ◌>>=◌
export_is_delivered = refl

abbrev claimed_task : ExportTask
claimed_task = attempted 20 9 (new_task 150 7 3 body Samples.first_version)

abbrev claimed_tables : ExportDb
claimed_tables = record tables { tasks = claimed_task ∷ [] }
