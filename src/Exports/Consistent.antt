-- ===== src/Exports/Consistent.antt =====
-- The progress, the output and the times of an export task agree with its status.
pub mod Requests
use travel_latest.Base.{
  ℕ, ◌≡◌, refl, Bool, true, false, not, ◌&&◌, Option, none, some, List, [], ◌∷◌, arith, ◌==◌, ltb,
  is_some, if◌then◌else◌, Bool-cases, Option-cases, inl, inr,
}
use travel_latest.Base.Tables.{All, add, All-add, All-save, scalar-All}
use travel_latest.Base.Exec.{
  Result, ok, err, Session, commit, modify, gets, raise, with_some, ◌>>=◌, ◌>>◌, begin,
}
use travel_latest.Base.Exec.Keeps.{Keeps, Keeps-modify, after_check, keeps_rules}
use travel_latest.Itineraries.Model.{ItineraryVersion, Snapshot}
use travel_latest.Exports.Model.{
  ExportTask, ExportStatus, ExportDb, ExportError, M, task_by_id, put_task, new_uuid, save_task,
  is_queued_task, is_running_task, is_succeeded_task, task_key,
}
use travel_latest.Exports.Service.{
  ExportTaskCreate, ObjectStorage, new_task, requeued, enqueue, trace_or_new, enqueue_completed,
  request_export, create_export, get_export, retry_export,
}
use travel_latest.Exports.Attempts.{
  attempted, finished_task, storage_failed, failed_task, attempt_trace, start_export,
  complete_export, prepare_export_retry, finalize_export_failure,
}
use travel_latest.Exports.Downloads.{expires_now, expire_rows, expire_succeeded_exports}
use travel_latest.Exports.Run.{
  export_document, after_export, retry_on_failure, run_export, ExportRequest, creating, retrying,
  exporting, giving_up, expiring, serve, serve_all,
}

-- An open task has neither an output nor an end, and is not complete.
abbrev is_open : ExportTask → Bool
is_open t =
    ltb t.progress 100
    && not (is_some t.output_asset_id)
    && not (is_some t.finished_at)
    && not (is_some t.expires_at)

-- A finished export has an output, an end and a date on which it expires, and no error.
abbrev is_delivered : ExportTask → Bool
is_delivered t =
    t.progress == 100
    && is_some t.output_asset_id
    && is_some t.finished_at
    && is_some t.expires_at
    && not (is_some t.last_error_code)

-- A failed export has an end and an error, and no output.
abbrev is_given_up : ExportTask → Bool
is_given_up t =
    t.progress == 100
    && not (is_some t.output_asset_id)
    && is_some t.finished_at
    && is_some t.last_error_code

abbrev agrees : ExportStatus → ExportTask → Bool
agrees ExportStatus.queued t = is_open t && t.progress == 0
agrees ExportStatus.running t = is_open t
agrees ExportStatus.succeeded t = is_delivered t
agrees ExportStatus.failed t = is_given_up t
agrees ExportStatus.cancelled t = true
agrees ExportStatus.expired t = is_delivered t

pub IsConsistent : ExportTask → Type 0
IsConsistent t = agrees t.status t ≡ true

pub IsConsistentTable : List ExportTask → Type 0
IsConsistentTable rows = All IsConsistent rows

pub empty-IsConsistent : IsConsistentTable []
unfolding IsConsistentTable
empty-IsConsistent = tt

abbrev pub IsConsistentSession : Session ExportDb → Type 0
IsConsistentSession s = IsConsistentTable s.db.tasks × IsConsistentTable s.saved.tasks

abbrev pub Consistent : {A : Type 0} → M A → Type 0
Consistent = Keeps IsConsistentSession

pub commit-Consistent : Consistent commit
unfolding commit
commit-Consistent = record { at = λ s c. (c.0, c.0) }

pub new_uuid-Consistent : Consistent new_uuid
unfolding new_uuid
new_uuid-Consistent = record { at = λ s c. c }

pub save_task-Consistent : (t : ExportTask) → IsConsistent t → Consistent (save_task t)
unfolding save_task put_task IsConsistentTable
save_task-Consistent t h = Keeps-modify _ (λ s c. (All-save IsConsistent t s.db.tasks c.0 h, c.1))

pub add_task-Consistent :
    (t : ExportTask)
    → IsConsistent t
    → Consistent (modify (λ d. record d { tasks = add t d.tasks }))
unfolding IsConsistentTable
add_task-Consistent t h = Keeps-modify _ (λ s c. (All-add IsConsistent s.db.tasks t c.0 h, c.1))

find-IsConsistent :
    (i : ℕ) (rows : List ExportTask) (t : ExportTask)
    → IsConsistentTable rows
    → task_by_id i rows ≡ some t
    → IsConsistent t
unfolding IsConsistentTable task_by_id
find-IsConsistent i rows t c h = scalar-All IsConsistent _ rows t c h

pub get_export_found :
    (i requester : ℕ) (d : ExportDb) (t : ExportTask)
    → get_export i requester d ≡ some t
    → task_by_id i d.tasks ≡ some t
unfolding get_export
get_export_found i requester d t h = elim (Option-cases (task_by_id i d.tasks)) [
  | inl absent ↦ absurd (ground arith)
  | inr (u, e) ↦ ground arith
]

-- What follows a lookup may use that the task that it finds is consistent.
after_find :
    {A : Type 0} (f : ExportDb → Option ExportTask) (m : M A) (act : ExportTask → M A)
    → ((d : ExportDb) (t : ExportTask) → IsConsistentTable d.tasks → f d ≡ some t → IsConsistent t)
    → Consistent m
    → ((t : ExportTask) → IsConsistent t → Consistent (act t))
    → Consistent (gets f >>= λ found. with_some found m act)
unfolding ◌>>=◌ gets with_some
after_find f m act sound km ka = record {
  at = λ s c. elim (Option-cases (f s.db)) [
    | inl absent ↦ rw absent (km.at s c)
    | inr (t, found) ↦ rw found ((ka t (sound s.db t c.0 found)).at s c)
  ];
}

pub after_lookup :
    {A : Type 0} (i : ℕ) (m : M A) (act : ExportTask → M A)
    → Consistent m
    → ((t : ExportTask) → IsConsistent t → Consistent (act t))
    → Consistent (gets (λ d. task_by_id i d.tasks) >>= λ found. with_some found m act)
after_lookup i m act = after_find _ m act (λ d t c h. find-IsConsistent i d.tasks t c h)

pub after_get :
    {A : Type 0} (i requester : ℕ) (m : M A) (act : ExportTask → M A)
    → Consistent m
    → ((t : ExportTask) → IsConsistent t → Consistent (act t))
    → Consistent (gets (get_export i requester) >>= λ found. with_some found m act)
after_get i requester m act =
    after_find _ m act
      (λ d t c h. find-IsConsistent i d.tasks t c (get_export_found i requester d t h))

pub traced-IsConsistent :
    (t : ExportTask) (i : ℕ) → IsConsistent t → IsConsistent (record t { trace_id = some i })
unfolding IsConsistent
traced-IsConsistent t i h = ground arith

pub new_task-IsConsistent :
    (i requester key : ℕ) (body : ExportTaskCreate) (v : ItineraryVersion)
    → IsConsistent (new_task i requester key body v)
unfolding IsConsistent
new_task-IsConsistent i requester key body v = refl

pub requeued-IsConsistent : (t : ExportTask) → IsConsistent (requeued t)
unfolding IsConsistent
requeued-IsConsistent t = refl

pub attempted-IsConsistent :
    (now trace : ℕ) (t : ExportTask)
    → IsConsistent t
    → not (is_queued_task t.status) ≡ false
    → IsConsistent (attempted now trace t)
unfolding IsConsistent
attempted-IsConsistent now trace t h q = ground arith

pub half_way-IsConsistent :
    (t : ExportTask)
    → IsConsistent t
    → not (is_running_task t.status) ≡ false
    → IsConsistent (record t { progress = 70 })
unfolding IsConsistent
half_way-IsConsistent t h r = ground arith

pub finished-IsConsistent : (now i : ℕ) (t : ExportTask) → IsConsistent (finished_task now i t)
unfolding IsConsistent
finished-IsConsistent now i t = refl

pub storage_failed-IsConsistent :
    (t : ExportTask)
    → IsConsistent t
    → not (is_running_task t.status) ≡ false
    → IsConsistent (storage_failed t)
unfolding IsConsistent
storage_failed-IsConsistent t h r = ground arith

pub failed-IsConsistent :
    (now : ℕ) (t : ExportTask)
    → IsConsistent t
    → not (is_queued_task t.status) ≡ false
    → IsConsistent (failed_task now t)
unfolding IsConsistent
failed-IsConsistent now t h q = ground arith

expired-IsConsistent :
    (now : ℕ) (t : ExportTask)
    → IsConsistent t
    → IsConsistent (if expires_now now t then record t { status = ExportStatus.expired } else t)
unfolding IsConsistent expires_now
expired-IsConsistent now t c = elim (Bool-cases (is_succeeded_task t.status)) [
  | inl succeeded ↦ ground arith
  | inr other ↦ rw other c
]

pub expire_rows-IsConsistent :
    (now : ℕ) (rows : List ExportTask)
    → IsConsistentTable rows
    → IsConsistentTable (expire_rows now rows)
unfolding IsConsistentTable expire_rows
expire_rows-IsConsistent now [] c = tt
expire_rows-IsConsistent now (t ∷ ts) c =
    (expired-IsConsistent now t c.0, expire_rows-IsConsistent now ts c.1)

pub ruleset consistent = (
  after_lookup, after_get, after_check, keeps_rules, commit-Consistent, new_uuid-Consistent,
  save_task-Consistent, add_task-Consistent, traced-IsConsistent, new_task-IsConsistent,
  requeued-IsConsistent, attempted-IsConsistent, half_way-IsConsistent, finished-IsConsistent,
  storage_failed-IsConsistent, failed-IsConsistent,
)
