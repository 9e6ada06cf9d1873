-- ===== src/Exports/Claimed.antt =====
-- A task that a run has claimed, which no request but that run changes.
use mathlib.Core.Path.{subst}
use mathlib.Core.Option.{some-injective}
use travel_latest.Base.{
  sym, ℕ, ◌<◌, ◌≡◌, ◌≢◌, ◌∙◌, refl, ap, Bool, false, not, Option, some, List, [], ◌∷◌, arith, ◌==◌,
  Bool-cases, Option-cases, inl, inr,
}
use travel_latest.Base.Tables.{get, add}
use travel_latest.Base.Keys.{get_sound, get-save, get-add_old}
use travel_latest.Base.Exec.{ok, Session, commit, modify, gets, with_some, ◌>>=◌}
use travel_latest.Base.Exec.Keeps.{Keeps, Keeps-modify, Keeps-bind_with, after_check, keeps_rules}
use travel_latest.Itineraries.Model.{ItineraryVersion}
use travel_latest.Exports.Model.{
  ExportTask, ExportStatus, ExportDb, M, task_by_id, put_task, new_uuid, save_task, is_queued_task,
  is_retryable, task_key,
}
use travel_latest.Exports.Service.{ExportTaskCreate, new_task, requeued, get_export}
use travel_latest.Exports.Attempts.{attempted, failed_task, finished_task, storage_failed}
use travel_latest.Exports.Downloads.{expires_now, expire_rows}
use travel_latest.Exports.Consistent.{get_export_found}

module _ (i : ℕ) (t : ExportTask) (claimed : t.status ≡ ExportStatus.running) where
  -- The task is on record, and its identifier is not handed out again.
  abbrev pub HasTask : ExportDb → Type 0
  HasTask d = (task_by_id i d.tasks ≡ some t) × (i < d.next_uuid)

  abbrev Has : Session ExportDb → Type 0
  Has s = HasTask s.db × HasTask s.saved

  abbrev Holds : {A : Type 0} → M A → Type 0
  Holds = Keeps Has

  IsOtherId : ℕ → Type 0
  IsOtherId j = j ≢ i

  IsOther : ExportTask → Type 0
  IsOther u = u.id ≢ i

  -- What a lookup finds is the task, or another one.
  record Found (u : ExportTask) : Type 0 where
    same : u.id ≡ i → u ≡ t

  find-Found :
      (j : ℕ) (rows : List ExportTask) (u : ExportTask)
      → task_by_id i rows ≡ some t
      → task_by_id j rows ≡ some u
      → Found u
  unfolding task_by_id
  find-Found j rows u c h =
      let id : u.id ≡ j = get_sound j rows u h in
      record {
        same = λ e.
            let k : get i rows ≡ some u = subst (λ n. get n rows ≡ some u) (sym id ∙ e) h in
            some-injective u t (sym k ∙ c);
      }

  find-IsOther :
      (j : ℕ) (rows : List ExportTask) (u : ExportTask)
      → IsOtherId j
      → task_by_id j rows ≡ some u
      → IsOther u
  unfolding task_by_id IsOtherId IsOther
  find-IsOther j rows u h k e = h (sym (get_sound j rows u k) ∙ e)

  -- A found task that is not running is another one.
  waiting-IsOther :
      (f : ExportStatus → Bool) (u : ExportTask)
      → f ExportStatus.running ≡ false
      → Found u
      → not (f u.status) ≡ false
      → IsOther u
  unfolding IsOther
  waiting-IsOther f u r h q e =
      let status : u.status ≡ ExportStatus.running = ap (λ v. v.status) (h.same e) ∙ claimed in
      let k : not (f ExportStatus.running) ≡ false = rw status at q in ground arith

  attempted-IsOther :
      (now trace : ℕ) (u : ExportTask)
      → Found u
      → not (is_queued_task u.status) ≡ false
      → IsOther (attempted now trace u)
  unfolding IsOther
  attempted-IsOther now trace u h q = waiting-IsOther is_queued_task u refl h q

  failed-IsOther :
      (now : ℕ) (u : ExportTask)
      → Found u
      → not (is_queued_task u.status) ≡ false
      → IsOther (failed_task now u)
  unfolding IsOther
  failed-IsOther now u h q = waiting-IsOther is_queued_task u refl h q

  requeued-IsOther :
      (u : ExportTask) → Found u → not (is_retryable u.status) ≡ false → IsOther (requeued u)
  unfolding IsOther
  requeued-IsOther u h q = waiting-IsOther is_retryable u refl h q

  traced-IsOther : (u : ExportTask) (k : ℕ) → IsOther u → IsOther (record u { trace_id = some k })
  unfolding IsOther
  traced-IsOther u k h = h

  half_way-IsOther : (u : ExportTask) → IsOther u → IsOther (record u { progress = 70 })
  unfolding IsOther
  half_way-IsOther u h = h

  finished-IsOther : (now k : ℕ) (u : ExportTask) → IsOther u → IsOther (finished_task now k u)
  unfolding IsOther
  finished-IsOther now k u h = h

  storage_failed-IsOther : (u : ExportTask) → IsOther u → IsOther (storage_failed u)
  unfolding IsOther
  storage_failed-IsOther u h = h

  new_task-IsOther :
      (j requester key : ℕ) (body : ExportTaskCreate) (v : ItineraryVersion)
      → IsOtherId j
      → IsOther (new_task j requester key body v)
  unfolding IsOther IsOtherId
  new_task-IsOther j requester key body v h = h

  commit-Holds : Holds commit
  unfolding commit
  commit-Holds = record { at = λ s c. (c.0, c.0) }

  new_uuid-Holds : Holds new_uuid
  unfolding new_uuid
  new_uuid-Holds = record { at = λ s c. ((c.0.0, omega arith), c.1) }

  new_uuid-IsOtherId : (s : Session ExportDb) (j : ℕ) → Has s → (new_uuid s).0 ≡ ok j → IsOtherId j
  unfolding new_uuid IsOtherId
  new_uuid-IsOtherId s j c h e =
      let same : s.db.next_uuid ≡ j = ground arith in let l = c.0.1 in omega arith

  after_new_uuid :
      {A : Type 0} (f : ℕ → M A) → ((j : ℕ) → IsOtherId j → Holds (f j)) → Holds (new_uuid >>= f)
  after_new_uuid f = Keeps-bind_with IsOtherId new_uuid f new_uuid-Holds new_uuid-IsOtherId

  save_task-Holds : (u : ExportTask) → IsOther u → Holds (save_task u)
  unfolding save_task put_task task_by_id IsOther
  save_task-Holds u h =
      Keeps-modify _ (λ s c. ((ground (arith, get-save i u s.db.tasks, c.0.0), c.0.1), c.1))

  add_task-Holds : (u : ExportTask) → Holds (modify (λ d. record d { tasks = add u d.tasks }))
  unfolding task_by_id
  add_task-Holds u = Keeps-modify _ (λ s c. ((get-add_old i u t s.db.tasks c.0.0, c.0.1), c.1))

  claimed_stays : (now : ℕ) (u : ExportTask) → u ≡ t → expires_now now u ≡ false
  unfolding expires_now
  claimed_stays now u same =
      let status : u.status ≡ ExportStatus.running = ap (λ v. v.status) same ∙ claimed in
      rw status refl

  expire_rows-keeps :
      (now : ℕ) (rows : List ExportTask)
      → get i rows ≡ some t
      → get i (expire_rows now rows) ≡ some t
  unfolding expire_rows
  expire_rows-keeps now [] h = h
  expire_rows-keeps now (u ∷ us) h = elim (Bool-cases (u.id == i)) [
    | inl hit ↦ let same : u ≡ t = ground arith in let e = claimed_stays now u same in ground arith
    | inr miss ↦
        let rest : get i us ≡ some t = ground arith in
        let e = expire_rows-keeps now us rest in
        elim (Bool-cases (expires_now now u)) [ inl x ↦ ground arith | inr x ↦ ground arith ]
  ]

  expire_tasks-Holds :
      (now : ℕ) → Holds (modify (λ d. record d { tasks = expire_rows now d.tasks }))
  unfolding task_by_id
  expire_tasks-Holds now =
      Keeps-modify _ (λ s c. ((expire_rows-keeps now s.db.tasks c.0.0, c.0.1), c.1))

  after_find :
      {A : Type 0} (f : ExportDb → Option ExportTask) (j : ℕ) (m : M A) (act : ExportTask → M A)
      → ((d : ExportDb) (u : ExportTask) → f d ≡ some u → task_by_id j d.tasks ≡ some u)
      → Holds m
      → ((u : ExportTask) → Found u → Holds (act u))
      → Holds (gets f >>= λ found. with_some found m act)
  unfolding ◌>>=◌ gets with_some
  after_find f j m act sound km ka = record {
    at = λ s c. elim (Option-cases (f s.db)) [
      | inl absent ↦ rw absent (km.at s c)
      | inr (u, found) ↦
          rw found ((ka u (find-Found j s.db.tasks u c.0.0 (sound s.db u found))).at s c)
    ];
  }

  after_lookup :
      {A : Type 0} (j : ℕ) (m : M A) (act : ExportTask → M A)
      → Holds m
      → ((u : ExportTask) → Found u → Holds (act u))
      → Holds (gets (λ d. task_by_id j d.tasks) >>= λ found. with_some found m act)
  after_lookup j m act = after_find _ j m act (λ d u h. h)

  after_other_lookup :
      {A : Type 0} (j : ℕ) (m : M A) (act : ExportTask → M A)
      → IsOtherId j
      → Holds m
      → ((u : ExportTask) → IsOther u → Holds (act u))
      → Holds (gets (λ d. task_by_id j d.tasks) >>= λ found. with_some found m act)
  unfolding ◌>>=◌ gets with_some
  after_other_lookup j m act other km ka = record {
    at = λ s c. elim (Option-cases (task_by_id j s.db.tasks)) [
      | inl absent ↦ rw absent (km.at s c)
      | inr (u, found) ↦ rw found ((ka u (find-IsOther j s.db.tasks u other found)).at s c)
    ];
  }

  after_get :
      {A : Type 0} (j requester : ℕ) (m : M A) (act : ExportTask → M A)
      → Holds m
      → ((u : ExportTask) → Found u → Holds (act u))
      → Holds (gets (get_export j requester) >>= λ found. with_some found m act)
  after_get j requester m act = after_find _ j m act (λ d u h. get_export_found j requester d u h)

  ruleset claims = (
    after_new_uuid, after_other_lookup, after_lookup, after_get, after_check, keeps_rules,
    commit-Holds, new_uuid-Holds, save_task-Holds, add_task-Holds, expire_tasks-Holds,
    attempted-IsOther, failed-IsOther, requeued-IsOther, traced-IsOther, half_way-IsOther,
    finished-IsOther, storage_failed-IsOther, new_task-IsOther,
  )

  -- The task that a run claims was waiting before.
  OtherResult : Option ExportTask → Type 0
  OtherResult o = (u : ExportTask) → o ≡ some u → IsOtherId u.id
