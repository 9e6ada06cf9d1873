-- ===== src/Itineraries/Operations/Locking.antt =====
-- What a later edit of the same itinerary is answered.
use mathlib.Core.Path.{subst}
use mathlib.Core.Option.{some-injective}
use travel_latest.Base.{
  sym, ℕ, ◌+◌, ◌≡◌, ◌∙◌, refl, ap, true, false, Option, none, some, arith, Option-cases, Bool-cases,
  inl, inr, ◌==◌,
}
use travel_latest.Base.Exec.{Session, Result, ok, ◌>>=◌, request, begin}
use travel_latest.Itineraries.Model.{
  Itinerary, RouteCalculationJob, Snapshot, TripOperation, TripDb, TripError, M, itinerary_by_id,
  operation_by_id, version_by_no, ItineraryVersion,
}
use travel_latest.Itineraries.Access.{can_edit}
use travel_latest.Itineraries.Snapshots.{snapshot_of}
use travel_latest.Itineraries.Mutate.{version_conflict}
use travel_latest.Itineraries.Operations.{
  OperationResult, applied, denied, guarded, mutate, after_mutation, apply_operation, restore_from,
  restore_version, TripEdit, operating, restoring, perform_edit,
}
use travel_latest.Itineraries.Operations.Versions.{
  IsEdited, itinerary_by_id_sound, operation-add, version-add, operate_lem, restore_lem,
}

abbrev act_of : TripEdit → ℕ → ℕ → ℕ → ℕ → Itinerary → M OperationResult
act_of (operating now verify_poi op) i actor b o x =
    mutate now verify_poi x actor op >>= after_mutation i actor b o op
act_of (restoring n) i actor b o x = restore_from i actor b n o x

perform-guarded :
    (e : TripEdit) (i actor b o : ℕ)
    → perform_edit e i actor b o ≡ guarded i actor b o (act_of e i actor b o)
unfolding perform_edit apply_operation restore_version
perform-guarded (operating now verify_poi op) i actor b o = refl
perform-guarded (restoring n) i actor b o = refl

act_lem :
    (e : TripEdit) (i actor b o v : ℕ) (snapshot : Snapshot) (job : Option RouteCalculationJob)
    (d : TripDb) (x : Itinerary)
    → itinerary_by_id i d.itineraries ≡ some x
    → (act_of e i actor b o x (begin d)).0 ≡ ok (applied v snapshot false job)
    → IsEdited x d o v snapshot (act_of e i actor b o x (begin d)).1.saved
act_lem (operating now verify_poi op) i actor b o v snapshot job d x found h =
    operate_lem i actor b o v snapshot job d x now verify_poi op found h
act_lem (restoring n) i actor b o v snapshot job d x found h =
    restore_lem i actor b o v snapshot job d x n found h

-- The tests that an edit has passed.
pub record Passed (i actor b o : ℕ) (act : Itinerary → M OperationResult) (d : TripDb)
    : Type 0 where
  pub row : Itinerary
  pub found : itinerary_by_id i d.itineraries ≡ some row
  pub allowed : can_edit row actor d ≡ true
  pub unrecorded : operation_by_id i o d.operations ≡ none
  pub current : b ≡ row.version
  pub runs : guarded i actor b o act (begin d) ≡ act row (begin d)

pub guarded-Passed :
    (i actor b o v : ℕ) (act : Itinerary → M OperationResult) (snapshot : Snapshot)
    (job : Option RouteCalculationJob) (d : TripDb)
    → (guarded i actor b o act (begin d)).0 ≡ ok (applied v snapshot false job)
    → Passed i actor b o act d
unfolding guarded ◌>>=◌
guarded-Passed i actor b o v act snapshot job d h =
    elim (Option-cases (itinerary_by_id i d.itineraries)) [
      | inl absent ↦ absurd (ground arith)
      | inr (x, found) ↦ elim (Bool-cases (can_edit x actor d)) [
        | inr forbidden_ ↦ absurd (ground arith)
        | inl allowed ↦ elim (Option-cases (operation_by_id i o d.operations)) [
          | inr (r, recorded) ↦ absurd (ground arith)
          | inl fresh ↦ elim (Bool-cases (b == x.version)) [
            | inr stale ↦ absurd (ground arith)
            | inl same ↦ record {
              row = x;
              found = found;
              allowed = allowed;
              unrecorded = fresh;
              current = ground arith;
              runs = ground arith;
            }
          ]
        ]
      ]
    ]

-- An operation that is on record, for an actor who may edit.
guarded_recorded :
    (i actor b o : ℕ) (act : Itinerary → M OperationResult) (d : TripDb) (x : Itinerary)
    (r : TripOperation)
    → itinerary_by_id i d.itineraries ≡ some x
    → can_edit x actor d ≡ true
    → operation_by_id i o d.operations ≡ some r
    → request (guarded i actor b o act) d
      ≡ (ok (applied r.result_version r.result_snapshot true none), d)
unfolding guarded ◌>>=◌
guarded_recorded i actor b o act d x r found allowed recorded = ground arith

guarded_stale :
    (i actor b o : ℕ) (act : Itinerary → M OperationResult) (d : TripDb) (x : Itinerary)
    → itinerary_by_id i d.itineraries ≡ some x
    → can_edit x actor d ≡ true
    → operation_by_id i o d.operations ≡ none
    → (b == x.version) ≡ false
    → request (guarded i actor b o act) d
      ≡ (ok (denied (version_conflict x.version (snapshot_of x d))), d)
unfolding guarded ◌>>=◌
guarded_stale i actor b o act d x found allowed fresh stale = ground arith

can_edit-same :
    (x y : Itinerary) (actor : ℕ) (d d' : TripDb)
    → y.id ≡ x.id
    → y.owner_id ≡ x.owner_id
    → d'.collaborators ≡ d.collaborators
    → can_edit y actor d' ≡ can_edit x actor d
unfolding can_edit
can_edit-same x y actor d d' e f g = rw (e, f, g)

-- What an edit that was applied has found and left.
record IsApplied (i actor b o v : ℕ) (snapshot : Snapshot) (d d' : TripDb) : Type 0 where
  before : Itinerary
  pub found : itinerary_by_id i d.itineraries ≡ some before
  id : before.id ≡ i
  base : b ≡ before.version
  pub unrecorded : operation_by_id i o d.operations ≡ none
  edited : IsEdited before d o v snapshot d'
  pub allowed : can_edit edited.row actor d' ≡ true

edit-IsApplied :
    (e : TripEdit) (i actor b o v : ℕ) (snapshot : Snapshot) (job : Option RouteCalculationJob)
    (d d' : TripDb)
    → request (perform_edit e i actor b o) d ≡ (ok (applied v snapshot false job), d')
    → IsApplied i actor b o v snapshot d d'
edit-IsApplied e i actor b o v snapshot job d d' h =
    let act = act_of e i actor b o in
    let h' : request (guarded i actor b o act) d ≡ (ok (applied v snapshot false job), d') =
      rw (perform-guarded e i actor b o) at h in
    let p =
      guarded-Passed i actor b o v act snapshot job d
        (ap (λ (r : Result TripError OperationResult × TripDb). r.0) h') in
    let result : (act p.row (begin d)).0 ≡ ok (applied v snapshot false job) =
      rw p.runs at (ap (λ (r : Result TripError OperationResult × TripDb). r.0) h') in
    let left : (act p.row (begin d)).1.saved ≡ d' =
      sym (ap (λ (r : Result TripError OperationResult × Session TripDb). r.1.saved) p.runs)
      ∙ ap (λ (r : Result TripError OperationResult × TripDb). r.1) h' in
    let edited : IsEdited p.row d o v snapshot d' =
      subst (IsEdited p.row d o v snapshot) left
        (act_lem e i actor b o v snapshot job d p.row p.found result) in
    let id = itinerary_by_id_sound i d.itineraries p.row p.found in
    record {
      before = p.row;
      found = p.found;
      id = id;
      base = p.current;
      unrecorded = p.unrecorded;
      edited = edited;
      allowed =
          can_edit-same p.row edited.row actor d d'
            (itinerary_by_id_sound p.row.id d'.itineraries edited.row edited.found) edited.owner
            edited.collaborators
          ∙ p.allowed;
    }

-- A client that lost the answer sends its edit again. After an edit that was applied, a request of
-- the same actor under the same operation identifier is answered with the version and the snapshot
-- of the first one, marked as a repetition, and changes nothing, whatever it asks for.
pub edit_twice :
    (e e' : TripEdit) (i actor b b' o v : ℕ) (snapshot : Snapshot)
    (job : Option RouteCalculationJob) (d d' : TripDb)
    → request (perform_edit e i actor b o) d ≡ (ok (applied v snapshot false job), d')
    → request (perform_edit e' i actor b' o) d' ≡ (ok (applied v snapshot true none), d')
edit_twice e e' i actor b b' o v snapshot job d d' h =
    let a = edit-IsApplied e i actor b o v snapshot job d d' h in
    let t = a.edited in
    let recorded : operation_by_id i o d'.operations ≡ some t.operation = rw t.operations (
      operation-add i o d.operations t.operation a.unrecorded (t.operation_of ∙ a.id)
        t.operation_id) in
    let again =
      guarded_recorded i actor b' o (act_of e' i actor b' o) d' t.row t.operation
        (rw a.id at t.found) a.allowed recorded in
    rw (perform-guarded e' i actor b' o) (rw (t.result_version, t.result_snapshot) at again)

-- No update is lost. After an edit on a base version that was applied, an edit by anyone who may edit
-- on the same base version, under another operation identifier, is refused with the conflict, the
-- next version and a snapshot of the itinerary as it is now, and changes nothing.
pub no_lost_update :
    (e e' : TripEdit) (i actor actor' b o o' v : ℕ) (snapshot : Snapshot)
    (job : Option RouteCalculationJob) (d d' : TripDb) (x : Itinerary)
    → request (perform_edit e i actor b o) d ≡ (ok (applied v snapshot false job), d')
    → itinerary_by_id i d'.itineraries ≡ some x
    → can_edit x actor' d' ≡ true
    → operation_by_id i o' d'.operations ≡ none
    → request (perform_edit e' i actor' b o') d'
      ≡ (ok (denied (version_conflict (b + 1) (snapshot_of x d'))), d')
no_lost_update e e' i actor actor' b o o' v snapshot job d d' x h found allowed fresh =
    let a = edit-IsApplied e i actor b o v snapshot job d d' h in
    let t = a.edited in
    let row : itinerary_by_id i d'.itineraries ≡ some t.row = rw a.id at t.found in
    let same : t.row ≡ x = some-injective t.row x (sym row ∙ found) in
    let now : x.version ≡ b + 1 =
      sym (ap (λ (y : Itinerary). y.version) same)
      ∙ t.row_version
      ∙ t.next
      ∙ ap (λ n. n + 1) (sym a.base) in
    rw (perform-guarded e' i actor' b o', ← now)
      (guarded_stale i actor' b o' (act_of e' i actor' b o') d' x found allowed fresh
        (ground arith))

-- An edit that is applied was asked for on the current version, and leaves the next one. The version
-- is on record with the snapshot that is returned, and that snapshot is the one of the tables that
-- the edit leaves. Here the next version was not on record before.
pub edit_recorded :
    (e : TripEdit) (i actor b o v : ℕ) (snapshot : Snapshot) (job : Option RouteCalculationJob)
    (d d' : TripDb)
    → version_by_no i (b + 1) d.versions ≡ none
    → request (perform_edit e i actor b o) d ≡ (ok (applied v snapshot false job), d')
    → (x : Itinerary) × (y : Itinerary) × (w : ItineraryVersion) × (itinerary_by_id i d.itineraries
        ≡ some x)
      × (x.version ≡ b)
      × (itinerary_by_id i d'.itineraries ≡ some y)
      × (y.version ≡ b + 1)
      × (y.owner_id ≡ x.owner_id)
      × (v ≡ b + 1)
      × (snapshot ≡ snapshot_of y d')
      × (version_by_no i v d'.versions ≡ some w)
      × (w.snapshot ≡ snapshot)
edit_recorded e i actor b o v snapshot job d d' fresh h =
    let a = edit-IsApplied e i actor b o v snapshot job d d' h in
    let t = a.edited in
    let next : v ≡ b + 1 = t.next ∙ ap (λ n. n + 1) (sym a.base) in
    (
      a.before,
      t.row,
      t.version,
      a.found,
      sym a.base,
      rw a.id at t.found,
      t.row_version ∙ next,
      t.owner,
      next,
      t.taken,
      rw t.versions
          (version-add i v d.versions t.version (rw next fresh) (t.version_of ∙ a.id) t.version_no),
      t.version_snapshot,
    )
