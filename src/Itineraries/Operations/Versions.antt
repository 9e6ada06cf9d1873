-- ===== src/Itineraries/Operations/Versions.antt =====
-- Optimistic locking: what an edit leaves, and what a later edit on the same base is answered.
use mathlib.Core.Path.{subst}
use travel_latest.Base.{
  ℕ, suc, ◌+◌, ◌≡◌, ◌≢◌, refl, false, Option, none, some, List, String, arith, Option-cases, inl,
  inr,
}
use travel_latest.Base.Exec.{Session, Result, Result-cases, ok, err, ◌>>=◌, >>=-ok, >>=-err, begin}
use travel_latest.Base.Tables.{add, scalar-add_hit}
use travel_latest.Base.Keys.{get_sound}
use travel_latest.Itineraries.Model.{
  Itinerary, RouteCalculationJob, Snapshot, ItineraryVersion, TripOperation, TripDb, TripError,
  itinerary_key, itinerary_by_id, operation_by_id, version_by_no, new_uuid, save_itinerary,
}
use travel_latest.Itineraries.Snapshots.{snapshot_of, record_version, replace_snapshot}
use travel_latest.Itineraries.Mutate.{Refusal, refused, changed, VerifiedPoi}
use travel_latest.Itineraries.Operations.{
  Operation, operation_type, OperationResult, applied, result_job, finish_operation, mutate,
  after_mutation, restore_from,
}
use travel_latest.Itineraries.Operations.Frame.{
  IsFramed, IsSame, put-found, mutate-Framed, replace_snapshot-Framed,
}
use travel_latest.Itineraries.Operations.Results.{mutate-IsSame, replace_snapshot-IsSame}

pub itinerary_by_id_sound :
    (i : ℕ) (rows : List Itinerary) (x : Itinerary) → itinerary_by_id i rows ≡ some x → x.id ≡ i
unfolding itinerary_by_id
itinerary_by_id_sound i rows x h = get_sound i rows x h

pub operation-add :
    (i o : ℕ) (rows : List TripOperation) (x : TripOperation)
    → operation_by_id i o rows ≡ none
    → x.itinerary_id ≡ i
    → x.operation_id ≡ o
    → operation_by_id i o (add x rows) ≡ some x
unfolding operation_by_id
operation-add i o rows x h e f = scalar-add_hit _ rows x h (ground arith)

pub version-add :
    (i n : ℕ) (rows : List ItineraryVersion) (x : ItineraryVersion)
    → version_by_no i n rows ≡ none
    → x.itinerary_id ≡ i
    → x.version ≡ n
    → version_by_no i n (add x rows) ≡ some x
unfolding version_by_no
version-add i n rows x h e f = scalar-add_hit _ rows x h (ground arith)

-- What an edit of `x` under the identifier `o` leaves: the next version, recorded with the snapshot
-- of the tables that it leaves, and the operation with the same snapshot.
pub record IsEdited (x : Itinerary) (d : TripDb) (o v : ℕ) (snapshot : Snapshot) (d' : TripDb)
    : Type 0 where
  pub row : Itinerary
  pub found : itinerary_by_id x.id d'.itineraries ≡ some row
  pub owner : row.owner_id ≡ x.owner_id
  pub row_version : row.version ≡ v
  pub next : v ≡ x.version + 1
  pub collaborators : d'.collaborators ≡ d.collaborators
  pub taken : snapshot ≡ snapshot_of row d'
  pub version : ItineraryVersion
  pub versions : d'.versions ≡ add version d.versions
  pub version_of : version.itinerary_id ≡ x.id
  pub version_no : version.version ≡ v
  pub version_snapshot : version.snapshot ≡ snapshot
  pub operation : TripOperation
  pub operations : d'.operations ≡ add operation d.operations
  pub operation_of : operation.itinerary_id ≡ x.id
  pub operation_id : operation.operation_id ≡ o
  pub result_version : operation.result_version ≡ v
  pub result_snapshot : operation.result_snapshot ≡ snapshot

finish_lem :
    (x y : Itinerary) (d : TripDb) (actor b o : ℕ) (name : String) (s : Session TripDb) (v : ℕ)
    (snapshot : Snapshot)
    → IsFramed x d s
    → IsSame x y
    → (finish_operation y actor b o name s).0 ≡ ok (v, snapshot)
    → IsEdited x d o v snapshot (finish_operation y actor b o name s).1.saved
unfolding finish_operation record_version save_itinerary new_uuid snapshot_of ◌>>=◌
finish_lem x y d actor b o name s v snapshot f e h = record {
  row = record y { version = y.version + 1 };
  found =
      ground (arith, put-found x.id (record y { version = y.version + 1 }) f.row s.db.itineraries);
  owner = e.owner;
  row_version = ground arith;
  next = ground arith;
  collaborators = f.collaborators;
  taken = ground arith;
  version = record {
    id = s.db.next_uuid;
    itinerary_id = y.id;
    version = y.version + 1;
    snapshot = snapshot;
    created_by = actor;
  };
  versions = ground arith;
  version_of = e.id;
  version_no = ground arith;
  version_snapshot = refl;
  operation = record {
    id = suc s.db.next_uuid;
    itinerary_id = y.id;
    operation_id = o;
    actor_id = actor;
    operation_type = name;
    base_version = b;
    result_version = v;
    result_snapshot = snapshot;
  };
  operations = ground arith;
  operation_of = e.id;
  operation_id = refl;
  result_version = refl;
  result_snapshot = refl;
}

begun-IsFramed :
    (i : ℕ) (x : Itinerary) (d : TripDb)
    → itinerary_by_id i d.itineraries ≡ some x
    → IsFramed x d (begin d)
begun-IsFramed i x d h =
    let e = itinerary_by_id_sound i d.itineraries x h in
    record {
      row = x;
      found = ground arith;
      owner = refl;
      collaborators = refl;
      operations = refl;
      versions = refl;
    }

module _ (i actor b o v : ℕ) (snapshot : Snapshot) (job : Option RouteCalculationJob) (d : TripDb)
    (x : Itinerary) where
  after_mutation_runs :
      (y : Itinerary) (op : Operation) (s : Session TripDb) (w : ℕ) (t : Snapshot)
      → (finish_operation y actor b o (operation_type op) s).0 ≡ ok (w, t)
      → after_mutation i actor b o op (changed y) s ≡ (
        ok (
            applied w t false
              (result_job i op (finish_operation y actor b o (operation_type op) s).1.db)),
        (finish_operation y actor b o (operation_type op) s).1,
      )
  unfolding after_mutation ◌>>=◌
  after_mutation_runs y op s w t q = ground arith

  after_mutation_fails :
      (y : Itinerary) (op : Operation) (s : Session TripDb) (r : TripError)
      → (finish_operation y actor b o (operation_type op) s).0 ≡ err r
      → (after_mutation i actor b o op (changed y) s).0 ≢ ok (applied v snapshot false job)
  unfolding after_mutation ◌>>=◌
  after_mutation_fails y op s r q = ground arith

  pub applied-injective :
      (w : ℕ) (t : Snapshot) (k : Option RouteCalculationJob)
      → ◌≡◌ {A = Result TripError OperationResult}
          (ok (applied w t false k))
          (ok (applied v snapshot false job))
      → (w ≡ v) × (t ≡ snapshot)
  applied-injective w t k h = (cc, cc)

  IsEdited-same :
      (w : ℕ) (t : Snapshot) (d' : TripDb)
      → IsEdited x d o w t d'
      → (w ≡ v) × (t ≡ snapshot)
      → IsEdited x d o v snapshot d'
  IsEdited-same w t d' e h =
      subst (λ k. IsEdited x d o k snapshot d') h.0 (subst (λ k. IsEdited x d o w k d') h.1 e)

  after_mutation_lem :
      (y : Itinerary) (op : Operation) (s : Session TripDb)
      → IsFramed x d s
      → IsSame x y
      → (after_mutation i actor b o op (changed y) s).0 ≡ ok (applied v snapshot false job)
      → IsEdited x d o v snapshot (after_mutation i actor b o op (changed y) s).1.saved
  after_mutation_lem y op s f e h =
      elim (Result-cases (finish_operation y actor b o (operation_type op) s).0) [
        | inr (r, q) ↦ absurd (after_mutation_fails y op s r q h)
        | inl ((w, t), q) ↦
            let runs = after_mutation_runs y op s w t q in
            rw runs (
              IsEdited-same w t _ (finish_lem x y d actor b o (operation_type op) s w t f e q)
                (applied-injective w t _ (rw runs at h)))
      ]

  failed :
      (e : TripError)
      → ◌≡◌ {A = Result TripError OperationResult} (err e) (ok (applied v snapshot false job))
      → ⊥
  failed e h = cc

  refused_first :
      (op : Operation) (r : Refusal) (s : Session TripDb)
      → (after_mutation i actor b o op (refused r) s).0 ≢ ok (applied v snapshot false job)
  unfolding after_mutation ◌>>=◌
  refused_first op r s h = cc

  pub operate_lem :
      (now : ℕ) (verify_poi : ℕ → Option VerifiedPoi) (op : Operation)
      → itinerary_by_id i d.itineraries ≡ some x
      → let r = (mutate now verify_poi x actor op >>= after_mutation i actor b o op) (begin d) in
        r.0 ≡ ok (applied v snapshot false job) → IsEdited x d o v snapshot r.1.saved
  operate_lem now verify_poi op found h =
      let m = mutate now verify_poi x actor op in
      let k = after_mutation i actor b o op in
      elim (Result-cases (m (begin d)).0) [
        | inr (e, q) ↦ absurd (failed e (rw (>>=-err m k (begin d) e q) at h))
        | inl (refused r, q) ↦
            absurd (refused_first op r (m (begin d)).1 (rw (>>=-ok m k (begin d) _ q) at h))
        | inl (changed y, q) ↦ rw (>>=-ok m k (begin d) _ q) (
            after_mutation_lem y op (m (begin d)).1
              ((mutate-Framed x d now verify_poi actor op).at (begin d)
                (begun-IsFramed i x d found))
              ((mutate-IsSame x now verify_poi actor op).at (begin d) (changed y) q)
              (rw (>>=-ok m k (begin d) _ q) at h))
      ]

  pub restore_runs :
      (n : ℕ) (source : ItineraryVersion) (y : Itinerary) (w : ℕ) (t : Snapshot)
      → version_by_no i n d.versions ≡ some source
      → (replace_snapshot x source.snapshot (begin d)).0 ≡ ok y
      → (finish_operation y actor b o "restore_version"
          (replace_snapshot x source.snapshot (begin d)).1).0
        ≡ ok (w, t)
      → restore_from i actor b n o x (begin d) ≡ (
        ok (applied w t false none),
        (finish_operation y actor b o "restore_version"
            (replace_snapshot x source.snapshot (begin d)).1).1,
      )
  unfolding restore_from ◌>>=◌
  restore_runs n source y w t h k q = ground arith

  -- What a restoration that was applied went through.
  pub restore_steps :
      (n : ℕ)
      → (restore_from i actor b n o x (begin d)).0 ≡ ok (applied v snapshot false job)
      → (source : ItineraryVersion) × (y : Itinerary) × (w : ℕ) × (t : Snapshot) × (version_by_no i
            n d.versions
          ≡ some source)
        × ((replace_snapshot x source.snapshot (begin d)).0 ≡ ok y)
        × ((finish_operation y actor b o "restore_version"
              (replace_snapshot x source.snapshot (begin d)).1).0
            ≡ ok (w, t))
  unfolding restore_from ◌>>=◌
  restore_steps n h = elim (Option-cases (version_by_no i n d.versions)) [
    | inl absent ↦ absurd (ground arith)
    | inr (source, found) ↦ elim (Result-cases (replace_snapshot x source.snapshot (begin d)).0) [
      | inr (e, q) ↦ absurd (ground arith)
      | inl (y, q) ↦
          elim (Result-cases
            (finish_operation y actor b o "restore_version"
              (replace_snapshot x source.snapshot (begin d)).1).0) [
                | inr (e, r) ↦ absurd (ground arith)
                | inl ((w, t), r) ↦ (source, y, w, t, found, q, r)
              ]
    ]
  ]

  pub restore_lem :
      (n : ℕ)
      → itinerary_by_id i d.itineraries ≡ some x
      → (restore_from i actor b n o x (begin d)).0 ≡ ok (applied v snapshot false job)
      → IsEdited x d o v snapshot (restore_from i actor b n o x (begin d)).1.saved
  restore_lem n found h =
      let (source, y, w, t, h0, h1, h2) = restore_steps n h in
      let runs = restore_runs n source y w t h0 h1 h2 in
      rw runs (
        IsEdited-same w t _
          (finish_lem x y d actor b o "restore_version" _ w t
            ((replace_snapshot-Framed x d source.snapshot).at (begin d)
              (begun-IsFramed i x d found))
            ((replace_snapshot-IsSame x source.snapshot).at (begin d) y h1) h2)
          (applied-injective w t _ (rw runs at h)))
