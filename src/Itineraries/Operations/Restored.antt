-- ===== src/Itineraries/Operations/Restored.antt =====
-- What a restored version has of the version that it restores.
use travel_latest.Base.{ℕ, ◌≡◌, ◌∙◌, ap, false, Option, some, arith, String}
use travel_latest.Base.Exec.{Session, Result, ok, ◌>>=◌, request, begin}
use travel_latest.Base.Exec.Gives.{Gives, gives_rules}
use travel_latest.Itineraries.Model.{
  Itinerary, RouteCalculationJob, Snapshot, ItineraryVersion, TripDb, TripError, itinerary_by_id,
  version_by_no, new_uuid, save_itinerary,
}
use travel_latest.Itineraries.Snapshots.{snapshot_of, record_version, replace_snapshot}
use travel_latest.Itineraries.Operations.{
  OperationResult, applied, finish_operation, restore_from, restore_version,
}
use travel_latest.Itineraries.Operations.Versions.{restore_steps, restore_runs, applied-injective}
use travel_latest.Itineraries.Operations.Locking.{guarded-Passed}

-- The restored itinerary has the title of the snapshot and its own dates.
record HasTitle (x : Itinerary) (t : Snapshot) (y : Itinerary) : Type 0 where
  title : y.title ≡ t.title
  start : y.start_date ≡ x.start_date
  end_ : y.end_date ≡ x.end_date

has_title :
    (x : Itinerary) (t : Snapshot) (y : Itinerary)
    → y.title ≡ t.title
    → y.start_date ≡ x.start_date
    → y.end_date ≡ x.end_date
    → HasTitle x t y
has_title x t y a b c = record { title = a; start = b; end_ = c }

replace_snapshot-HasTitle :
    (x : Itinerary) (t : Snapshot)
    → Gives {D = TripDb} {E = TripError} (HasTitle x t) (replace_snapshot x t)
unfolding replace_snapshot
replace_snapshot-HasTitle x t = search (gives_rules, has_title) depth 12

finish_snapshot :
    (y : Itinerary) (actor b o : ℕ) (name : String) (s : Session TripDb) (v : ℕ) (t : Snapshot)
    → (finish_operation y actor b o name s).0 ≡ ok (v, t)
    → (t.title ≡ y.title) × (t.start_date ≡ y.start_date) × (t.end_date ≡ y.end_date)
unfolding finish_operation record_version save_itinerary new_uuid snapshot_of ◌>>=◌
finish_snapshot y actor b o name s v t h = (ground arith, ground arith, ground arith)

-- A restoration that is applied gives the itinerary the title of the version, but leaves its dates
-- as they were, whatever dates the version has.
pub restore_keeps_dates :
    (i actor b n o v : ℕ) (snapshot : Snapshot) (job : Option RouteCalculationJob) (d d' : TripDb)
    → request (restore_version i actor b n o) d ≡ (ok (applied v snapshot false job), d')
    → (x : Itinerary) × (source : ItineraryVersion) × (itinerary_by_id i d.itineraries ≡ some x)
      × (version_by_no i n d.versions ≡ some source)
      × (snapshot.title ≡ source.snapshot.title)
      × (snapshot.start_date ≡ x.start_date)
      × (snapshot.end_date ≡ x.end_date)
unfolding restore_version
restore_keeps_dates i actor b n o v snapshot job d d' h =
    let answer = ap (λ (r : Result TripError OperationResult × TripDb). r.0) h in
    let p = guarded-Passed i actor b o v (restore_from i actor b n o) snapshot job d answer in
    let result : (restore_from i actor b n o p.row (begin d)).0
        ≡ ok (applied v snapshot false job) =
      rw p.runs at answer in
    let (source, y, w, t, h0, h1, h2) = restore_steps i actor b o v snapshot job d p.row n result in
    let runs = restore_runs i actor b o v snapshot job d p.row n source y w t h0 h1 h2 in
    let same = (applied-injective i actor b o v snapshot job d p.row w t _ (rw runs at result)).1 in
    let kept = (replace_snapshot-HasTitle p.row source.snapshot).at (begin d) y h1 in
    let taken = finish_snapshot y actor b o "restore_version" _ w t h2 in
    (
      p.row,
      source,
      p.found,
      h0,
      rw same at (taken.0 ∙ kept.title),
      rw same at (taken.1 ∙ kept.start),
      rw same at (taken.2 ∙ kept.end_),
    )
