-- ===== src/Orders/Search/Idempotent.antt =====
-- Searching twice.
use travel_latest.Base.{ℕ, ◌≡◌, refl, none, some, List, [], ◌∷◌, arith, Option-cases, inl, inr}
use travel_latest.Base.Tables.{add, scalar-add_hit, scalar-save_self}
use travel_latest.Base.Exec.{Session, ok, ◌>>=◌, request}
use travel_latest.Orders.Model.{Db, TravelSearchJob, job_key}
use travel_latest.Orders.Session.{new_uuid, enqueue}
use travel_latest.Orders.Search.{
  SupplierSearchRequest, SupplierOffer, SearchSupplier, job_by_key, put_job, new_job, answered_job,
  add_offers, new_search, create_search,
}

job_by_key-add :
    (u k : ℕ) (rows : List TravelSearchJob) (j : TravelSearchJob)
    → job_by_key u k rows ≡ none
    → j.user_id ≡ u
    → j.idempotency_key ≡ k
    → job_by_key u k (add j rows) ≡ some j
unfolding job_by_key
job_by_key-add u k rows j h e f = scalar-add_hit _ rows j h (ground arith)

job_by_key-put :
    (u k : ℕ) (rows : List TravelSearchJob) (j r : TravelSearchJob)
    → job_by_key u k rows ≡ some j
    → r.id ≡ j.id
    → r.user_id ≡ u
    → r.idempotency_key ≡ k
    → job_by_key u k (put_job r rows) ≡ some r
unfolding job_by_key put_job
job_by_key-put u k rows j r h e f g = scalar-save_self _ rows j r h e (ground arith)

-- Offers are added to their own table, and the step never raises.
add_offers-jobs :
    (i : ℕ) (items : List SupplierOffer) (s : Session Db)
    → ((add_offers i items s).0 ≡ ok tt) × ((add_offers i items s).1.db.jobs ≡ s.db.jobs)
unfolding add_offers new_uuid ◌>>=◌
add_offers-jobs i [] s = (refl, refl)
add_offers-jobs i (item ∷ items) s = add_offers-jobs i items _

new_search_lem :
    (now u k : ℕ) (supplier : SearchSupplier) (search : SupplierSearchRequest) (d d' : Db)
    (j : TravelSearchJob)
    → job_by_key u k d.jobs ≡ none
    → request (new_search now supplier u k search) d ≡ (ok j, d')
    → job_by_key u k d'.jobs ≡ some j
unfolding new_search new_uuid enqueue ◌>>=◌
new_search_lem now u k supplier search d d' j fresh h = elim (Option-cases (supplier search)) [
  | inl absent ↦ absurd (ground arith)
  | inr (result, answered) ↦
      let job = new_job d.next_uuid u k search in
      let added = job_by_key-add u k d.jobs job fresh refl refl in
      let put =
        job_by_key-put u k (add job d.jobs) job (answered_job result job) added refl refl refl in
      grind (arith, put, add_offers-jobs)
]

-- A second search under the same user and key returns the job that the first one left, asks no
-- supplier, and writes nothing, whatever is searched for.
pub search_twice :
    (now now' u k : ℕ) (supplier supplier' : SearchSupplier)
    (search search' : SupplierSearchRequest) (d d' : Db) (j : TravelSearchJob)
    → request (create_search now supplier u k search) d ≡ (ok j, d')
    → request (create_search now' supplier' u k search') d' ≡ (ok j, d')
unfolding create_search ◌>>=◌
search_twice now now' u k supplier supplier' search search' d d' j h =
    elim (Option-cases (job_by_key u k d.jobs)) [
      | inl fresh ↦ ground (arith, new_search_lem now u k supplier search d d' j fresh)
      | inr (x, e) ↦ ground arith
    ]
