-- ===== src/Orders/Search.antt =====
-- `SearchService.create` of backend/app/modules/orders/services.py.
pub mod Idempotent
use travel_latest.Base.{
  ℕ, String, Bool, Option, none, some, List, [], ◌∷◌, ◌++◌, ◌==◌, ◌&&◌, if◌then◌else◌,
}
use travel_latest.Base.Lists.{length}
use travel_latest.Base.Tables.{add, scalar, save}
use travel_latest.Base.Exec.{◌>>=◌, ◌>>◌, pure, modify, gets, commit, with_some, or_raise}
use travel_latest.Events.Outbox.{Json, int, ident, text, moment, optional_text, Payload}
use travel_latest.Orders.Model.{
  Db, TravelSearchJob, TravelOffer, SearchType, job_key, supplier_error,
}
use travel_latest.Orders.Session.{M, new_uuid, enqueue}

-- `SupplierSearchRequest`, as far as the order services use it.
pub record SupplierSearchRequest : Type 0 where
  pub search_type : SearchType
  pub origin : String
  pub destination : String
  pub depart_date : ℕ
  pub passenger_count : ℕ

-- `SupplierOffer`: `available` is the test of `availability`, and the amount is a parsed number.
pub record SupplierOffer : Type 0 where
  pub source : String
  pub external_offer_id : ℕ
  pub title : String
  pub amount : ℕ
  pub currency : String
  pub valid_until : ℕ
  pub available : Bool
  pub snapshot : List (String × Json)

pub record SupplierSearchResult : Type 0 where
  pub available : Bool
  pub code : String
  pub offers : List SupplierOffer

-- The supplier's answer to a search, or `none` where it raises.
abbrev pub SearchSupplier : Type 0
SearchSupplier = SupplierSearchRequest → Option SupplierSearchResult

unfoldable pub job_by_key : ℕ → ℕ → List TravelSearchJob → Option TravelSearchJob
job_by_key user_id key = scalar (λ j. j.user_id == user_id && j.idempotency_key == key)

unfoldable pub put_job : TravelSearchJob → List TravelSearchJob → List TravelSearchJob
put_job j = save j

abbrev pub new_job : ℕ → ℕ → ℕ → SupplierSearchRequest → TravelSearchJob
new_job id user_id idempotency_key search = record {
  id = id;
  user_id = user_id;
  idempotency_key = idempotency_key;
  search_type = search.search_type;
  passenger_count = int search.passenger_count;
  status = "pending";
  source = "supplier_unavailable";
  unavailable_code = none;
}

abbrev pub job_status : List SupplierOffer → String
job_status [] = "empty"
job_status (_ ∷ _) = "completed"

abbrev pub job_source : List SupplierOffer → String
job_source [] = "supplier_unavailable"
job_source (offer ∷ _) = offer.source

abbrev pub answered_job : SupplierSearchResult → TravelSearchJob → TravelSearchJob
answered_job result job = record job {
  status = job_status result.offers;
  source = job_source result.offers;
  unavailable_code = if result.available then none else some result.code;
}

-- The row of an offer: the snapshot is the supplier's, with three facts of the offer over it.
abbrev pub new_offer : ℕ → ℕ → SupplierOffer → TravelOffer
new_offer id job_id item = record {
  id = id;
  search_job_id = job_id;
  source = item.source;
  external_offer_id = item.external_offer_id;
  title = item.title;
  amount = item.amount;
  currency = item.currency;
  available = item.available;
  valid_until = item.valid_until;
  snapshot =
      ("source", text item.source)
      ∷ ("external_offer_id", ident item.external_offer_id)
      ∷ ("valid_until", moment item.valid_until)
      ∷ item.snapshot;
}

unfoldable pub add_offers : ℕ → List SupplierOffer → M Unit
add_offers job_id [] = pure tt
add_offers job_id (item ∷ items) = do
  id ← new_uuid
  modify (λ d. record d { offers = add (new_offer id job_id item) d.offers })
  add_offers job_id items

unfoldable pub search_payload : TravelSearchJob → ℕ → Payload
search_payload job offer_count =
    ("travel_search_job_id", ident job.id)
    ∷ ("user_id", ident job.user_id)
    ∷ ("status", text job.status)
    ∷ ("offer_count", int offer_count)
    ∷ ("error_code", optional_text job.unavailable_code)
    ∷ []

-- What follows when the key is new.
unfoldable pub new_search : ℕ → SearchSupplier → ℕ → ℕ → SupplierSearchRequest → M TravelSearchJob
new_search now supplier user_id idempotency_key search = do
  id ← new_uuid
  let job = new_job id user_id idempotency_key search
  modify (λ d. record d { jobs = add job d.jobs })
  result ← or_raise (supplier search) supplier_error
  let job' = answered_job result job
  modify (λ d. record d { jobs = put_job job' d.jobs })
  add_offers job.id result.offers
  enqueue now "travel_search_job.completed" "travel_search_job" job.id
      (search_payload job' (length result.offers))
  commit
  pure job'

unfoldable pub create_search :
    ℕ → SearchSupplier → ℕ → ℕ → SupplierSearchRequest → M TravelSearchJob
create_search now supplier user_id idempotency_key search = do
  found ← gets (λ d. job_by_key user_id idempotency_key d.jobs)
  with_some found (new_search now supplier user_id idempotency_key search) pure
