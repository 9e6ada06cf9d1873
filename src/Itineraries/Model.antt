-- ===== src/Itineraries/Model.antt =====
-- The tables of backend/app/modules/itineraries/models.py, and what the operations of
-- itineraries/service.py share. Dates are ordinals; coordinates are only copied.
use travel_latest.Base.{ℕ, suc, String, ◌&&◌, Option, List, ◌==◌}
use travel_latest.Base.Tables.{Keyed, scalar, get, save, add}
use travel_latest.Base.Exec.{Exec, ok, ◌>>=◌, modify}
use travel_latest.Events.Outbox.{OutboxEvent, Payload}
use travel_latest.Orders.Session.{outbox_row}

pub data CollaboratorRole : Type 0 where
  viewer editor : CollaboratorRole

pub data InviteStatus : Type 0 where
  pending accepted revoked : InviteStatus

pub data RouteStatus : Type 0 where
  queued calculating completed failed : RouteStatus

-- A title is the list of its characters.
pub record Itinerary : Type 0 where
  pub id : ℕ
  pub owner_id : ℕ
  pub title : List ℕ
  pub start_date : ℕ
  pub end_date : ℕ
  pub version : ℕ
  pub source_post_id : Option ℕ

pub record ItineraryDay : Type 0 where
  pub id : ℕ
  pub itinerary_id : ℕ
  pub day_date : ℕ
  pub display_order : ℕ

-- `poi_snapshot`, as the map service or a verified preview fills it.
pub record PoiSnapshot : Type 0 where
  pub name : String
  pub address : Option String
  pub longitude : ℕ
  pub latitude : ℕ
  pub city : Option String
  pub type_name : Option String
  pub source : Option String

pub record ItineraryEvent : Type 0 where
  pub id : ℕ
  pub day_id : ℕ
  pub poi_id : ℕ
  pub poi_snapshot : PoiSnapshot
  pub starts_at : Option ℕ
  pub ends_at : Option ℕ
  pub display_order : ℕ
  pub notes : Option (List ℕ)

pub record RouteSegment : Type 0 where
  pub id : ℕ
  pub day_id : ℕ
  pub display_order : ℕ
  pub travel_mode : String
  pub distance_meters : Option ℕ
  pub duration_seconds : Option ℕ
  pub polyline : List (ℕ × ℕ)

pub record RouteCalculationJob : Type 0 where
  pub id : ℕ
  pub itinerary_id : ℕ
  pub day_id : ℕ
  pub requested_by : ℕ
  pub event_ids : List ℕ
  pub status : RouteStatus
  pub error_code : Option String
  pub completed_at : Option ℕ
  pub created_at : ℕ

pub record EventSnapshot : Type 0 where
  pub id : ℕ
  pub poi_id : ℕ
  pub poi_snapshot : PoiSnapshot
  pub starts_at : Option ℕ
  pub ends_at : Option ℕ
  pub display_order : ℕ
  pub notes : Option (List ℕ)

pub record SegmentSnapshot : Type 0 where
  pub display_order : ℕ
  pub travel_mode : String
  pub distance_meters : Option ℕ
  pub duration_seconds : Option ℕ
  pub polyline : List (ℕ × ℕ)

pub record RouteSnapshot : Type 0 where
  pub id : ℕ
  pub status : RouteStatus
  pub error_code : Option String

pub record DaySnapshot : Type 0 where
  pub id : ℕ
  pub day_date : ℕ
  pub display_order : ℕ
  pub events : List EventSnapshot
  pub route_segments : List SegmentSnapshot
  pub route_calculation : Option RouteSnapshot

pub record Snapshot : Type 0 where
  pub title : List ℕ
  pub start_date : ℕ
  pub end_date : ℕ
  pub days : List DaySnapshot

pub record ItineraryVersion : Type 0 where
  pub id : ℕ
  pub itinerary_id : ℕ
  pub version : ℕ
  pub snapshot : Snapshot
  pub created_by : ℕ

pub record TripCollaborator : Type 0 where
  pub id : ℕ
  pub itinerary_id : ℕ
  pub user_id : ℕ
  pub role : CollaboratorRole
  pub status : InviteStatus

pub record TripOperation : Type 0 where
  pub id : ℕ
  pub itinerary_id : ℕ
  pub operation_id : ℕ
  pub actor_id : ℕ
  pub operation_type : String
  pub base_version : ℕ
  pub result_version : ℕ
  pub result_snapshot : Snapshot

pub record TripShareToken : Type 0 where
  pub id : ℕ
  pub itinerary_id : ℕ
  pub token_hash : ℕ
  pub expires_at : Option ℕ
  pub revoked_at : Option ℕ

pub record TripDb : Type 0 where
  pub itineraries : List Itinerary
  pub days : List ItineraryDay
  pub events : List ItineraryEvent
  pub segments : List RouteSegment
  pub route_jobs : List RouteCalculationJob
  pub versions : List ItineraryVersion
  pub operations : List TripOperation
  pub collaborators : List TripCollaborator
  pub share_tokens : List TripShareToken
  pub users : List ℕ
  pub outbox : List OutboxEvent
  pub next_uuid : ℕ

-- `ValueError`, which the routes answer with 422.
pub data TripError : Type 0 where
  value_error : TripError

abbrev pub M : Type 0 → Type 0
M = Exec TripDb TripError

instance abbrev pub itinerary_key : Keyed Itinerary
itinerary_key = record { key = λ x. x.id }

instance abbrev pub day_key : Keyed ItineraryDay
day_key = record { key = λ x. x.id }

instance abbrev pub stop_key : Keyed ItineraryEvent
stop_key = record { key = λ x. x.id }

instance abbrev pub job_key : Keyed RouteCalculationJob
job_key = record { key = λ x. x.id }

instance abbrev pub collaborator_key : Keyed TripCollaborator
collaborator_key = record { key = λ x. x.id }

instance abbrev pub token_key : Keyed TripShareToken
token_key = record { key = λ x. x.id }

unfoldable pub itinerary_by_id : ℕ → List Itinerary → Option Itinerary
itinerary_by_id i = get i

unfoldable pub put_itinerary : Itinerary → List Itinerary → List Itinerary
put_itinerary x = save x

unfoldable pub operation_by_id : ℕ → ℕ → List TripOperation → Option TripOperation
operation_by_id itinerary_id operation_id =
    scalar (λ o. o.itinerary_id == itinerary_id && o.operation_id == operation_id)

unfoldable pub version_by_no : ℕ → ℕ → List ItineraryVersion → Option ItineraryVersion
version_by_no itinerary_id version =
    scalar (λ v. v.itinerary_id == itinerary_id && v.version == version)

unfoldable pub new_uuid : M ℕ
new_uuid s = (ok s.db.next_uuid, record s { db = record s.db { next_uuid = suc s.db.next_uuid } })

unfoldable pub save_itinerary : Itinerary → M Unit
save_itinerary x = modify (λ d. record d { itineraries = put_itinerary x d.itineraries })

-- `session.add(OutboxEvent(...))` for an itinerary
unfoldable pub announce : ℕ → String → ℕ → Payload → M Unit
announce now event_type itinerary_id payload = do
  trace_id ← new_uuid
  event_id ← new_uuid
  modify λ d. record d {
    outbox =
        add (outbox_row event_id trace_id now event_type "itinerary" itinerary_id payload) d.outbox;
  }
