-- ===== src/Itineraries/Preview.antt =====
-- `_apply_ai_preview` of backend/app/modules/itineraries/service.py: a confirmed plan of the AI
-- takes the place of the days of an itinerary.
use travel_latest.Base.{
  ℕ, zero, suc, ◌+◌, ◌-◌, String, Bool, true, false, not, ◌&&◌, ◌||◌, Option, none, some, List, [],
  ◌∷◌, ◌==◌, leb, if◌then◌else◌,
}
use travel_latest.Base.Exec.{◌>>=◌, ◌>>◌, pure, modify, gets, with_some}
use travel_latest.Base.Lists.{length, take}
use travel_latest.Base.Tables.{add}
use travel_latest.Events.Outbox.{ident, idents}
use travel_latest.Orders.Passengers.{strip}
use travel_latest.Itineraries.Model.{Itinerary, M, new_uuid, save_itinerary, announce}
use travel_latest.Itineraries.Snapshots.{snapshot_of, delete_days}
use travel_latest.Itineraries.Mutate.{
  Mutation, refused, changed, version_conflict, preview_invalid, request_route,
}

pub record Activity : Type 0 where
  pub poi_id : ℕ
  pub poi_name : String
  pub longitude : ℕ
  pub latitude : ℕ
  pub title : List ℕ

-- A day of the draft: `date` is `none` where the day is no object with a date in ISO format and a
-- list of activities, and an activity is `none` where one of its fields is not of its type.
pub record DraftDay : Type 0 where
  pub date : Option ℕ
  pub activities : List (Option Activity)

pub record Draft : Type 0 where
  pub title : List ℕ
  pub days : List DraftDay

-- `draft` is `none` where it is no object with a title and a list of days.
pub record PreviewPayload : Type 0 where
  pub base_version : Option ℕ
  pub draft : Option Draft
  pub generation_job_id : Option ℕ

-- `[start + offset for offset in range(count)]`
abbrev pub dates_from : ℕ → ℕ → List ℕ
dates_from start zero = []
dates_from start (suc n) = start ∷ dates_from (suc start) n

abbrev pub expected_dates : Itinerary → List ℕ
expected_dates x = dates_from x.start_date (x.end_date + 1 - x.start_date)

abbrev pub is_in : ℕ → List ℕ → Bool
is_in i [] = false
is_in i (x ∷ xs) = x == i || is_in i xs

abbrev pub same_dates : List ℕ → List ℕ → Bool
same_dates [] [] = true
same_dates (x ∷ xs) (y ∷ ys) = x == y && same_dates xs ys
same_dates _ _ = false

abbrev pub with_activity : Activity → Option (List Activity) → Option (List Activity)
with_activity a none = none
with_activity a (some rest) = if a.poi_id == 0 then none else some (a ∷ rest)

abbrev pub parse_activities : List (Option Activity) → Option (List Activity)
parse_activities [] = some []
parse_activities (none ∷ xs) = none
parse_activities (some a ∷ xs) = with_activity a (parse_activities xs)

pub record ParsedDay : Type 0 where
  pub day_date : ℕ
  pub activities : List Activity

-- The loop that fills `seen_dates` and `parsed_days`; `none` is `PREVIEW_INVALID`.
abbrev pub with_day : ParsedDay → Option (List ParsedDay) → Option (List ParsedDay)
with_day p none = none
with_day p (some rest) = some (p ∷ rest)

unfoldable pub parse_days : ℕ → ℕ → List ℕ → List DraftDay → Option (List ParsedDay)
parse_days start end seen [] = some []
parse_days start end seen (x ∷ xs) = elim x.date [
  | none ↦ none
  | some t ↦
      if is_in t seen || not (leb start t && leb t end)
      then none
      else elim (parse_activities x.activities) [
        | none ↦ none
        | some as_ ↦
            with_day (record { day_date = t; activities = as_ })
              (parse_days start end (t ∷ seen) xs)
      ]
]

abbrev pub parsed_dates : List ParsedDay → List ℕ
parsed_dates [] = []
parsed_dates (p ∷ ps) = p.day_date ∷ parsed_dates ps

-- All the tests on the days of a draft.
unfoldable pub checked_days : Itinerary → List DraftDay → Option (List ParsedDay)
unfolding parse_days
checked_days x days =
    if not (length days == length (expected_dates x))
    then none
    else elim (parse_days x.start_date x.end_date [] days) [
      | none ↦ none
      | some parsed ↦
          if same_dates (parsed_dates parsed) (expected_dates x) then some parsed else none
    ]

unfoldable pub add_activities : ℕ → ℕ → List Activity → M Unit
add_activities day_id event_order [] = pure tt
add_activities day_id event_order (a ∷ rest) = do
  id ← new_uuid
  modify λ d. record d {
    events =
        add
          (record {
            id = id;
            day_id = day_id;
            poi_id = a.poi_id;
            poi_snapshot = record {
              name = a.poi_name;
              address = none;
              longitude = a.longitude;
              latitude = a.latitude;
              city = none;
              type_name = none;
              source = some "ai_preview_verified";
            };
            starts_at = none;
            ends_at = none;
            display_order = event_order;
            notes = some a.title;
          })
          d.events;
  }
  add_activities day_id (suc event_order) rest

-- The days with their activities; a day with activities gets a route calculation. The second test
-- of each activity repeats the first one, and is left out.
unfoldable pub add_parsed_days : ℕ → Itinerary → ℕ → ℕ → List ParsedDay → M Unit
unfolding add_activities request_route
add_parsed_days now itinerary actor_id display_order [] = pure tt
add_parsed_days now itinerary actor_id display_order (p ∷ ps) = do
  id ← new_uuid
  modify λ d. record d {
    days =
        add
          (record {
            id = id;
            itinerary_id = itinerary.id;
            day_date = p.day_date;
            display_order = display_order;
          })
          d.days;
  }
  add_activities id 0 p.activities
  if length p.activities == 0 then pure tt else request_route now itinerary actor_id id
  add_parsed_days now itinerary actor_id (suc display_order) ps

-- `sorted({...})` of identifiers
abbrev pub insert_id : ℕ → List ℕ → List ℕ
insert_id i [] = i ∷ []
insert_id i (x ∷ xs) =
    let rest = insert_id i xs in if i == x then x ∷ xs else if leb i x then i ∷ x ∷ xs else x ∷ rest

abbrev pub collect_ids : List Activity → List ℕ → List ℕ
collect_ids [] ids = ids
collect_ids (a ∷ rest) ids = insert_id a.poi_id (collect_ids rest ids)

abbrev pub poi_ids : List ParsedDay → List ℕ
poi_ids [] = []
poi_ids (p ∷ ps) = collect_ids p.activities (poi_ids ps)

unfoldable pub request_discovery : ℕ → Itinerary → Option ℕ → List ℕ → M Unit
request_discovery now itinerary none ids = pure tt
request_discovery now itinerary (some job_id) [] = pure tt
request_discovery now itinerary (some job_id) (i ∷ ids) =
    announce now "ai.confirmed_preview_poi_discovery_requested" itinerary.id
      (("generation_job_id", ident job_id) ∷ ("poi_ids", idents (i ∷ ids)) ∷ [])

abbrev pub is_stale : Option ℕ → ℕ → Bool
is_stale none version = false
is_stale (some base) version = not (base == version)

-- What follows when the draft has passed its tests.
unfoldable pub apply_days : ℕ → Itinerary → ℕ → List ℕ → Option ℕ → List ParsedDay → M Mutation
apply_days now itinerary actor_id title generation_job_id parsed = do
  modify (delete_days itinerary.id)
  add_parsed_days now itinerary actor_id 0 parsed
  let itinerary' = record itinerary { title = take 160 (strip title) }
  save_itinerary itinerary'
  request_discovery now itinerary generation_job_id (poi_ids parsed)
  pure (changed itinerary')

unfoldable pub apply_ai_preview : ℕ → Itinerary → ℕ → PreviewPayload → M Mutation
apply_ai_preview now itinerary actor_id payload = do
  snapshot ← gets (snapshot_of itinerary)
  if is_stale payload.base_version itinerary.version
      then pure (refused (version_conflict itinerary.version snapshot))
      else with_some payload.draft (pure (refused (preview_invalid itinerary.version snapshot)))
          λ draft.
            with_some (checked_days itinerary draft.days)
              (pure (refused (preview_invalid itinerary.version snapshot)))
              λ parsed.
                apply_days now itinerary actor_id draft.title payload.generation_job_id parsed
