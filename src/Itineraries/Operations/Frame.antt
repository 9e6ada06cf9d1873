-- ===== src/Itineraries/Operations/Frame.antt =====
-- What the change of an operation leaves alone.
use travel_latest.Base.{ℕ, suc, ◌≡◌, refl, Option, none, some, List, [], ◌∷◌, arith, String}
use travel_latest.Base.Exec.{Session, modify}
use travel_latest.Base.Exec.Keeps.{Keeps, Keeps-modify, Keeps-bind, keeps_rules}
use travel_latest.Base.Keys.{get-save}
use travel_latest.Events.Outbox.{Payload}
use travel_latest.Itineraries.Model.{
  Itinerary, ItineraryDay, ItineraryEvent, EventSnapshot, SegmentSnapshot, DaySnapshot, Snapshot,
  TripDb, M, itinerary_key, itinerary_by_id, put_itinerary, new_uuid, save_itinerary, announce,
}
use travel_latest.Itineraries.Snapshots.{
  replace_snapshot, restore_events, restore_segments, restore_day, restore_days, delete_days,
}
use travel_latest.Itineraries.Mutate.{
  Mutation, refused, changed, VerifiedPoi, EventUpdate, shrunk, delete_day, add_day, remove_day,
  add_event, request_route, recalculate_route, remove_event, update_event,
}
use travel_latest.Itineraries.Reorder.{renumber, reorder_event}
use travel_latest.Itineraries.Preview.{
  Activity, ParsedDay, PreviewPayload, add_activities, add_parsed_days, request_discovery,
  apply_days, apply_ai_preview,
}
use travel_latest.Itineraries.Operations.{
  Operation, ai_preview, adding_day, removing_day, adding_event, recalculating_route,
  removing_event, updating_event, reordering_event, unsupported, on_event, mutate,
}

-- The rows that say who may edit, which operations are on record, and which versions there are; the
-- itinerary itself is there, with its owner.
pub record IsFramed (x : Itinerary) (d : TripDb) (s : Session TripDb) : Type 0 where
  pub row : Itinerary
  pub found : itinerary_by_id x.id s.db.itineraries ≡ some row
  pub owner : row.owner_id ≡ x.owner_id
  pub collaborators : s.db.collaborators ≡ d.collaborators
  pub operations : s.db.operations ≡ d.operations
  pub versions : s.db.versions ≡ d.versions

-- The itinerary that an operation works on, by what does not change.
pub record IsSame (x y : Itinerary) : Type 0 where
  pub id : y.id ≡ x.id
  pub owner : y.owner_id ≡ x.owner_id
  pub version : y.version ≡ x.version

abbrev pub IsSameChange : Itinerary → Mutation → Type 0
IsSameChange x (refused r) = Unit
IsSameChange x (changed y) = IsSame x y

module _ (x : Itinerary) where
  pub IsSame-by :
      (y : Itinerary) → y.id ≡ x.id → y.owner_id ≡ x.owner_id → y.version ≡ x.version → IsSame x y
  IsSame-by y a b c = record { id = a; owner = b; version = c }

  pub shrunk-IsSame : (days : List ItineraryDay) → IsSame x (shrunk x days)
  shrunk-IsSame [] = IsSame-by x refl refl refl
  shrunk-IsSame (y ∷ ys) = IsSame-by (shrunk x (y ∷ ys)) refl refl refl

pub put-found :
    (i : ℕ) (y row : Itinerary) (rows : List Itinerary)
    → itinerary_by_id i rows ≡ some row
    → y.id ≡ i
    → itinerary_by_id i (put_itinerary y rows) ≡ some y
unfolding itinerary_by_id put_itinerary
put-found i y row rows h e = ground (arith, get-save i y rows)

module _ (x : Itinerary) (d : TripDb) where
  abbrev pub Framed : {A : Type 0} → M A → Type 0
  Framed = Keeps (IsFramed x d)

  -- A write that leaves these tables alone.
  pub modify-Framed :
      (f : TripDb → TripDb)
      → ((e : TripDb) → (f e).itineraries ≡ e.itineraries)
      → ((e : TripDb) → (f e).collaborators ≡ e.collaborators)
      → ((e : TripDb) → (f e).operations ≡ e.operations)
      → ((e : TripDb) → (f e).versions ≡ e.versions)
      → Framed (modify f)
  modify-Framed f a b c v = Keeps-modify f λ s h.
      let p = a s.db in
      let q = b s.db in
      let r = c s.db in
      let t = v s.db in
      record {
        row = h.row;
        found = ground arith;
        owner = h.owner;
        collaborators = ground arith;
        operations = ground arith;
        versions = ground arith;
      }

  pub save_itinerary-Framed : (y : Itinerary) → IsSame x y → Framed (save_itinerary y)
  unfolding save_itinerary
  save_itinerary-Framed y e = Keeps-modify _ λ s h. record {
    row = y;
    found = put-found x.id y h.row s.db.itineraries h.found e.id;
    owner = e.owner;
    collaborators = h.collaborators;
    operations = h.operations;
    versions = h.versions;
  }

  new_uuid-Framed : Framed new_uuid
  unfolding new_uuid
  new_uuid-Framed = record {
    at = λ s h. record {
      row = h.row;
      found = h.found;
      owner = h.owner;
      collaborators = h.collaborators;
      operations = h.operations;
      versions = h.versions;
    };
  }

  announce-Framed :
      (now : ℕ) (name : String) (i : ℕ) (payload : Payload) → Framed (announce now name i payload)
  unfolding announce
  announce-Framed now name i payload = search (keeps_rules, new_uuid-Framed, modify-Framed)

  ruleset framed = (
    keeps_rules, modify-Framed, save_itinerary-Framed, new_uuid-Framed, announce-Framed, IsSame-by,
  )

  add_day-Framed : (t : ℕ) → Framed (add_day x t)
  unfolding add_day
  add_day-Framed t = search framed depth 24

  remove_day-Framed : (i : ℕ) → Framed (remove_day x i)
  unfolding remove_day delete_day
  remove_day-Framed i = search (framed, shrunk-IsSame) depth 24

  add_event-Framed : (v : Option VerifiedPoi) (i : ℕ) → Framed (add_event x v i)
  unfolding add_event
  add_event-Framed v i = search framed depth 24

  request_route-Framed : (now actor i : ℕ) → Framed (request_route now x actor i)
  unfolding request_route
  request_route-Framed now actor i = search framed depth 24

  recalculate_route-Framed : (now actor i : ℕ) → Framed (recalculate_route now x actor i)
  unfolding recalculate_route
  recalculate_route-Framed now actor i = search (request_route-Framed, framed) depth 24

  remove_event-Framed : (e : ItineraryEvent) (day : ItineraryDay) → Framed (remove_event x e day)
  unfolding remove_event
  remove_event-Framed e day = search framed depth 24

  update_event-Framed : (e : ItineraryEvent) (u : EventUpdate) → Framed (update_event x e u)
  unfolding update_event
  update_event-Framed e u = search framed depth 24

  renumber-Framed :
      (day : ItineraryDay) (events target : List ItineraryEvent)
      → Framed (renumber day events target)
  unfolding renumber
  renumber-Framed day events target = search framed depth 24

  reorder_event-Framed :
      (e : ItineraryEvent) (day : ItineraryDay) (direction : String)
      → Framed (reorder_event x e day direction)
  unfolding reorder_event
  reorder_event-Framed e day direction = search (renumber-Framed, framed) depth 24

  on_event-Framed :
      (i : ℕ) (act : ItineraryEvent → ItineraryDay → M Mutation)
      → ((e : ItineraryEvent) (day : ItineraryDay) → Framed (act e day))
      → Framed (on_event x i act)
  unfolding on_event
  on_event-Framed i act h = search framed depth 24

  add_activities-Framed :
      (day_id order : ℕ) (as_ : List Activity) → Framed (add_activities day_id order as_)
  unfolding add_activities
  add_activities-Framed day_id order [] = search framed
  add_activities-Framed day_id order (a ∷ as_) =
      Keeps-bind new_uuid _ new_uuid-Framed
        λ id. Keeps-bind _ _ (search framed) (λ u. add_activities-Framed day_id (suc order) as_)

  delete_days-Framed : (i : ℕ) → Framed (modify (delete_days i))
  unfolding delete_days
  delete_days-Framed i = search framed

  add_parsed_days-Framed :
      (now actor order : ℕ) (ps : List ParsedDay) → Framed (add_parsed_days now x actor order ps)
  unfolding add_parsed_days
  add_parsed_days-Framed now actor order [] = search framed
  add_parsed_days-Framed now actor order (p ∷ ps) = Keeps-bind new_uuid _ new_uuid-Framed λ id.
      Keeps-bind _ _ (search framed) λ u.
        Keeps-bind _ _ (add_activities-Framed id 0 p.activities) λ v.
          Keeps-bind _ _ (search (request_route-Framed, framed))
            (λ w. add_parsed_days-Framed now actor (suc order) ps)

  request_discovery-Framed :
      (now : ℕ) (job : Option ℕ) (ids : List ℕ) → Framed (request_discovery now x job ids)
  unfolding request_discovery
  request_discovery-Framed now none ids = search framed
  request_discovery-Framed now (some j) [] = search framed
  request_discovery-Framed now (some j) (i ∷ ids) = search framed

  apply_ai_preview-Framed :
      (now actor : ℕ) (p : PreviewPayload) → Framed (apply_ai_preview now x actor p)
  unfolding apply_ai_preview apply_days
  apply_ai_preview-Framed now actor p =
      search (framed, delete_days-Framed, add_parsed_days-Framed, request_discovery-Framed) depth 30

  pub mutate-Framed :
      (now : ℕ) (verify_poi : ℕ → Option VerifiedPoi) (actor : ℕ) (op : Operation)
      → Framed (mutate now verify_poi x actor op)
  unfolding mutate
  mutate-Framed now verify_poi actor (ai_preview p) = apply_ai_preview-Framed now actor p
  mutate-Framed now verify_poi actor (adding_day t) = search (add_day-Framed, framed)
  mutate-Framed now verify_poi actor (removing_day i) = remove_day-Framed i
  mutate-Framed now verify_poi actor (adding_event p i) = add_event-Framed (verify_poi p) i
  mutate-Framed now verify_poi actor (recalculating_route i) = recalculate_route-Framed now actor i
  mutate-Framed now verify_poi actor (removing_event i) = on_event-Framed i _ remove_event-Framed
  mutate-Framed now verify_poi actor (updating_event i u) =
      on_event-Framed i _ (λ e day. update_event-Framed e u)
  mutate-Framed now verify_poi actor (reordering_event i t) =
      on_event-Framed i _ (λ e day. reorder_event-Framed e day t)
  mutate-Framed now verify_poi actor (unsupported name i) =
      on_event-Framed i _ (λ e day. search framed)

  restore_events-Framed : (i : ℕ) (es : List EventSnapshot) → Framed (restore_events i es)
  unfolding restore_events
  restore_events-Framed i [] = search framed
  restore_events-Framed i (e ∷ es) =
      Keeps-bind new_uuid _ new_uuid-Framed
        λ id. Keeps-bind _ _ (search framed) (λ u. restore_events-Framed i es)

  restore_segments-Framed : (i : ℕ) (ss : List SegmentSnapshot) → Framed (restore_segments i ss)
  unfolding restore_segments
  restore_segments-Framed i [] = search framed
  restore_segments-Framed i (e ∷ es) =
      Keeps-bind new_uuid _ new_uuid-Framed
        λ id. Keeps-bind _ _ (search framed) (λ u. restore_segments-Framed i es)

  restore_day-Framed : (i : ℕ) (day : DaySnapshot) → Framed (restore_day i day)
  unfolding restore_day
  restore_day-Framed i day =
      search (restore_events-Framed, restore_segments-Framed, framed) depth 24

  restore_days-Framed : (i : ℕ) (days : List DaySnapshot) → Framed (restore_days i days)
  unfolding restore_days
  restore_days-Framed i [] = search framed
  restore_days-Framed i (day ∷ days) =
      Keeps-bind _ _ (restore_day-Framed i day) (λ u. restore_days-Framed i days)

  pub replace_snapshot-Framed : (t : Snapshot) → Framed (replace_snapshot x t)
  unfolding replace_snapshot
  replace_snapshot-Framed t = search (delete_days-Framed, restore_days-Framed, framed) depth 24
