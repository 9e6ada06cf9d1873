-- ===== src/Itineraries/Reorder.antt =====
-- `operation_type == "reorder_event"` of `_mutate`, backend/app/modules/itineraries/service.py.
pub mod Swap
use travel_latest.Base.{
  ℕ, zero, suc, ◌+◌, ◌-◌, String, Bool, true, false, not, ◌||◌, Option, none, some, List, [], ◌∷◌,
  ◌==◌, ltb, if◌then◌else◌, str_eq,
}
use travel_latest.Base.Exec.{◌>>=◌, ◌>>◌, pure, modify, gets, raise_if, with_some}
use travel_latest.Base.Lists.{length}
use travel_latest.Base.Queries.{next_position}
use travel_latest.Itineraries.Model.{Itinerary, ItineraryDay, ItineraryEvent, M, value_error}
use travel_latest.Itineraries.Snapshots.{events_of}
use travel_latest.Itineraries.Mutate.{Mutation, changed, delete_segments, put_event}

-- `next((index for index, item in enumerate(events) if item.id == event.id), -1)`, where `none` is -1
abbrev pub index_of : ℕ → List ItineraryEvent → Option ℕ
index_of i [] = none
index_of i (x ∷ xs) =
    if x.id == i then some 0 else elim (index_of i xs) [ none ↦ none | some n ↦ some (suc n) ]

-- `index - 1 if direction == "up" else index + 1`, where `none` is out of range
abbrev pub target_index : Bool → ℕ → ℕ → Option ℕ
target_index true zero count = none
target_index true (suc n) count = some n
target_index false n count = if ltb (suc n) count then some (suc n) else none

-- `pop(index)`: the item, and the list without it
abbrev pub pop : ℕ → List ItineraryEvent → Option (ItineraryEvent × List ItineraryEvent)
pop n [] = none
pop zero (x ∷ xs) = some (x, xs)
pop (suc n) (x ∷ xs) = elim (pop n xs) [ none ↦ none | some (y, ys) ↦ some (y, x ∷ ys) ]

-- `insert(index, item)`
abbrev pub insert_at : ℕ → ItineraryEvent → List ItineraryEvent → List ItineraryEvent
insert_at zero y xs = y ∷ xs
insert_at (suc n) y [] = y ∷ []
insert_at (suc n) y (x ∷ xs) = x ∷ insert_at n y xs

-- The list `reordered`; `none` where the operation does nothing.
unfoldable pub reordered : Bool → ℕ → List ItineraryEvent → Option (List ItineraryEvent)
reordered up event_id events = elim (index_of event_id events) [
  | none ↦ none
  | some index ↦ elim (target_index up index (length events)) [
    | none ↦ none
    | some target ↦ elim (pop index events) [
      | none ↦ none
      | some (moved, rest) ↦ some (insert_at target moved rest)
    ]
  ]
]

-- `for display_order, item in enumerate(...): item.display_order = display_order`, from a base
abbrev pub numbered : ℕ → List ItineraryEvent → List ItineraryEvent
numbered n [] = []
numbered n (x ∷ xs) = record x { display_order = n } ∷ numbered (suc n) xs

unfoldable pub put_events : List ItineraryEvent → List ItineraryEvent → List ItineraryEvent
unfolding put_event
put_events [] rows = rows
put_events (x ∷ xs) rows = put_events xs (put_event x rows)

-- The events are numbered above all numbers in use first, for the sake of the unique constraint.
unfoldable pub renumber : ItineraryDay → List ItineraryEvent → List ItineraryEvent → M Unit
renumber day events target = do
  modify λ d. record d {
    events =
        put_events (numbered (next_position (λ x. x.display_order) events + length events) events)
          d.events;
  }
  modify (λ d. record d { events = put_events (numbered 0 target) d.events })
  modify (delete_segments day.id)

unfoldable pub reorder_event : Itinerary → ItineraryEvent → ItineraryDay → String → M Mutation
reorder_event itinerary e day direction = do
  raise_if (not (str_eq direction "up" || str_eq direction "down")) value_error
  events ← gets (λ d. events_of day.id d.events)
  with_some (reordered (str_eq direction "up") e.id events) (pure (changed itinerary))
      λ target. do renumber day events target; pure (changed itinerary)
