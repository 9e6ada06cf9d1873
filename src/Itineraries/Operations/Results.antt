-- ===== src/Itineraries/Operations/Results.antt =====
-- What the change of an operation returns: the same itinerary, with other dates or another title.
use travel_latest.Base.{ℕ, Option}
use travel_latest.Base.Exec.Gives.{Gives, gives_rules}
use travel_latest.Itineraries.Model.{Itinerary, Snapshot, TripDb, TripError}
use travel_latest.Itineraries.Snapshots.{replace_snapshot}
use travel_latest.Itineraries.Mutate.{
  VerifiedPoi, add_day, remove_day, add_event, recalculate_route, remove_event, update_event,
}
use travel_latest.Itineraries.Reorder.{reorder_event}
use travel_latest.Itineraries.Preview.{apply_days, apply_ai_preview}
use travel_latest.Itineraries.Operations.{
  Operation, ai_preview, adding_day, removing_day, adding_event, recalculating_route,
  removing_event, updating_event, reordering_event, unsupported, on_event, mutate,
}
use travel_latest.Itineraries.Operations.Frame.{IsSame, IsSameChange, IsSame-by, shrunk-IsSame}

module _ (x : Itinerary) where
  pub mutate-IsSame :
      (now : ℕ) (verify_poi : ℕ → Option VerifiedPoi) (actor : ℕ) (op : Operation)
      → Gives {D = TripDb} {E = TripError} (IsSameChange x) (mutate now verify_poi x actor op)
  unfolding mutate apply_ai_preview apply_days add_day remove_day add_event recalculate_route
      on_event remove_event update_event reorder_event
  mutate-IsSame now verify_poi actor (ai_preview p) = search (gives_rules, IsSame-by) depth 24
  mutate-IsSame now verify_poi actor (adding_day t) = search (gives_rules, IsSame-by) depth 24
  mutate-IsSame now verify_poi actor (removing_day i) = search (gives_rules, shrunk-IsSame) depth 24
  mutate-IsSame now verify_poi actor (adding_event p i) = search (gives_rules, IsSame-by) depth 24
  mutate-IsSame now verify_poi actor (recalculating_route i) =
      search (gives_rules, IsSame-by) depth 24
  mutate-IsSame now verify_poi actor (removing_event i) = search (gives_rules, IsSame-by) depth 24
  mutate-IsSame now verify_poi actor (updating_event i u) = search (gives_rules, IsSame-by) depth 24
  mutate-IsSame now verify_poi actor (reordering_event i t) =
      search (gives_rules, IsSame-by) depth 24
  mutate-IsSame now verify_poi actor (unsupported name i) = search (gives_rules) depth 24

  pub replace_snapshot-IsSame :
      (t : Snapshot) → Gives {D = TripDb} {E = TripError} (IsSame x) (replace_snapshot x t)
  unfolding replace_snapshot
  replace_snapshot-IsSame t = search (gives_rules, IsSame-by) depth 24
