-- ===== src/Itineraries/Samples.antt =====
-- A small state of the tables of backend/app/modules/itineraries/models.py, for the tests.
use travel_latest.Base.{none, [], ◌∷◌}
use travel_latest.Itineraries.Model.{Itinerary, ItineraryDay, Snapshot, ItineraryVersion, TripDb}

-- A trip of the second day, that was one of the first day before.
abbrev pub trip : Itinerary
trip = record {
  id = 1;
  owner_id = 7;
  title = 8 ∷ [];
  start_date = 11;
  end_date = 11;
  version = 2;
  source_post_id = none;
}

abbrev pub trip_day : ItineraryDay
trip_day = record { id = 4; itinerary_id = 1; day_date = 11; display_order = 0 }

abbrev pub first_snapshot : Snapshot
first_snapshot = record { title = 9 ∷ []; start_date = 10; end_date = 10; days = [] }

abbrev pub first_version : ItineraryVersion
first_version = record {
  id = 5;
  itinerary_id = 1;
  version = 1;
  snapshot = first_snapshot;
  created_by = 7;
}

abbrev pub tables : TripDb
tables = record {
  itineraries = trip ∷ [];
  days = trip_day ∷ [];
  events = [];
  segments = [];
  route_jobs = [];
  versions = first_version ∷ [];
  operations = [];
  collaborators = [];
  share_tokens = [];
  users = 7 ∷ [];
  outbox = [];
  next_uuid = 100;
}
