-- ===== src/Events/Publisher.antt =====
-- `publish_pending_events` of backend/app/events/publisher.py: the outbox to the broker.
pub mod Delivery
use travel_latest.Base.{
  ℕ, suc, String, Bool, true, false, not, ◌&&◌, ◌||◌, Option, none, some, List, [], ◌∷◌, ◌==◌, leb,
  ltb, if◌then◌else◌, is_some,
}
use travel_latest.Base.Lists.{take}
use travel_latest.Base.Tables.{save}
use travel_latest.Base.Exec.{Result, ok, err}
use travel_latest.Events.Outbox.{OutboxEvent, Payload, outbox_key}

-- The timestamp is the time that the code formats.
pub record EventEnvelope : Type 0 where
  pub event_id : ℕ
  pub event_type : String
  pub aggregate_type : String
  pub aggregate_id : ℕ
  pub occurred_at : ℕ
  pub trace_id : ℕ
  pub payload : Payload

abbrev pub from_outbox : OutboxEvent → EventEnvelope
from_outbox event = record {
  event_id = event.event_id;
  event_type = event.event_type;
  aggregate_type = event.aggregate_type;
  aggregate_id = event.aggregate_id;
  occurred_at = event.occurred_at;
  trace_id = event.trace_id;
  payload = event.payload_json;
}

-- What the broker answers to an envelope: `none` where the call raises.
abbrev pub EventBroker : Type 0
EventBroker = EventEnvelope → Option Bool

-- `order_by(OutboxEvent.created_at, OutboxEvent.event_id)`
unfoldable pub comes_before : OutboxEvent → OutboxEvent → Bool
comes_before a b =
    ltb a.created_at b.created_at || (a.created_at == b.created_at && leb a.event_id b.event_id)

unfoldable pub insert_event : OutboxEvent → List OutboxEvent → List OutboxEvent
insert_event event [] = event ∷ []
insert_event event (e ∷ es) =
    let rest = insert_event event es in if comes_before event e then event ∷ e ∷ es else e ∷ rest

-- The negation of `OutboxEvent.published_at.is_(None)`
unfoldable pub is_published : OutboxEvent → Bool
is_published event = is_some event.published_at

-- The rows that are not published, in that order.
unfoldable pub pending_events : List OutboxEvent → List OutboxEvent
pending_events [] = []
pending_events (e ∷ es) =
    let rest = pending_events es in if is_published e then rest else insert_event e rest

unfoldable pub is_confirmed : EventBroker → OutboxEvent → Bool
is_confirmed broker event = elim (broker (from_outbox event)) [ none ↦ false | some c ↦ c ]

-- The row after its envelope was given to the broker.
unfoldable pub published : ℕ → EventBroker → OutboxEvent → OutboxEvent
published now broker event =
    if is_confirmed broker event
    then record event { published_at = some now; updated_at = now }
    else record event { retry_count = suc event.retry_count; updated_at = now }

-- The loop: the rows that it writes back, and the identifiers of those that were confirmed.
unfoldable pub publish_events :
    ℕ → EventBroker → List OutboxEvent → List OutboxEvent → List OutboxEvent × List ℕ
publish_events now broker [] rows = (rows, [])
publish_events now broker (e ∷ es) rows =
    let (rows', ids) = publish_events now broker es (save (published now broker e) rows) in
    (rows', if is_confirmed broker e then e.event_id ∷ ids else ids)

pub data PublishError : Type 0 where
  batch_size_not_positive : PublishError

-- The rows of the outbox after the call, and what it returns.
unfoldable pub publish_pending_events :
    ℕ → EventBroker → ℕ → List OutboxEvent → Result PublishError (List ℕ) × List OutboxEvent
publish_pending_events now broker batch_size rows =
    if ltb batch_size 1
    then (err batch_size_not_positive, rows)
    else let (rows', ids) =
        publish_events now broker (take batch_size (pending_events rows)) rows in
      (ok ids, rows')
