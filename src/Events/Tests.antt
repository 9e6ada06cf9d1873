-- ===== src/Events/Tests.antt =====
-- The theorems on the outbox and its consumers at concrete rows.
use travel_latest.Base.{ℕ, String, ◌≡◌, refl, true, false, Option, none, some, List, [], ◌∷◌}
use travel_latest.Base.Exec.{ok, request, ◌>>=◌, pure, raise}
use travel_latest.Base.Exec.Keeps.{Keeps-pure}
use travel_latest.Events.Outbox.{OutboxEvent, outbox_key}
use travel_latest.Events.Publisher.{EventBroker, publish_pending_events}
use travel_latest.Events.Publisher.Delivery.{IsDelivery, publish_pending_events-IsDelivery}
use travel_latest.Events.Consumer.{
  Inbox, handler_error, Envelope, processed_event, Handler, insert_processed, run_handler,
  after_handler, attempt_handler, consume_once,
}
use travel_latest.Events.Consumer.Once.{consume_twice}
use travel_latest.Events.Consumer.Message.{EventRoute}

abbrev event_at : ℕ → Option ℕ → OutboxEvent
event_at id published_at = record {
  event_id = id;
  event_type = "payment_record.paid";
  aggregate_type = "payment_record";
  aggregate_id = 4;
  trace_id = 9;
  occurred_at = 10;
  payload_json = [];
  retry_count = 0;
  published_at = published_at;
  created_at = 10;
  updated_at = 10;
}

abbrev events : List OutboxEvent
events = event_at 1 (some 20) ∷ event_at 2 none ∷ event_at 3 none ∷ []

abbrev willing : EventBroker
willing envelope = some true

publish_example : IsDelivery willing 1 events (publish_pending_events 30 willing 1 events).0
publish_example =
    publish_pending_events-IsDelivery 30 willing 1 events refl (refl, (refl, (refl, tt)))

abbrev paid_event : Envelope
paid_event = record { event_id = 2; event_type = "payment_record.paid" }

abbrev empty_inbox : Inbox ℕ
empty_inbox = record { processed = []; rows = 0 }

abbrev handled_inbox : Inbox ℕ
handled_inbox = record {
  processed = record { consumer_name = "worker"; event_id = 2 } ∷ [];
  rows = 0;
}

abbrev accept_event : Handler ℕ ℕ
accept_event event = pure tt

abbrev refuse_event : Handler ℕ ℕ
refuse_event event = raise (handler_error 7)

first_delivery :
    request (consume_once "worker" paid_event accept_event false) empty_inbox
    ≡ (ok true, handled_inbox)
unfolding consume_once attempt_handler after_handler run_handler insert_processed processed_event
    ◌>>=◌
first_delivery = refl

consume_twice_example :
    request (consume_once "worker" paid_event refuse_event true) handled_inbox
    ≡ (ok false, handled_inbox)
consume_twice_example =
    consume_twice "worker" paid_event accept_event refuse_event false true empty_inbox handled_inbox
      (Keeps-pure tt) first_delivery

abbrev refused_inbox : Inbox ℕ
refused_inbox = (request (consume_once "worker" paid_event refuse_event false) empty_inbox).1

abbrev refusing_route : EventRoute ℕ ℕ
refusing_route = record {
  consumer_name = "worker";
  handler = refuse_event;
  defer_idempotency = false;
  terminal_failure_handler = none;
}

abbrev all_routes : String → List (EventRoute ℕ ℕ)
all_routes event_type = refusing_route ∷ []
