-- ===== src/Events/Consumer.antt =====
-- `consume_once` and `RabbitMQEventConsumer._handle_message` of backend/app/events/consumer.py. The
-- rows that handlers work on are a parameter `D`, and the errors that they raise a parameter `E`.
pub mod Once
pub mod Message
use travel_latest.Base.{
  ℕ, ◌+◌, String, Bool, true, false, not, ◌&&◌, ◌||◌, Option, none, some, List, [], ◌∷◌, ◌==◌, leb,
  if◌then◌else◌, is_some, str_eq,
}
use travel_latest.Base.Exec.{
  Result, ok, err, Session, Exec, ◌>>=◌, ◌>>◌, pure, raise, gets, modify, raise_if, commit,
  rollback, begin,
}
use travel_latest.Base.Tables.{scalar, add}

pub record ProcessedEvent : Type 0 where
  pub consumer_name : String
  pub event_id : ℕ

-- The consumers' table beside the handlers' rows.
pub record Inbox (D : Type 0) : Type 0 where
  pub processed : List ProcessedEvent
  pub rows : D

-- `IntegrityError`, which an insertion or a handler raises; another error of a handler; and the
-- `ValueError` for an event without an identifier or a consumer without a name.
pub data ConsumeError (E : Type 0) : Type 0 where
  integrity value_error unhandled_event : ConsumeError E
  handler_error : E → ConsumeError E

-- An event as a message carries it: an absent identifier is 0, an absent type is empty.
pub record Envelope : Type 0 where
  pub event_id : ℕ
  pub event_type : String

abbrev pub Handler : Type 0 → Type 0 → Type 0
Handler D E = Envelope → Exec (Inbox D) (ConsumeError E) (Unit {0})

unfoldable pub processed_event : String → ℕ → List ProcessedEvent → Option ProcessedEvent
processed_event consumer_name event_id =
    scalar (λ p. str_eq p.consumer_name consumer_name && p.event_id == event_id)

module _ {D E : Type 0} where
  -- `insert(ProcessedEvent)`, under the unique constraint on the consumer and the event
  unfoldable pub insert_processed : String → ℕ → Exec (Inbox D) (ConsumeError E) (Unit {0})
  insert_processed consumer_name event_id = do
    existing ← gets (λ d. processed_event consumer_name event_id d.processed)
    raise_if (is_some existing) integrity
    modify λ d. record d {
      processed = add (record { consumer_name = consumer_name; event_id = event_id }) d.processed;
    }

  abbrev pub insert_if : Bool → String → ℕ → Exec (Inbox D) (ConsumeError E) (Unit {0})
  insert_if true consumer_name event_id = insert_processed consumer_name event_id
  insert_if false consumer_name event_id = pure tt

  -- The body of the `try`.
  unfoldable pub run_handler :
      String → Envelope → Handler D E → Bool → Exec (Inbox D) (ConsumeError E) (Unit {0})
  run_handler consumer_name event handler defer_idempotency = do
    insert_if (not defer_idempotency) consumer_name event.event_id
    handler event
    insert_if defer_idempotency consumer_name event.event_id
    commit

  -- `except IntegrityError`
  unfoldable pub after_integrity : String → ℕ → Exec (Inbox D) (ConsumeError E) Bool
  after_integrity consumer_name event_id = do
    rollback
    existing ← gets (λ d. processed_event consumer_name event_id d.processed)
    rollback
    if is_some existing then pure false else raise integrity

  -- What follows the body of the `try`.
  unfoldable pub after_handler :
      String
      → ℕ
      → Result (ConsumeError E) (Unit {0}) × Session (Inbox D)
      → Result (ConsumeError E) Bool × Session (Inbox D)
  after_handler consumer_name event_id (ok u, s) = (ok true, s)
  after_handler consumer_name event_id (err integrity, s) = after_integrity consumer_name event_id s
  after_handler consumer_name event_id (err e, s) = (rollback >> raise e) s

  unfoldable pub attempt_handler :
      String → Envelope → Handler D E → Bool → Exec (Inbox D) (ConsumeError E) Bool
  attempt_handler consumer_name event handler defer_idempotency s =
      after_handler consumer_name event.event_id
        (run_handler consumer_name event handler defer_idempotency s)

  unfoldable pub consume_once :
      String → Envelope → Handler D E → Bool → Exec (Inbox D) (ConsumeError E) Bool
  consume_once consumer_name event handler defer_idempotency = do
    raise_if (event.event_id == 0) value_error
    raise_if (str_eq consumer_name "") value_error
    existing ← gets (λ d. processed_event consumer_name event.event_id d.processed)
    if is_some existing
        then (do rollback; pure false)
        else attempt_handler consumer_name event handler defer_idempotency
