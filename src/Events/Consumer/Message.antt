-- ===== src/Events/Consumer/Message.antt =====
-- `RabbitMQEventConsumer._handle_message` of backend/app/events/consumer.py: what becomes of one
-- message of the queue.
pub mod Retries
use travel_latest.Base.{
  ℕ, ◌+◌, String, Bool, true, false, ◌||◌, Option, none, some, List, [], ◌∷◌, leb, if◌then◌else◌,
  str_eq,
}
use travel_latest.Base.Exec.{Result, ok, err, Exec, ◌>>=◌, ◌>>◌, commit, request}
use travel_latest.Events.Consumer.{
  Inbox, ConsumeError, unhandled_event, value_error, Envelope, Handler, consume_once,
}

-- `EventRoute`
pub record EventRoute (D E : Type 0) : Type 0 where
  pub consumer_name : String
  pub handler : Handler D E
  pub defer_idempotency : Bool
  pub terminal_failure_handler : Option (Handler D E)

-- The headers of a message: the counts of the deaths that are listed, if there is a list that is
-- not empty, and the number of attempts, 0 if there is none.
pub record Headers : Type 0 where
  pub deaths : List ℕ
  pub attempts : ℕ

abbrev pub sum : List ℕ → ℕ
sum [] = 0
sum (n ∷ ns) = n + sum ns

-- `_delivery_attempts`
unfoldable pub delivery_attempts : Option Headers → ℕ
delivery_attempts none = 0
delivery_attempts (some headers) = elim headers.deaths [
  | [] ↦ headers.attempts
  | n ∷ ns ↦ n + sum ns
]

-- What the consumer tells the broker, and whether a dead letter was published, with the number of
-- attempts. `raised` stands for an error of a terminal handler, after which nothing is told.
pub data Outcome : Type 0 where
  acknowledged rejected raised : Outcome
  dead_lettered : ℕ → Outcome

-- How far the routes went: all of them, or up to the first that failed.
pub data Progress (D E : Type 0) : Type 0 where
  finished : Progress D E
  failed : Option (EventRoute D E) → Progress D E

-- `not envelope or not envelope.get("event_type")`
abbrev pub is_malformed_event : Option Envelope → Bool
is_malformed_event none = true
is_malformed_event (some event) = str_eq event.event_type ""

module _ {D E : Type 0} where
  -- The loop over the routes: each runs on a session of its own.
  unfoldable pub run_routes : Envelope → List (EventRoute D E) → Inbox D → Progress D E × Inbox D
  run_routes event [] d = (finished, d)
  run_routes event (route ∷ routes) d =
      let (r, d') =
        request (consume_once route.consumer_name event route.handler route.defer_idempotency) d in
      let rest = run_routes event routes d' in
      elim r [ ok handled ↦ rest | err e ↦ (failed (some route), d') ]

  -- The body of the `try`: `none` is a message that is no JSON object.
  unfoldable pub deliver :
      (String → List (EventRoute D E)) → Option Envelope → Inbox D → Progress D E × Inbox D
  deliver routes none d = (failed none, d)
  deliver routes (some event) d = elim (routes event.event_type) [
    | [] ↦ (failed none, d)
    | route ∷ others ↦ run_routes event (route ∷ others) d
  ]

  -- `if active_route is not None and ...`, and the dead letter after it.
  unfoldable pub give_up :
      ℕ → Option (EventRoute D E) → Option Envelope → Inbox D → Outcome × Inbox D
  give_up attempts (some route) (some event) d = elim route.terminal_failure_handler [
    | none ↦ (dead_lettered attempts, d)
    | some terminal ↦
        let (r, d') = request (terminal event >> commit) d in
        elim r [ ok u ↦ (dead_lettered attempts, d') | err e ↦ (raised, d') ]
  ]
  give_up attempts _ _ d = (dead_lettered attempts, d)

  unfoldable pub after_delivery :
      ℕ → ℕ → Option Envelope → Progress D E × Inbox D → Outcome × Inbox D
  after_delivery max_attempts attempts event (finished, d) = (acknowledged, d)
  after_delivery max_attempts attempts event (failed route, d) =
      if is_malformed_event event || leb max_attempts attempts
      then give_up attempts route event d
      else (rejected, d)

  unfoldable pub handle_message :
      ℕ
      → (String → List (EventRoute D E))
      → Option Headers
      → Option Envelope
      → Inbox D
      → Outcome × Inbox D
  handle_message max_attempts routes headers event d =
      after_delivery max_attempts (delivery_attempts headers + 1) event (deliver routes event d)
