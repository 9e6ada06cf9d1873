-- ===== src/Events/Consumer/Once.antt =====
-- An event that is delivered more than once.
use travel_latest.Base.{
  eq_iff, ℕ, String, ◌≡◌, refl, Bool, true, false, none, some, List, arith, is_some, inl, inr,
}
use travel_latest.Base.Exec.{Result-cases, ok, Session, ◌>>=◌, begin, request}
use travel_latest.Base.Exec.Keeps.{Keeps}
use travel_latest.Base.Tables.{add, scalar-add_hit}
use travel_latest.Events.Consumer.{
  ProcessedEvent, Inbox, Envelope, processed_event, Handler, insert_processed, run_handler,
  after_integrity, after_handler, attempt_handler, consume_once,
}

processed_event-add :
    (c : String) (i : ℕ) (rows : List ProcessedEvent)
    → processed_event c i rows ≡ none
    → processed_event c i (add (record { consumer_name = c; event_id = i }) rows)
      ≡ some (record { consumer_name = c; event_id = i })
unfolding processed_event
processed_event-add c i rows h = scalar-add_hit _ rows _ h (ground (arith, (eq_iff c c).1 refl))

-- The session has a row for the event and the consumer.
abbrev pub IsProcessed : {D : Type 0} → String → ℕ → Session (Inbox D) → Type 0
IsProcessed c i s = is_some (processed_event c i s.db.processed) ≡ true

module _ {D E : Type 0} where
  insert_processed_lem :
      (c : String) (i : ℕ) (s : Session (Inbox D)) (u : Unit {0})
      → (insert_processed {E = E} c i s).0 ≡ ok u
      → IsProcessed c i (insert_processed {E = E} c i s).1
  unfolding insert_processed ◌>>=◌
  insert_processed_lem c i s u h = ground (arith, processed_event-add c i s.db.processed)

  -- A delivery that ends well has left its row.
  run_handler_lem :
      (c : String) (e : Envelope) (handler : Handler D E) (defer : Bool) (s : Session (Inbox D))
      (u : Unit {0})
      → Keeps (IsProcessed c e.event_id) (handler e)
      → (run_handler c e handler defer s).0 ≡ ok u
      → is_some (processed_event c e.event_id (run_handler c e handler defer s).1.saved.processed)
        ≡ true
  unfolding run_handler ◌>>=◌
  run_handler_lem c e handler true s u k h = elim (Result-cases (handler e s).0) [
    | inr (x, refused) ↦ absurd (ground arith)
    | inl (v, done) ↦ ground (arith, insert_processed_lem c e.event_id (handler e s).1 u)
  ]
  run_handler_lem c e handler false s u k h =
      elim (Result-cases (insert_processed {E = E} c e.event_id s).0) [
        | inr (x, refused) ↦ absurd (ground arith)
        | inl (v, done) ↦ ground (
          arith,
          k.at (insert_processed {E = E} c e.event_id s).1
              (insert_processed_lem c e.event_id s v done),
        )
      ]

  attempt_done :
      (c : String) (e : Envelope) (handler : Handler D E) (defer : Bool) (s : Session (Inbox D))
      → Keeps (IsProcessed c e.event_id) (handler e)
      → (attempt_handler c e handler defer s).0 ≡ ok true
      → is_some
          (processed_event c e.event_id (attempt_handler c e handler defer s).1.saved.processed)
        ≡ true
  unfolding attempt_handler after_handler after_integrity ◌>>=◌
  attempt_done c e handler defer s k h = elim (Result-cases (run_handler c e handler defer s).0) [
    | inl (u, done) ↦ ground (arith, run_handler_lem c e handler defer s u k done)
    | inr (x, failed) ↦ absurd (ground arith)
  ]

-- An event that a consumer has handled is not handled again: where the handler leaves the row of the
-- delivery alone, a later delivery to the same consumer returns false, whatever its handler is, and
-- writes nothing.
pub consume_twice :
    {D E : Type 0} (c : String) (e : Envelope) (handler handler' : Handler D E)
    (defer defer' : Bool) (d d' : Inbox D)
    → Keeps (IsProcessed c e.event_id) (handler e)
    → request (consume_once c e handler defer) d ≡ (ok true, d')
    → request (consume_once c e handler' defer') d' ≡ (ok false, d')
unfolding consume_once ◌>>=◌
consume_twice c e handler handler' defer defer' d d' k h =
    ground (arith, attempt_done c e handler defer (begin d) k)
