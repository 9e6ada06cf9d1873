-- ===== src/Events/Outbox.antt =====
-- The outbox table of backend/app/models/outbox.py, and the JSON values of its payloads.
use travel_latest.Base.{ℕ, String, Bool, Option, none, List}
use travel_latest.Base.Signed.{ℤ}
use travel_latest.Base.Tables.{Keyed}

-- The values that payloads and snapshots hold: identifiers are texts that the code only compares.
pub data Json : Type 0 where
  null : Json
  flag : Bool → Json
  int : ℕ → Json
  text : String → Json
  ident : ℕ → Json
  decimal : ℤ → Json
  moment : ℕ → Json
  texts : List String → Json
  idents : List ℕ → Json

abbrev pub Payload : Type 0
Payload = List (String × Json)

-- `None` is `null`.
abbrev pub optional_text : Option String → Json
optional_text none = null
optional_text (Option.some s) = text s

pub record OutboxEvent : Type 0 where
  pub event_id : ℕ
  pub event_type : String
  pub aggregate_type : String
  pub aggregate_id : ℕ
  pub trace_id : ℕ
  pub occurred_at : ℕ
  pub payload_json : Payload
  pub retry_count : ℕ
  pub published_at : Option ℕ
  pub created_at : ℕ
  pub updated_at : ℕ

instance abbrev pub outbox_key : Keyed OutboxEvent
outbox_key = record { key = λ e. e.event_id }
