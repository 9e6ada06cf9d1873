-- ===== src/Orders/Model.antt =====
-- The tables of backend/app/modules/orders/models.py, and the errors of orders/services.py.
-- Identifiers, idempotency keys and provider numbers are texts that the code only compares, or
-- tests for being empty: they are numbers here, and 0 is the empty text. Amounts are counted in
-- hundredths, times in microseconds.
use travel_latest.Base.{ℕ, String, Bool, Option, List}
use travel_latest.Base.Tables.{Keyed}
use travel_latest.Events.Outbox.{OutboxEvent, Json}

-- A text that the code takes apart, as its code points.
abbrev pub Text : Type 0
Text = List ℕ

pub data OrderStatus : Type 0 where
  pending_confirmation paying paid_pending_fulfillment confirmed failed : OrderStatus
  ticket_failed_awaiting_refund refunding refunded closed : OrderStatus

pub data PaymentStatus : Type 0 where
  pending paying paid failed refunding refunded : PaymentStatus

pub data FulfillmentStatus : Type 0 where
  pending_confirmation confirming confirmed failed not_supported : FulfillmentStatus

pub data AttemptStatus : Type 0 where
  queued running succeeded failed : AttemptStatus

pub data TicketStatus : Type 0 where
  pending issued failed : TicketStatus

pub data RefundStatus : Type 0 where
  requested processing refunded failed : RefundStatus

pub data SearchType : Type 0 where
  train flight hotel ride : SearchType

pub data VerificationStatus : Type 0 where
  pending verified rejected : VerificationStatus

pub data ProcessingStatus : Type 0 where
  pending processed failed : ProcessingStatus

-- `status`, `payment_status` and `fulfillment_status` of an order.
abbrev pub Triple : Type 0
Triple = OrderStatus × PaymentStatus × FulfillmentStatus

pub record TravelSearchJob : Type 0 where
  pub id : ℕ
  pub user_id : ℕ
  pub idempotency_key : ℕ
  pub search_type : SearchType
  pub passenger_count : Json
  pub status : String
  pub source : String
  pub unavailable_code : Option String

pub record TravelOffer : Type 0 where
  pub id : ℕ
  pub search_job_id : ℕ
  pub source : String
  pub external_offer_id : ℕ
  pub title : String
  pub amount : ℕ
  pub currency : String
  pub available : Bool
  pub valid_until : ℕ
  pub snapshot : List (String × Json)

pub record TravelOrder : Type 0 where
  pub id : ℕ
  pub user_id : ℕ
  pub offer_id : ℕ
  pub idempotency_key : ℕ
  pub order_no : ℕ
  pub amount : ℕ
  pub currency : String
  pub offer_snapshot : List (String × Json)
  pub status : OrderStatus
  pub payment_status : PaymentStatus
  pub fulfillment_status : FulfillmentStatus
  pub failure_code : Option String

pub record FulfillmentAttempt : Type 0 where
  pub id : ℕ
  pub order_id : ℕ
  pub source : String
  pub idempotency_key : ℕ
  pub status : AttemptStatus
  pub external_confirmation_id : Option ℕ
  pub failure_code : Option String
  pub redacted_result : Option (Bool × String)
  pub attempt_count : ℕ
  pub last_attempt_at : Option ℕ
  pub started_at : Option ℕ
  pub completed_at : Option ℕ

pub record PassengerFacts : Type 0 where
  pub masked_name : Text
  pub document_type : String
  pub masked_document_number : Text
  pub seat_preference : String

pub record MockTransportTicket : Type 0 where
  pub id : ℕ
  pub order_id : ℕ
  pub transport_type : SearchType
  pub status : TicketStatus
  pub mock_ticket_no : Option String
  pub seat_assignments : List (String × Json)
  pub passenger_facts : List PassengerFacts
  pub failure_code : Option String

pub record PaymentRecord : Type 0 where
  pub id : ℕ
  pub order_id : ℕ
  pub idempotency_key : ℕ
  pub payment_no : ℕ
  pub amount : ℕ
  pub currency : String
  pub status : PaymentStatus
  pub provider_transaction_id : Option ℕ
  pub paid_at : Option ℕ
  pub created_at : ℕ

pub record PaymentCallbackEvent : Type 0 where
  pub id : ℕ
  pub provider_transaction_id : Option ℕ
  pub payment_id : Option ℕ
  pub raw_payload : List (String × Json)
  pub verification_status : VerificationStatus
  pub verification_error : Option String
  pub verified_at : Option ℕ
  pub processing_status : ProcessingStatus
  pub processing_error : Option String
  pub processed_at : Option ℕ

pub record RefundRecord : Type 0 where
  pub id : ℕ
  pub payment_id : ℕ
  pub idempotency_key : ℕ
  pub refund_no : ℕ
  pub amount : ℕ
  pub currency : String
  pub reason : String
  pub requested_by : ℕ
  pub status : RefundStatus
  pub provider_refund_id : Option ℕ
  pub completed_at : Option ℕ
  pub failure_code : Option String

-- The tables, and the supply that `new_uuid` draws from: it has handed out all below `next_uuid`.
pub record Db : Type 0 where
  pub jobs : List TravelSearchJob
  pub offers : List TravelOffer
  pub orders : List TravelOrder
  pub attempts : List FulfillmentAttempt
  pub tickets : List MockTransportTicket
  pub payments : List PaymentRecord
  pub callbacks : List PaymentCallbackEvent
  pub refunds : List RefundRecord
  pub outbox : List OutboxEvent
  pub next_uuid : ℕ

-- The codes of `DomainError`; `SupplierFulfillmentUnavailable`; an exception of the supplier that the
-- code does not catch; and the error that Python raises
-- where a local variable is read before it is bound.
pub data OrderError : Type 0 where
  idempotency_conflict offer_not_found offer_unavailable offer_expired : OrderError
  passengers_required passenger_count_mismatch forbidden invalid_order_transition : OrderError
  payment_not_configured order_not_found refund_not_allowed refund_amount_invalid : OrderError
  refund_in_progress refund_provider_unavailable payment_not_allowed : OrderError
  payment_in_progress payment_provider_unavailable payment_provider_invalid_response : OrderError
  payment_callback_invalid supplier_fulfillment_unavailable supplier_error unbound_local :
      OrderError

instance abbrev pub job_key : Keyed TravelSearchJob
job_key = record { key = λ r. r.id }

instance abbrev pub offer_key : Keyed TravelOffer
offer_key = record { key = λ r. r.id }

instance abbrev pub order_key : Keyed TravelOrder
order_key = record { key = λ r. r.id }

instance abbrev pub attempt_key : Keyed FulfillmentAttempt
attempt_key = record { key = λ r. r.id }

instance abbrev pub ticket_key : Keyed MockTransportTicket
ticket_key = record { key = λ r. r.id }

instance abbrev pub payment_key : Keyed PaymentRecord
payment_key = record { key = λ r. r.id }

instance abbrev pub callback_key : Keyed PaymentCallbackEvent
callback_key = record { key = λ r. r.id }

instance abbrev pub refund_key : Keyed RefundRecord
refund_key = record { key = λ r. r.id }
