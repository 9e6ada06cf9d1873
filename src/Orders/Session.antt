-- ===== src/Orders/Session.antt =====
-- What the order services share: new identifiers, outbox rows, locked reads, and the writes that
-- SQLAlchemy makes when an attribute of a loaded row is assigned.
pub mod Advance
use travel_latest.Base.{ℕ, suc, String, Option, none}
use travel_latest.Base.Exec.{Exec, ok, ◌>>=◌, ◌>>◌, pure, modify, lift}
use travel_latest.Base.Tables.{add}
use travel_latest.Orders.Tables.{
  put_order, put_attempt, put_ticket, put_payment, put_refund, put_callback,
}
use travel_latest.Events.Outbox.{OutboxEvent, Payload}
use travel_latest.Orders.Model.{
  Db, OrderError, TravelOrder, FulfillmentAttempt, MockTransportTicket, PaymentRecord, RefundRecord,
  PaymentCallbackEvent, Triple, order_key, attempt_key, ticket_key, payment_key, refund_key,
  callback_key,
}
use travel_latest.Orders.Transition.{transition}

abbrev pub M : Type 0 → Type 0
M = Exec Db OrderError

unfoldable pub new_uuid : M ℕ
new_uuid s = (ok s.db.next_uuid, record s { db = record s.db { next_uuid = suc s.db.next_uuid } })

unfoldable pub save_order : TravelOrder → M Unit
save_order o = modify (λ d. record d { orders = put_order o d.orders })

unfoldable pub save_attempt : FulfillmentAttempt → M Unit
save_attempt a = modify (λ d. record d { attempts = put_attempt a d.attempts })

unfoldable pub save_ticket : MockTransportTicket → M Unit
save_ticket t = modify (λ d. record d { tickets = put_ticket t d.tickets })

unfoldable pub save_payment : PaymentRecord → M Unit
save_payment p = modify (λ d. record d { payments = put_payment p d.payments })

unfoldable pub save_refund : RefundRecord → M Unit
save_refund r = modify (λ d. record d { refunds = put_refund r d.refunds })

unfoldable pub save_callback : PaymentCallbackEvent → M Unit
save_callback c = modify (λ d. record d { callbacks = put_callback c d.callbacks })

-- `session.add(OutboxEvent(...))`, with the defaults of the columns.
abbrev pub outbox_row : ℕ → ℕ → ℕ → String → String → ℕ → Payload → OutboxEvent
outbox_row event_id trace_id now event_type aggregate_type aggregate_id payload = record {
  event_id = event_id;
  event_type = event_type;
  aggregate_type = aggregate_type;
  aggregate_id = aggregate_id;
  trace_id = trace_id;
  occurred_at = now;
  payload_json = payload;
  retry_count = 0;
  published_at = none;
  created_at = now;
  updated_at = now;
}

unfoldable pub enqueue : ℕ → String → String → ℕ → Payload → M Unit
enqueue now event_type aggregate_type aggregate_id payload = do
  trace_id ← new_uuid
  event_id ← new_uuid
  modify λ d. record d {
    outbox =
        add (outbox_row event_id trace_id now event_type aggregate_type aggregate_id payload)
          d.outbox;
  }

-- `OrderStateService().transition(order, ...)`: the loaded order with its new statuses.
unfoldable pub advance : TravelOrder → Option ℕ → Triple → M TravelOrder
advance order actor target = do
  changed ← lift (transition order actor target)
  save_order changed
  pure changed
