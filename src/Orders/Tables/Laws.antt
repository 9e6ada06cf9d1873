-- ===== src/Orders/Tables/Laws.antt =====
-- How the queries see rows that were added or written back.
use travel_latest.Base.{ℕ, ◌≡◌, none, some, List, arith}
use travel_latest.Base.Tables.{add, scalar_sound, scalar-add_hit, scalar-save_self}
use travel_latest.Orders.Model.{
  order_key, payment_key, attempt_key, ticket_key, refund_key, callback_key, TravelOffer,
  TravelOrder, PaymentRecord, FulfillmentAttempt, MockTransportTicket, RefundRecord,
  PaymentCallbackEvent,
}
use travel_latest.Orders.Tables.{
  offer_by_id, order_by_id, order_by_key, put_order, payment_by_id, payment_by_no, put_payment,
  attempt_by_id, attempt_by_order, put_attempt, ticket_by_order, put_ticket, refund_by_id,
  put_refund, callback_by_transaction, put_callback, refund_by_key,
}

pub offer_by_id-id :
    (i : ℕ) (rows : List TravelOffer) (x : TravelOffer) → offer_by_id i rows ≡ some x → x.id ≡ i
unfolding offer_by_id
offer_by_id-id i rows x h = let e = scalar_sound _ rows x h in ground arith

pub order_by_key-key :
    (u k : ℕ) (rows : List TravelOrder) (x : TravelOrder)
    → order_by_key u k rows ≡ some x
    → (x.user_id ≡ u) × (x.idempotency_key ≡ k)
unfolding order_by_key
order_by_key-key u k rows x h = let e = scalar_sound _ rows x h in ground arith

pub order_by_key-add :
    (u k : ℕ) (rows : List TravelOrder) (x : TravelOrder)
    → order_by_key u k rows ≡ none
    → x.user_id ≡ u
    → x.idempotency_key ≡ k
    → order_by_key u k (add x rows) ≡ some x
unfolding order_by_key
order_by_key-add u k rows x h p q = scalar-add_hit _ rows x h (ground arith)

pub order_by_id_sound :
    (i : ℕ) (rows : List TravelOrder) (x : TravelOrder) → order_by_id i rows ≡ some x → x.id ≡ i
unfolding order_by_id
order_by_id_sound i rows x h = let e = scalar_sound _ rows x h in ground arith

-- The row that was found is found again after it was written back.
pub order_by_id-put :
    (i : ℕ) (rows : List TravelOrder) (x r : TravelOrder)
    → order_by_id i rows ≡ some x
    → r.id ≡ x.id
    → r.id ≡ i
    → order_by_id i (put_order r rows) ≡ some r
unfolding order_by_id put_order
order_by_id-put i rows x r h e c0 = scalar-save_self _ rows x r h e (ground arith)

pub payment_by_id_sound :
    (i : ℕ) (rows : List PaymentRecord) (x : PaymentRecord)
    → payment_by_id i rows ≡ some x
    → x.id ≡ i
unfolding payment_by_id
payment_by_id_sound i rows x h = let e = scalar_sound _ rows x h in ground arith

-- The row that was found is found again after it was written back.
pub payment_by_id-put :
    (i : ℕ) (rows : List PaymentRecord) (x r : PaymentRecord)
    → payment_by_id i rows ≡ some x
    → r.id ≡ x.id
    → r.id ≡ i
    → payment_by_id i (put_payment r rows) ≡ some r
unfolding payment_by_id put_payment
payment_by_id-put i rows x r h e c0 = scalar-save_self _ rows x r h e (ground arith)

pub payment_by_no_sound :
    (i : ℕ) (rows : List PaymentRecord) (x : PaymentRecord)
    → payment_by_no i rows ≡ some x
    → x.payment_no ≡ i
unfolding payment_by_no
payment_by_no_sound i rows x h = let e = scalar_sound _ rows x h in ground arith

-- The row that was found is found again after it was written back.
pub payment_by_no-put :
    (i : ℕ) (rows : List PaymentRecord) (x r : PaymentRecord)
    → payment_by_no i rows ≡ some x
    → r.id ≡ x.id
    → r.payment_no ≡ i
    → payment_by_no i (put_payment r rows) ≡ some r
unfolding payment_by_no put_payment
payment_by_no-put i rows x r h e c0 = scalar-save_self _ rows x r h e (ground arith)

pub attempt_by_order_sound :
    (i : ℕ) (rows : List FulfillmentAttempt) (x : FulfillmentAttempt)
    → attempt_by_order i rows ≡ some x
    → x.order_id ≡ i
unfolding attempt_by_order
attempt_by_order_sound i rows x h = let e = scalar_sound _ rows x h in ground arith

-- The row that was found is found again after it was written back.
pub attempt_by_order-put :
    (i : ℕ) (rows : List FulfillmentAttempt) (x r : FulfillmentAttempt)
    → attempt_by_order i rows ≡ some x
    → r.id ≡ x.id
    → r.order_id ≡ i
    → attempt_by_order i (put_attempt r rows) ≡ some r
unfolding attempt_by_order put_attempt
attempt_by_order-put i rows x r h e c0 = scalar-save_self _ rows x r h e (ground arith)

pub ticket_by_order_sound :
    (i : ℕ) (rows : List MockTransportTicket) (x : MockTransportTicket)
    → ticket_by_order i rows ≡ some x
    → x.order_id ≡ i
unfolding ticket_by_order
ticket_by_order_sound i rows x h = let e = scalar_sound _ rows x h in ground arith

-- The row that was found is found again after it was written back.
pub ticket_by_order-put :
    (i : ℕ) (rows : List MockTransportTicket) (x r : MockTransportTicket)
    → ticket_by_order i rows ≡ some x
    → r.id ≡ x.id
    → r.order_id ≡ i
    → ticket_by_order i (put_ticket r rows) ≡ some r
unfolding ticket_by_order put_ticket
ticket_by_order-put i rows x r h e c0 = scalar-save_self _ rows x r h e (ground arith)

pub refund_by_id_sound :
    (i : ℕ) (rows : List RefundRecord) (x : RefundRecord) → refund_by_id i rows ≡ some x → x.id ≡ i
unfolding refund_by_id
refund_by_id_sound i rows x h = let e = scalar_sound _ rows x h in ground arith

-- The row that was found is found again after it was written back.
pub refund_by_id-put :
    (i : ℕ) (rows : List RefundRecord) (x r : RefundRecord)
    → refund_by_id i rows ≡ some x
    → r.id ≡ x.id
    → r.id ≡ i
    → refund_by_id i (put_refund r rows) ≡ some r
unfolding refund_by_id put_refund
refund_by_id-put i rows x r h e c0 = scalar-save_self _ rows x r h e (ground arith)

pub callback_by_transaction_sound :
    (i : ℕ) (rows : List PaymentCallbackEvent) (x : PaymentCallbackEvent)
    → callback_by_transaction i rows ≡ some x
    → x.provider_transaction_id ≡ some i
unfolding callback_by_transaction
callback_by_transaction_sound i rows x h = let e = scalar_sound _ rows x h in ground arith

-- The row that was found is found again after it was written back.
pub callback_by_transaction-put :
    (i : ℕ) (rows : List PaymentCallbackEvent) (x r : PaymentCallbackEvent)
    → callback_by_transaction i rows ≡ some x
    → r.id ≡ x.id
    → r.provider_transaction_id ≡ some i
    → callback_by_transaction i (put_callback r rows) ≡ some r
unfolding callback_by_transaction put_callback
callback_by_transaction-put i rows x r h e c0 = scalar-save_self _ rows x r h e (ground arith)

pub callback_by_transaction-add :
    (i : ℕ) (rows : List PaymentCallbackEvent) (x : PaymentCallbackEvent)
    → callback_by_transaction i rows ≡ none
    → x.provider_transaction_id ≡ some i
    → callback_by_transaction i (add x rows) ≡ some x
unfolding callback_by_transaction
callback_by_transaction-add i rows x h p = scalar-add_hit _ rows x h (ground arith)

pub refund_by_key-add :
    (p k : ℕ) (rows : List RefundRecord) (x : RefundRecord)
    → refund_by_key p k rows ≡ none
    → x.payment_id ≡ p
    → x.idempotency_key ≡ k
    → refund_by_key p k (add x rows) ≡ some x
unfolding refund_by_key
refund_by_key-add p k rows x h e f = scalar-add_hit _ rows x h (ground arith)

pub attempt_by_order-add :
    (i : ℕ) (rows : List FulfillmentAttempt) (x : FulfillmentAttempt)
    → attempt_by_order i rows ≡ none
    → x.order_id ≡ i
    → attempt_by_order i (add x rows) ≡ some x
unfolding attempt_by_order
attempt_by_order-add i rows x h p = scalar-add_hit _ rows x h (ground arith)

pub attempt_by_id_sound :
    (i : ℕ) (rows : List FulfillmentAttempt) (x : FulfillmentAttempt)
    → attempt_by_id i rows ≡ some x
    → x.id ≡ i
unfolding attempt_by_id
attempt_by_id_sound i rows x h = let e = scalar_sound _ rows x h in ground arith

-- The row that was found is found again after it was written back.
pub attempt_by_id-put :
    (i : ℕ) (rows : List FulfillmentAttempt) (x r : FulfillmentAttempt)
    → attempt_by_id i rows ≡ some x
    → r.id ≡ x.id
    → r.id ≡ i
    → attempt_by_id i (put_attempt r rows) ≡ some r
unfolding attempt_by_id put_attempt
attempt_by_id-put i rows x r h e c0 = scalar-save_self _ rows x r h e (ground arith)
