-- ===== src/Orders/Settle/Replay.antt =====
-- A payment that is settled twice: the provider repeats its notifications.
use mathlib.Core.Path.{subst}
use travel_latest.Base.{
  ap, if◌then◌else◌, ℕ, ◌≡◌, ◌≢◌, Option, none, some, true, false, String, arith, Option-cases, inl,
  inr,
}
use travel_latest.Base.Signed.{eq_amount}
use travel_latest.Base.Exec.{Session, Result, Result-cases, ok, ◌>>=◌, request, begin}
use travel_latest.Orders.Model.{
  Db, TravelOrder, PaymentRecord, PaymentCallbackEvent, OrderStatus, PaymentStatus,
  FulfillmentStatus, ProcessingStatus, OrderError,
}
use travel_latest.Orders.Transition.Outcomes.{transition_fields}
use travel_latest.Orders.Tables.{
  order_by_id, payment_by_no, put_payment, callback_by_transaction, is_paid, holds,
}
use travel_latest.Orders.Tables.Laws.{
  order_by_id_sound, order_by_id-put, payment_by_no_sound, payment_by_no-put,
  callback_by_transaction_sound, callback_by_transaction-put, callback_by_transaction-add,
}
use travel_latest.Orders.Session.{
  new_uuid, save_order, save_payment, save_callback, enqueue, advance,
}
use travel_latest.Orders.Alipay.{AlipayAdapter, VerifiedAlipayCallback}
use travel_latest.Orders.Settle.{
  callback_row, mark_paid, apply_callback, settle, is_malformed, settled_by_other, wrong_currency,
  start_fulfillment,
}

-- What a settlement of `callback` leaves: the payment is paid by this transaction, or was paid
-- before any transaction was noted, its order is the one that is returned, and the transaction is on
-- record for the payment.
pub record IsSettled (callback : VerifiedAlipayCallback) (order : TravelOrder) (d : Db)
    : Type 0 where
  pub payment : PaymentRecord
  pub found : payment_by_no callback.out_trade_no d.payments ≡ some payment
  pub paid : payment.status ≡ PaymentStatus.paid
  pub amount : eq_amount payment.amount callback.total_amount ≡ true
  pub free : settled_by_other payment.provider_transaction_id callback.trade_no ≡ false
  pub order_found : order_by_id payment.order_id d.orders ≡ some order
  pub currency : wrong_currency order payment ≡ false
  pub row : PaymentCallbackEvent
  pub row_found : callback_by_transaction callback.trade_no d.callbacks ≡ some row
  pub row_payment : holds row.payment_id payment.id ≡ true

-- A settlement of what is settled changes no payment, no order and no event.
settle_again :
    (now : ℕ) (a : AlipayAdapter) (app : Option (Option String)) (c : VerifiedAlipayCallback)
    (o : TravelOrder) (d : Db)
    → is_malformed a app c ≡ false
    → IsSettled c o d
    → let (r, d') = request (settle now (some a) app c) d in
      (r ≡ ok o) × (d'.payments ≡ d.payments) × (d'.orders ≡ d.orders) × (d'.outbox ≡ d.outbox)
unfolding settle apply_callback callback_row mark_paid save_callback ◌>>=◌
settle_again now a app c o d wf h = ground arith

-- The row of the transaction is there after `callback_row`, for this payment.
callback_row_lem :
    (now : ℕ) (c : VerifiedAlipayCallback) (p : PaymentRecord) (row : PaymentCallbackEvent)
    (s : Session Db)
    → (callback_row now c p s).0 ≡ ok row
    → (callback_by_transaction c.trade_no (callback_row now c p s).1.db.callbacks ≡ some row)
      × (holds row.payment_id p.id ≡ true)
      × ((callback_row now c p s).1.db.payments ≡ s.db.payments)
      × ((callback_row now c p s).1.db.orders ≡ s.db.orders)
unfolding callback_row new_uuid ◌>>=◌
callback_row_lem now c p row s h =
    ground (arith, callback_by_transaction-add c.trade_no s.db.callbacks row)

start_fulfillment_lem :
    (o o' : TravelOrder) (i : ℕ) (s : Session Db)
    → order_by_id i s.db.orders ≡ some o
    → (start_fulfillment o s).0 ≡ ok o'
    → (order_by_id i (start_fulfillment o s).1.db.orders ≡ some o')
      × (o'.currency ≡ o.currency)
      × ((start_fulfillment o s).1.db.payments ≡ s.db.payments)
      × ((start_fulfillment o s).1.db.callbacks ≡ s.db.callbacks)
unfolding start_fulfillment advance save_order ◌>>=◌
start_fulfillment_lem o o' i s e h = ground (
  arith,
  transition_fields o o' none (
    OrderStatus.paid_pending_fulfillment, PaymentStatus.paid,
    FulfillmentStatus.pending_confirmation,
  ),
  order_by_id_sound i s.db.orders o,
  order_by_id-put i s.db.orders o o',
)

-- The payment as `mark_paid` leaves it.
abbrev settled_payment : ℕ → VerifiedAlipayCallback → PaymentRecord → PaymentRecord
settled_payment now c p = if is_paid p.status then p else record p {
  status = PaymentStatus.paid;
  provider_transaction_id = some c.trade_no;
  paid_at = some now;
}

mark_paid_lem :
    (now : ℕ) (c : VerifiedAlipayCallback) (p : PaymentRecord) (o o' : TravelOrder) (s : Session Db)
    → payment_by_no c.out_trade_no s.db.payments ≡ some p
    → order_by_id p.order_id s.db.orders ≡ some o
    → (mark_paid now c p o s).0 ≡ ok o'
    → (payment_by_no c.out_trade_no (mark_paid now c p o s).1.db.payments
        ≡ some (settled_payment now c p))
      × (order_by_id p.order_id (mark_paid now c p o s).1.db.orders ≡ some o')
      × (o'.currency ≡ o.currency)
      × ((mark_paid now c p o s).1.db.callbacks ≡ s.db.callbacks)
unfolding mark_paid save_payment enqueue new_uuid ◌>>=◌
mark_paid_lem now c p o o' s e f h = ground (
  arith,
  payment_by_no_sound c.out_trade_no s.db.payments p,
  payment_by_no-put c.out_trade_no s.db.payments p (settled_payment now c p),
  start_fulfillment_lem o o' p.order_id (record s {
    db = record s.db { payments = put_payment (settled_payment now c p) s.db.payments };
  }),
)

-- The row of the transaction as a settlement leaves it.
abbrev processed_row : ℕ → PaymentCallbackEvent → PaymentCallbackEvent
processed_row now row = record row {
  processing_status = ProcessingStatus.processed;
  processing_error = none;
  processed_at = some now;
}

apply_callback_lem :
    (now : ℕ) (c : VerifiedAlipayCallback) (p : PaymentRecord) (o o' : TravelOrder) (s : Session Db)
    → payment_by_no c.out_trade_no s.db.payments ≡ some p
    → order_by_id p.order_id s.db.orders ≡ some o
    → (apply_callback now c p o s).0 ≡ ok o'
    → (row : PaymentCallbackEvent) × (callback_by_transaction c.trade_no
          (apply_callback now c p o s).1.saved.callbacks
        ≡ some (processed_row now row))
      × (holds row.payment_id p.id ≡ true)
      × (payment_by_no c.out_trade_no (apply_callback now c p o s).1.saved.payments
          ≡ some (settled_payment now c p))
      × (order_by_id p.order_id (apply_callback now c p o s).1.saved.orders ≡ some o')
      × (o'.currency ≡ o.currency)
unfolding apply_callback save_callback ◌>>=◌
apply_callback_lem now c p o o' s e f h = elim (Result-cases (callback_row now c p s).0) [
  | inr (x, refused) ↦ absurd (ground arith)
  | inl (row, r) ↦
      let rows = callback_row_lem now c p row s r in
      let found =
        callback_by_transaction_sound c.trade_no (callback_row now c p s).1.db.callbacks row
          rows.0 in
      let marked = mark_paid_lem now c p o o' (callback_row now c p s).1 in
      let again =
        callback_by_transaction-put c.trade_no (callback_row now c p s).1.db.callbacks row
          (processed_row now row) in
      (
        row,
        ground (arith, marked, again),
        rows.1,
        ground (arith, marked),
        ground (arith, marked),
        ground (arith, marked),
      )
]

wrong_currency-same :
    (o o' : TravelOrder) (p p' : PaymentRecord)
    → o'.currency ≡ o.currency
    → p'.currency ≡ p.currency
    → wrong_currency o' p' ≡ wrong_currency o p
unfolding wrong_currency
wrong_currency-same o o' p p' h k = rw (h, k)

settled_by_self : (t : ℕ) → settled_by_other (some t) t ≡ false
unfolding settled_by_other
settled_by_self t = ground arith

-- The tests that a settlement has passed when it succeeds.
record Passed (a : AlipayAdapter) (app : Option (Option String)) (c : VerifiedAlipayCallback)
    (p : PaymentRecord) (q : TravelOrder) : Type 0 where
  well_formed : is_malformed a app c ≡ false
  same_amount : eq_amount p.amount c.total_amount ≡ true
  unsettled : settled_by_other p.provider_transaction_id c.trade_no ≡ false
  same_currency : wrong_currency q p ≡ false

settle-Passed :
    (now : ℕ) (a : AlipayAdapter) (app : Option (Option String)) (c : VerifiedAlipayCallback)
    (p : PaymentRecord) (q o : TravelOrder) (d : Db)
    → payment_by_no c.out_trade_no d.payments ≡ some p
    → order_by_id p.order_id d.orders ≡ some q
    → (settle now (some a) app c (begin d)).0 ≡ ok o
    → Passed a app c p q
      × (settle now (some a) app c (begin d) ≡ apply_callback now c p q (begin d))
unfolding settle ◌>>=◌
settle-Passed now a app c p q o d e f h = ground arith

settle_unpaid :
    (now : ℕ) (a : AlipayAdapter) (app : Option (Option String)) (c : VerifiedAlipayCallback)
    (o : TravelOrder) (d : Db)
    → payment_by_no c.out_trade_no d.payments ≡ none
    → (settle now (some a) app c (begin d)).0 ≢ ok o
unfolding settle ◌>>=◌
settle_unpaid now a app c o d e = ground arith

settle_unordered :
    (now : ℕ) (a : AlipayAdapter) (app : Option (Option String)) (c : VerifiedAlipayCallback)
    (p : PaymentRecord) (o : TravelOrder) (d : Db)
    → payment_by_no c.out_trade_no d.payments ≡ some p
    → order_by_id p.order_id d.orders ≡ none
    → (settle now (some a) app c (begin d)).0 ≢ ok o
unfolding settle ◌>>=◌
settle_unordered now a app c p o d e f = ground arith

-- The payment and the order of a settlement that succeeds.
settle_rows :
    (now : ℕ) (a : AlipayAdapter) (app : Option (Option String)) (c : VerifiedAlipayCallback)
    (o : TravelOrder) (d : Db)
    → (settle now (some a) app c (begin d)).0 ≡ ok o
    → (p : PaymentRecord) × (q : TravelOrder) × (payment_by_no c.out_trade_no d.payments ≡ some p)
      × (order_by_id p.order_id d.orders ≡ some q)
settle_rows now a app c o d h = elim (Option-cases (payment_by_no c.out_trade_no d.payments)) [
  | inl absent ↦ absurd (settle_unpaid now a app c o d absent h)
  | inr (p, e) ↦ elim (Option-cases (order_by_id p.order_id d.orders)) [
    | inl absent ↦ absurd (settle_unordered now a app c p o d e absent h)
    | inr (q, f) ↦ (p, q, e, f)
  ]
]

-- A settlement that succeeds was asked for by a well-formed callback, and leaves a payment with its
-- number that is paid, of the amount that the callback reports, in the currency of its order; its
-- order is the one that is returned, and the transaction is on record for the payment.
pub settle-IsSettled :
    (now : ℕ) (a : AlipayAdapter) (app : Option (Option String)) (c : VerifiedAlipayCallback)
    (o : TravelOrder) (d : Db)
    → (settle now (some a) app c (begin d)).0 ≡ ok o
    → (is_malformed a app c ≡ false) × IsSettled c o (settle now (some a) app c (begin d)).1.saved
settle-IsSettled now a app c o d h =
    let (p, q, e, f) = settle_rows now a app c o d h in
    let (tests, same) = settle-Passed now a app c p q o d e f h in
    let done = apply_callback_lem now c p q o (begin d) e f (rw same at h) in
    (
      tests.well_formed,
      rw same (record {
        payment = settled_payment now c p;
        found = done.3;
        paid = ground arith;
        amount = ground (arith, tests.same_amount);
        free = ground (arith, settled_by_self c.trade_no, tests.unsettled);
        order_found = ground (arith, done.4);
        currency = ground (
          arith,
          wrong_currency-same q o p (settled_payment now c p) done.5,
          tests.same_currency,
        );
        row = processed_row now done.0;
        row_found = done.1;
        row_payment = ground (arith, done.2);
      }),
    )

-- The provider repeats its notifications. After a settlement that succeeded, a second one for the
-- same callback succeeds with the same order, and changes no payment, no order and no event: the
-- payment is announced once, and the order advances once.
pub settle_twice :
    (now now' : ℕ) (a : AlipayAdapter) (app : Option (Option String)) (c : VerifiedAlipayCallback)
    (o : TravelOrder) (d d' : Db)
    → request (settle now (some a) app c) d ≡ (ok o, d')
    → let (r, d'') = request (settle now' (some a) app c) d' in
      (r ≡ ok o)
      × (d''.payments ≡ d'.payments)
      × (d''.orders ≡ d'.orders)
      × (d''.outbox ≡ d'.outbox)
settle_twice now now' a app c o d d' h =
    let (wf, settled) =
      settle-IsSettled now a app c o d (ap (λ (x : Result OrderError TravelOrder × Db). x.0) h) in
    settle_again now' a app c o d' wf
      (subst (IsSettled c o) (ap (λ (x : Result OrderError TravelOrder × Db). x.1) h) settled)
