-- ===== src/Orders/Refund/Process.antt =====
-- The handler of a requested refund, from its event to the provider's answer.
use travel_latest.Base.{
  ℕ, ◌≡◌, refl, sym, Bool, true, false, none, some, arith, Bool-cases, inl, inr,
}
use mathlib.Core.Path.{subst}
use travel_latest.Base.Exec.{ok, err, ◌>>=◌, begin, request}
use travel_latest.Orders.Model.{
  Db, TravelOrder, PaymentRecord, RefundRecord, RefundStatus, refund_provider_unavailable,
}
use travel_latest.Orders.Tables.{refund_by_id, put_refund}
use travel_latest.Orders.Tables.Laws.{refund_by_id_sound, refund_by_id-put}
use travel_latest.Orders.Session.{save_refund}
use travel_latest.Orders.Alipay.{AlipayAdapter, TradeRefundResult}
use travel_latest.Orders.Refund.{
  is_valid_refund, is_closed_refund, finish_refund, begin_refund, provider_refund_request,
  process_refund,
}
use travel_latest.Orders.Refund.Outcome.{
  IsAwaited, IsAnswered, refund_after, IsAnswered-by, accept_refund_lem, reject_refund_lem,
}

-- The refund, and the tables, while the provider is asked.
abbrev pub processing : RefundRecord → RefundRecord
processing r = record r { status = RefundStatus.processing }

abbrev pub asking : RefundRecord → Db → Db
asking r d = record d { refunds = put_refund (processing r) d.refunds }

begin_refund_lem :
    (i : ℕ) (r : RefundRecord) (p : PaymentRecord) (o : TravelOrder) (d : Db)
    → IsAwaited i r p o d
    → is_closed_refund r.status ≡ false
    → begin_refund i (begin d) ≡ (ok (some (r, p)), begin (asking r d))
unfolding begin_refund save_refund ◌>>=◌
begin_refund_lem i r p o d h open_ = ground (arith, h.refund, h.payment)

finish_refund_lem :
    (now i : ℕ) (r : RefundRecord) (p : PaymentRecord) (o : TravelOrder)
    (result : TradeRefundResult) (d : Db)
    → IsAwaited i r p o d
    → let (x, d') = request (finish_refund now i result) d in
      IsAnswered (is_valid_refund result p r) i p.order_id o.fulfillment_status x d'
unfolding finish_refund ◌>>=◌
finish_refund_lem now i r p o result d h = elim (Bool-cases (is_valid_refund result p r)) [
  | inl valid ↦ IsAnswered-by valid (ground (arith, h.refund, h.payment, h.order)) (
      accept_refund_lem now i p.order_id r o result (begin d) h.refund h.order h.refunding
        h.coherent)
  | inr invalid ↦
      IsAnswered-by invalid (ground (arith, h.refund, h.payment, h.order))
        (reject_refund_lem now i p.order_id r o (begin d) h.refund h.order h.refunding h.coherent)
]

asking-IsAwaited :
    (i : ℕ) (r : RefundRecord) (p : PaymentRecord) (o : TravelOrder) (d : Db)
    → IsAwaited i r p o d
    → IsAwaited i (processing r) p o (asking r d)
asking-IsAwaited i r p o d h = record {
  refund =
      refund_by_id-put i d.refunds r (processing r) h.refund refl
        (refund_by_id_sound i d.refunds r h.refund);
  payment = h.payment;
  order = h.order;
  refunding = h.refunding;
  coherent = h.coherent;
}

is_valid_refund-processing :
    (result : TradeRefundResult) (p : PaymentRecord) (r : RefundRecord)
    → is_valid_refund result p (processing r) ≡ is_valid_refund result p r
unfolding is_valid_refund
is_valid_refund-processing result p r = refl

-- `process_refund` on an open refund, once the provider has answered.
process_refund_lem :
    (now i : ℕ) (a : AlipayAdapter) (r : RefundRecord) (p : PaymentRecord) (o : TravelOrder)
    (result : TradeRefundResult) (d : Db)
    → IsAwaited i r p o d
    → is_closed_refund r.status ≡ false
    → a.refund_trade (provider_refund_request r p) ≡ some result
    → request (process_refund now (some a) i) d ≡ request (finish_refund now i result) (asking r d)
unfolding process_refund ◌>>=◌
process_refund_lem now i a r p o result d h c g = ground (arith, begin_refund_lem i r p o d h c)

-- A refund of an order that is being refunded ends, with the provider's answer, as refunded or as
-- failed, and its order with it: refunded; or back to waiting for a refund, if its ticket had
-- failed; or failed. No other outcome is possible.
pub process_refund-IsAnswered :
    (now i : ℕ) (a : AlipayAdapter) (r : RefundRecord) (p : PaymentRecord) (o : TravelOrder)
    (result : TradeRefundResult) (d : Db)
    → IsAwaited i r p o d
    → is_closed_refund r.status ≡ false
    → a.refund_trade (provider_refund_request r p) ≡ some result
    → let (x, d') = request (process_refund now (some a) i) d in
      IsAnswered (is_valid_refund result p r) i p.order_id o.fulfillment_status x d'
process_refund-IsAnswered now i a r p o result d h c g =
    IsAnswered-by (sym (is_valid_refund-processing result p r))
      (process_refund_lem now i a r p o result d h c g)
      (finish_refund_lem now i (processing r) p o result (asking r d)
        (asking-IsAwaited i r p o d h))

-- While the provider cannot be asked, the handler raises, so that the event is delivered again; the
-- refund is then marked as being processed, is still awaited, and nothing else is written.
pub process_refund_unavailable :
    (now i : ℕ) (a : AlipayAdapter) (r : RefundRecord) (p : PaymentRecord) (o : TravelOrder)
    (d : Db)
    → IsAwaited i r p o d
    → is_closed_refund r.status ≡ false
    → a.refund_trade (provider_refund_request r p) ≡ none
    → (request (process_refund now (some a) i) d ≡ (err refund_provider_unavailable, asking r d))
      × IsAwaited i (processing r) p o (asking r d)
unfolding process_refund ◌>>=◌
process_refund_unavailable now i a r p o d h c g =
    (ground (arith, begin_refund_lem i r p o d h c), asking-IsAwaited i r p o d h)

closed_refund :
    (now i : ℕ) (a : AlipayAdapter) (r : RefundRecord) (d : Db)
    → refund_by_id i d.refunds ≡ some r
    → is_closed_refund r.status ≡ true
    → request (process_refund now (some a) i) d ≡ (ok tt, d)
unfolding process_refund begin_refund ◌>>=◌
closed_refund now i a r d e c = ground arith

after-is_closed : (b : Bool) → is_closed_refund (refund_after b) ≡ true
after-is_closed b = ground arith

-- Once a refund was answered for, a repeated event asks nobody and writes nothing, whatever the
-- provider would say.
pub process_refund_once :
    (now now' i : ℕ) (a a' : AlipayAdapter) (r : RefundRecord) (p : PaymentRecord) (o : TravelOrder)
    (result : TradeRefundResult) (d : Db)
    → IsAwaited i r p o d
    → is_closed_refund r.status ≡ false
    → a.refund_trade (provider_refund_request r p) ≡ some result
    → let d' = (request (process_refund now (some a) i) d).1 in
      request (process_refund now' (some a') i) d' ≡ (ok tt, d')
process_refund_once now now' i a a' r p o result d h c g =
    let done = process_refund-IsAnswered now i a r p o result d h c g in
    closed_refund now' i a' done.refund _ done.refund_found (
      subst (λ s. is_closed_refund s ≡ true) (sym done.refund_status)
        (after-is_closed (is_valid_refund result p r)))
