-- ===== src/Orders/Callback.antt =====
-- `PaymentService.handle_callback` and `query_order_payment` of
-- backend/app/modules/orders/services.py: the two ways to a settlement.
use travel_latest.Base.{
  ℕ, String, Bool, true, false, not, ◌&&◌, Option, none, some, List, [], ◌∷◌, ◌==◌, if◌then◌else◌,
  is_some, str_eq,
}
use travel_latest.Base.Exec.{
  Session, Result, ok, err, ◌>>=◌, ◌>>◌, pure, modify, gets, raise, commit, with_some,
}
use travel_latest.Base.Tables.{add}
use travel_latest.Events.Outbox.{text, Payload}
use travel_latest.Orders.Model.{
  Db, OrderError, TravelOrder, PaymentRecord, PaymentStatus, VerificationStatus, ProcessingStatus,
  payment_provider_unavailable, payment_provider_invalid_response, payment_callback_invalid,
}
use travel_latest.Orders.Tables.{latest_payment, callback_by_transaction}
use travel_latest.Orders.Session.{M, new_uuid}
use travel_latest.Orders.Tables.{holds}
use travel_latest.Orders.Fulfillment.{Reply, raised, malformed, reply}
use travel_latest.Orders.Alipay.{
  AlipayAdapter, VerifiedAlipayCallback, TradeQueryResult, CallbackForm, require_adapter,
}
use travel_latest.Orders.Settle.{safe_callback_facts, settle, is_success}

-- `payload.get(key)`
abbrev pub form_get : String → CallbackForm → Option String
form_get key [] = none
form_get key ((k, v) ∷ form) = if str_eq k key then some v else form_get key form

-- `{key: payload[key] for key in keys if payload.get(key)}`
abbrev pub present_fact : String → Option String → Payload → Payload
present_fact key none facts = facts
present_fact key (some v) facts = if str_eq v "" then facts else (key, text v) ∷ facts

abbrev pub safe_form_facts : CallbackForm → List String → Payload
safe_form_facts form [] = []
safe_form_facts form (key ∷ keys) = present_fact key (form_get key form) (safe_form_facts form keys)

abbrev pub kept_keys : List String
kept_keys = "app_id" ∷ "out_trade_no" ∷ "trade_no" ∷ "trade_status" ∷ "total_amount" ∷ []

-- `_record_rejected_callback`
unfoldable pub record_rejected_callback : CallbackForm → M Unit
record_rejected_callback form = do
  id ← new_uuid
  modify λ d. record d {
    callbacks =
        add
          (record {
            id = id;
            provider_transaction_id = none;
            payment_id = none;
            raw_payload = safe_form_facts form kept_keys;
            verification_status = VerificationStatus.rejected;
            verification_error = some "callback_verification_failed";
            verified_at = none;
            processing_status = ProcessingStatus.failed;
            processing_error = some "callback_verification_failed";
            processed_at = none;
          })
          d.callbacks;
  }
  commit

-- `_record_verified_callback_failure`
unfoldable pub record_verified_callback_failure : ℕ → VerifiedAlipayCallback → M Unit
record_verified_callback_failure now callback = do
  existing ← gets (λ d. callback_by_transaction callback.trade_no d.callbacks)
  if is_some existing then pure tt else do
    id ← new_uuid
    modify λ d. record d {
      callbacks =
          add
            (record {
              id = id;
              provider_transaction_id = some callback.trade_no;
              payment_id = none;
              raw_payload = safe_callback_facts callback;
              verification_status = VerificationStatus.verified;
              verification_error = none;
              verified_at = some now;
              processing_status = ProcessingStatus.failed;
              processing_error = some "callback_facts_invalid";
              processed_at = none;
            })
            d.callbacks;
    }
    commit

-- `except DomainError: await self._record_verified_callback_failure(verified); raise`
unfoldable pub after_settlement :
    ℕ
    → VerifiedAlipayCallback
    → Result OrderError TravelOrder × Session Db
    → Result OrderError TravelOrder × Session Db
after_settlement now callback (ok order, s) = (ok order, s)
after_settlement now callback (err e, s) =
    (record_verified_callback_failure now callback >> raise e) s

unfoldable pub record_failure : ℕ → VerifiedAlipayCallback → M TravelOrder → M TravelOrder
unfolding after_settlement
record_failure now callback m s = after_settlement now callback (m s)

unfoldable pub handle_callback : ℕ → Option AlipayAdapter → CallbackForm → M TravelOrder
handle_callback now adapter form = do
  provider ← require_adapter adapter
  with_some (provider.verify_callback form)
      (do record_rejected_callback form; raise payment_callback_invalid)
      λ verified.
        record_failure now verified (settle now adapter (some (form_get "app_id" form)) verified)

-- The test on the provider's answer to a query, and the callback that it amounts to.
unfoldable pub queried_callback : PaymentRecord → TradeQueryResult → Option VerifiedAlipayCallback
queried_callback payment result =
    if str_eq result.gateway_code "10000" && holds result.out_trade_no payment.payment_no
    then elim result.trade_status [
      | none ↦ none
      | some status ↦ elim result.trade_no [
        | none ↦ none
        | some trade_no ↦ elim result.total_amount [
          | none ↦ none
          | some total ↦
              if is_success status && not (trade_no == 0)
              then some (record {
                out_trade_no = payment.payment_no;
                trade_no = trade_no;
                trade_status = status;
                total_amount = total;
              })
              else none
        ]
      ]
    ]
    else none

-- `payment.status in {"paid", "failed", "refunded"}`
abbrev pub is_closed_payment : PaymentStatus → Bool
is_closed_payment PaymentStatus.paid = true
is_closed_payment PaymentStatus.failed = true
is_closed_payment PaymentStatus.refunded = true
is_closed_payment _ = false

unfoldable pub answer_query :
    ℕ → Option AlipayAdapter → TravelOrder → PaymentRecord → Reply TradeQueryResult → M TravelOrder
answer_query now adapter order payment raised = raise payment_provider_unavailable
answer_query now adapter order payment malformed = raise payment_provider_invalid_response
answer_query now adapter order payment (reply result) =
    with_some (queried_callback payment result) (pure order) (settle now adapter none)

unfoldable pub query_order_payment : ℕ → Option AlipayAdapter → TravelOrder → M TravelOrder
query_order_payment now adapter order = do
  found_payment ← gets (λ d. latest_payment order.id d.payments)
  with_some found_payment (pure order) λ payment.
      if is_closed_payment payment.status then pure order else do
        provider ← require_adapter adapter
        answer_query now adapter order payment (provider.query_trade payment.payment_no)
