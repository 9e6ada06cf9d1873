-- ===== src/Purchases/Queries.antt =====
-- `query_purchase_payment` and `query_qr_payment` of
-- backend/app/modules/membership_purchases/service.py.
use travel_latest.Base.{
  ℕ, Bool, true, false, not, ◌&&◌, Option, none, some, ◌==◌, if◌then◌else◌, str_eq,
}
use travel_latest.Base.Exec.{◌>>=◌, ◌>>◌, pure, raise, commit, with_some}
use travel_latest.Orders.Alipay.{AlipayAdapter, VerifiedAlipayCallback, TradeQueryResult}
use travel_latest.Orders.Fulfillment.{Reply, raised, malformed, reply}
use travel_latest.Orders.Settle.{is_success}
use travel_latest.Orders.Tables.{holds}
use travel_latest.Purchases.Model.{
  MembershipPurchase, MembershipPaymentAttempt, PurchasePayment, QrStatus, M,
  payment_provider_unavailable, payment_provider_invalid_response, is_paid_purchase, is_open_qr,
  save_qr, require_purchase_adapter,
}
use travel_latest.Purchases.Attempts.{
  locked_purchase_for_owner, current_attempt, expire_current_attempt,
}
use travel_latest.Purchases.Authorize.{authorize_paid_purchase}
use travel_latest.Purchases.Settle.{settle_purchase}

-- The test on the provider's answer to a query, and the callback that it amounts to.
unfoldable queried_trade : ℕ → TradeQueryResult → Option VerifiedAlipayCallback
queried_trade payment_no result =
    if str_eq result.gateway_code "10000" && holds result.out_trade_no payment_no
    then elim result.trade_status [
      | none ↦ none
      | some status ↦ elim result.trade_no [
        | none ↦ none
        | some trade_no ↦ elim result.total_amount [
          | none ↦ none
          | some total ↦
              if is_success status && not (trade_no == 0)
              then some (record {
                out_trade_no = payment_no;
                trade_no = trade_no;
                trade_status = status;
                total_amount = total;
              })
              else none
        ]
      ]
    ]
    else none

abbrev is_failed_purchase : PurchasePayment → Bool
is_failed_purchase PurchasePayment.failed = true
is_failed_purchase _ = false

unfoldable answer_purchase_query :
    ℕ
    → Option AlipayAdapter
    → MembershipPurchase
    → ℕ
    → Reply TradeQueryResult
    → M MembershipPurchase
answer_purchase_query now adapter purchase payment_no raised = raise payment_provider_unavailable
answer_purchase_query now adapter purchase payment_no malformed =
    raise payment_provider_invalid_response
answer_purchase_query now adapter purchase payment_no (reply result) =
    with_some (queried_trade payment_no result) (pure purchase) (settle_purchase now adapter none)

-- The purchase is the row that the route has loaded.
unfoldable query_purchase_payment :
    ℕ → Option AlipayAdapter → MembershipPurchase → M MembershipPurchase
query_purchase_payment now adapter purchase =
    if is_paid_purchase purchase.payment_status
    then authorize_paid_purchase now purchase.id
    else with_some purchase.payment_no (pure purchase) λ payment_no.
      if is_failed_purchase purchase.payment_status then pure purchase else do
        provider ← require_purchase_adapter adapter
        answer_purchase_query now adapter purchase payment_no (provider.query_trade payment_no)

-- `result.gateway_code == "10000" and result.trade_status == "TRADE_CLOSED"`
abbrev is_closed_trade : TradeQueryResult → Bool
is_closed_trade result =
    str_eq result.gateway_code "10000"
    && elim result.trade_status [ none ↦ false | some status ↦ str_eq status "TRADE_CLOSED" ]

abbrev QrAnswer : Type 0
QrAnswer = MembershipPurchase × Option MembershipPaymentAttempt

unfoldable answer_qr_query :
    ℕ
    → Option AlipayAdapter
    → MembershipPurchase
    → MembershipPaymentAttempt
    → Reply TradeQueryResult
    → M QrAnswer
answer_qr_query now adapter purchase attempt raised = raise payment_provider_unavailable
answer_qr_query now adapter purchase attempt malformed = raise payment_provider_invalid_response
answer_qr_query now adapter purchase attempt (reply result) =
    with_some (queried_trade attempt.payment_no result)
      (if is_closed_trade result
        then (do
          save_qr (record attempt { status = QrStatus.closed })
          commit
          pure (purchase, some (record attempt { status = QrStatus.closed })))
        else pure (purchase, some attempt))
      λ callback. do
        settled ← settle_purchase now adapter none callback
        current ← current_attempt settled
        pure (settled, current)

unfoldable query_qr_payment : ℕ → Option AlipayAdapter → ℕ → ℕ → M QrAnswer
query_qr_payment now adapter purchase_id user_id = do
  purchase ← locked_purchase_for_owner purchase_id user_id
  if is_paid_purchase purchase.payment_status
      then (do
        authorized ← authorize_paid_purchase now purchase.id
        current ← current_attempt purchase
        pure (authorized, current))
      else (do
        found ← expire_current_attempt purchase now
        with_some found (do commit; pure (purchase, none))
            λ attempt.
              if not (is_open_qr attempt.status)
              then (do commit; pure (purchase, some attempt))
              else do
                provider ← require_purchase_adapter adapter
                answer_qr_query now adapter purchase attempt
                    (provider.query_trade attempt.payment_no))
