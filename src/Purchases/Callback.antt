-- ===== src/Purchases/Callback.antt =====
-- `handle_callback` of backend/app/modules/membership_purchases/service.py.
use travel_latest.Base.{ℕ, Option, none, some, if◌then◌else◌, is_some}
use travel_latest.Base.Exec.{
  Session, Result, ok, err, ◌>>=◌, ◌>>◌, pure, modify, gets, raise, commit, with_some,
}
use travel_latest.Base.Tables.{add}
use travel_latest.Orders.Alipay.{AlipayAdapter, VerifiedAlipayCallback, CallbackForm}
use travel_latest.Orders.Callback.{form_get, safe_form_facts, kept_keys}
use travel_latest.Orders.Model.{VerificationStatus, ProcessingStatus}
use travel_latest.Orders.Settle.{safe_callback_facts}
use travel_latest.Purchases.Model.{
  MembershipPurchase, PurchaseDb, PurchaseError, M, payment_callback_invalid, event_by_transaction,
  new_uuid, require_purchase_adapter,
}
use travel_latest.Purchases.Settle.{settle_purchase}

-- `_record_rejected_callback`
unfoldable record_rejected_event : CallbackForm → M Unit
record_rejected_event form = do
  id ← new_uuid
  modify λ d. record d {
    callbacks =
        add
          (record {
            id = id;
            provider_transaction_id = none;
            membership_purchase_id = none;
            raw_payload = safe_form_facts form kept_keys;
            verification_status = VerificationStatus.rejected;
            verification_error = some "callback_verification_failed";
            verified_at = none;
            processing_status = ProcessingStatus.failed;
            processing_error = some "callback_verification_failed";
            processed_at = none;
          })
          d.callbacks;
  }
  commit

-- `_record_verified_callback_failure`
unfoldable record_failed_event : ℕ → VerifiedAlipayCallback → M Unit
record_failed_event now callback = do
  existing ← gets (λ d. event_by_transaction callback.trade_no d.callbacks)
  if is_some existing then pure tt else do
    id ← new_uuid
    modify λ d. record d {
      callbacks =
          add
            (record {
              id = id;
              provider_transaction_id = some callback.trade_no;
              membership_purchase_id = none;
              raw_payload = safe_callback_facts callback;
              verification_status = VerificationStatus.verified;
              verification_error = none;
              verified_at = some now;
              processing_status = ProcessingStatus.failed;
              processing_error = some "callback_facts_invalid";
              processed_at = none;
            })
            d.callbacks;
    }
    commit

-- `except MembershipPurchaseError: await self._record_verified_callback_failure(verified); raise`
unfoldable after_settling :
    ℕ
    → VerifiedAlipayCallback
    → Result PurchaseError MembershipPurchase × Session PurchaseDb
    → Result PurchaseError MembershipPurchase × Session PurchaseDb
after_settling now callback (ok purchase, s) = (ok purchase, s)
after_settling now callback (err e, s) = (record_failed_event now callback >> raise e) s

unfoldable record_refusal : ℕ → VerifiedAlipayCallback → M MembershipPurchase → M MembershipPurchase
unfolding after_settling
record_refusal now callback m s = after_settling now callback (m s)

unfoldable handle_purchase_callback : ℕ → Option AlipayAdapter → CallbackForm → M MembershipPurchase
handle_purchase_callback now adapter form = do
  provider ← require_purchase_adapter adapter
  with_some (provider.verify_callback form)
      (do record_rejected_event form; raise payment_callback_invalid)
      λ verified.
        record_refusal now verified
          (settle_purchase now adapter (some (form_get "app_id" form)) verified)
