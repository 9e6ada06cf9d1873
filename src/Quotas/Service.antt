-- ===== src/Quotas/Service.antt =====
-- `AIEntitlementService`.
use travel_latest.Base.{ℕ, suc, ◌+◌, ◌-◌, Option, none, some, List, leb, ltb, if◌then◌else◌}
use travel_latest.Base.Exec.{Exec, ◌>>=◌, ◌>>◌, pure, gets, modify, raise_if, with_some}
use travel_latest.Base.Tables.{add}
use travel_latest.Quotas.Months.{Datetime, month_start, month_end}
use travel_latest.Quotas.Periods.{
  AiQuotaPeriod, SourceType, Capability, itinerary_generation, assistant_message, used, limit,
  put_used, period_by_id, put_period, active_membership_period, free_period_row,
}

pub record QuotaDb : Type 0 where
  pub periods : List AiQuotaPeriod
  pub next_uuid : ℕ

pub data QuotaSource : Type 0 where
  free membership : QuotaSource

pub record AiEntitlementConsumption : Type 0 where
  pub source : QuotaSource
  pub remaining : ℕ
  pub period_end : Datetime
  pub period_id : ℕ
  pub capability : Capability

-- `AiEntitlementError`, of which `upgrade_available` follows from the source.
pub record AiEntitlementError : Type 0 where
  pub source : QuotaSource
  pub period_end : Datetime

abbrev pub M : Type 0 → Type 0
M = Exec QuotaDb AiEntitlementError

abbrev pub free_generation_limit : ℕ
free_generation_limit = 1

abbrev pub free_assistant_limit : ℕ
free_assistant_limit = 20

abbrev pub new_free_period : ℕ → ℕ → Datetime → AiQuotaPeriod
new_free_period id user_id now = record {
  id = id;
  user_id = user_id;
  source_type = SourceType.free;
  membership_purchase_id = none;
  period_start = month_start now;
  period_end = month_end now;
  generation_limit = free_generation_limit;
  generation_used = 0;
  assistant_limit = free_assistant_limit;
  assistant_used = 0;
}

-- `_free_period`
unfoldable pub free_period : ℕ → Datetime → M AiQuotaPeriod
free_period user_id now = do
  found ← gets (λ d. free_period_row user_id (month_start now) (month_end now) d.periods)
  with_some found
      (do
        id ← gets (λ d. d.next_uuid)
        let period = new_free_period id user_id now
        modify (λ d. record { periods = add period d.periods; next_uuid = suc d.next_uuid })
        pure period)
      pure

-- From the period that was chosen on.
unfoldable pub take_quota : Capability → QuotaSource → AiQuotaPeriod → M AiEntitlementConsumption
take_quota capability source period = do
  raise_if (leb (limit capability period) (used capability period))
      (record { source = source; period_end = period.period_end })
  modify λ d. record d {
    periods = put_period (put_used capability (used capability period + 1) period) d.periods;
  }
  pure (record {
    source = source;
    remaining = limit capability period - used capability period - 1;
    period_end = period.period_end;
    period_id = period.id;
    capability = capability;
  })

unfoldable pub consume : Datetime → ℕ → Capability → M AiEntitlementConsumption
consume now user_id capability = do
  found ← gets (λ d. active_membership_period user_id now d.periods)
  with_some found
      (do period ← free_period user_id now; take_quota capability QuotaSource.free period)
      (take_quota capability membership)

unfoldable pub release : AiEntitlementConsumption → M Unit
release consumption = do
  found ← gets (λ d. period_by_id consumption.period_id d.periods)
  with_some found (pure tt) λ period.
      if ltb 0 (used consumption.capability period)
      then modify (λ d. record d {
        periods =
            put_period
              (put_used consumption.capability (used consumption.capability period - 1) period)
              d.periods;
      })
      else pure tt

pub record AiEntitlementBalance : Type 0 where
  pub source : QuotaSource
  pub itinerary_generation_remaining : ℕ
  pub assistant_message_remaining : ℕ
  pub period_end : Datetime

-- What is used of a period that may not be there.
abbrev pub used_of : Capability → Option AiQuotaPeriod → ℕ
used_of capability none = 0
used_of capability (some p) = used capability p

-- `balances`. The differences are of naturals: no counter of a row is over its limit, by the check
-- constraints of the table.
unfoldable pub balances :
    Datetime → ℕ → List AiQuotaPeriod → AiEntitlementBalance × Option AiEntitlementBalance
balances now user_id rows =
    let row = free_period_row user_id (month_start now) (month_end now) rows in
    (
      record {
        source = QuotaSource.free;
        itinerary_generation_remaining = free_generation_limit - used_of itinerary_generation row;
        assistant_message_remaining = free_assistant_limit - used_of assistant_message row;
        period_end = month_end now;
      },
      elim (active_membership_period user_id now rows) [
        | none ↦ none
        | some p ↦ some (record {
          source = membership;
          itinerary_generation_remaining = p.generation_limit - p.generation_used;
          assistant_message_remaining = p.assistant_limit - p.assistant_used;
          period_end = p.period_end;
        })
      ],
    )
