-- ===== src/Quotas/Periods.antt =====
-- The table `AIQuotaPeriod`, its queries, and the two counters of a row.
use travel_latest.Base.{
  ℕ, Bool, true, false, not, ◌&&◌, Option, none, some, List, [], ◌∷◌, ◌==◌, if◌then◌else◌,
}
use travel_latest.Base.Tables.{Keyed, scalar, get, save}
use travel_latest.Quotas.Months.{Datetime, is_before, same_time}

pub data SourceType : Type 0 where
  free membership_purchase : SourceType

pub data Capability : Type 0 where
  itinerary_generation assistant_message : Capability

pub record AiQuotaPeriod : Type 0 where
  pub id : ℕ
  pub user_id : ℕ
  pub source_type : SourceType
  pub membership_purchase_id : Option ℕ
  pub period_start : Datetime
  pub period_end : Datetime
  pub generation_limit : ℕ
  pub generation_used : ℕ
  pub assistant_limit : ℕ
  pub assistant_used : ℕ

instance abbrev pub period_key : Keyed AiQuotaPeriod
period_key = record { key = λ p. p.id }

abbrev pub is_free : SourceType → Bool
is_free SourceType.free = true
is_free SourceType.membership_purchase = false

-- `_columns`, for reading and for writing
unfoldable pub used : Capability → AiQuotaPeriod → ℕ
used itinerary_generation p = p.generation_used
used assistant_message p = p.assistant_used

unfoldable pub limit : Capability → AiQuotaPeriod → ℕ
limit itinerary_generation p = p.generation_limit
limit assistant_message p = p.assistant_limit

unfoldable pub put_used : Capability → ℕ → AiQuotaPeriod → AiQuotaPeriod
put_used itinerary_generation n p = record p { generation_used = n }
put_used assistant_message n p = record p { assistant_used = n }

unfoldable pub period_by_id : ℕ → List AiQuotaPeriod → Option AiQuotaPeriod
period_by_id i = get i

unfoldable pub put_period : AiQuotaPeriod → List AiQuotaPeriod → List AiQuotaPeriod
put_period p = save p

-- The conditions of `_active_membership_period`
unfoldable pub is_active_period : ℕ → Datetime → AiQuotaPeriod → Bool
is_active_period user_id now p =
    p.user_id == user_id
    && not (is_free p.source_type)
    && not (is_before now p.period_start)
    && is_before now p.period_end

abbrev pub later_period : AiQuotaPeriod → Option AiQuotaPeriod → AiQuotaPeriod
later_period p none = p
later_period p (some q) = if is_before p.period_end q.period_end then q else p

-- `order_by(AiQuotaPeriod.period_end.desc()).limit(1)`
unfoldable pub active_membership_period : ℕ → Datetime → List AiQuotaPeriod → Option AiQuotaPeriod
active_membership_period user_id now [] = none
active_membership_period user_id now (p ∷ ps) =
    let rest = active_membership_period user_id now ps in
    if is_active_period user_id now p then some (later_period p rest) else rest

-- The free period of a user with these bounds.
unfoldable pub free_period_row : ℕ → Datetime → Datetime → List AiQuotaPeriod → Option AiQuotaPeriod
free_period_row user_id start end = scalar λ p.
    p.user_id == user_id
    && is_free p.source_type
    && same_time p.period_start start
    && same_time p.period_end end
