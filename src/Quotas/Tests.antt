-- ===== src/Quotas/Tests.antt =====
-- The theorems on the quotas at concrete periods.
use travel_latest.Base.{◌≡◌, leb, refl, false, some, [], ◌∷◌, arith}
use travel_latest.Base.Exec.{ok, Session, begin}
use travel_latest.Quotas.Months.{Datetime, is_before}
use travel_latest.Quotas.Periods.{
  AiQuotaPeriod, SourceType, assistant_message, used, limit, period_by_id, active_membership_period,
  is_active_period,
}
use travel_latest.Quotas.Service.{QuotaDb, membership, AiEntitlementConsumption, consume}
use travel_latest.Quotas.Limits.{IsWithin-bounds, IsWithinSession, consume-IsWithin}
use travel_latest.Quotas.Returned.{IsReturnable, consume_release}

abbrev new_year : Datetime
new_year = record { year = 2025; month = 12; day = 31; time = 5 }

abbrev next_year : Datetime
next_year = record { year = 2026; month = 12; day = 31; time = 5 }

abbrev member_period : AiQuotaPeriod
member_period = record {
  id = 1;
  user_id = 2;
  source_type = SourceType.membership_purchase;
  membership_purchase_id = some 3;
  period_start = record { year = 2025; month = 12; day = 1; time = 0 };
  period_end = next_year;
  generation_limit = 5;
  generation_used = 5;
  assistant_limit = 9;
  assistant_used = 4;
}

abbrev members : Session QuotaDb
members = begin (record { periods = member_period ∷ []; next_uuid = 10 })

within : IsWithinSession members
within = (IsWithin-bounds member_period (omega arith) (omega arith), tt)

active : active_membership_period 2 new_year members.db.periods ≡ some member_period
unfolding active_membership_period is_active_period is_before
active = refl

stored : period_by_id 1 members.db.periods ≡ some member_period
unfolding period_by_id
stored = refl

consume_within_example : IsWithinSession (consume new_year 2 assistant_message members).1
consume_within_example = consume-IsWithin new_year 2 assistant_message members within

abbrev granted_use : AiEntitlementConsumption
granted_use = record {
  source = membership;
  remaining = 4;
  period_end = next_year;
  period_id = 1;
  capability = assistant_message;
}

below : leb (limit assistant_message member_period) (used assistant_message member_period) ≡ false
unfolding limit used
below = refl

consume_release_example :
    let (r, s) = consume new_year 2 assistant_message members in
    (k : AiEntitlementConsumption) × (r ≡ ok k) × IsReturnable assistant_message member_period k s
consume_release_example =
    consume_release new_year 2 assistant_message member_period members active stored below
