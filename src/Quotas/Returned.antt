-- ===== src/Quotas/Returned.antt =====
-- A use that is given back.
use mathlib.Core.Path.{subst}
use travel_latest.Base.{
  ℕ, ◌+◌, ◌-◌, ◌≡◌, refl, sym, ap, ◌∙◌, true, false, some, List, leb, ltb, arith,
}
use travel_latest.Base.Exec.{ok, ◌>>=◌, Session}
use travel_latest.Base.Tables.{scalar_sound, scalar-save_self}
use travel_latest.Quotas.Months.{Datetime}
use travel_latest.Quotas.Periods.{
  AiQuotaPeriod, Capability, itinerary_generation, assistant_message, used, limit, put_used,
  period_by_id, put_period, period_key, active_membership_period,
}
use travel_latest.Quotas.Service.{
  QuotaDb, membership, AiEntitlementConsumption, take_quota, consume, release,
}

put_used-id : (c : Capability) (n : ℕ) (p : AiQuotaPeriod) → (put_used c n p).id ≡ p.id
unfolding put_used
put_used-id itinerary_generation n p = refl
put_used-id assistant_message n p = refl

used-put_used : (c : Capability) (n : ℕ) (p : AiQuotaPeriod) → used c (put_used c n p) ≡ n
unfolding used put_used
used-put_used itinerary_generation n p = refl
used-put_used assistant_message n p = refl

put_used_back :
    (c : Capability) (n : ℕ) (p : AiQuotaPeriod) → put_used c (used c p) (put_used c n p) ≡ p
unfolding used put_used
put_used_back itinerary_generation n p = refl
put_used_back assistant_message n p = refl

period_by_id-put :
    (i : ℕ) (rows : List AiQuotaPeriod) (p q : AiQuotaPeriod)
    → period_by_id i rows ≡ some p
    → q.id ≡ p.id
    → period_by_id i (put_period q rows) ≡ some q
unfolding period_by_id put_period
period_by_id-put i rows p q f e =
    scalar-save_self _ rows p q f e (let same = scalar_sound _ rows p f in ground arith)

-- The answer to a use of the period `p`.
abbrev granted : Capability → AiQuotaPeriod → AiEntitlementConsumption
granted c p = record {
  source = membership;
  remaining = limit c p - used c p - 1;
  period_end = p.period_end;
  period_id = p.id;
  capability = c;
}

abbrev with_row : AiQuotaPeriod → Session QuotaDb → Session QuotaDb
with_row q s = record s { db = record s.db { periods = put_period q s.db.periods } }

consume-granted :
    (now : Datetime) (u : ℕ) (c : Capability) (p : AiQuotaPeriod) (s : Session QuotaDb)
    → active_membership_period u now s.db.periods ≡ some p
    → leb (limit c p) (used c p) ≡ false
    → consume now u c s ≡ (ok (granted c p), with_row (put_used c (used c p + 1) p) s)
unfolding consume take_quota ◌>>=◌
consume-granted now u c p s active left = rw (active, left) refl

release_lem :
    (k : AiEntitlementConsumption) (q : AiQuotaPeriod) (s : Session QuotaDb)
    → period_by_id k.period_id s.db.periods ≡ some q
    → ltb 0 (used k.capability q) ≡ true
    → (release k s).1 ≡ with_row (put_used k.capability (used k.capability q - 1) q) s
unfolding release ◌>>=◌
release_lem k q s found some_used = rw (found, some_used) refl

-- What a granted use leaves, and its return.
pub record IsReturnable (c : Capability) (p : AiQuotaPeriod) (k : AiEntitlementConsumption)
    (s : Session QuotaDb) : Type 0 where
  pub accounted : used c p + 1 + k.remaining ≡ limit c p
  pub counted : period_by_id p.id s.db.periods ≡ some (put_used c (used c p + 1) p)
  pub returned : period_by_id p.id (release k s).1.db.periods ≡ some p

granted-IsReturnable :
    (c : Capability) (p : AiQuotaPeriod) (s : Session QuotaDb)
    → period_by_id p.id s.db.periods ≡ some p
    → leb (limit c p) (used c p) ≡ false
    → IsReturnable c p (granted c p) (with_row (put_used c (used c p + 1) p) s)
granted-IsReturnable c p s found left =
    let q = put_used c (used c p + 1) p in
    let counted = period_by_id-put p.id s.db.periods p q found (put_used-id c (used c p + 1) p) in
    let n = used-put_used c (used c p + 1) p in
    let back = release_lem (granted c p) q (with_row q s) counted (ground (arith, n)) in
    record {
      accounted = ground (arith, left);
      counted = counted;
      returned =
          ap (λ t. period_by_id p.id t.db.periods) back
          ∙ period_by_id-put p.id (with_row q s).db.periods q (put_used c (used c q - 1) q) counted
              (put_used-id c (used c q - 1) q)
          ∙ ap some
              (ap (λ m. put_used c m q) (ground (arith, n)) ∙ put_used_back c (used c p + 1) p);
    }

-- A member's use is granted while the counter is below the limit: it adds one to the counter of the
-- period and reports what is left, and after it is given back the row of the period is what it was.
pub consume_release :
    (now : Datetime) (u : ℕ) (c : Capability) (p : AiQuotaPeriod) (s : Session QuotaDb)
    → active_membership_period u now s.db.periods ≡ some p
    → period_by_id p.id s.db.periods ≡ some p
    → leb (limit c p) (used c p) ≡ false
    → let (r, s') = consume now u c s in
      (k : AiEntitlementConsumption) × (r ≡ ok k) × IsReturnable c p k s'
consume_release now u c p s active found left =
    let run = consume-granted now u c p s active left in
    (
      granted c p,
      ap (λ x. x.0) run,
      subst (λ x. IsReturnable c p (granted c p) x.1) (sym run)
          (granted-IsReturnable c p s found left),
    )
