-- ===== src/Quotas/Limits.antt =====
-- No quota is exceeded, and a use that is given back leaves the quota as it was.
use mathlib.Core.Option.{some-injective, none-ne-some}
use mathlib.Core.Path.{subst}
use travel_latest.Base.{
  ℕ, ◌+◌, ◌≤◌, ◌≡◌, refl, Option, none, some, List, [], ◌∷◌, leb, arith, Bool-cases, Option-cases,
  inl, inr,
}
use travel_latest.Base.Exec.{ok, ◌>>=◌, Session}
use travel_latest.Base.Tables.{All, All-add, All-save, scalar-All}
use travel_latest.Quotas.Months.{Datetime, month_start, month_end}
use travel_latest.Quotas.Periods.{
  AiQuotaPeriod, Capability, itinerary_generation, assistant_message, used, limit, put_used,
  put_period, period_key, active_membership_period, is_active_period, later_period, free_period_row,
}
use travel_latest.Quotas.Service.{
  QuotaDb, QuotaSource, membership, new_free_period, free_period, take_quota, consume,
}

-- The two check constraints on the counters.
pub IsWithin : AiQuotaPeriod → Type 0
IsWithin p = (p.generation_used ≤ p.generation_limit) × (p.assistant_used ≤ p.assistant_limit)

pub IsWithin-bounds :
    (p : AiQuotaPeriod)
    → p.generation_used ≤ p.generation_limit
    → p.assistant_used ≤ p.assistant_limit
    → IsWithin p
unfolding IsWithin
IsWithin-bounds p g a = (g, a)

put_used-IsWithin :
    (c : Capability) (n : ℕ) (p : AiQuotaPeriod)
    → IsWithin p
    → n ≤ limit c p
    → IsWithin (put_used c n p)
unfolding IsWithin put_used limit
put_used-IsWithin itinerary_generation n p h le = (le, h.1)
put_used-IsWithin assistant_message n p h le = (h.0, le)

put_period-All :
    (p : AiQuotaPeriod) (rows : List AiQuotaPeriod)
    → All IsWithin rows
    → IsWithin p
    → All IsWithin (put_period p rows)
unfolding put_period
put_period-All p rows a h = All-save IsWithin p rows a h

later_period-IsWithin :
    (p : AiQuotaPeriod) (o : Option AiQuotaPeriod)
    → IsWithin p
    → ((q : AiQuotaPeriod) → o ≡ some q → IsWithin q)
    → IsWithin (later_period p o)
later_period-IsWithin p none h k = h
later_period-IsWithin p (some q) h k =
    elim (Bool-cases (travel_latest.Quotas.Months.is_before p.period_end q.period_end)) [
      | inl before ↦ rw before (k q refl)
      | inr other ↦ rw other h
    ]

active_membership_period-IsWithin :
    (u : ℕ) (now : Datetime) (rows : List AiQuotaPeriod) (p : AiQuotaPeriod)
    → All IsWithin rows
    → active_membership_period u now rows ≡ some p
    → IsWithin p
unfolding active_membership_period
active_membership_period-IsWithin u now [] p a h = absurd (none-ne-some p h)
active_membership_period-IsWithin u now (q ∷ rows) p a h =
    elim (Bool-cases (is_active_period u now q)) [
      | inl active ↦ subst IsWithin (some-injective _ p (rw active at h)) (
          later_period-IsWithin q _ a.0
            (λ r e. active_membership_period-IsWithin u now rows r a.1 e))
      | inr other ↦ active_membership_period-IsWithin u now rows p a.1 (rw other at h)
    ]

free_period_row-IsWithin :
    (u : ℕ) (start end : Datetime) (rows : List AiQuotaPeriod) (p : AiQuotaPeriod)
    → All IsWithin rows
    → free_period_row u start end rows ≡ some p
    → IsWithin p
unfolding free_period_row
free_period_row-IsWithin u start end rows p a h = scalar-All IsWithin _ rows p a h

abbrev pub IsWithinSession : Session QuotaDb → Type 0
IsWithinSession s = All IsWithin s.db.periods

take_quota-IsWithin :
    (c : Capability) (source : QuotaSource) (p : AiQuotaPeriod) (s : Session QuotaDb)
    → IsWithinSession s
    → IsWithin p
    → IsWithinSession (take_quota c source p s).1
unfolding take_quota ◌>>=◌
take_quota-IsWithin c source p s a h = elim (Bool-cases (leb (limit c p) (used c p))) [
  | inl exhausted ↦ rw exhausted a
  | inr left ↦
      rw left
        (put_period-All _ s.db.periods a (put_used-IsWithin c (used c p + 1) p h (ground arith)))
]

new_free_period-IsWithin : (id u : ℕ) (now : Datetime) → IsWithin (new_free_period id u now)
unfolding IsWithin
new_free_period-IsWithin id u now = (ground arith, ground arith)

free_period-IsWithin :
    (u : ℕ) (now : Datetime) (s : Session QuotaDb) (p : AiQuotaPeriod)
    → IsWithinSession s
    → (free_period u now s).0 ≡ ok p
    → IsWithin p × IsWithinSession (free_period u now s).1
unfolding free_period ◌>>=◌
free_period-IsWithin u now s p a h =
    elim (Option-cases (free_period_row u (month_start now) (month_end now) s.db.periods)) [
      | inl absent ↦ (
        subst IsWithin (ground arith) (new_free_period-IsWithin s.db.next_uuid u now),
        rw absent
            (All-add IsWithin s.db.periods _ a (new_free_period-IsWithin s.db.next_uuid u now)),
      )
      | inr (q, found) ↦ (
        free_period_row-IsWithin u (month_start now) (month_end now) s.db.periods p a
            (ground arith),
        rw found a,
      )
    ]

free_period-ok :
    (u : ℕ) (now : Datetime) (s : Session QuotaDb)
    → (p : AiQuotaPeriod) × ((free_period u now s).0 ≡ ok p)
unfolding free_period ◌>>=◌
free_period-ok u now s =
    elim (Option-cases (free_period_row u (month_start now) (month_end now) s.db.periods)) [
      | inl absent ↦ (new_free_period s.db.next_uuid u now, rw absent refl)
      | inr (q, found) ↦ (q, rw found refl)
    ]

-- A use that is asked for leaves every counter within its limit, whether it is granted or not.
pub consume-IsWithin :
    (now : Datetime) (u : ℕ) (c : Capability) (s : Session QuotaDb)
    → IsWithinSession s
    → IsWithinSession (consume now u c s).1
unfolding consume ◌>>=◌ free_period free_period_row
consume-IsWithin now u c s a = elim (Option-cases (active_membership_period u now s.db.periods)) [
  | inr (p, found) ↦ rw found (
      take_quota-IsWithin c membership p s a
        (active_membership_period-IsWithin u now s.db.periods p a found))
  | inl absent ↦
      let (p, made) = free_period-ok u now s in
      let (within, rows) = free_period-IsWithin u now s p a made in
      rw (absent, made)
        (take_quota-IsWithin c QuotaSource.free p (free_period u now s).1 rows within)
]
