-- ===== src/Base/Tables.antt =====
-- A database table as a list of rows. `scalar` is `session.scalar(select(...).where(...))`: the
-- first row that the conditions accept. `save` writes a changed row back under its primary key.
use Prim.Native.Nat.{ℕ, zero, suc, ◌+◌}
use mathlib.Core.Path.{◌≡◌, refl, subst}
use mathlib.Core.Logic.{inl, inr}
use mathlib.Core.Bool.{Bool, true, false}
use mathlib.Core.Option.{Option, none, some, some-injective, none-ne-some}
use mathlib.Core.List.{List, [], ◌∷◌, ◌++◌}
use native.Mathlib.Omega.{arith}
use travel_latest.Base.Lists.{take}
use travel_latest.Base.Tests.{◌==◌, if◌then◌else◌, Bool-cases}

-- A row has a primary key.
pub record Keyed (A : Type 0) : Type 0 where
  pub key : A → ℕ

module _ {A : Type 0} where
  abbrev pub scalar : (A → Bool) → List A → Option A
  scalar p [] = none
  scalar p (x ∷ xs) = if p x then some x else scalar p xs

  abbrev pub count_where : (A → Bool) → List A → ℕ
  count_where p [] = 0
  count_where p (x ∷ xs) = (if p x then 1 else 0) + count_where p xs

  abbrev pub All {κ} : (A → Type κ) → List A → Type κ
  All P [] = Unit
  All P (x ∷ xs) = P x × All P xs

  -- `session.add`
  abbrev pub add : A → List A → List A
  add x rows = rows ++ x ∷ []

module _ {A : Type 0} ⦃k : Keyed A⦄ where
  -- `session.get(Model, id)`
  abbrev pub get : ℕ → List A → Option A
  get i = scalar (λ x. k.key x == i)

  abbrev pub save : A → List A → List A
  save r [] = []
  save r (x ∷ xs) = if k.key x == k.key r then r ∷ save r xs else x ∷ save r xs

module _ {A : Type 0} where
  -- The row that `scalar` returns meets the conditions.
  pub scalar_sound : (p : A → Bool) (xs : List A) (x : A) → scalar p xs ≡ some x → p x ≡ true
  scalar_sound p [] x h = cc
  scalar_sound p (y ∷ xs) x h = ground (arith, scalar_sound p xs x)

  -- It stands in the table.
  pub scalar-All {κ} :
      (P : A → Type κ) (p : A → Bool) (xs : List A) (x : A) → All P xs → scalar p xs ≡ some x → P x
  scalar-All P p [] x a h = absurd (none-ne-some x h)
  scalar-All P p (y ∷ xs) x a h = elim (Bool-cases (p y)) [
    | inl hit ↦ subst P (some-injective y x (rw hit at h)) a.0
    | inr miss ↦ scalar-All P p xs x a.1 (rw miss at h)
  ]

  pub scalar-add :
      (p : A → Bool) (xs : List A) (x : A)
      → scalar p (add x xs)
        ≡ elim (scalar p xs) [ none ↦ if p x then some x else none | some y ↦ some y ]
  scalar-add p [] x = ground arith
  scalar-add p (y ∷ xs) x = ground (arith, scalar-add p xs x)

  pub scalar-add_hit :
      (p : A → Bool) (xs : List A) (x : A)
      → scalar p xs ≡ none
      → p x ≡ true
      → scalar p (add x xs) ≡ some x
  scalar-add_hit p xs x h e = ground (arith, scalar-add p xs x)

  pub All-add {κ} : (P : A → Type κ) (xs : List A) (x : A) → All P xs → P x → All P (add x xs)
  All-add P [] x a h = (h, tt)
  All-add P (y ∷ xs) x a h = (a.0, All-add P xs x a.1 h)

  pub take-All {κ} : (P : A → Type κ) (n : ℕ) (xs : List A) → All P xs → All P (take n xs)
  take-All P zero xs a = tt
  take-All P (suc n) [] a = tt
  take-All P (suc n) (x ∷ xs) a = (a.0, take-All P n xs a.1)

module _ {A : Type 0} ⦃k : Keyed A⦄ where
  -- A query that reads only columns which the write leaves alone, or the key, sees the new row in
  -- place of the old one.
  pub scalar-save :
      (p : A → Bool) (r : A) (xs : List A)
      → ((x : A) → k.key x ≡ k.key r → p x ≡ p r)
      → scalar p (save r xs) ≡ elim (scalar p xs) [
        | none ↦ none
        | some y ↦ if k.key y == k.key r then some r else some y
      ]
  scalar-save p r [] h = refl
  scalar-save p r (x ∷ xs) h = ground (arith, h x, scalar-save p r xs h)

  pub All-save {κ} : (P : A → Type κ) (r : A) (xs : List A) → All P xs → P r → All P (save r xs)
  All-save P r [] a h = tt
  All-save P r (x ∷ xs) a h = elim (Bool-cases (k.key x == k.key r)) [
    | inl same ↦ rw same (h, All-save P r xs a.1 h)
    | inr other ↦ rw other (a.0, All-save P r xs a.1 h)
  ]

module _ {A : Type 0} ⦃k : Keyed A⦄ where
  -- A row that a query finds is found again after it has been written back, if it still meets the
  -- conditions of the query.
  pub scalar-save_self :
      (p : A → Bool) (xs : List A) (x r : A)
      → scalar p xs ≡ some x
      → k.key r ≡ k.key x
      → p r ≡ true
      → scalar p (save r xs) ≡ some r
  scalar-save_self p [] x r h e q = absurd (none-ne-some x h)
  scalar-save_self p (y ∷ xs) x r h e q = ground (arith, scalar-save_self p xs x r)

  -- A query that the new row does not meet, and that found nothing, finds nothing afterwards.
  pub scalar-save-none :
      (p : A → Bool) (xs : List A) (r : A)
      → scalar p xs ≡ none
      → p r ≡ false
      → scalar p (save r xs) ≡ none
  scalar-save-none p [] r h e = refl
  scalar-save-none p (y ∷ xs) r h e = ground (arith, scalar-save-none p xs r)
