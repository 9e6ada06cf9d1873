-- ===== src/Base/Keys.antt =====
-- Tables in which no two rows have the same primary key.
use Prim.Native.Nat.{ℕ}
use mathlib.Core.Path.{◌≡◌, refl}
use mathlib.Core.Logic.{◌≢◌}
use mathlib.Core.Bool.{Bool, false}
use mathlib.Core.Option.{none, some}
use mathlib.Core.List.{List, [], ◌∷◌}
use native.Mathlib.Omega.{arith}
use travel_latest.Base.Tests.{◌==◌, ==_iff, if◌then◌else◌}
use travel_latest.Base.Tables.{
  Keyed, All, scalar, get, save, add, scalar-All, scalar-add, scalar_sound,
}

module _ {A : Type 0} ⦃k : Keyed A⦄ where
  -- No row has the key `i`.
  abbrev pub Lacks : ℕ → List A → Type 0
  Lacks i = All (λ x. (k.key x == i) ≡ false)

  abbrev pub Distinct : List A → Type 0
  Distinct [] = Unit
  Distinct (x ∷ xs) = Lacks (k.key x) xs × Distinct xs

  pub get-skip : (i : ℕ) (x : A) (xs : List A) → (k.key x == i) ≡ false → get i (x ∷ xs) ≡ get i xs
  get-skip i x xs h = rw h

  lift_found :
      (x : A) (xs ys : List A)
      → Lacks (k.key x) ys
      → All (λ y. get (k.key y) xs ≡ some y) ys
      → All (λ y. get (k.key y) (x ∷ xs) ≡ some y) ys
  lift_found x xs [] d f = tt
  lift_found x xs (y ∷ ys) d f = (ground (arith, d.0, f.0), lift_found x xs ys d.1 f.1)

  -- Every row is found by its key.
  pub get-Distinct : (xs : List A) → Distinct xs → All (λ x. get (k.key x) xs ≡ some x) xs
  get-Distinct [] d = tt
  get-Distinct (x ∷ xs) d = (ground arith, lift_found x xs xs d.0 (get-Distinct xs d.1))

  pub get-scalar :
      (p : A → Bool) (xs : List A) (x : A)
      → Distinct xs
      → scalar p xs ≡ some x
      → get (k.key x) xs ≡ some x
  get-scalar p xs x d h = scalar-All (λ y. get (k.key y) xs ≡ some y) p xs x (get-Distinct xs d) h

  pub get_sound : (i : ℕ) (xs : List A) (x : A) → get i xs ≡ some x → k.key x ≡ i
  get_sound i xs x h = let e = scalar_sound (λ y. k.key y == i) xs x h in (==_iff _ _).0 e

  -- A row after a write of another one, or of its own.
  pub get-save :
      (i : ℕ) (r : A) (xs : List A)
      → get i (save r xs)
        ≡ (if k.key r == i then elim (get i xs) [ none ↦ none | some _ ↦ some r ] else get i xs)
  get-save i r [] = ground arith
  get-save i r (x ∷ xs) = ground (arith, get-save i r xs)

  pub get-Lacks : (i : ℕ) (xs : List A) → Lacks i xs → get i xs ≡ none
  get-Lacks i [] l = refl
  get-Lacks i (x ∷ xs) l = rw l.0 (get-Lacks i xs l.1)

  pub get-add_new : (x : A) (xs : List A) → Lacks (k.key x) xs → get (k.key x) (add x xs) ≡ some x
  get-add_new x xs l =
      ground (arith, scalar-add (λ y. k.key y == k.key x) xs x, get-Lacks (k.key x) xs l)

  pub get-add_old : (i : ℕ) (x y : A) (xs : List A) → get i xs ≡ some y → get i (add x xs) ≡ some y
  get-add_old i x y xs h = ground (arith, scalar-add (λ z. k.key z == i) xs x)

  pub get-add_some : (x : A) (xs : List A) → get (k.key x) (add x xs) ≢ none
  get-add_some x xs = ground (arith, scalar-add (λ z. k.key z == k.key x) xs x)
