-- ===== src/Base/Queries.antt =====
-- Queries that return several rows: `where(...)`, `order_by(column)`, `delete(...)` and
-- `func.max(column)`.
use Prim.Native.Nat.{ℕ, suc}
use mathlib.Core.Bool.{Bool}
use mathlib.Core.List.{List, [], ◌∷◌}
use travel_latest.Base.Tests.{ltb, leb, if◌then◌else◌}

module _ {A : Type 0} where
  -- The rows that meet the conditions.
  abbrev pub rows_where : (A → Bool) → List A → List A
  rows_where p [] = []
  rows_where p (x ∷ xs) = let rest = rows_where p xs in if p x then x ∷ rest else rest

  -- `delete(Model).where(...)`
  abbrev pub delete_where : (A → Bool) → List A → List A
  delete_where p [] = []
  delete_where p (x ∷ xs) = let rest = delete_where p xs in if p x then rest else x ∷ rest

  abbrev pub insert_by : (A → ℕ) → A → List A → List A
  insert_by key x [] = x ∷ []
  insert_by key x (y ∷ ys) = if leb (key x) (key y) then x ∷ y ∷ ys else y ∷ insert_by key x ys

  -- Rows with equal columns keep the order of the table.
  abbrev pub order_by : (A → ℕ) → List A → List A
  order_by key [] = []
  order_by key (x ∷ xs) = insert_by key x (order_by key xs)

  -- `coalesce(max(column), -1) + 1`
  abbrev pub next_position : (A → ℕ) → List A → ℕ
  next_position key [] = 0
  next_position key (x ∷ xs) =
      let rest = next_position key xs in if ltb (key x) rest then rest else suc (key x)
