-- ===== src/Base/Exec/Keeps.antt =====
-- Invariants of actions, with one rule for each way to build an action. `Keeps P m`: from a session
-- with `P` the action leaves one with `P`, also where it raises.
use mathlib.Core.Path.{◌≡◌, refl}
use mathlib.Core.Bool.{Bool, true, false}
use mathlib.Core.Option.{Option, none, some}
use travel_latest.Base.Tests.{if◌then◌else◌}
use travel_latest.Base.Exec.{
  Result, ok, err, Session, Exec, pure, raise, gets, lift, or_raise, with_some, raise_if, modify,
  ◌>>=◌,
}

pub record Keeps {D E A : Type 0} (P : Session D → Type 0) (m : Exec D E A) : Type 0 where
  pub at : (s : Session D) → P s → P (m s).1

module _ {D E A : Type 0} {P : Session D → Type 0} where
  pub Keeps-pure : (a : A) → Keeps {E = E} P (pure a)
  unfolding pure
  Keeps-pure a = record { at = λ s p. p }

  pub Keeps-raise : (e : E) → Keeps {A = A} P (raise e)
  unfolding raise
  Keeps-raise e = record { at = λ s p. p }

  pub Keeps-if :
      (c : Bool) (then_ else_ : Exec D E A)
      → (c ≡ true → Keeps P then_)
      → (c ≡ false → Keeps P else_)
      → Keeps P (if c then then_ else else_)
  Keeps-if true then_ else_ taken skipped = taken refl
  Keeps-if false then_ else_ taken skipped = skipped refl

  pub Keeps-gets : (f : D → A) → Keeps {E = E} P (gets f)
  unfolding gets
  Keeps-gets f = record { at = λ s p. p }

  pub Keeps-or_raise : (o : Option A) (e : E) → Keeps P (or_raise o e)
  unfolding or_raise
  Keeps-or_raise none e = record { at = λ s p. p }
  Keeps-or_raise (some a) e = record { at = λ s p. p }

  pub Keeps-lift : (r : Result E A) → Keeps P (lift r)
  unfolding lift
  Keeps-lift r = record { at = λ s p. p }

module _ {D E : Type 0} {P : Session D → Type 0} where
  pub Keeps-raise_if : (b : Bool) (e : E) → Keeps P (raise_if b e)
  unfolding raise_if
  Keeps-raise_if true e = record { at = λ s p. p }
  Keeps-raise_if false e = record { at = λ s p. p }

  pub Keeps-modify :
      (f : D → D)
      → ((s : Session D) → P s → P (record s { db = f s.db }))
      → Keeps {E = E} P (modify f)
  unfolding modify
  Keeps-modify f h = record { at = h }

module _ {D E A B : Type 0} {P : Session D → Type 0} where
  continue :
      (f : A → Exec D E B) (r : Result E A) (s : Session D)
      → P s
      → ((a : A) → r ≡ ok a → Keeps P (f a))
      → P (elim r as (λ _. Result E B × Session D) [ ok a ↦ f a s | err e ↦ (err e, s) ]).1
  continue f (ok a) s p kf = (kf a refl).at s p
  continue f (err e) s p kf = p

  pub Keeps-bind :
      (m : Exec D E A) (f : A → Exec D E B)
      → Keeps P m
      → ((a : A) → Keeps P (f a))
      → Keeps P (m >>= f)
  unfolding ◌>>=◌
  Keeps-bind m f km kf = record {
    at = λ s p. let (returned, after) = m s in continue f returned after (km.at s p) (λ a _. kf a);
  }

  -- The rest of the block may use a fact about what the first action returns.
  pub Keeps-bind_with :
      (Q : A → Type 0) (m : Exec D E A) (f : A → Exec D E B)
      → Keeps P m
      → ((s : Session D) (a : A) → P s → (m s).0 ≡ ok a → Q a)
      → ((a : A) → Q a → Keeps P (f a))
      → Keeps P (m >>= f)
  unfolding ◌>>=◌
  Keeps-bind_with Q m f km q kf = record {
    at = λ s p. let (r, s') = m s in continue f r s' (km.at s p) (λ a e. kf a (q s a p e));
  }

  pub Keeps-with_some :
      (o : Option A) (m : Exec D E B) (f : A → Exec D E B)
      → Keeps P m
      → ((a : A) → o ≡ some a → Keeps P (f a))
      → Keeps P (with_some o m f)
  unfolding with_some
  Keeps-with_some none m f km kf = km
  Keeps-with_some (some a) m f km kf = kf a refl

module _ {D E B : Type 0} {P : Session D → Type 0} where
  -- The rest of the block may use that the test did not raise.
  pub after_check :
      (c : Bool) (e : E) (f : Unit → Exec D E B)
      → (c ≡ false → Keeps P (f tt))
      → Keeps P (raise_if c e >>= f)
  unfolding ◌>>=◌
  after_check true e f passed = record { at = λ s p. p }
  after_check false e f passed = record { at = λ s p. (passed refl).at s p }

pub ruleset keeps_rules = (
  Keeps-pure, Keeps-raise, Keeps-lift, Keeps-if, Keeps-gets, Keeps-or_raise, Keeps-raise_if,
  Keeps-modify, Keeps-bind, Keeps-with_some,
)
