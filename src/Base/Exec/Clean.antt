-- ===== src/Base/Exec/Clean.antt =====
-- Requests that fail without a trace. `Pending m`: the action commits nothing. `Clean m`: where the
-- action raises, nothing has been committed, so the durable rows are as before.
use mathlib.Core.Path.{◌≡◌, refl}
use mathlib.Core.Logic.{inl, inr}
use mathlib.Core.Bool.{Bool, true, false}
use mathlib.Core.Option.{Option, none, some}
use native.Mathlib.Omega.{arith}
use travel_latest.Base.Tests.{if◌then◌else◌}
use travel_latest.Base.Exec.{
  Result, err, Session, Exec, pure, raise, gets, lift, or_raise, with_some, raise_if, modify,
  commit, rollback, ◌>>=◌, begin, request, Result-cases,
}

pub record Pending {D E A : Type 0} (m : Exec D E A) : Type 0 where
  pub at : (s : Session D) → (m s).1.saved ≡ s.saved

pub record Clean {D E A : Type 0} (m : Exec D E A) : Type 0 where
  pub at : (s : Session D) (e : E) → (m s).0 ≡ err e → (m s).1.saved ≡ s.saved

module _ {D E A : Type 0} where
  pub Pending-pure : (a : A) → Pending {D = D} {E = E} (pure a)
  unfolding pure
  Pending-pure a = record { at = λ s. refl }

  pub Pending-raise : (e : E) → Pending {D = D} {A = A} (raise e)
  unfolding raise
  Pending-raise e = record { at = λ s. refl }

  pub Pending-gets : (f : D → A) → Pending {E = E} (gets f)
  unfolding gets
  Pending-gets f = record { at = λ s. refl }

  pub Pending-lift : (r : Result E A) → Pending {D = D} (lift r)
  unfolding lift
  Pending-lift r = record { at = λ s. refl }

  pub Pending-or_raise : (o : Option A) (e : E) → Pending {D = D} (or_raise o e)
  unfolding or_raise
  Pending-or_raise none e = record { at = λ s. refl }
  Pending-or_raise (some a) e = record { at = λ s. refl }

  pub Pending-if :
      (c : Bool) (then_ else_ : Exec D E A)
      → Pending then_
      → Pending else_
      → Pending (if c then then_ else else_)
  Pending-if true then_ else_ p q = p
  Pending-if false then_ else_ p q = q

  pub Clean-Pending : {m : Exec D E A} → Pending m → Clean m
  Clean-Pending p = record { at = λ s e h. p.at s }

  pub Clean-if :
      (c : Bool) (then_ else_ : Exec D E A)
      → Clean then_
      → Clean else_
      → Clean (if c then then_ else else_)
  Clean-if true then_ else_ p q = p
  Clean-if false then_ else_ p q = q

module _ {D E : Type 0} where
  pub Pending-raise_if : (b : Bool) (e : E) → Pending {D = D} (raise_if b e)
  unfolding raise_if
  Pending-raise_if true e = record { at = λ s. refl }
  Pending-raise_if false e = record { at = λ s. refl }

  pub Pending-modify : (f : D → D) → Pending {E = E} (modify f)
  unfolding modify
  Pending-modify f = record { at = λ s. refl }

  pub Pending-rollback : Pending {D = D} {E = E} rollback
  unfolding rollback
  Pending-rollback = record { at = λ s. refl }

module _ {D E A B : Type 0} where
  pub Pending-bind :
      (m : Exec D E A) (f : A → Exec D E B)
      → Pending m
      → ((a : A) → Pending (f a))
      → Pending (m >>= f)
  unfolding ◌>>=◌
  Pending-bind m f pm pf = record {
    at = λ s. elim (Result-cases (m s).0) [
      | inl (a, e) ↦ ground (arith, (pf a).at (m s).1, pm.at s)
      | inr (x, e) ↦ ground (arith, pm.at s)
    ];
  }

  pub Pending-with_some :
      (o : Option A) (m : Exec D E B) (f : A → Exec D E B)
      → Pending m
      → ((a : A) → Pending (f a))
      → Pending (with_some o m f)
  unfolding with_some
  Pending-with_some none m f pm pf = pm
  Pending-with_some (some a) m f pm pf = pf a

  pub Clean-with_some :
      (o : Option A) (m : Exec D E B) (f : A → Exec D E B)
      → Clean m
      → ((a : A) → Clean (f a))
      → Clean (with_some o m f)
  unfolding with_some
  Clean-with_some none m f pm pf = pm
  Clean-with_some (some a) m f pm pf = pf a

  pub Clean-bind :
      (m : Exec D E A) (f : A → Exec D E B) → Pending m → ((a : A) → Clean (f a)) → Clean (m >>= f)
  unfolding ◌>>=◌
  Clean-bind m f pm cf = record {
    at = λ s x. elim (Result-cases (m s).0) [
      | inl (a, e) ↦ λ h. ground (arith, (cf a).at (m s).1 x, pm.at s)
      | inr (y, e) ↦ λ h. ground (arith, pm.at s)
    ];
  }

module _ {D E B : Type 0} where
  -- A request that ends with its commit.
  pub Clean-commit : (b : B) → Clean {D = D} {E = E} (commit >>= λ _. pure b)
  unfolding ◌>>=◌
  Clean-commit b = record { at = λ s e h. cc }

pub ruleset pending_rules = (
  Pending-pure, Pending-raise, Pending-gets, Pending-lift, Pending-or_raise, Pending-if,
  Pending-raise_if, Pending-modify, Pending-rollback, Pending-bind, Pending-with_some,
)

pub ruleset clean_rules = (Clean-commit, Clean-if, Clean-with_some, Clean-bind)

-- A clean request that fails leaves the durable rows as they were.
pub request-Clean :
    {D E A : Type 0} (m : Exec D E A) (d : D) (e : E)
    → Clean m
    → (request m d).0 ≡ err e
    → (request m d).1 ≡ d
request-Clean m d e c h = c.at (begin d) e h
