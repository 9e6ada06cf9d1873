-- ===== src/Base/Exec/Gives.antt =====
-- What actions return. `Gives Q m`: where the action returns, its result has `Q`.
use mathlib.Core.Path.{◌≡◌, subst}
use mathlib.Core.Logic.{inl, inr}
use mathlib.Core.Bool.{Bool, true, false}
use mathlib.Core.Option.{Option, none, some}
use native.Mathlib.Omega.{arith}
use travel_latest.Base.Tests.{if◌then◌else◌}
use travel_latest.Base.Exec.{Result, ok, Session, Exec, pure, raise, with_some, ◌>>=◌, Result-cases}

pub record Gives {D E A : Type 0} (Q : A → Type 0) (m : Exec D E A) : Type 0 where
  pub at : (s : Session D) (a : A) → (m s).0 ≡ ok a → Q a

ok-injective : {E A : Type 0} (a b : A) → ◌≡◌ {A = Result E A} (ok a) (ok b) → a ≡ b
ok-injective a b h = cc

module _ {D E A : Type 0} {Q : A → Type 0} where
  pub Gives-pure : (a : A) → Q a → Gives {D = D} {E = E} Q (pure a)
  unfolding pure
  Gives-pure a q = record { at = λ s b h. subst Q (ok-injective a b h) q }

  pub Gives-raise : (e : E) → Gives {D = D} Q (raise e)
  unfolding raise
  Gives-raise e = record { at = λ s b h. absurd (cc) }

  pub Gives-if :
      (c : Bool) (then_ else_ : Exec D E A)
      → Gives Q then_
      → Gives Q else_
      → Gives Q (if c then then_ else else_)
  Gives-if true then_ else_ p q = p
  Gives-if false then_ else_ p q = q

module _ {D E A B : Type 0} {Q : B → Type 0} where
  pub Gives-bind :
      (m : Exec D E A) (f : A → Exec D E B) → ((a : A) → Gives Q (f a)) → Gives Q (m >>= f)
  unfolding ◌>>=◌
  Gives-bind m f g = record {
    at = λ s b h. elim (Result-cases (m s).0) [
      | inl (a, e) ↦ (g a).at (m s).1 b (ground arith)
      | inr (x, e) ↦ absurd (ground arith)
    ];
  }

  pub Gives-with_some :
      (o : Option A) (m : Exec D E B) (f : A → Exec D E B)
      → Gives Q m
      → ((a : A) → Gives Q (f a))
      → Gives Q (with_some o m f)
  unfolding with_some
  Gives-with_some none m f p q = p
  Gives-with_some (some a) m f p q = q a

pub ruleset gives_rules = (Gives-pure, Gives-raise, Gives-if, Gives-bind, Gives-with_some)
