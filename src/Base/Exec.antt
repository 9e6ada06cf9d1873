-- ===== src/Base/Exec.antt =====
-- A request over a SQLAlchemy session (backend/app/core/database.py): the rows that the session
-- sees, the rows that the last commit made durable, and an exception that ends the request.
-- A request that ends without a commit loses what it wrote: `saved` is what it leaves behind.
pub mod Keeps
pub mod Clean
pub mod Gives
use mathlib.Core.Path.{◌≡◌, refl}
use mathlib.Core.Logic.{◌⊎◌, inl, inr}
use mathlib.Core.Bool.{Bool, true, false}
use mathlib.Core.Option.{Option, none, some}
use native.Mathlib.Omega.{arith}

pub data Result (E A : Type 0) : Type 0 where
  ok : A → Result E A
  err : E → Result E A

pub record Session (D : Type 0) : Type 0 where
  pub db : D
  pub saved : D

abbrev pub Exec : Type 0 → Type 0 → Type 0 → Type 0
Exec D E A = Session D → Result E A × Session D

module _ {D E A : Type 0} where
  unfoldable pub pure : A → Exec D E A
  pure a s = (ok a, s)

  unfoldable pub raise : E → Exec D E A
  raise e s = (err e, s)

  -- The rows that the session sees.
  unfoldable pub gets : (D → A) → Exec D E A
  gets f s = (ok (f s.db), s)

  -- A call that raises or returns without a look at the session.
  unfoldable pub lift : Result E A → Exec D E A
  lift r s = (r, s)

  -- `if x is None: raise e`; also `try: x = call() except Exception: raise e`, where `none` is a
  -- call that raised.
  unfoldable pub or_raise : Option A → E → Exec D E A
  or_raise none e s = (err e, s)
  or_raise (some a) e s = (ok a, s)

module _ {D E A B : Type 0} where
  -- `if x is None: <d>`, and the rest of the body otherwise
  unfoldable pub with_some : Option A → Exec D E B → (A → Exec D E B) → Exec D E B
  with_some none d f = d
  with_some (some a) d f = f a

module _ {D E : Type 0} where
  -- `if c: raise e`
  unfoldable pub raise_if : Bool → E → Exec D E (Unit {0})
  raise_if true e s = (err e, s)
  raise_if false e s = (ok tt, s)

  -- Assignments to rows, `session.add` and `session.flush`.
  unfoldable pub modify : (D → D) → Exec D E (Unit {0})
  modify f s = (ok tt, record s { db = f s.db })

  unfoldable pub commit : Exec D E (Unit {0})
  commit s = (ok tt, record s { saved = s.db })

  -- `session.rollback`
  unfoldable pub rollback : Exec D E (Unit {0})
  rollback s = (ok tt, record s { db = s.saved })

module _ {D E A B : Type 0} where
  infixl 5 ◌>>=◌ ◌>>◌
  -- Opening this opens the actions above too.
  unfoldable pub ◌>>=◌ : Exec D E A → (A → Exec D E B) → Exec D E B
  unfolding pure raise gets lift or_raise with_some raise_if modify commit rollback
  ◌>>=◌ m f s = let (r, s') = m s in elim r [ ok a ↦ f a s' | err e ↦ (err e, s') ]

  abbrev pub ◌>>◌ : Exec D E A → Exec D E B → Exec D E B
  m >> k = m >>= λ _. k

abbrev pub begin : {D : Type 0} → D → Session D
begin d = record { db = d; saved = d }

-- A whole request on a session of its own: its result, and the durable rows after it.
abbrev pub request : {D E A : Type 0} → Exec D E A → D → Result E A × D
request m d = let (r, s) = m (begin d) in (r, s.saved)

pub Result-cases :
    {E A : Type 0} (r : Result E A) → ((a : A) × (r ≡ ok a)) ⊎ ((e : E) × (r ≡ err e))
Result-cases (ok a) = inl (a, refl)
Result-cases (err e) = inr (e, refl)

module _ {D E A B : Type 0} (m : Exec D E A) (f : A → Exec D E B) (s : Session D) where
  pub >>=-ok : (a : A) → (m s).0 ≡ ok a → (m >>= f) s ≡ f a (m s).1
  unfolding ◌>>=◌
  >>=-ok a h = ground arith

  pub >>=-err : (e : E) → (m s).0 ≡ err e → (m >>= f) s ≡ (err e, (m s).1)
  unfolding ◌>>=◌
  >>=-err e h = ground arith
