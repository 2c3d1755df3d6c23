-- ===== src/Session/Yields.antt =====
-- What the value is that an action returns, if it returns.
use myorishop.Session.{Session, Result, ok, err, Action, pure, resume, ◌>>=◌}

abbrev pub Value : {A : Type 0} → (A → Type 0) → Result A → Type 0
Value Q (ok a) = Q a
Value Q (err e) = Unit

pub record Yields {A : Type 0} (Q : A → Type 0) (m : Action A) : Type 0 where
  pub at : (s : Session) → Value Q (m s).0

module _ {A B : Type 0} where
  pub Yields-bind :
      (Q : B → Type 0) (m : Action A) (f : A → Action B)
      → ((a : A) → Yields Q (f a))
      → Yields Q (m >>= f)
  Yields-bind Q m f h = record { at = λ s. go (m s).0 (m s).1 }
    where
      go : (r : Result A) (s : Session) → Value Q (resume r f s).0
      go (ok a) s = (h a).at s
      go (err e) s = tt

pub Yields-pure : {A : Type 0} (Q : A → Type 0) (a : A) → Q a → Yields Q (pure a)
Yields-pure Q a h = record { at = λ s. h }
