-- ===== src/Session/Ensures.antt =====
-- What an action that returns makes of what the transaction sees: a rule for a block, and for what a
-- relation of the tables preserves.
use myorishop.Db.{Db}
use myorishop.Session.{Session, Result, ok, err, Action, pure, gets, resume, ◌>>=◌}
use myorishop.Session.Relates.{Relates}

-- Nothing is said of a raise.
abbrev pub Then : {A : Type 0} → (Db → Type 0) → Result A → Session → Type 0
Then Q (ok a) s = Q s.staged
Then Q (err e) s = Unit

pub record Ensures {A : Type 0} (P : Db → Type 0) (m : Action A) (Q : Db → Type 0) : Type 0 where
  pub at : (s : Session) → P s.staged → Then Q (m s).0 (m s).1

module _ {A B : Type 0} where
  pub Ensures-bind :
      (P Q R : Db → Type 0) (m : Action A) (f : A → Action B)
      → Ensures P m Q
      → ((a : A) → Ensures Q (f a) R)
      → Ensures P (m >>= f) R
  Ensures-bind P Q R m f hm hf = record { at = λ s h. go (m s).0 (m s).1 (hm.at s h) }
    where
      go : (r : Result A) (s : Session) → Then Q r s → Then R (resume r f s).0 (resume r f s).1
      go (ok a) s h = (hf a).at s h
      go (err e) s h = tt

module _ {A : Type 0} where
  pub Ensures-pure : (P : Db → Type 0) (a : A) → Ensures P (pure a) P
  Ensures-pure P a = record { at = λ s h. h }

  pub Ensures-gets : (P : Db → Type 0) (q : Db → A) → Ensures P (gets q) P
  Ensures-gets P q = record { at = λ s h. h }

  -- What held before still holds, beside what the action ensures.
  pub Ensures-and :
      (R : Db → Db → Type 0) (P Q : Db → Type 0) (m : Action A)
      → ((a b : Db) → R a b → P a → P b)
      → Relates R m
      → Ensures P m Q
      → Ensures P m (λ db. P db × Q db)
  Ensures-and R P Q m keep rm em = record {
    at = λ s h. go (m s).0 (m s).1 (keep s.staged (m s).1.staged (rm.at s) h) (em.at s h);
  }
    where
      go : (r : Result A) (s : Session) → P s.staged → Then Q r s → Then (λ db. P db × Q db) r s
      go (ok a) s h k = (h, k)
      go (err e) s h k = tt

  pub Ensures-weaken : (P Q : Db → Type 0) (m : Action A) → Ensures (λ _. Unit) m Q → Ensures P m Q
  Ensures-weaken P Q m em = record { at = λ s h. em.at s tt }
