-- ===== src/Session/Closes.antt =====
-- How an action ends that closes its own transaction but may raise before it does: what it staged is
-- committed with an answer that counts as done, or rolled back, or it raised with nothing committed.
use myorishop.Prelude.{Bool, true, ◌≡◌, refl, ◌∙◌, ◌⊎◌, inl, inr}
use myorishop.Session.{
  Session, value_error, warehouse_access, integrity_error, Result, ok, err, Action, resume,
  close_with, closing, ◌>>=◌,
}
use myorishop.Session.Atomic.{Stages, Ends, Commits}

abbrev pub Closed : {A : Type 0} → (A → Bool) → Session → Result A → Session → Type 0
Closed done t (ok a) s = (s.staged ≡ s.committed) × ((done a ≡ true) ⊎ (s.committed ≡ t.committed))
Closed done t (err e) s = s.committed ≡ t.committed

pub record Closes {A : Type 0} (done : A → Bool) (m : Action A) : Type 0 where
  pub at : (s : Session) → Closed done s (m s).0 (m s).1

earlier :
    {B : Type 0} (done : B → Bool) (t s : Session) (r : Result B) (s' : Session)
    → s.committed ≡ t.committed
    → Closed done s r s'
    → Closed done t r s'
earlier done t s (ok b) s' e (clean, inl d) = (clean, inl d)
earlier done t s (ok b) s' e (clean, inr h) = (clean, inr (h ∙ e))
earlier done t s (err x) s' e h = h ∙ e

module _ {A B : Type 0} {done : B → Bool} where
  pub Closes-bind :
      (m : Action A) (f : A → Action B)
      → Stages m
      → ((a : A) → Closes done (f a))
      → Closes done (m >>= f)
  Closes-bind m f sm cf = record { at = λ s. go s (m s).0 (m s).1 (sm.at s) }
    where
      go :
          (t : Session) (r : Result A) (s : Session)
          → s.committed ≡ t.committed
          → Closed done t (resume r f s).0 (resume r f s).1
      go t (ok a) s e = earlier done t s (f a s).0 (f a s).1 e ((cf a).at s)
      go t (err x) s e = e

module _ {A : Type 0} {done : A → Bool} where
  pub Closes-closing : (answer : A) (m : Action A) → Commits done m → Closes done (closing answer m)
  Closes-closing answer m cm = record { at = λ s. go s (m s).0 (m s).1 (cm.at s) }
    where
      go :
          (t : Session) (r : Result A) (s : Session)
          → Ends done t r s
          → Closed done t (close_with answer r s).0 (close_with answer r s).1
      go t (ok a) s h = (h.1, inl h.0)
      go t (err integrity_error) s h = (refl, inr h)
      go t (err value_error) s h = h
      go t (err warehouse_access) s h = h
