-- ===== src/Session/Idle.antt =====
-- An action that returns a value and leaves the session as it was.
use myorishop.Prelude.{◌≡◌, refl, ap, ◌∙◌}
use myorishop.Session.{Session, Result, ok, Action, pure, resume, ◌>>=◌}

pub record Idle {A : Type 0} (s : Session) (a : A) (m : Action A) : Type 0 where
  pub at : m s ≡ (ok a, s)

pub Idle-bind :
    {A B : Type 0} (s : Session) (a : A) (b : B) (m : Action A) (f : A → Action B)
    → Idle s a m
    → Idle s b (f a)
    → Idle s b (m >>= f)
Idle-bind {A} {B} s a b m f hm hf = record {
  at = ap {B = Result B × Session} (λ (r : Result A × Session). resume r.0 f r.1) hm.at ∙ hf.at;
}

pub Idle-pure : {A : Type 0} (s : Session) (a : A) → Idle s a (pure a)
Idle-pure s a = record { at = refl }
