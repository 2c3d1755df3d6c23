-- ===== src/Session/Atomic.antt =====
-- All or nothing: an action that stages, then commits last, under a `try` that rolls back. One rule
-- for each way to build such an action.
use myorishop.Prelude.{Bool, true, false, not, ◌≡◌, refl, ◌∙◌, if◌then◌else◌, ◌+◌, ◌⊎◌, inl, inr}
use myorishop.Text.{Text}
use myorishop.Db.{Db}
use myorishop.Session.{
  Session, Env, Error, Result, ok, err, Action, pure, raise, query, gets, modify, insert, insert_if,
  commit, attempt, recover, resume, new_id, ◌>>=◌, ◌>>◌,
}

-- An action that leaves the committed tables alone, however it ends.
pub record Stages {A : Type 0} (m : Action A) : Type 0 where
  pub at : (s : Session) → (m s).1.committed ≡ s.committed

module _ {A B : Type 0} where
  pub Stages-bind :
      (m : Action A) (f : A → Action B) → Stages m → ((a : A) → Stages (f a)) → Stages (m >>= f)
  Stages-bind m f sm sf = record { at = λ s. go s (m s).0 (m s).1 (sm.at s) }
    where
      go :
          (t : Session) (r : Result A) (s : Session)
          → s.committed ≡ t.committed
          → (resume r f s).1.committed ≡ t.committed
      go t (ok a) s e = (sf a).at s ∙ e
      go t (err x) s e = e

module _ {A : Type 0} where
  pub Stages-pure : (a : A) → Stages (pure a)
  Stages-pure a = record { at = λ s. refl }

  pub Stages-query : (q : Db → Result A) → Stages (query q)
  Stages-query q = record { at = λ s. refl }

  pub Stages-gets : (q : Db → A) → Stages (gets q)
  Stages-gets q = record { at = λ s. refl }

  pub Stages-raise : (e : Error) → Stages (raise {A = A} e)
  Stages-raise e = record { at = λ s. refl }

pub Stages-new_id : (env : Env) → Stages (new_id env)
Stages-new_id env = record { at = λ s. refl }

pub Stages-modify : (f : Db → Db) → Stages (modify f)
Stages-modify f = record { at = λ s. refl }

pub Stages-insert : (conflict : Db → Bool) (f : Db → Db) → Stages (insert conflict f)
Stages-insert conflict f = record { at = λ s. go s (not (conflict s.staged)) }
  where
    go : (s : Session) (b : Bool) → (insert_if b f s).1.committed ≡ s.committed
    go s true = refl
    go s false = refl

-- How an action that commits last ends: what it staged is committed and its value counts as done, or
-- it raised before any commit.
abbrev pub Ends : {A : Type 0} → (A → Bool) → Session → Result A → Session → Type 0
Ends done s (ok a) s' = (done a ≡ true) × (s'.staged ≡ s'.committed)
Ends done s (err e) s' = s'.committed ≡ s.committed

pub record Commits {A : Type 0} (done : A → Bool) (m : Action A) : Type 0 where
  pub at : (s : Session) → Ends done s (m s).0 (m s).1

module _ {A B : Type 0} {done : B → Bool} where
  pub Commits-bind :
      (m : Action A) (f : A → Action B)
      → Stages m
      → ((a : A) → Commits done (f a))
      → Commits done (m >>= f)
  Commits-bind m f sm cf = record { at = λ s. go s (m s).0 (m s).1 (sm.at s) }
    where
      later :
          (t s : Session) (r : Result B) (s' : Session)
          → s.committed ≡ t.committed
          → Ends done s r s'
          → Ends done t r s'
      later t s (ok b) s' e h = h
      later t s (err x) s' e h = h ∙ e

      go :
          (t : Session) (r : Result A) (s : Session)
          → s.committed ≡ t.committed
          → Ends done t (resume r f s).0 (resume r f s).1
      go t (ok a) s e = later t s (f a s).0 (f a s).1 e ((cf a).at s)
      go t (err x) s e = e

  pub Commits-then :
      (earlier : A → Bool) (m : Action A) (g : A → B)
      → Commits earlier m
      → ((a : A) → done (g a) ≡ true)
      → Commits done (m >>= λ a. pure (g a))
  Commits-then earlier m g cm dg = record { at = λ s. go s (m s).0 (m s).1 (cm.at s) }
    where
      go :
          (t : Session) (r : Result A) (s : Session)
          → Ends earlier t r s
          → Ends done t (resume r (λ a. pure (g a)) s).0 (resume r (λ a. pure (g a)) s).1
      go t (ok a) s h = (dg a, h.1)
      go t (err x) s h = h

module _ {A : Type 0} {done : A → Bool} where
  pub Commits-commit : (a : A) → done a ≡ true → Commits done (commit >> pure a)
  Commits-commit a d = record { at = λ s. (d, refl) }

  pub Commits-commit_gets :
      (g : Db → A) → ((db : Db) → done (g db) ≡ true) → Commits done (commit >> gets g)
  Commits-commit_gets g dg = record { at = λ s. (dg s.staged, refl) }

module _ {A B : Type 0} {done : B → Bool} where
  -- A last read of what was committed.
  pub Commits-gets :
      (earlier : A → Bool) (m : Action A) (g : A → Db → B)
      → Commits earlier m
      → ((a : A) (db : Db) → done (g a db) ≡ true)
      → Commits done (m >>= λ a. gets (g a))
  Commits-gets earlier m g cm dg = record { at = λ s. go s (m s).0 (m s).1 (cm.at s) }
    where
      go :
          (t : Session) (r : Result A) (s : Session)
          → Ends earlier t r s
          → Ends done t (resume r (λ a. gets (g a)) s).0 (resume r (λ a. gets (g a)) s).1
      go t (ok a) s h = (dg a s.staged, h.1)
      go t (err x) s h = h

-- A request's end: it raises nothing, leaves nothing uncommitted, and if its answer is not one that
-- counts as done the committed tables are as they were.
pub record AllOrNothing {A : Type 0} (done : A → Bool) (m : Action A) (s : Session) : Type 0 where
  pub answer : A
  pub answers : (m s).0 ≡ ok answer
  pub clean : (m s).1.staged ≡ (m s).1.committed
  pub nothing : (done answer ≡ true) ⊎ ((m s).1.committed ≡ s.committed)

pub record IsAtomic {A : Type 0} (done : A → Bool) (m : Action A) : Type 0 where
  pub at : (s : Session) → s.staged ≡ s.committed → AllOrNothing done m s

module _ {A : Type 0} {done : A → Bool} where
  pub IsAtomic-pure : (a : A) → IsAtomic done (pure a)
  IsAtomic-pure a = record {
    at = λ s c. record { answer = a; answers = refl; clean = c; nothing = inr refl };
  }

  pub IsAtomic-if :
      (b : Bool) (m n : Action A)
      → IsAtomic done m
      → IsAtomic done n
      → IsAtomic done (if b then m else n)
  IsAtomic-if true m n hm hn = hm
  IsAtomic-if false m n hm hn = hn

  pub IsAtomic-gets :
      {B : Type 0} (q : Db → B) (f : B → Action A)
      → ((b : B) → IsAtomic done (f b))
      → IsAtomic done (gets q >>= f)
  IsAtomic-gets q f hf = record {
    at = λ s c.
        let h = (hf (q s.staged)).at s c in
        record { answer = h.answer; answers = h.answers; clean = h.clean; nothing = h.nothing };
  }

  pub IsAtomic-new_id :
      (env : Env) (f : Text → Action A)
      → ((id : Text) → IsAtomic done (f id))
      → IsAtomic done (new_id env >>= f)
  IsAtomic-new_id env f hf = record {
    at = λ s c.
        let h = (hf (env.uuid s.drawn)).at (record s { drawn = s.drawn + 1 }) c in
        record { answer = h.answer; answers = h.answers; clean = h.clean; nothing = h.nothing };
  }

  pub IsAtomic-attempt :
      (m : Action A) (handler : Error → A) → Commits done m → IsAtomic done (attempt m handler)
  IsAtomic-attempt m handler cm = record {
    at = λ s c.
        let h = go s (m s).0 (m s).1 (cm.at s) in
        record { answer = h.0; answers = h.1; clean = h.2; nothing = h.3 };
  }
    where
      go :
          (t : Session) (r : Result A) (s : Session)
          → Ends done t r s
          → (a : A) × ((recover r handler s).0 ≡ ok a)
            × ((recover r handler s).1.staged ≡ (recover r handler s).1.committed)
            × ((done a ≡ true) ⊎ ((recover r handler s).1.committed ≡ t.committed))
      go t (ok a) s h = (a, refl, h.1, inl h.0)
      go t (err e) s h = (handler e, refl, refl, inr h)
