-- ===== src/Session/Measure.antt =====
-- By how much an action that returns moves a number read from the tables: a stock, a balance.
use myorishop.Prelude.{
  Bool, true, false, not, ◌≡◌, sym, subst, ◌∙◌, ap, ℤ, pos, ◌+ℤ◌, +ℤ_assoc, +ℤ-zero, zero-+ℤ,
}
use myorishop.Db.{Db}
use myorishop.Session.{
  Session, Env, Error, Result, ok, err, Action, pure, raise, query, gets, insert, insert_if, commit,
  commit_if, resume, new_id, ◌>>=◌,
}

-- The number after a return; nothing is said of a raise.
abbrev pub Moved : {A : Type 0} → (Db → ℤ) → ℤ → ℤ → Result A → Session → Type 0
Moved μ before d (ok a) s' = μ s'.staged ≡ before +ℤ d
Moved μ before d (err e) s' = Unit

pub record Adds {A : Type 0} (μ : Db → ℤ) (d : ℤ) (m : Action A) : Type 0 where
  pub at : (s : Session) → Moved μ (μ s.staged) d (m s).0 (m s).1

module _ {μ : Db → ℤ} where
  pub Adds-bind :
      {A B : Type 0} (d e : ℤ) (m : Action A) (f : A → Action B)
      → Adds μ d m
      → ((a : A) → Adds μ e (f a))
      → Adds μ (d +ℤ e) (m >>= f)
  Adds-bind {A} {B} d e m f am af = record { at = λ s. go (μ s.staged) (m s).0 (m s).1 (am.at s) }
    where
      shift :
          (before : ℤ) (s : Session) (r : Result B) (s' : Session)
          → μ s.staged ≡ before +ℤ d
          → Moved μ (μ s.staged) e r s'
          → Moved μ before (d +ℤ e) r s'
      shift before s (ok b) s' h k = k ∙ ap (λ n. n +ℤ e) h ∙ +ℤ_assoc before d e
      shift before s (err x) s' h k = tt

      go :
          (before : ℤ) (r : Result A) (s : Session)
          → Moved μ before d r s
          → Moved μ before (d +ℤ e) (resume r f s).0 (resume r f s).1
      go before (ok a) s h = shift before s (f a s).0 (f a s).1 h ((af a).at s)
      go before (err x) s h = tt

  -- A step that moves nothing leaves the sum to the rest of the block.
  pub Adds-then :
      {A B : Type 0} (e : ℤ) (m : Action A) (f : A → Action B)
      → Adds μ (pos 0) m
      → ((a : A) → Adds μ e (f a))
      → Adds μ e (m >>= f)
  Adds-then e m f am af =
      subst (λ n. Adds μ n (m >>= f)) (zero-+ℤ e) (Adds-bind (pos 0) e m f am af)

  pub Adds-pure : {A : Type 0} (a : A) → Adds μ (pos 0) (pure a)
  Adds-pure a = record { at = λ s. sym (+ℤ-zero (μ s.staged)) }

  pub Adds-gets : {A : Type 0} (q : Db → A) → Adds μ (pos 0) (gets q)
  Adds-gets q = record { at = λ s. sym (+ℤ-zero (μ s.staged)) }

  pub Adds-raise : {A : Type 0} (d : ℤ) (e : Error) → Adds μ d (raise {A = A} e)
  Adds-raise d e = record { at = λ s. tt }

  pub Adds-query : {A : Type 0} (q : Db → Result A) → Adds μ (pos 0) (query q)
  Adds-query {A} q = record { at = λ s. go s (q s.staged) }
    where
      go : (s : Session) (r : Result A) → Moved μ (μ s.staged) (pos 0) r s
      go s (ok a) = sym (+ℤ-zero (μ s.staged))
      go s (err e) = tt

  pub Adds-new_id : (env : Env) → Adds μ (pos 0) (new_id env)
  Adds-new_id env = record { at = λ s. sym (+ℤ-zero (μ s.staged)) }

  pub Adds-commit : Adds μ (pos 0) commit
  Adds-commit = record { at = λ s. sym (+ℤ-zero (μ s.staged)) }

  pub Adds-commit_if : (b : Bool) → Adds μ (pos 0) (commit_if b)
  Adds-commit_if true = Adds-commit
  Adds-commit_if false = Adds-pure tt

  pub Adds-insert :
      (d : ℤ) (conflict : Db → Bool) (f : Db → Db)
      → ((db : Db) → μ (f db) ≡ μ db +ℤ d)
      → Adds μ d (insert conflict f)
  Adds-insert d conflict f h = record { at = λ s. go s (not (conflict s.staged)) }
    where
      go : (s : Session) (b : Bool) → Moved μ (μ s.staged) d (insert_if b f s).0 (insert_if b f s).1
      go s true = h s.staged
      go s false = tt

  -- A block whose first step moves the number.
  pub Adds-first :
      {A B : Type 0} (d : ℤ) (m : Action A) (f : A → Action B)
      → Adds μ d m
      → ((a : A) → Adds μ (pos 0) (f a))
      → Adds μ d (m >>= f)
  Adds-first d m f am af =
      subst (λ n. Adds μ n (m >>= f)) (+ℤ-zero d) (Adds-bind d (pos 0) m f am af)
