-- ===== src/Session/Keeps.antt =====
-- What an action keeps, whether it returns or raises: one rule for each way to build an action.
use myorishop.Prelude.{Bool, true, false, not, ◌≡◌, refl, if◌then◌else◌}
use myorishop.Db.{Db}
use myorishop.Session.{
  Session, Env, Error, Result, ok, err, Action, ⊤, pure, raise, query, gets, modify, insert,
  insert_if, commit, commit_if, attempt, recover, resume, new_id, ◌>>=◌,
}

pub record Keeps {A : Type 0} (P : Session → Type 0) (m : Action A) : Type 0 where
  pub at : (s : Session) → P s → P (m s).1

-- What an invariant of the tables makes of a session: both views of it satisfy the invariant.
pub record Both (P : Db → Type 0) (s : Session) : Type 0 where
  pub committed : P s.committed
  pub staged : P s.staged

module _ {P : Session → Type 0} where
  pub Keeps-bind :
      {A B : Type 0} (m : Action A) (f : A → Action B)
      → Keeps P m
      → ((a : A) → Keeps P (f a))
      → Keeps P (m >>= f)
  Keeps-bind {A} {B} m f km kf = record { at = λ s h. go (m s).0 (m s).1 (km.at s h) }
    where
      go : (r : Result A) (s : Session) → P s → P (resume r f s).1
      go (ok a) s h = (kf a).at s h
      go (err e) s h = h

  -- The rest of the block may use what the check established on what it read.
  pub Keeps-query :
      {A B : Type 0} (q : Db → Result A) (f : A → Action B)
      → ((s : Session) (a : A) → P s → q s.staged ≡ ok a → P (f a s).1)
      → Keeps P (query q >>= f)
  Keeps-query {A} {B} q f kf = record { at = λ s h. go s (q s.staged) refl h }
    where
      go : (s : Session) (r : Result A) → q s.staged ≡ r → P s → P (resume r f s).1
      go s (ok a) e h = kf s a h e
      go s (err e') e h = h

  pub Keeps-check : {A : Type 0} (q : Db → Result A) → Keeps P (query q)
  Keeps-check q = record { at = λ s h. h }

  pub Keeps-gets : {A : Type 0} (q : Db → A) → Keeps P (gets q)
  Keeps-gets q = record { at = λ s h. h }

  pub Keeps-pure : {A : Type 0} (a : A) → Keeps P (pure a)
  Keeps-pure a = record { at = λ s h. h }

  pub Keeps-raise : {A : Type 0} (e : Error) → Keeps P (raise {A = A} e)
  Keeps-raise e = record { at = λ s h. h }

  pub Keeps-if :
      {A : Type 0} (b : Bool) (m n : Action A)
      → Keeps P m
      → Keeps P n
      → Keeps P (if b then m else n)
  Keeps-if true m n km kn = km
  Keeps-if false m n km kn = kn

module _ {P : Db → Type 0} where
  pub Keeps-insert :
      (conflict : Db → Bool) (f : Db → Db)
      → ((db : Db) → P db → conflict db ≡ false → P (f db))
      → Keeps (Both P) (insert conflict f)
  Keeps-insert conflict f kf = record { at = λ s h. go s (conflict s.staged) refl h }
    where
      go :
          (s : Session) (b : Bool)
          → conflict s.staged ≡ b
          → Both P s
          → Both P (insert_if (not b) f s).1
      go s true e h = h
      go s false e h = record { committed = h.committed; staged = kf s.staged h.staged e }

  -- The rest of a block after an INSERT, at the state where it is made.
  pub Keeps-insert_at :
      {B : Type 0} (conflict : Db → Bool) (f : Db → Db) (k : ⊤ → Action B) (s : Session)
      → Both P s
      → P (f s.staged)
      → Keeps (Both P) (k tt)
      → Both P ((insert conflict f >>= k) s).1
  Keeps-insert_at {B} conflict f k s h hf kk = go (not (conflict s.staged))
    where
      go : (b : Bool) → Both P ((insert_if b f >>= k) s).1
      go true = kk.at _ (record { committed = h.committed; staged = hf })
      go false = h

  pub Keeps-modify : (f : Db → Db) → ((db : Db) → P db → P (f db)) → Keeps (Both P) (modify f)
  Keeps-modify f kf = record {
    at = λ s h. record { committed = h.committed; staged = kf s.staged h.staged };
  }

  pub Keeps-commit : Keeps (Both P) commit
  Keeps-commit = record { at = λ s h. record { committed = h.staged; staged = h.staged } }

  pub Keeps-commit_if : (b : Bool) → Keeps (Both P) (commit_if b)
  Keeps-commit_if true = Keeps-commit
  Keeps-commit_if false = Keeps-pure tt

  pub Keeps-new_id : (env : Env) → Keeps (Both P) (new_id env)
  Keeps-new_id env = record { at = λ s h. record { committed = h.committed; staged = h.staged } }

  pub Keeps-attempt :
      {A : Type 0} (m : Action A) (handler : Error → A)
      → Keeps (Both P) m
      → Keeps (Both P) (attempt m handler)
  Keeps-attempt {A} m handler km = record { at = λ s h. go (m s).0 (m s).1 (km.at s h) }
    where
      go : (r : Result A) (s : Session) → Both P s → Both P (recover r handler s).1
      go (ok a) s h = h
      go (err e) s h = record { committed = h.committed; staged = h.committed }
