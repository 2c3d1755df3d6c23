-- ===== src/Session/Relates.antt =====
-- How an action changes what the transaction sees, whether it returns or raises, by a reflexive and
-- transitive relation of the tables before and after.
use myorishop.Prelude.{Bool, true, false, not}
use myorishop.Db.{Db}
use myorishop.Session.{
  Session, Result, ok, err, Action, pure, query, gets, modify, insert, insert_if, resume, ◌>>=◌,
}

pub record Relates {A : Type 0} (R : Db → Db → Type 0) (m : Action A) : Type 0 where
  pub at : (s : Session) → R s.staged (m s).1.staged

module _ {R : Db → Db → Type 0} (R-refl : (db : Db) → R db db)
    (R-trans : (a b c : Db) → R a b → R b c → R a c) where
  pub Relates-bind :
      {A B : Type 0} (m : Action A) (f : A → Action B)
      → Relates R m
      → ((a : A) → Relates R (f a))
      → Relates R (m >>= f)
  Relates-bind {A} {B} m f rm rf = record { at = λ s. go s.staged (m s).0 (m s).1 (rm.at s) }
    where
      go :
          (before : Db) (r : Result A) (s : Session)
          → R before s.staged
          → R before (resume r f s).1.staged
      go before (ok a) s h = R-trans before s.staged (f a s).1.staged h ((rf a).at s)
      go before (err e) s h = h

  pub Relates-pure : {A : Type 0} (a : A) → Relates R (pure a)
  Relates-pure a = record { at = λ s. R-refl s.staged }

  pub Relates-gets : {A : Type 0} (q : Db → A) → Relates R (gets q)
  Relates-gets q = record { at = λ s. R-refl s.staged }

  pub Relates-query : {A : Type 0} (q : Db → Result A) → Relates R (query q)
  Relates-query q = record { at = λ s. R-refl s.staged }

  pub Relates-insert :
      (conflict : Db → Bool) (f : Db → Db)
      → ((db : Db) → R db (f db))
      → Relates R (insert conflict f)
  Relates-insert conflict f h = record { at = λ s. go s (not (conflict s.staged)) }
    where
      go : (s : Session) (b : Bool) → R s.staged (insert_if b f s).1.staged
      go s true = h s.staged
      go s false = R-refl s.staged

module _ {R : Db → Db → Type 0} where
  pub Relates-modify : (f : Db → Db) → ((db : Db) → R db (f db)) → Relates R (modify f)
  Relates-modify f h = record { at = λ s. h s.staged }
