-- ===== src/Session.antt =====
-- A SQLAlchemy session: what is committed, what the open transaction sees, and how many ids were
-- drawn. An action may raise; what it staged stays staged until `commit` or `rollback`.
pub mod Check
pub mod Keeps
pub mod Atomic
pub mod Measure
pub mod Relates
pub mod Ensures
pub mod Idle
pub mod Closes
pub mod Yields
use myorishop.Prelude.{ℕ, ◌+◌, Bool, true, false, not, Option, none, some, List}
use myorishop.Text.{Text, contains}
use myorishop.IsoDate.{Date, isoformat}
use myorishop.Db.{Db}

abbrev pub ⊤ : Type 0
⊤ = Unit

pub record Session : Type 0 where
  pub committed : Db
  pub staged : Db
  pub drawn : ℕ

-- What a request runs under: the settings, the logged-in user, its warehouses, the ids of
-- the table `users`, the clock, and the
-- supply of `uuid4`. One request sees one instant.
pub record Env : Type 0 where
  pub device_id : Text
  pub operator_name : Text
  pub user : Option (Text × Text)
  pub allowed_warehouses : Option (List Text)
  pub user_ids : List Text
  pub now : Text
  pub today : Date
  pub uuid : ℕ → Text

pub data Error : Type 0 where
  value_error warehouse_access integrity_error : Error

pub data Result {ℓ} (A : Type ℓ) : Type ℓ where
  ok : A → Result A
  err : Error → Result A

abbrev pub require : Bool → Error → Result ⊤
require true e = ok tt
require false e = err e

abbrev pub or_fail : {A : Type 0} → Option A → Error → Result A
or_fail none e = err e
or_fail (some a) e = ok a

abbrev pub Action : Type 0 → Type 0
Action A = Session → Result A × Session

abbrev pub resume : {A B : Type 0} → Result A → (A → Action B) → Action B
resume (ok a) f s = f a s
resume (err e) f s = (err e, s)

infixl 5 ◌>>=◌ ◌>>◌
abbrev pub ◌>>=◌ : {A B : Type 0} → Action A → (A → Action B) → Action B
◌>>=◌ m f s = let (r, s') = m s in resume r f s'

abbrev pub ◌>>◌ : {A B : Type 0} → Action A → Action B → Action B
m >> k = m >>= λ _. k

module _ {A : Type 0} where
  abbrev pub pure : A → Action A
  pure a s = (ok a, s)

  abbrev pub raise : Error → Action A
  raise e s = (err e, s)

  -- A read or a check of what the transaction sees.
  abbrev pub query : (Db → Result A) → Action A
  query f s = (f s.staged, s)

  abbrev pub gets : (Db → A) → Action A
  gets f s = (ok (f s.staged), s)

abbrev pub modify : (Db → Db) → Action ⊤
modify f s = (ok tt, record s { staged = f s.staged })

-- An INSERT, refused where a constraint fails.
abbrev pub insert_if : Bool → (Db → Db) → Action ⊤
insert_if true f s = (ok tt, record s { staged = f s.staged })
insert_if false f s = (err integrity_error, s)

abbrev pub insert : (Db → Bool) → (Db → Db) → Action ⊤
insert conflict f s = insert_if (not (conflict s.staged)) f s

abbrev pub commit : Action ⊤
commit s = (ok tt, record s { committed = s.staged })

abbrev pub commit_if : Bool → Action ⊤
commit_if true = commit
commit_if false = pure tt

abbrev pub rollback : Session → Session
rollback s = record s { staged = s.committed }

-- `try: m; except (IntegrityError, ValueError): session.rollback(); return handler(error)`
abbrev pub recover : {A : Type 0} → Result A → (Error → A) → Session → Result A × Session
recover (ok a) handler s = (ok a, s)
recover (err e) handler s = (ok (handler e), rollback s)

abbrev pub attempt : {A : Type 0} → Action A → (Error → A) → Action A
attempt m handler s = let (r, s') = m s in recover r handler s'

-- `try: m; except IntegrityError: session.rollback(); return answer`
abbrev pub close_with : {A : Type 0} → A → Result A → Session → Result A × Session
close_with answer (err integrity_error) s = (ok answer, rollback s)
close_with answer (err value_error) s = (err value_error, s)
close_with answer (err warehouse_access) s = (err warehouse_access, s)
close_with answer (ok r) s = (ok r, s)

abbrev pub closing : {A : Type 0} → A → Action A → Action A
closing answer m s = close_with answer (m s).0 (m s).1

-- `new_id()`
abbrev pub new_id : Env → Action Text
new_id env s = (ok (env.uuid s.drawn), record s { drawn = s.drawn + 1 })

-- `local_today_iso(settings.display_tz)`
abbrev pub local_today_iso : Env → Text
local_today_iso env = isoformat env.today

-- `warehouse_allowed`
abbrev pub warehouse_allowed : Env → Text → Bool
warehouse_allowed env id = elim env.allowed_warehouses [ none ↦ true | some ids ↦ contains ids id ]

-- `author_fields()`
abbrev pub author_fields : Env → Option Text × Text
author_fields env = elim env.user [
  | none ↦ (none, env.operator_name)
  | some (id, display_name) ↦ (some id, display_name)
]
