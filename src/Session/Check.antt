-- ===== src/Session/Check.antt =====
-- Checks that only read the database: a chain of them stops at the first that raises.
use myorishop.Session.{Result, ok, err, ⊤}

infixl 5 ◌>>=◌ ◌>>◌
abbrev pub ◌>>=◌ {ℓ κ} : {A : Type ℓ} {B : Type κ} → Result A → (A → Result B) → Result B
ok a >>= f = f a
err e >>= f = err e

abbrev pub ◌>>◌ : {B : Type 0} → Result ⊤ → Result B → Result B
m >> k = m >>= λ _. k
