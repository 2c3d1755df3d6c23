-- ===== src/Cards/Deletion.antt =====
-- app/services/catalog.py: `soft_delete_product`, `quick_delete_product` and `restore_product`.
use myorishop.Prelude.{
  Bool, true, false, not, Option, none, some, List, [], ◌∷◌, map, ℤ, pos, ltb_ℤ, ◌≤ℤ◌, ◌≡◌, refl,
  arith, All, is_some, if◌then◌else◌, if-cases, Bool-cases, inl, inr, subst, any, ◌&&◌,
}
use mathlib.Core.Option.{some-injective}
use myorishop.Text.{Text, eq_text, is_text}
use myorishop.Models.{Product, Operation}
use myorishop.Db.{Db, find_product, is_active}
use myorishop.Session.{
  Env, Session, Result, ok, err, Action, ⊤, gets, modify, insert, commit, pure, ◌>>=◌, ◌>>◌,
}
use myorishop.Ledger.{compute_stock}
use myorishop.Ledger.Projection.{HasStock, IsConsistent}

-- The UPDATE of `deleted_at`.
abbrev pub marked : Text → Text → Option Text → Product → Product
marked now id at p = if eq_text p.id id then record p { deleted_at = at; updated_at = now } else p

abbrev pub set_deleted_at : Text → Text → Option Text → Db → Db
set_deleted_at now id at db = record db { products = map (marked now id at) db.products }

abbrev pub delete_card : Env → Text → Action ⊤
delete_card env id = modify (set_deleted_at env.now id (some env.now)) >> commit

abbrev soft_delete_of : Env → Option Product → Action ⊤
soft_delete_of env none = pure tt
soft_delete_of env (some p) = if is_some p.deleted_at then pure tt else delete_card env p.id

unfoldable pub soft_delete_product : Env → Text → Action ⊤
unfolding eq_text
soft_delete_product env id = gets (λ db. find_product id db.products) >>= soft_delete_of env

pub data DeleteResult : Type 0 where
  deleted : DeleteResult
  nothing_to_delete : DeleteResult
  -- The stock that bars it.
  blocked : ℤ → DeleteResult

abbrev quick_delete_of : Env → Option Product → Action DeleteResult
quick_delete_of env none = pure nothing_to_delete
quick_delete_of env (some p) =
    if is_some p.deleted_at
    then pure nothing_to_delete
    else if ltb_ℤ (pos 0) p.quantity
    then pure (blocked p.quantity)
    else delete_card env p.id >> pure deleted

unfoldable pub quick_delete_product : Env → Text → Action DeleteResult
unfolding eq_text
quick_delete_product env id = gets (λ db. find_product id db.products) >>= quick_delete_of env

-- The unique index refuses a card whose code another active card has.
abbrev is_barred : Product → Db → Bool
is_barred p db = elim p.code [
  | none ↦ false
  | some code ↦
      any (λ q. not (eq_text q.id p.id) && (is_text code q.code && is_active q)) db.products
]

abbrev restore_of : Env → Option Product → Action ⊤
restore_of env none = pure tt
restore_of env (some p) =
    if is_some p.deleted_at
    then insert (is_barred p) (set_deleted_at env.now p.id none) >> commit
    else pure tt

unfoldable pub restore_product : Env → Text → Action ⊤
unfolding eq_text
restore_product env id = gets (λ db. find_product id db.products) >>= restore_of env

-- What the answer says: a deletion is of an active card of the id with no stock in the ledger, marked
-- and committed; any other answer leaves the session as it was.
abbrev pub DeletedBy : Env → Text → Session → Result DeleteResult → Session → Type 0
DeletedBy env id s (ok deleted) s' =
    (p : Product) × (find_product id s.staged.products ≡ some p)
    × (is_active p ≡ true)
    × (compute_stock s.staged.operations p.id ≤ℤ pos 0)
    × (s'.committed ≡ set_deleted_at env.now p.id (some env.now) s.staged)
    × (s'.staged ≡ s'.committed)
DeletedBy env id s (ok nothing_to_delete) s' = s' ≡ s
DeletedBy env id s (ok (blocked q)) s' = (pos 1 ≤ℤ q) × (s' ≡ s)
DeletedBy env id s (err e) s' = s' ≡ s

found-HasStock :
    (id : Text) (ops : List Operation) (ps : List Product) (p : Product)
    → find_product id ps ≡ some p
    → All (HasStock ops) ps
    → HasStock ops p
found-HasStock id ops [] p e h = cc
found-HasStock id ops (q ∷ ps) p e h = elim (Bool-cases (eq_text q.id id)) [
  | inl same ↦ subst (HasStock ops) (some-injective q p (rw same at e)) h.0
  | inr other ↦ found-HasStock id ops ps p (rw other at e) h.1
]

quick_delete_of-DeletedBy :
    (env : Env) (id : Text) (s : Session) (o : Option Product)
    → find_product id s.staged.products ≡ o
    → IsConsistent s.staged
    → DeletedBy env id s (quick_delete_of env o s).0 (quick_delete_of env o s).1
quick_delete_of-DeletedBy env id s none e h = refl
quick_delete_of-DeletedBy env id s (some p) e h =
    let stock = found-HasStock id s.staged.operations s.staged.products p e h.stock in
    let By = λ (m : Action DeleteResult). DeletedBy env id s (m s).0 (m s).1 in
    if-cases By (is_some p.deleted_at) _ _ (λ gone. refl)
      λ active.
        if-cases By (ltb_ℤ (pos 0) p.quantity) _ _ (λ held. (ground arith, refl))
          λ empty. (p, e, rw active refl, subst (λ q. q ≤ℤ pos 0) stock (ground arith), refl, refl)

-- On a consistent database a quick deletion that answers so has marked and committed an active card
-- whose ledger sums to no stock; a blocked one names a stock of at least one; and without a deletion
-- nothing changes.
pub quick_delete_product-DeletedBy :
    (env : Env) (id : Text) (s : Session)
    → IsConsistent s.staged
    → DeletedBy env id s (quick_delete_product env id s).0 (quick_delete_product env id s).1
unfolding quick_delete_product
quick_delete_product-DeletedBy env id s h =
    quick_delete_of-DeletedBy env id s (find_product id s.staged.products) refl h
