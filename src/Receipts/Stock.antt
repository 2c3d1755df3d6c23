-- ===== src/Receipts/Stock.antt =====
-- `register_receipt` keeps the invariant of the stock, where every row of the ledger is of a product
-- that there is.
use myorishop.Prelude.{
  true, false, ◌+◌, Option, some, List, [], ◌∷◌, map, any, ℤ, pos, ◌≡◌, refl, sym, ap, ◌∙◌, All,
  arith, Bool-cases, inl, inr, is_some, Bool,
}
use myorishop.Text.{Text, eq_text, eq_text_sound}
use myorishop.Models.{Product, Operation}
use myorishop.Money.{PriceSet, rub, uah, eur, PriceKind, cost, sale, min_sale}
use myorishop.Db.{Db, find_product, bump_product, product_conflict, operation_conflict}
use myorishop.Session.{Env, ok, commit_if, pure, ◌>>◌}
use myorishop.Session.Keeps.{
  Keeps, Both, Keeps-bind, Keeps-pure, Keeps-query, Keeps-insert_at, Keeps-commit_if,
}
use myorishop.Ledger.{
  Draft, check_operation, next_seq, operation_row, post, record_operation, compute_stock,
}
use myorishop.Ledger.Projection.{HasStock, IsConsistent}
use myorishop.Ledger.Append.{post-IsConsistent}
use myorishop.Ledger.Record.{IsAuditNeutral, check_operation-Fits}
use myorishop.Money.{with_price}
use myorishop.Db.{add_product}
use myorishop.Receipts.{priced, set_price}

abbrev is_known : List Product → Text → Bool
is_known ps id = any (λ x. eq_text x.id id) ps

-- The cached quantities are the ledger's, and each row of the ledger is of a product that there is.
pub record IsSound (db : Db) : Type 0 where
  pub consistent : IsConsistent db
  pub known : All (λ o. is_known db.products o.product_id ≡ true) db.operations

is_known-map :
    (g : Product → Product) (ps : List Product) (id : Text)
    → ((p : Product) → (g p).id ≡ p.id)
    → is_known (map g ps) id ≡ is_known ps id
is_known-map g [] id h = refl
is_known-map g (p ∷ ps) id h = rw (h p, is_known-map g ps id h) refl

all_known :
    (ps qs : List Product) (ops : List Operation)
    → ((id : Text) → is_known ps id ≡ true → is_known qs id ≡ true)
    → All (λ o. is_known ps o.product_id ≡ true) ops
    → All (λ o. is_known qs o.product_id ≡ true) ops
all_known ps qs [] h k = tt
all_known ps qs (o ∷ ops) h k = (h o.product_id k.0, all_known ps qs ops h k.1)

bump_product-id : (now id : Text) (d : ℤ) (p : Product) → (bump_product now id d p).id ≡ p.id
bump_product-id now id d p = ground arith

post-IsSound :
    (now : Text) (o : Operation) (db : Db)
    → IsSound db
    → is_known db.products o.product_id ≡ true
    → IsConsistent (post now o db)
    → IsSound (post now o db)
post-IsSound now o db h k c =
    let same = λ (id : Text).
      is_known-map (bump_product now o.product_id o.qty_delta) db.products id
        (bump_product-id now o.product_id o.qty_delta) in
    record {
      consistent = c;
      known = (
        same o.product_id ∙ k,
        all_known db.products _ db.operations (λ id e. same id ∙ e) h.known,
      );
    }

find-is_known : (id : Text) (ps : List Product) → is_some (find_product id ps) ≡ is_known ps id
find-is_known id [] = refl
find-is_known id (p ∷ ps) = ground (arith, find-is_known id ps)

check_operation-known :
    (env : Env) (a : Draft) (db : Db)
    → check_operation env a db ≡ ok tt
    → is_known db.products a.product_id ≡ true
unfolding check_operation
check_operation-known env a db e = sym (find-is_known a.product_id db.products) ∙ ground arith

pub Keeps-record_operation :
    (env : Env) (a : Draft) → IsAuditNeutral a → Keeps (Both IsSound) (record_operation env a)
unfolding record_operation
Keeps-record_operation env a neutral = Keeps-query (check_operation env a) _ λ s _ h e.
    let op = operation_row env a (env.uuid s.drawn) (next_seq env.device_id s.staged) in
    Keeps-insert_at {B = Operation} (operation_conflict op) (post env.now op)
      (λ _. commit_if a.commit >> pure op) (record s { drawn = s.drawn + 1 })
      (record { committed = h.committed; staged = h.staged })
      (post-IsSound env.now op s.staged h.staged (check_operation-known env a s.staged e) (
        post-IsConsistent env.now op s.staged h.staged.consistent
          (check_operation-Fits env a op.id op.seq s.staged neutral e)))
      (Keeps-bind (commit_if a.commit) (λ _. pure op) (Keeps-commit_if a.commit)
        (λ _. Keeps-pure op))

-- No row of an unknown product.
no_rows :
    (id : Text) (ps : List Product) (ops : List Operation)
    → is_known ps id ≡ false
    → All (λ o. is_known ps o.product_id ≡ true) ops
    → compute_stock ops id ≡ pos 0
unfolding compute_stock
no_rows id ps [] fresh h = refl
no_rows id ps (o ∷ ops) fresh h = elim (Bool-cases (eq_text id o.product_id)) [
  | inl same ↦
      let e = ap (is_known ps) (eq_text_sound id o.product_id same) in
      absurd (ground (arith, e, h.0, fresh))
  | inr other ↦ rw other (no_rows id ps ops fresh h.1)
]

pub add_product-IsSound :
    (p : Product) (db : Db)
    → p.quantity ≡ pos 0
    → IsSound db
    → product_conflict p db ≡ false
    → IsSound (add_product p db)
add_product-IsSound p db empty h free = record {
  consistent = record {
    stock = (
      empty ∙ sym (no_rows p.id db.products db.operations (ground arith) h.known),
      h.consistent.stock,
    );
    batch_stock = h.consistent.batch_stock;
    owned = h.consistent.owned;
    distinct = h.consistent.distinct;
  };
  known = all_known db.products (p ∷ db.products) db.operations (λ id e. ground arith) h.known;
}

-- A price has no part in the stock.
pub with_price-same :
    (set : PriceSet) (kind : PriceKind) (a : Option ℤ) (p : Product)
    → ((with_price set kind a p).id ≡ p.id) × ((with_price set kind a p).quantity ≡ p.quantity)
with_price-same rub cost a p = (refl, refl)
with_price-same rub sale a p = (refl, refl)
with_price-same rub min_sale a p = (refl, refl)
with_price-same uah cost a p = (refl, refl)
with_price-same uah sale a p = (refl, refl)
with_price-same uah min_sale a p = (refl, refl)
with_price-same eur cost a p = (refl, refl)
with_price-same eur sale a p = (refl, refl)
with_price-same eur min_sale a p = (refl, refl)

priced-same :
    (now id : Text) (set : PriceSet) (kind : PriceKind) (a : ℤ) (p : Product)
    → ((priced now id set kind a p).id ≡ p.id)
      × ((priced now id set kind a p).quantity ≡ p.quantity)
priced-same now id set kind a p = elim (Bool-cases (eq_text p.id id)) [
  | inl same ↦ rw same (with_price-same set kind (some a) p)
  | inr other ↦ rw other (refl, refl)
]

priced-HasStock :
    (now id : Text) (set : PriceSet) (kind : PriceKind) (a : ℤ) (ops : List Operation)
    (ps : List Product)
    → All (HasStock ops) ps
    → All (HasStock ops) (map (priced now id set kind a) ps)
priced-HasStock now id set kind a ops [] h = tt
priced-HasStock now id set kind a ops (p ∷ ps) h =
    let same = priced-same now id set kind a p in
    (
      same.1 ∙ h.0 ∙ ap (compute_stock ops) (sym same.0),
      priced-HasStock now id set kind a ops ps h.1,
    )

pub set_price-IsSound :
    (now id : Text) (set : PriceSet) (kind : PriceKind) (a : ℤ) (db : Db)
    → IsSound db
    → IsSound (set_price now id set kind a db)
set_price-IsSound now id set kind a db h = record {
  consistent = record {
    stock = priced-HasStock now id set kind a db.operations db.products h.consistent.stock;
    batch_stock = h.consistent.batch_stock;
    owned = h.consistent.owned;
    distinct = h.consistent.distinct;
  };
  known =
      all_known db.products _ db.operations
        (λ i e.
          is_known-map (priced now id set kind a) db.products i
            (λ p. (priced-same now id set kind a p).0)
          ∙ e)
        h.known;
}
