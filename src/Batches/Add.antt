-- ===== src/Batches/Add.antt =====
-- What the guards on a batch establish, and the INSERT of a batch: it keeps the invariant of the
-- stock, and moves no stock.
use myorishop.Prelude.{
  false, Option, none, some, List, [], ◌∷◌, pos, ◌≡◌, refl, sym, ◌∙◌, arith, All, Bool-cases, inl,
  inr, any, ap, Option-cases,
}
use mathlib.Core.Option.{some-injective}
use myorishop.Text.{Text, eq_text, eq_text_sound, is_text, eq_text_sym}
use myorishop.Models.{Product, Batch, Operation}
use myorishop.Db.{Db, find_batch, batch_conflict}
use myorishop.Session.{Env, warehouse_allowed}
use myorishop.Ledger.{batch_rows, compute_batch_stock, is_legacy}
use myorishop.Ledger.Projection.{Lot, lot, lots, find_lot, IsOwned, IsConsistent, OwnedBy}
use myorishop.Batches.{own_batch, add_batch}

-- The batch that the guard lets through is the one of the id, and it is the product's.
pub own_batch_found :
    (env : Env) (db : Db) (p : Product) (id : Text) (b : Batch)
    → own_batch env db p id ≡ some b
    → (find_batch id db.batches ≡ some b) × (b.product_id ≡ p.id)
unfolding own_batch
own_batch_found env db p [] b e = ground arith
own_batch_found env db p (c ∷ cs) b e = elim (Option-cases (find_batch (c ∷ cs) db.batches)) [
  | inl missing ↦ ground arith
  | inr (x, found) ↦ elim (Bool-cases (eq_text x.product_id p.id)) [
    | inl same ↦ elim (Bool-cases (warehouse_allowed env x.warehouse_id)) [
      | inl allowed ↦
          let e' = some-injective x b (rw (found, same, allowed) at e) in
          (
            found ∙ ap some e',
            ap (λ y. y.product_id) (sym e') ∙ eq_text_sound x.product_id p.id same,
          )
      | inr barred ↦ ground arith
    ]
    | inr other ↦ ground arith
  ]
]

fresh_lot :
    (id : Text) (bs : List Batch)
    → any (λ x. eq_text x.id id) bs ≡ false
    → find_lot id (lots bs) ≡ none
fresh_lot id [] h = refl
fresh_lot id (b ∷ bs) h = elim (Bool-cases (eq_text b.id id)) [
  | inl same ↦ ground arith
  | inr other ↦ ground (arith, fresh_lot id bs)
]

-- A row of a batch is not of one that is not there.
not_row :
    (id : Text) (ls : List Lot) (product : Text) (row : Option Text)
    → find_lot id ls ≡ none
    → IsOwned ls product row
    → is_text id row ≡ false
not_row id ls product none fresh h = refl
not_row id ls product (some i) fresh h = elim (Bool-cases (eq_text i id)) [
  | inl same ↦ let e = eq_text_sound i id same in ground (arith, e, h, fresh)
  | inr other ↦ other
]

batch_rows-none :
    (id : Text) (bs : List Batch) (ops : List Operation)
    → find_lot id (lots bs) ≡ none
    → All (OwnedBy bs) ops
    → batch_rows ops id ≡ pos 0
unfolding batch_rows
batch_rows-none id bs [] fresh h = refl
batch_rows-none id bs (o ∷ ops) fresh h =
    rw (not_row id (lots bs) o.product_id o.batch_id fresh h.0)
      (batch_rows-none id bs ops fresh h.1)

still-IsOwned :
    (l : Lot) (ls : List Lot) (product : Text) (row : Option Text)
    → find_lot l.id ls ≡ none
    → IsOwned ls product row
    → IsOwned (l ∷ ls) product row
still-IsOwned l ls product none fresh h = tt
still-IsOwned l ls product (some i) fresh h =
    let other = not_row l.id ls product (some i) fresh h in
    (h.0, rw (eq_text_sym l.id i ∙ other) h.1, h.2)

all-OwnedBy :
    (b : Batch) (bs : List Batch) (ops : List Operation)
    → find_lot b.id (lots bs) ≡ none
    → All (OwnedBy bs) ops
    → All (OwnedBy (b ∷ bs)) ops
all-OwnedBy b bs [] fresh h = tt
all-OwnedBy b bs (o ∷ ops) fresh h = (
  still-IsOwned (lot b) (lots bs) o.product_id o.batch_id fresh h.0,
  all-OwnedBy b bs ops fresh h.1,
)

-- A new batch is empty, and no row is of it, so the invariant holds of it.
pub add_batch-IsConsistent :
    (b : Batch) (db : Db)
    → b.quantity ≡ pos 0
    → is_legacy b ≡ false
    → IsConsistent db
    → batch_conflict b db ≡ false
    → IsConsistent (add_batch b db)
unfolding compute_batch_stock
add_batch-IsConsistent b db empty new h free =
    let fresh = fresh_lot b.id db.batches (ground arith) in
    record {
      stock = h.stock;
      batch_stock = (
        rw (new, batch_rows-none b.id db.batches db.operations fresh h.owned) empty,
        h.batch_stock,
      );
      owned = all-OwnedBy b db.batches db.operations fresh h.owned;
      distinct = (fresh, rw new tt, h.distinct);
    }
