-- ===== src/Ledger/Append.antt =====
-- Appending a row with `post` keeps the cached quantities equal to the ledger's sums.
use myorishop.Prelude.{
  Option, none, some, List, [], ◌∷◌, ℤ, pos, ◌+ℤ◌, ◌≡◌, refl, All, map, arith, +ℤ_comm, zero-+ℤ,
  +ℤ_assoc, sym, subst, if◌then◌else◌,
}
use myorishop.Text.{Text, is_text}
use myorishop.Models.{Product, Batch, Operation}
use myorishop.Db.{Db, bump_product, bump_batch}
use myorishop.Ledger.{compute_stock, compute_batch_stock, batch_rows, null_bucket, post}
use myorishop.Ledger.Projection.{
  lots, AreDistinct, IsOwned, OwnedBy, HasStock, HasBatchStock, IsConsistent, lots-map-bump_batch,
}

-- A row may be appended: its batch is one of its product's, or it has no batch and moves nothing.
abbrev pub Fits : List Batch → Operation → Option Text → Type 0
Fits bs o none = o.qty_delta ≡ pos 0
Fits bs o (some id) = IsOwned (lots bs) o.product_id (some id)

HasStock-bump :
    (now : Text) (o : Operation) (ops : List Operation) (p : Product)
    → HasStock ops p
    → HasStock (o ∷ ops) (bump_product now o.product_id o.qty_delta p)
unfolding compute_stock
HasStock-bump now o ops p h = ground (arith, +ℤ_comm p.quantity o.qty_delta)

HasStock-map-bump :
    (now : Text) (o : Operation) (ops : List Operation) (ps : List Product)
    → All (HasStock ops) ps
    → All (HasStock (o ∷ ops)) (map (bump_product now o.product_id o.qty_delta) ps)
HasStock-map-bump now o ops [] h = tt
HasStock-map-bump now o ops (p ∷ ps) h =
    (HasStock-bump now o ops p h.0, HasStock-map-bump now o ops ps h.1)

null_bucket-cons :
    (o : Operation) (ops : List Operation) (bs : List Batch) (product : Text)
    → Fits bs o o.batch_id
    → null_bucket (o ∷ ops) product ≡ null_bucket ops product
unfolding null_bucket
null_bucket-cons o ops bs product h = ground (arith, zero-+ℤ (null_bucket ops product))

batch_rows-cons :
    (o : Operation) (ops : List Operation) (id : Text)
    → batch_rows (o ∷ ops) id
      ≡ (if is_text id o.batch_id then o.qty_delta +ℤ batch_rows ops id else batch_rows ops id)
unfolding batch_rows
batch_rows-cons o ops id = refl

HasBatchStock-bump :
    (now : Text) (o : Operation) (ops : List Operation) (bs : List Batch) (b : Batch)
    → Fits bs o o.batch_id
    → HasBatchStock ops b
    → HasBatchStock (o ∷ ops) (bump_batch now o.batch_id o.qty_delta b)
unfolding compute_batch_stock
HasBatchStock-bump now o ops bs b fits h = ground (
  arith,
  null_bucket-cons o ops bs b.product_id fits,
  batch_rows-cons o ops b.id,
  +ℤ_comm b.quantity o.qty_delta,
  +ℤ_assoc o.qty_delta (batch_rows ops b.id) (null_bucket ops b.product_id),
)

HasBatchStock-map-bump :
    (now : Text) (o : Operation) (ops : List Operation) (all bs : List Batch)
    → Fits all o o.batch_id
    → All (HasBatchStock ops) bs
    → All (HasBatchStock (o ∷ ops)) (map (bump_batch now o.batch_id o.qty_delta) bs)
HasBatchStock-map-bump now o ops all [] fits h = tt
HasBatchStock-map-bump now o ops all (b ∷ bs) fits h =
    (HasBatchStock-bump now o ops all b fits h.0, HasBatchStock-map-bump now o ops all bs fits h.1)

OwnedBy-map-bump :
    (now : Text) (id : Option Text) (d : ℤ) (bs : List Batch) (ops : List Operation)
    → All (OwnedBy bs) ops
    → All (OwnedBy (map (bump_batch now id d) bs)) ops
OwnedBy-map-bump now id d bs [] h = tt
OwnedBy-map-bump now id d bs (o ∷ ops) h = (
  subst (λ ls. IsOwned ls o.product_id o.batch_id) (sym (lots-map-bump_batch now id d bs)) h.0,
  OwnedBy-map-bump now id d bs ops h.1,
)

IsOwned-of_Fits :
    (bs : List Batch) (o : Operation) (id : Option Text)
    → Fits bs o id
    → IsOwned (lots bs) o.product_id id
IsOwned-of_Fits bs o none h = tt
IsOwned-of_Fits bs o (some id) h = h

-- Appending a row that fits keeps the invariant.
pub post-IsConsistent :
    (now : Text) (o : Operation) (db : Db)
    → IsConsistent db
    → Fits db.batches o o.batch_id
    → IsConsistent (post now o db)
post-IsConsistent now o db h fits = record {
  stock = HasStock-map-bump now o db.operations db.products h.stock;
  batch_stock = HasBatchStock-map-bump now o db.operations db.batches db.batches fits h.batch_stock;
  owned =
      OwnedBy-map-bump now o.batch_id o.qty_delta db.batches (o ∷ db.operations)
        (IsOwned-of_Fits db.batches o o.batch_id fits, h.owned);
  distinct =
      subst AreDistinct (sym (lots-map-bump_batch now o.batch_id o.qty_delta db.batches))
        h.distinct;
}
