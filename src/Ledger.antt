-- ===== src/Ledger.antt =====
-- app/services/ledger.py: the single write path for stock changes, and the stock recomputed from
-- the ledger.
mod Dates
mod Checks
pub mod Projection
pub mod Append
pub mod Record
pub mod Staging
pub mod Posts
pub mod Moves
pub mod Lots
pub mod Rebuild
pub mod Trail
pub mod Effect
pub use Dates.{
  OpDateError, op_date_format, op_date_too_old, op_date_future, OpDate, accepted, refused,
}
unfoldable pub use Dates.{op_date_floor, check_op_date, parse_op_date, date_or}
pub use Checks.{Draft}
unfoldable pub use Checks.{
  max_with, max_seq, after_seq, next_seq, is_stock_affecting, is_transfer, check_operation,
}
use myorishop.Prelude.{
  Bool, true, false, not, ◌&&◌, ◌||◌, Option, none, some, List, [], ◌∷◌, ℤ, pos, ◌+ℤ◌, ◌==ℤ◌,
  is_some, map, if◌then◌else◌, ltb,
}
use myorishop.Text.{Text, eq_text, is_text}
use myorishop.Models.{Product, Batch, Operation}
use myorishop.Db.{Db, operation_conflict, bump_product, bump_batch}
use myorishop.Session.{
  Env, Error, value_error, Result, ok, err, Action, ⊤, query, gets, modify, insert, commit,
  commit_if, pure, new_id, ◌>>=◌, ◌>>◌, local_today_iso, author_fields,
}

-- The row that `record_operation` appends.
abbrev pub operation_row : Env → Draft → Text → ℤ → Operation
operation_row env a id seq = record {
  id = id;
  type = a.type;
  product_id = a.product_id;
  qty_delta = a.qty_delta;
  unit_cost_cents = a.unit_cost_cents;
  unit_price_cents = a.unit_price_cents;
  payload = a.payload;
  sale_id = a.sale_id;
  batch_id = a.batch_id;
  reverses_op_id = none;
  author_id = (author_fields env).0;
  device_id = env.device_id;
  seq = seq;
  created_at = env.now;
  business_date = some (date_or a.business_date (local_today_iso env));
  created_by = (author_fields env).1;
  synced_at = none;
}

-- The row goes into the ledger, and both cached quantities take its delta.
abbrev pub post : Text → Operation → Db → Db
post now op db = record db {
  operations = op ∷ db.operations;
  products = map (bump_product now op.product_id op.qty_delta) db.products;
  batches = map (bump_batch now op.batch_id op.qty_delta) db.batches;
}

unfoldable pub record_operation : Env → Draft → Action Operation
unfolding check_operation next_seq
record_operation env a = do
  query (check_operation env a)
  id ← new_id env
  seq ← gets (next_seq env.device_id)
  let op = operation_row env a id seq
  insert (operation_conflict op) (post env.now op)
  commit_if a.commit
  pure op

-- `func.sum(Operation.qty_delta)` over the rows that pass a test, 0 for none.
unfoldable pub sum_where : (Operation → Bool) → List Operation → ℤ
sum_where p [] = pos 0
sum_where p (o ∷ os) = let rest = sum_where p os in if p o then o.qty_delta +ℤ rest else rest

unfoldable pub compute_stock : List Operation → Text → ℤ
unfolding sum_where
compute_stock ops product_id = sum_where (λ o. eq_text product_id o.product_id) ops

-- The rows of a product with no batch: the frozen NULL bucket.
unfoldable pub null_bucket : List Operation → Text → ℤ
unfolding sum_where
null_bucket ops product_id =
    sum_where (λ o. eq_text product_id o.product_id && not (is_some o.batch_id)) ops

abbrev pub is_legacy : Batch → Bool
is_legacy b = ltb 0 b.is_legacy

-- The rows of a batch.
unfoldable pub batch_rows : List Operation → Text → ℤ
unfolding sum_where
batch_rows ops batch_id = sum_where (λ o. is_text batch_id o.batch_id) ops

unfoldable pub compute_batch_stock : List Operation → Batch → ℤ
compute_batch_stock ops b =
    if is_legacy b then batch_rows ops b.id +ℤ null_bucket ops b.product_id else batch_rows ops b.id

-- An assignment to `quantity` is an UPDATE, with the column's `onupdate`, only if the value changes.
abbrev pub repair_product : Text → List Operation → Product → Product
repair_product now ops p =
    let q = compute_stock ops p.id in
    if q ==ℤ p.quantity then p else record p { quantity = q; updated_at = now }

abbrev pub repair_batch : Text → List Operation → Batch → Batch
repair_batch now ops b =
    let q = compute_batch_stock ops b in
    if q ==ℤ b.quantity then b else record b { quantity = q; updated_at = now }

-- `batch_total_by_product.get(id, 0)` after the loop over the batches.
pub batch_total : List Batch → Text → ℤ
batch_total [] id = pos 0
batch_total (b ∷ bs) id =
    let rest = batch_total bs id in if eq_text b.product_id id then b.quantity +ℤ rest else rest

-- `id in legacy_products`
pub has_legacy : List Batch → Text → Bool
has_legacy [] id = false
has_legacy (b ∷ bs) id = (eq_text b.product_id id && is_legacy b) || has_legacy bs id

-- What the batches of a product, and its NULL bucket if no legacy batch took that in, add up to.
abbrev pub expected_stock : List Batch → List Operation → Text → ℤ
expected_stock batches ops id =
    if has_legacy batches id
    then batch_total batches id
    else batch_total batches id +ℤ null_bucket ops id

-- The assertion of the last loop of `recompute_derived`.
pub check_stock_invariant : List Batch → List Operation → List Product → Result ⊤
check_stock_invariant batches ops [] = ok tt
check_stock_invariant batches ops (p ∷ ps) =
    let rest = check_stock_invariant batches ops ps in
    if p.quantity ==ℤ expected_stock batches ops p.id then rest else err value_error

abbrev pub repair : Text → Db → Db
repair now db = record db {
  products = map (repair_product now db.operations) db.products;
  batches = map (repair_batch now db.operations) db.batches;
}

unfoldable pub recompute_derived : Env → Action ⊤
unfolding compute_stock compute_batch_stock batch_rows null_bucket batch_total has_legacy
    check_stock_invariant
recompute_derived env = do
  modify (repair env.now)
  query (λ db. check_stock_invariant db.batches db.operations db.products)

unfoldable pub rebuild_stock : Env → Action ⊤
unfolding recompute_derived
rebuild_stock env = do recompute_derived env; commit
