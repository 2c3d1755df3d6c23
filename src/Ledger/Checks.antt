-- ===== src/Ledger/Checks.antt =====
-- app/services/ledger.py: `next_seq`, and the guards of `record_operation`, in the source's order.
use myorishop.Prelude.{
  Bool, true, false, not, ◌&&◌, ◌||◌, Option, none, some, List, [], ◌∷◌, ℤ, pos, ◌+ℤ◌, ltb_ℤ,
  is_some, if◌then◌else◌,
}
use myorishop.Text.{Text, eq_text}
use myorishop.Models.{OpType, Payload, Operation, is_operation_type}
use myorishop.Db.{Db, find_product, find_batch}
use myorishop.Session.{
  Env, value_error, warehouse_access, Result, ⊤, require, or_fail, warehouse_allowed,
}
use myorishop.Session.Check.{◌>>=◌, ◌>>◌}

-- `func.max(Operation.seq)` over the device's rows; `none` is NULL.
abbrev pub max_with : ℤ → Option ℤ → Option ℤ
max_with a none = some a
max_with a (some b) = some (if ltb_ℤ a b then b else a)

unfoldable pub max_seq : Text → List Operation → Option ℤ
max_seq device [] = none
max_seq device (o ∷ os) =
    let rest = max_seq device os in if eq_text o.device_id device then max_with o.seq rest else rest

-- `(current or 0) + 1`
abbrev pub after_seq : Option ℤ → ℤ
after_seq none = pos 1
after_seq (some m) = m +ℤ pos 1

unfoldable pub next_seq : Text → Db → ℤ
unfolding max_seq
next_seq device db = after_seq (max_seq device db.operations)

-- `type_ in STOCK_AFFECTING_TYPES`
abbrev pub is_stock_affecting : OpType → Bool
is_stock_affecting OpType.receipt = true
is_stock_affecting OpType.sale = true
is_stock_affecting OpType.writeoff = true
is_stock_affecting OpType.return = true
is_stock_affecting OpType.correction = true
is_stock_affecting OpType.transfer = true
is_stock_affecting _ = false

abbrev pub is_transfer : OpType → Bool
is_transfer OpType.transfer = true
is_transfer _ = false

-- The keyword arguments of `record_operation`.
pub record Draft : Type 0 where
  pub type : OpType
  pub product_id : Text
  pub qty_delta : ℤ
  pub unit_cost_cents : Option ℤ
  pub unit_price_cents : Option ℤ
  pub payload : Payload
  pub sale_id : Option Text
  pub batch_id : Option Text
  pub business_date : Option Text
  pub commit : Bool

-- The batch of a stock-affecting draft exists, belongs to the product, and lies in a warehouse of the
-- user, or is the destination of a transfer.
abbrev check_stock : Env → Draft → Db → Result ⊤
check_stock env a db = do
  batch_id ← or_fail a.batch_id value_error
  batch ← or_fail (find_batch batch_id db.batches) value_error
  require (eq_text batch.product_id a.product_id) value_error
  require
      (warehouse_allowed env batch.warehouse_id
        || (is_transfer a.type && ltb_ℤ (pos 0) a.qty_delta))
      warehouse_access

abbrev check_batch : Env → Draft → Db → Result ⊤
check_batch env a db =
    if is_stock_affecting a.type
    then check_stock env a db
    else require (not (is_some a.batch_id)) value_error

unfoldable pub check_operation : Env → Draft → Db → Result ⊤
check_operation env a db = do
  require (is_operation_type a.type) value_error
  product ← or_fail (find_product a.product_id db.products) value_error
  require (not (is_some product.deleted_at)) value_error
  check_batch env a db
