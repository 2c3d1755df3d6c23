-- ===== src/Transfers.antt =====
-- app/services/transfers.py: units of one batch moved to a new batch of another warehouse, or split
-- off within the same one, as two ledger rows in one transaction.
pub mod Register
pub mod Balance
pub mod Moved
use myorishop.Prelude.{
  Bool, true, false, not, ◌&&◌, ◌||◌, Option, none, some, List, [], ◌∷◌, ◌++◌, ℤ, pos, neg, ℕ, ◌==◌,
  ltb_ℤ, if◌then◌else◌, is_empty, map,
}
use myorishop.Text.{Text, text, eq_text, strip, parse_qty}
use myorishop.Money.{to_cents}
use myorishop.Models.{OpType, no_payload, Product, Batch, Warehouse}
use myorishop.Db.{Db, active_product, find_warehouse, batch_conflict}
use myorishop.Session.{
  Env, Action, ⊤, gets, insert, commit, pure, new_id, attempt, ◌>>=◌, ◌>>◌, local_today_iso,
}
use myorishop.Ledger.{OpDateError, Draft, record_operation, parse_op_date, date_or}
use myorishop.Finance.{when, op_date_errors, date_of}
use myorishop.Catalog.{OptionalCents, price_error, cents, parse_optional_cents}
use myorishop.Batches.{own_batch, is_active_warehouse, add_batch}

pub record TransferForm : Type 0 where
  pub code : Text
  pub qty_raw : Text
  pub batch_id : Text
  pub dest_warehouse_id : Text
  pub new_expiry : Text
  pub new_comment : Text
  pub cost_raw : Text
  pub sale_price_raw : Text
  pub confirm : Text
  pub op_date : Text

pub data TransferError : Type 0 where
  code_required qty_error batch_required warehouse_error cost_required : TransferError
  cost_error sale_price_error same_warehouse save_failed : TransferError
  code_not_found : Text → TransferError
  op_date : OpDateError → TransferError

pub data TransferResult : Type 0 where
  -- The product, the batches, and the quantity.
  moved : Product → Batch → Batch → ℕ → TransferResult
  oversell : Product → ℤ → ℕ → TransferResult
  refused_transfer : List TransferError → TransferResult

abbrev pub is_moved : TransferResult → Bool
is_moved (moved p b d q) = true
is_moved _ = false

abbrev pub transfer_errors : Env → TransferForm → List TransferError
transfer_errors env f =
    when (is_empty (strip f.code)) code_required
    ++ (when (parse_qty f.qty_raw == 0) qty_error
        ++ map op_date (op_date_errors (parse_op_date env f.op_date)))

-- The price and the cost of the new batch, or why the form has none.
pub data Amounts : Type 0 where
  no_amounts : TransferError → Amounts
  amounts : Option ℤ → Option ℤ → Amounts

abbrev with_sale_price : ℤ → OptionalCents → Amounts
with_sale_price cost price_error = no_amounts sale_price_error
with_sale_price cost (cents price) = amounts price (some cost)

abbrev foreign_cost : TransferForm → Option ℤ → Amounts
foreign_cost f none = no_amounts cost_error
foreign_cost f (some c) = with_sale_price c (parse_optional_cents f.sale_price_raw)

-- Between currencies the cost is required, and the price is the form's.
abbrev foreign_amounts : TransferForm → Text → Amounts
foreign_amounts f [] = no_amounts cost_required
foreign_amounts f (c ∷ cs) = foreign_cost f (to_cents (c ∷ cs))

abbrev native_cost : Batch → Option ℤ → Amounts
native_cost b none = no_amounts cost_error
native_cost b (some c) = amounts b.price_cents (some c)

-- Within a currency the price is inherited, and so is the cost unless the form has one.
abbrev native_amounts : Batch → Text → Amounts
native_amounts b [] = amounts b.price_cents b.cost_cents
native_amounts b (c ∷ cs) = native_cost b (to_cents (c ∷ cs))

unfoldable pub transfer_amounts : TransferForm → Batch → Warehouse → Warehouse → Amounts
unfolding strip eq_text to_cents parse_optional_cents
transfer_amounts f b here there =
    if eq_text there.currency here.currency
    then native_amounts b (strip f.cost_raw)
    else foreign_amounts f (strip f.cost_raw)

abbrev or_inherit : Text → Option Text → Option Text
or_inherit [] inherited = inherited
or_inherit (c ∷ cs) inherited = some (c ∷ cs)

-- The batch that the units go to.
abbrev pub dest_batch : Env → TransferForm → Product → Batch → Option ℤ → Option ℤ → Text → Batch
dest_batch env f p b price cost id = record {
  id = id;
  product_id = p.id;
  warehouse_id = strip f.dest_warehouse_id;
  expiry = or_inherit (strip f.new_expiry) b.expiry;
  price_cents = price;
  cost_cents = cost;
  location = b.location;
  comment = or_inherit (strip f.new_comment) b.comment;
  name = b.name;
  quantity = pos 0;
  is_legacy = 0;
  created_at = env.now;
  updated_at = env.now;
}

-- One of the two rows.
abbrev pub leg : Product → Text → Text → ℤ → Draft
leg p batch_id date d = record {
  type = OpType.transfer;
  product_id = p.id;
  qty_delta = d;
  unit_cost_cents = none;
  unit_price_cents = none;
  payload = no_payload;
  sale_id = none;
  batch_id = some batch_id;
  business_date = some date;
  commit = false;
}

-- The writes of a transfer, before its one commit.
abbrev pub stage_transfer : Env → Product → Text → Batch → Text → ℕ → Action ⊤
stage_transfer env p source_id dest date qty = do
  insert (batch_conflict dest) (add_batch dest)
  record_operation env (leg p source_id date (neg (pos qty)))
  record_operation env (leg p dest.id date (pos qty))
  pure tt

abbrev pub write_transfer :
    Env → TransferForm → Product → Batch → Option ℤ → Option ℤ → Action TransferResult
write_transfer env f p b price cost = do
  id ← new_id env
  let dest = dest_batch env f p b price cost id
  let date = date_or (date_of (parse_op_date env f.op_date)) (local_today_iso env)
  attempt
      (do
        stage_transfer env p b.id dest date (parse_qty f.qty_raw)
        commit
        pure (moved p b dest (parse_qty f.qty_raw)))
      (λ _. refused_transfer (save_failed ∷ []))

-- A split within a warehouse that changes nothing.
abbrev pub is_empty_split : TransferForm → Batch → Bool
is_empty_split f b =
    eq_text (strip f.dest_warehouse_id) b.warehouse_id
    && (is_empty (strip f.new_expiry) && is_empty (strip f.new_comment))

abbrev pub transfer_overdraws : TransferForm → Batch → Bool
transfer_overdraws f b =
    not (eq_text f.confirm (text "1")) && ltb_ℤ b.quantity (pos (parse_qty f.qty_raw))

abbrev pub transfer_priced : Env → TransferForm → Product → Batch → Amounts → Action TransferResult
transfer_priced env f p b (no_amounts e) = pure (refused_transfer (e ∷ []))
transfer_priced env f p b (amounts price cost) =
    if is_empty_split f b
    then pure (refused_transfer (same_warehouse ∷ []))
    else if transfer_overdraws f b
    then pure (oversell p b.quantity (parse_qty f.qty_raw))
    else write_transfer env f p b price cost

abbrev pub transfer_between :
    Env
    → TransferForm
    → Product
    → Batch
    → Option Warehouse
    → Option Warehouse
    → Action TransferResult
transfer_between env f p b (some there) (some here) =
    transfer_priced env f p b (transfer_amounts f b here there)
transfer_between env f p b _ _ = pure (refused_transfer (batch_required ∷ []))

abbrev pub transfer_from : Env → TransferForm → Db → Product → Option Batch → Action TransferResult
transfer_from env f db p none = pure (refused_transfer (batch_required ∷ []))
transfer_from env f db p (some b) =
    if is_active_warehouse (strip f.dest_warehouse_id) db.warehouses
    then transfer_between env f p b (find_warehouse (strip f.dest_warehouse_id) db.warehouses)
        (find_warehouse b.warehouse_id db.warehouses)
    else pure (refused_transfer (warehouse_error ∷ []))

abbrev pub transfer_of : Env → TransferForm → Db → Option Product → Action TransferResult
transfer_of env f db none = pure (refused_transfer (code_not_found (strip f.code) ∷ []))
transfer_of env f db (some p) = transfer_from env f db p (own_batch env db p (strip f.batch_id))

abbrev pub transfer_checked : Env → TransferForm → Db → List TransferError → Action TransferResult
transfer_checked env f db (e ∷ es) = pure (refused_transfer (e ∷ es))
transfer_checked env f db [] = transfer_of env f db (active_product (strip f.code) db.products)

unfoldable pub register_transfer : Env → TransferForm → Action TransferResult
unfolding record_operation own_batch is_active_warehouse transfer_amounts parse_op_date parse_qty
    strip eq_text neg
register_transfer env f = do db ← gets (λ db. db); transfer_checked env f db (transfer_errors env f)
