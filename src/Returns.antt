-- ===== src/Returns.antt =====
-- app/services/returns.py: units of one sale line taken back, at the price and cost of the sale.
pub mod Register
pub mod Left
pub mod Capped
pub mod Stock
pub mod Refund
pub mod Staged
pub mod Refunded
use myorishop.Prelude.{
  Bool, true, false, not, ◌&&◌, Option, none, some, List, [], ◌∷◌, ℤ, pos, neg, ℕ, ◌==◌, ◌-ℤ◌, ◌*ℤ◌,
  ◌==ℤ◌, ltb_ℤ, leb_ℤ, if◌then◌else◌,
}
use myorishop.Text.{Text, text, eq_text, is_text, parse_qty}
use myorishop.Models.{OpType, origin_op, CashCategory, Product, Batch, Warehouse, Operation}
use myorishop.Db.{Db, find_operation, find_product, find_batch, find_warehouse, batch_conflict}
use myorishop.Session.{
  Env, Error, value_error, warehouse_access, integrity_error, Action, ⊤, gets, insert, commit, pure,
  raise, new_id, attempt, ◌>>=◌, ◌>>◌, local_today_iso, warehouse_allowed,
}
use myorishop.Ledger.{
  OpDateError, OpDate, accepted, refused, Draft, record_operation, parse_op_date, date_or,
  sum_where,
}
use myorishop.Finance.{CashDraft, record_cash_movement}
use myorishop.Batches.{legacy_batch, add_batch}

abbrev default_warehouse_id : Text
default_warehouse_id = text "00000000-0000-4000-8000-000000000010"

-- `LEGACY_BATCH_COMMENT`, in Cyrillic in the source; its code points.
abbrev legacy_batch_comment : Text
legacy_batch_comment =
    1054 ∷ 1089 ∷ 1090 ∷ 1072 ∷ 1090 ∷ 1086 ∷ 1082 ∷ 32 ∷ 1076 ∷ 1086 ∷ 32 ∷ 1074 ∷ 1085 ∷ 1077
    ∷ 1076 ∷ 1088 ∷ 1077 ∷ 1085 ∷ 1080 ∷ 1103 ∷ 32 ∷ 1087 ∷ 1072 ∷ 1088 ∷ 1090 ∷ 1080 ∷ 1081 ∷ []

pub data ReturnError : Type 0 where
  origin_not_found qty_error fully_returned product_unavailable save_failed : ReturnError
  over_cap : ℤ → ReturnError
  op_date : OpDateError → ReturnError

pub data ReturnResult : Type 0 where
  -- The product, the row, and what is still returnable.
  returned : Option Product → Operation → ℤ → ReturnResult
  refused_return : ReturnError → ReturnResult

abbrev pub is_returned : ReturnResult → Bool
is_returned (returned p o n) = true
is_returned _ = false

pub record ReturnForm : Type 0 where
  pub origin_op_id : Text
  pub qty_raw : Text
  pub op_date : Text

abbrev pub is_sale : OpType → Bool
is_sale OpType.sale = true
is_sale _ = false

abbrev pub is_return : OpType → Bool
is_return OpType.return = true
is_return _ = false

-- The rows of one type of one product on one sale.
abbrev pub on_sale : (OpType → Bool) → Text → Text → Operation → Bool
on_sale type sale_id product_id o =
    is_text sale_id o.sale_id && (eq_text o.product_id product_id && type o.type)

unfoldable pub sold_qty : List Operation → Text → Text → ℤ
unfolding neg
sold_qty ops sale_id product_id = neg (sum_where (on_sale is_sale sale_id product_id) ops)

unfoldable pub returnable_qty : List Operation → Text → Text → ℤ
unfolding sold_qty ◌-ℤ◌
returnable_qty ops sale_id product_id =
    sold_qty ops sale_id product_id -ℤ sum_where (on_sale is_return sale_id product_id) ops

unfoldable pub resolve_return_batch : Db → Operation → Option Batch
unfolding legacy_batch
resolve_return_batch db origin = elim origin.batch_id [
  | none ↦ legacy_batch origin.product_id db.batches
  | some id ↦ find_batch id db.batches
]

abbrev warehouse_of : Option Batch → Text
warehouse_of none = default_warehouse_id
warehouse_of (some b) = b.warehouse_id

unfoldable pub origin_allowed : Env → Db → Operation → Bool
unfolding resolve_return_batch
origin_allowed env db origin = warehouse_allowed env (warehouse_of (resolve_return_batch db origin))

-- The legacy batch that a return creates where its product has none.
abbrev pub lazy_batch : Env → Text → Text → Batch
lazy_batch env product_id id = record {
  id = id;
  product_id = product_id;
  warehouse_id = default_warehouse_id;
  expiry = none;
  price_cents = none;
  cost_cents = none;
  location = none;
  comment = some legacy_batch_comment;
  name = none;
  quantity = pos 0;
  is_legacy = 1;
  created_at = env.now;
  updated_at = env.now;
}

abbrev pub create_legacy : Env → Text → Option Batch → Action Text
create_legacy env product_id (some b) = pure b.id
create_legacy env product_id none = do
  id ← new_id env
  insert (batch_conflict (lazy_batch env product_id id)) (add_batch (lazy_batch env product_id id))
  pure id

abbrev pub return_batch_id : Env → Text → Option Text → Action Text
return_batch_id env product_id (some id) = pure id
return_batch_id env product_id none = do
  found ← gets (λ db. legacy_batch product_id db.batches)
  create_legacy env product_id found

unfoldable pub resolve_or_create_return_batch_id : Env → Operation → Action Text
unfolding legacy_batch
resolve_or_create_return_batch_id env origin = return_batch_id env origin.product_id origin.batch_id

abbrev pub return_draft : Operation → Text → Text → Text → ℕ → Draft
return_draft origin sale_id batch_id date qty = record {
  type = OpType.return;
  product_id = origin.product_id;
  qty_delta = pos qty;
  unit_cost_cents = origin.unit_cost_cents;
  unit_price_cents = origin.unit_price_cents;
  payload = origin_op origin.id;
  sale_id = some sale_id;
  batch_id = some batch_id;
  business_date = some date;
  commit = false;
}

abbrev pub price_or_zero : Option ℤ → ℤ
price_or_zero none = pos 0
price_or_zero (some a) = a

-- `qty * (origin.unit_price_cents or 0)`
unfoldable pub debit_of : Operation → ℕ → ℤ
unfolding ◌*ℤ◌
debit_of origin qty = pos qty *ℤ price_or_zero origin.unit_price_cents

abbrev pub refund_draft : Text → Text → Text → ℤ → CashDraft
refund_draft currency sale_id date debit = record {
  category = CashCategory.return;
  amount_cents = neg debit;
  currency = currency;
  sale_id = some sale_id;
  note = none;
  business_date = some date;
  commit = false;
}

abbrev batch_warehouse : Db → Option Batch → Option Warehouse
batch_warehouse db none = none
batch_warehouse db (some b) = find_warehouse b.warehouse_id db.warehouses

-- A missing warehouse rolls back and answers as a failed constraint does.
abbrev pub refund_in : Env → Text → Text → ℤ → Option Warehouse → Action ⊤
refund_in env sale_id date debit none = raise integrity_error
refund_in env sale_id date debit (some w) = do
  record_cash_movement env (refund_draft w.currency sale_id date debit)
  pure tt

abbrev pub refund : Env → Text → Text → Text → ℤ → Action ⊤
refund env sale_id batch_id date debit = if debit ==ℤ pos 0 then pure tt else (do
  w ← gets (λ db. batch_warehouse db (find_batch batch_id db.batches))
  refund_in env sale_id date debit w)

-- The writes of a return, before its one commit.
abbrev pub stage_return : Env → Operation → Text → Text → ℕ → Action Operation
stage_return env origin sale_id date qty = do
  batch_id ← resolve_or_create_return_batch_id env origin
  op ← record_operation env (return_draft origin sale_id batch_id date qty)
  refund env sale_id batch_id date (debit_of origin qty)
  pure op

-- `WarehouseAccessError` is a `ValueError`.
abbrev pub return_failed : Error → ReturnResult
return_failed integrity_error = refused_return save_failed
return_failed value_error = refused_return product_unavailable
return_failed warehouse_access = refused_return product_unavailable

abbrev pub write_return : Env → Operation → Text → Text → ℕ → ℤ → Action ReturnResult
write_return env origin sale_id date qty remaining =
    attempt
      (do
        op ← stage_return env origin sale_id date qty
        commit
        gets
            (λ db. returned (find_product origin.product_id db.products) op (remaining -ℤ pos qty)))
      return_failed

abbrev pub return_dated : Env → Operation → Text → ℕ → ℤ → OpDate → Action ReturnResult
return_dated env origin sale_id qty remaining (refused e) = pure (refused_return (op_date e))
return_dated env origin sale_id qty remaining (accepted d) =
    write_return env origin sale_id (date_or d (local_today_iso env)) qty remaining

-- The guards on the quantity, in their order.
abbrev pub return_capped : Env → ReturnForm → Operation → Text → ℤ → Action ReturnResult
return_capped env f origin sale_id remaining =
    if parse_qty f.qty_raw == 0
    then pure (refused_return qty_error)
    else if leb_ℤ remaining (pos 0)
    then pure (refused_return fully_returned)
    else if ltb_ℤ remaining (pos (parse_qty f.qty_raw))
    then pure (refused_return (over_cap remaining))
    else return_dated env origin sale_id (parse_qty f.qty_raw) remaining
        (parse_op_date env f.op_date)

abbrev pub return_from : Env → ReturnForm → Db → Operation → Option Text → Action ReturnResult
return_from env f db origin none = pure (refused_return origin_not_found)
return_from env f db origin (some sale_id) =
    if is_sale origin.type && origin_allowed env db origin
    then return_capped env f origin sale_id (returnable_qty db.operations sale_id origin.product_id)
    else pure (refused_return origin_not_found)

abbrev pub return_of : Env → ReturnForm → Db → Option Operation → Action ReturnResult
return_of env f db none = pure (refused_return origin_not_found)
return_of env f db (some origin) = return_from env f db origin origin.sale_id

unfoldable pub register_return : Env → ReturnForm → Action ReturnResult
unfolding record_operation record_cash_movement resolve_or_create_return_batch_id returnable_qty
    origin_allowed debit_of parse_op_date parse_qty eq_text ◌-ℤ◌ neg
register_return env f = do
  db ← gets (λ db. db)
  return_of env f db (find_operation f.origin_op_id db.operations)
