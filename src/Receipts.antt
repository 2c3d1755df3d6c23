-- ===== src/Receipts.antt =====
-- app/services/receipts.py: goods that come in, with the card of a new code and the batch of a new
-- lot, in one transaction.
pub mod Closing
pub mod Audit
pub mod Received
pub mod Stock
pub mod Register
mod Form
pub use Form.{
  ReceiptForm, ReceiptError, ReceiptResult, is_received, OptionalExpiry, amount_of, expiry_of,
  is_new_batch, receipt_errors, cost_of, sale_of, receipt_date, received, refused_receipt,
  bad_expiry, expires, code_required, name_required, qty_error, cost_error, sale_error,
  no_warehouses, warehouse_error, batch_choice_error, expiry_error, duplicate_code, op_date,
}
unfoldable pub use Form.{parse_optional_expiry}
use myorishop.Prelude.{
  Bool, true, false, not, ◌&&◌, ◌||◌, Option, none, some, List, [], ◌∷◌, ◌++◌, ℤ, pos, ℕ, ◌==◌,
  ◌==ℤ◌, if◌then◌else◌, is_empty, map, any,
}
use myorishop.Text.{Text, text, eq_text, strip, lower, or_none, parse_qty}
use myorishop.IsoDate.{fromisoformat, isoformat, format_ru_date}
use myorishop.Models.{OpType, no_payload, card_created, price_changed, Product, Batch, Operation}
use myorishop.Money.{with_price, price_field}
use myorishop.Db.{add_product}
use myorishop.Session.{closing}
use myorishop.Money.{
  PriceSet, rub, uah, eur, PriceKind, cost, sale, min_sale, card_price, card_price_fields,
}
use myorishop.Db.{Db, active_product, find_batch, product_conflict, batch_conflict}
use myorishop.Session.{
  Env, Session, Error, value_error, warehouse_access, integrity_error, Result, ok, err, Action, ⊤,
  gets, modify, insert, commit, pure, new_id, rollback, ◌>>=◌, ◌>>◌, local_today_iso,
}
use myorishop.Ledger.{OpDateError, Draft, record_operation, parse_op_date, date_or}
use myorishop.Finance.{when, op_date_errors, date_of}
use myorishop.Catalog.{OptionalCents, price_error, cents, parse_optional_cents}
use myorishop.Batches.{is_own_warehouse, warehouse_currency, add_batch}

-- The card of a new code, with its prices in the warehouse's currency only.
abbrev pub new_card : Env → ReceiptForm → PriceSet → Text → Product
new_card env f set id = with_price set sale (sale_of f) (
    with_price set cost (cost_of f) (record {
      id = id;
      code = some (strip f.code);
      name = strip f.name;
      category = none;
      cost_cents = none;
      sale_cents = none;
      min_sale_cents = none;
      cost_uah_cents = none;
      sale_uah_cents = none;
      min_sale_uah_cents = none;
      cost_eur_cents = none;
      sale_eur_cents = none;
      min_sale_eur_cents = none;
      low_stock_threshold = none;
      stale_days = none;
      name_lc = some (lower (strip f.name));
      quantity = pos 0;
      created_at = env.now;
      updated_at = env.now;
      deleted_at = none;
    }))

abbrev pub created_draft : ReceiptForm → Product → Draft
created_draft f p = record {
  type = OpType.product_created;
  product_id = p.id;
  qty_delta = pos 0;
  unit_cost_cents = none;
  unit_price_cents = none;
  payload = card_created (strip f.code) (strip f.name);
  sale_id = none;
  batch_id = none;
  business_date = none;
  commit = false;
}

abbrev pub price_draft : Product → PriceSet → PriceKind → ℤ → Draft
price_draft p set kind a = record {
  type = OpType.price_change;
  product_id = p.id;
  qty_delta = pos 0;
  unit_cost_cents = none;
  unit_price_cents = none;
  payload = price_changed (price_field set kind) (card_price set kind p) (some a);
  sale_id = none;
  batch_id = none;
  business_date = none;
  commit = false;
}

abbrev pub receipt_draft : Env → ReceiptForm → Product → Batch → Draft
receipt_draft env f p b = record {
  type = OpType.receipt;
  product_id = p.id;
  qty_delta = pos (parse_qty f.qty_raw);
  unit_cost_cents = cost_of f;
  unit_price_cents = sale_of f;
  payload = no_payload;
  sale_id = none;
  batch_id = some b.id;
  business_date = some (receipt_date env f);
  commit = false;
}

-- The UPDATE of one price of one product.
abbrev pub priced : Text → Text → PriceSet → PriceKind → ℤ → Product → Product
priced now id set kind a q =
    if eq_text q.id id then record (with_price set kind (some a) q) { updated_at = now } else q

abbrev pub set_price : Text → Text → PriceSet → PriceKind → ℤ → Db → Db
set_price now id set kind a db = record db { products = map (priced now id set kind a) db.products }

abbrev is_price : Option ℤ → ℤ → Bool
is_price none a = false
is_price (some b) a = b ==ℤ a

-- One round of the loop over the entered prices.
abbrev pub change_price : Env → Product → PriceSet → PriceKind → Option ℤ → Action ⊤
change_price env p set kind none = pure tt
change_price env p set kind (some a) = if is_price (card_price set kind p) a then pure tt else (do
  record_operation env (price_draft p set kind a)
  modify (set_price env.now p.id set kind a))

abbrev pub create_card : Env → ReceiptForm → PriceSet → Action Product
create_card env f set = do
  id ← new_id env
  let p = new_card env f set id
  insert (product_conflict p) (add_product p)
  record_operation env (created_draft f p)
  pure p

abbrev pub reprice : Env → ReceiptForm → PriceSet → Product → Action Product
reprice env f set p = do
  change_price env p set cost (cost_of f)
  change_price env p set sale (sale_of f)
  pure p

-- The product of the receipt: the active one of the code, or a new one.
abbrev pub product_for : Env → ReceiptForm → PriceSet → Option Product → Action Product
product_for env f set none = create_card env f set
product_for env f set (some p) = reprice env f set p

-- `f"{product.name} — {format_ru_date(resolved_business_date)}"`
abbrev batch_name : Env → ReceiptForm → Product → Text
batch_name env f p = p.name ++ (text " — " ++ format_ru_date (receipt_date env f))

abbrev pub new_batch : Env → ReceiptForm → Product → Text → Batch
new_batch env f p id = record {
  id = id;
  product_id = p.id;
  warehouse_id = strip f.warehouse_id;
  expiry = expiry_of (parse_optional_expiry f.expiry_raw);
  price_cents = sale_of f;
  cost_cents = cost_of f;
  location = or_none (strip f.location_raw);
  comment = or_none (strip f.comment_raw);
  name = some (batch_name env f p);
  quantity = pos 0;
  is_legacy = 0;
  created_at = env.now;
  updated_at = env.now;
}

-- Only the last commit is under the `try`, which catches an IntegrityError; the row of the receipt is
-- flushed by it.
abbrev pub receive : Env → ReceiptForm → Product → Batch → Action ReceiptResult
receive env f p b =
    closing (refused_receipt (duplicate_code ∷ []))
      (do op ← record_operation env (receipt_draft env f p b); commit; pure (received p op b))

-- `session.rollback(); return None, errors`
abbrev pub reject : List ReceiptError → Action ReceiptResult
reject es s = (ok (refused_receipt es), rollback s)

abbrev is_top_up : ReceiptForm → Product → Batch → Bool
is_top_up f p b = eq_text b.product_id p.id && eq_text b.warehouse_id (strip f.warehouse_id)

abbrev pub top_up : Env → ReceiptForm → Product → Option Batch → Action ReceiptResult
top_up env f p none = reject (batch_choice_error ∷ [])
top_up env f p (some b) =
    if is_top_up f p b then receive env f p b else reject (batch_choice_error ∷ [])

abbrev pub open_batch : Env → ReceiptForm → Product → Action ReceiptResult
open_batch env f p = do
  id ← new_id env
  let b = new_batch env f p id
  insert (batch_conflict b) (add_batch b)
  receive env f p b

abbrev pub receive_into : Env → ReceiptForm → Product → Action ReceiptResult
receive_into env f p =
    if is_new_batch f
    then open_batch env f p
    else (do b ← gets (λ db. find_batch (strip f.batch_choice) db.batches); top_up env f p b)

abbrev pub receipt_checked : Env → ReceiptForm → Db → List ReceiptError → Action ReceiptResult
receipt_checked env f db (e ∷ es) = pure (refused_receipt (e ∷ es))
receipt_checked env f db [] = do
  let set = card_price_fields (warehouse_currency (strip f.warehouse_id) db.warehouses)
  p ← product_for env f set (active_product (strip f.code) db.products)
  receive_into env f p

unfoldable pub register_receipt : Env → ReceiptForm → Action ReceiptResult
unfolding record_operation warehouse_currency card_price_fields parse_optional_expiry
    parse_optional_cents parse_op_date parse_qty format_ru_date strip eq_text
register_receipt env f = do db ← gets (λ db. db); receipt_checked env f db (receipt_errors env f db)
