-- ===== src/Sales.antt =====
-- app/services/sales.py: a basket of lines, validated as a whole and written in one transaction.
mod Basket
pub mod Register
pub mod Effect
pub mod Posted
unfoldable pub use Basket.{
  non_blank_lines, parse_price, pick_batch, resolve_line, collect, basket_currency, oversold_of,
  below_minimum_of, requests_of, total_of,
}
pub use Basket.{
  RawLine, SaleError, empty_basket, mixed_currency, save_rollback, qty_error, price_required,
  price_error, code_not_found, batch_required, op_date, Line, Resolved, Request, Below, PriceInput,
  Currency, one, none_found, several,
}
use myorishop.Prelude.{
  Bool, true, false, not, ◌&&◌, ◌||◌, Option, none, some, List, [], ◌∷◌, ◌++◌, ℤ, pos, neg, ℕ,
  if◌then◌else◌, is_empty, map, length,
}
use myorishop.Text.{Text, text, eq_text, or_none}
use myorishop.Money.{card_price, card_price_fields, cost}
use myorishop.Models.{OpType, no_payload, CashCategory, Sale}
use myorishop.Db.{Db, sale_conflict}
use myorishop.Session.{
  Env, Error, Action, ⊤, gets, insert, commit, pure, new_id, attempt, ◌>>=◌, ◌>>◌, local_today_iso,
}
use myorishop.Ledger.{Draft, record_operation, date_or, parse_op_date}
use myorishop.Finance.{CashDraft, record_cash_movement, op_date_errors, date_of}

pub record SaleForm : Type 0 where
  pub customer_id : Option Text
  pub codes : List Text
  pub qtys : List Text
  pub prices : List Text
  pub batch_ids : List Text
  pub confirm : Text
  pub op_date : Text

pub data SaleResult : Type 0 where
  registered : Sale → ℕ → ℤ → SaleResult
  warned : List Request → List Below → SaleResult
  refused_sale : List SaleError → SaleResult

abbrev pub is_registered : SaleResult → Bool
is_registered (registered h n total) = true
is_registered _ = false

-- The `sale` operation of one line.
abbrev pub line_draft : Text → Text → Text → Line → Draft
line_draft header_id date currency l = record {
  type = OpType.sale;
  product_id = l.product.id;
  qty_delta = neg (pos l.qty);
  unit_cost_cents = elim l.batch.cost_cents [
    | none ↦ card_price (card_price_fields currency) cost l.product
    | some c ↦ some c
  ];
  unit_price_cents = some l.price_cents;
  payload = no_payload;
  sale_id = some header_id;
  batch_id = some l.batch.id;
  business_date = some date;
  commit = false;
}

unfoldable pub post_lines : Env → Text → Text → Text → List Line → Action ⊤
post_lines env header_id date currency [] = pure tt
post_lines env header_id date currency (l ∷ ls) =
    let rest = post_lines env header_id date currency ls in
    do record_operation env (line_draft header_id date currency l); rest

abbrev pub sale_header : Env → Option Text → Text → Sale
sale_header env customer_id id = record {
  id = id;
  customer_id = elim customer_id [ none ↦ none | some c ↦ or_none c ];
  created_at = env.now;
  created_by = env.operator_name;
  author_id = none;
  device_id = some env.device_id;
}

abbrev pub sale_credit : Text → Text → Text → ℤ → CashDraft
sale_credit header_id date currency total = record {
  category = CashCategory.sale;
  amount_cents = total;
  currency = currency;
  sale_id = some header_id;
  note = none;
  business_date = some date;
  commit = false;
}

abbrev pub add_sale : Sale → Db → Db
add_sale h db = record db { sales = h ∷ db.sales }

-- The writes of a basket, before its one commit.
abbrev pub stage_basket : Env → Sale → Text → Text → List Line → Action ⊤
stage_basket env header date currency lines = do
  insert (sale_conflict header) (add_sale header)
  post_lines env header.id date currency lines
  record_cash_movement env (sale_credit header.id date currency (total_of lines))
  pure tt

abbrev pub write_basket : Env → SaleForm → Text → List Line → Action SaleResult
write_basket env f currency lines = do
  id ← new_id env
  let date = date_or (date_of (parse_op_date env f.op_date)) (local_today_iso env)
  let header = sale_header env f.customer_id id
  attempt
      (do
        stage_basket env header date currency lines
        commit
        pure (registered header (length lines) (total_of lines)))
      (λ _. refused_sale (save_rollback ∷ []))

-- The warn-but-allow gates, skipped by `confirm == "1"`.
abbrev pub gate_basket : Env → SaleForm → Text → List Line → Action SaleResult
gate_basket env f currency lines =
    let oversold = oversold_of lines in
    let below = below_minimum_of currency lines in
    if not (eq_text f.confirm (text "1")) && not (is_empty oversold && is_empty below)
    then pure (warned oversold below)
    else write_basket env f currency lines

abbrev pub with_currency : Env → SaleForm → List Line → Currency → Action SaleResult
with_currency env f lines (one c) = gate_basket env f c lines
with_currency env f lines none_found = pure (refused_sale (save_rollback ∷ []))
with_currency env f lines several = pure (refused_sale (mixed_currency ∷ []))

abbrev pub with_errors : Env → SaleForm → Db → List SaleError → List Line → Action SaleResult
with_errors env f db (e ∷ es) lines = pure (refused_sale (e ∷ es))
with_errors env f db [] lines = with_currency env f lines (basket_currency db.warehouses lines)

abbrev pub with_lines : Env → SaleForm → Db → List RawLine → Action SaleResult
with_lines env f db [] = pure (refused_sale (empty_basket ∷ []))
with_lines env f db (l ∷ ls) =
    let r = collect env db 0 (l ∷ ls) in
    with_errors env f db (r.errors ++ map op_date (op_date_errors (parse_op_date env f.op_date)))
      r.lines

unfoldable pub register_sale : Env → SaleForm → Action SaleResult
unfolding non_blank_lines collect basket_currency oversold_of below_minimum_of total_of post_lines
    record_operation record_cash_movement parse_op_date eq_text card_price_fields
register_sale env f = do
  db ← gets (λ db. db)
  with_lines env f db (non_blank_lines f.codes f.qtys f.prices f.batch_ids)
