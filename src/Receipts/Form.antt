-- ===== src/Receipts/Form.antt =====
-- app/services/receipts.py: the form of a receipt, and what is wrong with it.
use myorishop.Prelude.{
  Bool, true, false, not, ◌&&◌, Option, none, some, List, [], ◌∷◌, ◌++◌, ℤ, ◌==◌, if◌then◌else◌,
  is_empty, map, any,
}
use myorishop.Text.{Text, text, eq_text, strip, parse_qty}
use myorishop.IsoDate.{fromisoformat, isoformat}
use myorishop.Models.{Product, Batch, Operation}
use myorishop.Db.{Db}
use myorishop.Session.{Env, local_today_iso}
use myorishop.Ledger.{OpDateError, parse_op_date, date_or}
use myorishop.Finance.{when, op_date_errors, date_of}
use myorishop.Catalog.{OptionalCents, price_error, cents, parse_optional_cents}
use myorishop.Batches.{is_own_warehouse}

pub record ReceiptForm : Type 0 where
  pub code : Text
  pub name : Text
  pub qty_raw : Text
  pub cost_raw : Text
  pub sale_raw : Text
  pub warehouse_id : Text
  pub batch_choice : Text
  pub expiry_raw : Text
  pub location_raw : Text
  pub comment_raw : Text
  pub op_date : Text

pub data ReceiptError : Type 0 where
  code_required name_required qty_error cost_error sale_error : ReceiptError
  no_warehouses warehouse_error batch_choice_error expiry_error duplicate_code : ReceiptError
  op_date : OpDateError → ReceiptError

pub data ReceiptResult : Type 0 where
  -- The product and the batch as they were picked or created, and the row.
  received : Product → Operation → Batch → ReceiptResult
  refused_receipt : List ReceiptError → ReceiptResult

abbrev pub is_received : ReceiptResult → Bool
is_received (received p o b) = true
is_received (refused_receipt es) = false

pub data OptionalExpiry : Type 0 where
  bad_expiry : OptionalExpiry
  expires : Option Text → OptionalExpiry

abbrev optional_expiry : Text → OptionalExpiry
optional_expiry [] = expires none
optional_expiry (c ∷ cs) = elim (fromisoformat (c ∷ cs)) [
  | none ↦ bad_expiry
  | some d ↦ expires (some (isoformat d))
]

unfoldable pub parse_optional_expiry : Text → OptionalExpiry
unfolding strip fromisoformat isoformat
parse_optional_expiry raw = optional_expiry (strip raw)

abbrev is_price_error : OptionalCents → Bool
is_price_error price_error = true
is_price_error (cents a) = false

-- The value of `parse_optional_cents`, which is None beside an error.
abbrev pub amount_of : OptionalCents → Option ℤ
amount_of price_error = none
amount_of (cents a) = a

abbrev is_bad_expiry : OptionalExpiry → Bool
is_bad_expiry bad_expiry = true
is_bad_expiry (expires e) = false

abbrev pub expiry_of : OptionalExpiry → Option Text
expiry_of bad_expiry = none
expiry_of (expires e) = e

abbrev pub is_new_batch : ReceiptForm → Bool
is_new_batch f = eq_text (strip f.batch_choice) (text "new")

abbrev warehouse_errors : Env → ReceiptForm → Db → List ReceiptError
warehouse_errors env f db =
    if not (any (is_own_warehouse env) db.warehouses)
    then no_warehouses ∷ []
    else when
        (not
          (any (λ w. eq_text w.id (strip f.warehouse_id) && is_own_warehouse env w) db.warehouses))
        warehouse_error

abbrev pub receipt_errors : Env → ReceiptForm → Db → List ReceiptError
receipt_errors env f db =
    when (is_empty (strip f.code)) code_required
    ++ (when (is_empty (strip f.name)) name_required
        ++ (when (parse_qty f.qty_raw == 0) qty_error
            ++ (when (is_price_error (parse_optional_cents f.cost_raw)) cost_error
                ++ (when (is_price_error (parse_optional_cents f.sale_raw)) sale_error
                    ++ (warehouse_errors env f db
                        ++ (when (is_empty (strip f.batch_choice)) batch_choice_error
                            ++ (when
                                  (is_new_batch f
                                    && is_bad_expiry (parse_optional_expiry f.expiry_raw))
                                  expiry_error
                                ++ map op_date (op_date_errors (parse_op_date env f.op_date)))))))))

abbrev pub cost_of : ReceiptForm → Option ℤ
cost_of f = amount_of (parse_optional_cents f.cost_raw)

abbrev pub sale_of : ReceiptForm → Option ℤ
sale_of f = amount_of (parse_optional_cents f.sale_raw)

-- `resolved_business_date`
abbrev pub receipt_date : Env → ReceiptForm → Text
receipt_date env f = date_or (date_of (parse_op_date env f.op_date)) (local_today_iso env)
