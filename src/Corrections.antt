-- ===== src/Corrections.antt =====
-- app/services/corrections.py: the stock of one batch set to a counted quantity, or changed by a
-- signed one.
pub mod Register
pub mod Corrected
use myorishop.Prelude.{
  Bool, true, false, not, ◌&&◌, ◌||◌, Option, none, some, List, [], ◌∷◌, ◌++◌, ℤ, pos, neg, ◌-ℤ◌,
  ◌==ℤ◌, ◌==◌, ltb_ℤ, if◌then◌else◌, is_empty, is_some, map,
}
use myorishop.Text.{Text, text, eq_text, strip, or_none, is_ascii_digits, int_of_digits}
use myorishop.Models.{OpType, correction_note, Product, Batch, Operation}
use myorishop.Db.{Db, active_product, find_product}
use myorishop.Session.{Env, Action, gets, pure, attempt, ◌>>=◌}
use myorishop.Ledger.{OpDateError, Draft, record_operation, parse_op_date}
use myorishop.Finance.{when, op_date_errors, date_of}
use myorishop.Batches.{own_batch}

pub record CorrectionForm : Type 0 where
  pub code : Text
  pub mode : Text
  pub value_raw : Text
  pub note : Text
  pub batch_id : Text
  pub confirm : Text
  pub op_date : Text

pub data CorrectionError : Type 0 where
  mode_error code_error code_not_found batch_required : CorrectionError
  count_qty_error delta_qty_error zero_net save_failed : CorrectionError
  op_date : OpDateError → CorrectionError

pub data CorrectionResult : Type 0 where
  -- The product, the row, and the product's new quantity.
  corrected : Product → Operation → ℤ → CorrectionResult
  oversell : Product → ℤ → ℤ → CorrectionResult
  refused_correction : List CorrectionError → CorrectionResult

abbrev pub is_corrected : CorrectionResult → Bool
is_corrected (corrected p o q) = true
is_corrected _ = false

abbrev pub is_count : CorrectionForm → Bool
is_count f = eq_text f.mode (text "count")

-- The counted quantity, less what the batch holds.
abbrev counted_delta : Batch → Text → Option ℤ
counted_delta b s = if is_ascii_digits s then some (pos (int_of_digits s) -ℤ b.quantity) else none

-- A signed integer: digits, with one leading minus at most.
abbrev signed_delta : Text → Option ℤ
signed_delta [] = none
signed_delta (c ∷ cs) =
    if c == b'-'
    then (if is_ascii_digits cs then some (neg (pos (int_of_digits cs))) else none)
    else (if is_ascii_digits (c ∷ cs) then some (pos (int_of_digits (c ∷ cs))) else none)

unfoldable pub correction_delta : CorrectionForm → Batch → Option ℤ
unfolding strip is_ascii_digits int_of_digits eq_text ◌-ℤ◌ neg
correction_delta f b =
    if is_count f then counted_delta b (strip f.value_raw) else signed_delta (strip f.value_raw)

abbrev pub correction_draft : Env → CorrectionForm → Product → Batch → ℤ → Draft
correction_draft env f p b d = record {
  type = OpType.correction;
  product_id = p.id;
  qty_delta = d;
  unit_cost_cents = none;
  unit_price_cents = none;
  payload = correction_note (or_none (strip f.note)) f.mode;
  sale_id = none;
  batch_id = some b.id;
  business_date = date_of (parse_op_date env f.op_date);
  commit = true;
}

-- `product.quantity`, read back after the commit.
abbrev pub quantity_of : Option Product → ℤ
quantity_of none = pos 0
quantity_of (some p) = p.quantity

abbrev pub write_correction : Env → CorrectionForm → Product → Batch → ℤ → Action CorrectionResult
write_correction env f p b d =
    attempt
      (do
        op ← record_operation env (correction_draft env f p b d)
        gets (λ db. corrected p op (quantity_of (find_product p.id db.products))))
      (λ _. refused_correction (save_failed ∷ []))

abbrev pub correction_overdraws : CorrectionForm → Batch → ℤ → Bool
correction_overdraws f b d = not (eq_text f.confirm (text "1")) && ltb_ℤ b.quantity (neg d)

abbrev pub correct_by : Env → CorrectionForm → Product → Batch → ℤ → Action CorrectionResult
correct_by env f p b d =
    if d ==ℤ pos 0
    then pure (refused_correction (zero_net ∷ []))
    else if correction_overdraws f b d
    then pure (oversell p b.quantity (neg d))
    else write_correction env f p b d

abbrev pub value_errors : CorrectionForm → Option ℤ → List CorrectionError
value_errors f none = (if is_count f then count_qty_error else delta_qty_error) ∷ []
value_errors f (some d) = []

abbrev pub correct_checked :
    Env
    → CorrectionForm
    → Product
    → Batch
    → Option ℤ
    → List CorrectionError
    → Action CorrectionResult
correct_checked env f p b (some d) [] = correct_by env f p b d
correct_checked env f p b _ es = pure (refused_correction es)

abbrev pub correct_in : Env → CorrectionForm → Product → Option Batch → Action CorrectionResult
correct_in env f p none = pure (refused_correction (batch_required ∷ []))
correct_in env f p (some b) = correct_checked env f p b (correction_delta f b) (
    value_errors f (correction_delta f b)
    ++ map op_date (op_date_errors (parse_op_date env f.op_date)))

abbrev pub correct_of : Env → CorrectionForm → Db → Option Product → Action CorrectionResult
correct_of env f db none = pure (refused_correction (code_not_found ∷ []))
correct_of env f db (some p) = correct_in env f p (own_batch env db p (strip f.batch_id))

abbrev pub correct_code : Env → CorrectionForm → Db → Action CorrectionResult
correct_code env f db =
    if is_empty (strip f.code)
    then pure (refused_correction (code_error ∷ []))
    else correct_of env f db (active_product (strip f.code) db.products)

unfoldable pub register_correction : Env → CorrectionForm → Action CorrectionResult
unfolding record_operation own_batch correction_delta parse_op_date strip eq_text neg
register_correction env f = do
  db ← gets (λ db. db)
  if is_count f || eq_text f.mode (text "delta")
      then correct_code env f db
      else pure (refused_correction (mode_error ∷ []))
