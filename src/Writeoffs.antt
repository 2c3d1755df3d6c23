-- ===== src/Writeoffs.antt =====
-- app/services/writeoffs.py: units of one batch written off, for a reason.
pub mod Register
pub mod Taken
use myorishop.Prelude.{
  Bool, true, false, not, ◌&&◌, Option, none, some, List, [], ◌∷◌, ◌++◌, ℤ, pos, neg, ℕ, ◌==◌,
  ltb_ℤ, if◌then◌else◌, is_empty, map,
}
use myorishop.Text.{Text, text, eq_text, strip, contains, parse_qty}
use myorishop.Models.{OpType, writeoff_note, writeoff_reasons, Product, Batch, Operation}
use myorishop.Db.{Db, active_product}
use myorishop.Session.{Env, Action, gets, pure, attempt, ◌>>=◌}
use myorishop.Ledger.{OpDateError, Draft, record_operation, parse_op_date}
use myorishop.Finance.{when, op_date_errors, date_of}
use myorishop.Batches.{own_batch}

pub record WriteoffForm : Type 0 where
  pub code : Text
  pub qty_raw : Text
  pub reason_code : Text
  pub note : Text
  pub batch_id : Text
  pub confirm : Text
  pub op_date : Text

pub data WriteoffError : Type 0 where
  code_required qty_error reason_error batch_required save_failed : WriteoffError
  code_not_found : Text → WriteoffError
  op_date : OpDateError → WriteoffError

pub data WriteoffResult : Type 0 where
  written_off : Product → Operation → WriteoffResult
  -- The product, what the batch holds, and what was asked of it.
  oversell : Product → ℤ → ℕ → WriteoffResult
  refused_writeoff : List WriteoffError → WriteoffResult

abbrev pub is_written_off : WriteoffResult → Bool
is_written_off (written_off p o) = true
is_written_off _ = false

abbrev pub writeoff_errors : Env → WriteoffForm → List WriteoffError
writeoff_errors env f =
    when (is_empty (strip f.code)) code_required
    ++ (when (parse_qty f.qty_raw == 0) qty_error
        ++ (when (not (contains writeoff_reasons f.reason_code)) reason_error
            ++ map op_date (op_date_errors (parse_op_date env f.op_date))))

abbrev pub writeoff_draft : Env → WriteoffForm → Product → Batch → Draft
writeoff_draft env f p b = record {
  type = OpType.writeoff;
  product_id = p.id;
  qty_delta = neg (pos (parse_qty f.qty_raw));
  unit_cost_cents = none;
  unit_price_cents = none;
  payload = writeoff_note f.reason_code (strip f.note);
  sale_id = none;
  batch_id = some b.id;
  business_date = date_of (parse_op_date env f.op_date);
  commit = true;
}

abbrev pub write_off : Env → WriteoffForm → Product → Batch → Action WriteoffResult
write_off env f p b =
    attempt (do op ← record_operation env (writeoff_draft env f p b); pure (written_off p op))
      (λ _. refused_writeoff (save_failed ∷ []))

-- The picked batch must hold what is written off, unless confirmed.
abbrev pub writeoff_overdraws : WriteoffForm → Batch → Bool
writeoff_overdraws f b =
    not (eq_text f.confirm (text "1")) && ltb_ℤ b.quantity (pos (parse_qty f.qty_raw))

abbrev pub writeoff_from : Env → WriteoffForm → Product → Option Batch → Action WriteoffResult
writeoff_from env f p none = pure (refused_writeoff (batch_required ∷ []))
writeoff_from env f p (some b) =
    if writeoff_overdraws f b
    then pure (oversell p b.quantity (parse_qty f.qty_raw))
    else write_off env f p b

abbrev pub writeoff_of : Env → WriteoffForm → Db → Option Product → Action WriteoffResult
writeoff_of env f db none = pure (refused_writeoff (code_not_found (strip f.code) ∷ []))
writeoff_of env f db (some p) = writeoff_from env f p (own_batch env db p (strip f.batch_id))

abbrev pub writeoff_checked : Env → WriteoffForm → Db → List WriteoffError → Action WriteoffResult
writeoff_checked env f db (e ∷ es) = pure (refused_writeoff (e ∷ es))
writeoff_checked env f db [] = writeoff_of env f db (active_product (strip f.code) db.products)

unfoldable pub register_writeoff : Env → WriteoffForm → Action WriteoffResult
unfolding record_operation own_batch parse_op_date parse_qty strip contains eq_text neg
register_writeoff env f = do db ← gets (λ db. db); writeoff_checked env f db (writeoff_errors env f)
