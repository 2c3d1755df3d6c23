-- ===== src/Finance.antt =====
-- app/services/finance.py: the single write path for cash movements, the manual entry form, and the
-- live balance of a currency.
pub mod Record
pub mod Manual
pub mod Moves
use myorishop.Prelude.{
  Bool, true, false, not, ◌&&◌, ◌||◌, Option, none, some, List, [], ◌∷◌, ◌++◌, ℤ, pos, ◌+ℤ◌, neg,
  ltb_ℤ, leb_ℤ, if◌then◌else◌, is_empty, map,
}
use myorishop.Text.{Text, text, eq_text, strip, or_none, contains, upper}
use myorishop.Money.{to_cents}
use myorishop.Models.{
  CashCategory, CashMovement, is_cash_category, is_withdrawal, is_deposit, currencies,
  default_currency,
}
use myorishop.Db.{Db, cash_conflict}
use myorishop.Session.{
  Env, Error, value_error, Result, ok, err, Action, ⊤, require, query, gets, insert, commit,
  commit_if, pure, new_id, attempt, ◌>>=◌, ◌>>◌, local_today_iso, author_fields,
}
use myorishop.Ledger.{
  max_with, after_seq, date_or, OpDateError, OpDate, accepted, refused, parse_op_date,
}

unfoldable pub max_cash_seq : Text → List CashMovement → Option ℤ
max_cash_seq device [] = none
max_cash_seq device (m ∷ ms) =
    let rest = max_cash_seq device ms in
    if eq_text m.device_id device then max_with m.seq rest else rest

unfoldable pub next_cash_seq : Text → Db → ℤ
unfolding max_cash_seq
next_cash_seq device db = after_seq (max_cash_seq device db.cash_movements)

-- The keyword arguments of `record_cash_movement`.
pub record CashDraft : Type 0 where
  pub category : CashCategory
  pub amount_cents : ℤ
  pub currency : Text
  pub sale_id : Option Text
  pub note : Option Text
  pub business_date : Option Text
  pub commit : Bool

abbrev pub cash_row : Env → CashDraft → Text → ℤ → CashMovement
cash_row env a id seq = record {
  id = id;
  category = a.category;
  amount_cents = a.amount_cents;
  currency = a.currency;
  note = a.note;
  sale_id = a.sale_id;
  reverses_movement_id = none;
  author_id = (author_fields env).0;
  device_id = env.device_id;
  seq = seq;
  created_at = env.now;
  business_date = some (date_or a.business_date (local_today_iso env));
  created_by = (author_fields env).1;
  synced_at = none;
}

abbrev pub append_cash : CashMovement → Db → Db
append_cash m db = record db { cash_movements = m ∷ db.cash_movements }

unfoldable pub check_cash : CashDraft → Result ⊤
unfolding contains
check_cash a =
    if is_cash_category a.category
    then require (contains currencies a.currency) value_error
    else err value_error

unfoldable pub record_cash_movement : Env → CashDraft → Action CashMovement
unfolding check_cash next_cash_seq
record_cash_movement env a = do
  query (λ _. check_cash a)
  id ← new_id env
  seq ← gets (next_cash_seq env.device_id)
  let m = cash_row env a id seq
  insert (cash_conflict m) (append_cash m)
  commit_if a.commit
  pure m

-- `func.sum(CashMovement.amount_cents)` over one currency, 0 for none.
pub balance_of : List CashMovement → Text → ℤ
balance_of [] currency = pos 0
balance_of (m ∷ ms) currency =
    let rest = balance_of ms currency in
    if eq_text m.currency currency then m.amount_cents +ℤ rest else rest

unfoldable pub compute_balance : Db → Text → ℤ
unfolding balance_of
compute_balance db currency = balance_of db.cash_movements currency

-- The error messages of the manual form, under their keys.
pub data ManualError : Type 0 where
  category_error currency_error amount_error note_required save_failed : ManualError
  op_date : OpDateError → ManualError

pub data ManualResult : Type 0 where
  recorded : CashMovement → ManualResult
  -- The balance before, and the amount to withdraw.
  negative_balance : ℤ → ℤ → ManualResult
  refused_form : List ManualError → ManualResult

pub record ManualForm : Type 0 where
  pub category : CashCategory
  pub amount_raw : Text
  pub note : Text
  pub currency : Text
  pub confirm : Text
  pub op_date : Text

abbrev pub when : {A : Type 0} → Bool → A → List A
when true a = a ∷ []
when false a = []

-- `currency_code`: blank is the default.
abbrev pub or_default_currency : Text → Text
or_default_currency [] = default_currency
or_default_currency (c ∷ cs) = c ∷ cs

-- The parsed amount, 0 where it does not parse.
abbrev pub amount_or_zero : Option ℤ → ℤ
amount_or_zero none = pos 0
amount_or_zero (some a) = a

abbrev pub op_date_errors : OpDate → List OpDateError
op_date_errors (accepted d) = []
op_date_errors (refused e) = e ∷ []

abbrev pub date_of : OpDate → Option Text
date_of (accepted d) = d
date_of (refused e) = none

abbrev pub form_errors : Env → ManualForm → List ManualError
form_errors env f =
    when (not (is_withdrawal f.category || is_deposit f.category)) category_error
    ++ (when (not (contains currencies (or_default_currency (upper (strip f.currency)))))
          currency_error
        ++ (when (leb_ℤ (amount_or_zero (to_cents f.amount_raw)) (pos 0)) amount_error
            ++ map op_date (op_date_errors (parse_op_date env f.op_date))))

-- `category in _NOTE_REQUIRED_CATEGORIES`
abbrev pub needs_note : CashCategory → Bool
needs_note CashCategory.withdrawal_other = true
needs_note CashCategory.deposit_correction = true
needs_note _ = false

-- The signed amount of a form that passed.
abbrev pub manual_amount : ManualForm → ℤ
manual_amount f =
    let parsed = amount_or_zero (to_cents f.amount_raw) in
    if is_withdrawal f.category then neg parsed else parsed

abbrev pub manual_draft : Env → ManualForm → CashDraft
manual_draft env f = record {
  category = f.category;
  amount_cents = manual_amount f;
  currency = or_default_currency (upper (strip f.currency));
  sale_id = none;
  note = or_none (strip f.note);
  business_date = date_of (parse_op_date env f.op_date);
  commit = true;
}

-- `compute_balance(...) + amount_cents < 0` for a withdrawal that was not confirmed.
abbrev pub overdraws : ManualForm → ℤ → Bool
overdraws f balance =
    (is_withdrawal f.category && not (eq_text f.confirm (text "1")))
    && ltb_ℤ (balance +ℤ manual_amount f) (pos 0)

abbrev pub write_manual : Env → ManualForm → Action ManualResult
write_manual env f =
    attempt (do m ← record_cash_movement env (manual_draft env f); pure (recorded m))
      (λ _. refused_form (save_failed ∷ []))

abbrev pub gate_manual : Env → ManualForm → Action ManualResult
gate_manual env f = do
  balance ← gets (λ db. compute_balance db (or_default_currency (upper (strip f.currency))))
  if overdraws f balance
      then pure (negative_balance balance (neg (manual_amount f)))
      else write_manual env f

abbrev pub manual_after : Env → ManualForm → List ManualError → Action ManualResult
manual_after env f (e ∷ es) = pure (refused_form (e ∷ es))
manual_after env f [] =
    if needs_note f.category && is_empty (strip f.note)
    then pure (refused_form (note_required ∷ []))
    else gate_manual env f

unfoldable pub record_manual_movement : Env → ManualForm → Action ManualResult
unfolding record_cash_movement compute_balance parse_op_date to_cents strip contains eq_text neg
record_manual_movement env f = manual_after env f (form_errors env f)
