-- ===== src/Ledger/Dates.antt =====
-- app/services/ledger.py: `parse_op_date`, the bounds on an operator's business date.
use myorishop.Prelude.{Option, none, some, [], ◌∷◌, if◌then◌else◌}
use myorishop.Text.{Text, lt_text, strip}
use myorishop.IsoDate.{Date, fromisoformat, isoformat, lt_date}
use myorishop.Session.{Env, local_today_iso}

-- The messages `OP_DATE_FORMAT_ERROR`, `OP_DATE_TOO_OLD_ERROR` and `OP_DATE_FUTURE_ERROR`.
pub data OpDateError : Type 0 where
  op_date_format op_date_too_old op_date_future : OpDateError

pub data OpDate : Type 0 where
  accepted : Option Text → OpDate
  refused : OpDateError → OpDate

abbrev pub op_date_floor : Date
op_date_floor = record { year = 2000; month = 1; day = 1 }

-- The bounds on a date that was read.
abbrev pub check_op_date : Text → Date → OpDate
check_op_date today parsed =
    if lt_date parsed op_date_floor
    then refused op_date_too_old
    else if lt_text today (isoformat parsed)
    then refused op_date_future
    else accepted (some (isoformat parsed))

abbrev pub parsed_op_date : Text → Option Date → OpDate
parsed_op_date today none = refused op_date_format
parsed_op_date today (some parsed) = check_op_date today parsed

abbrev pub op_date_of : Text → Text → OpDate
op_date_of today [] = accepted none
op_date_of today (c ∷ cs) = parsed_op_date today (fromisoformat (c ∷ cs))

unfoldable pub parse_op_date : Env → Text → OpDate
unfolding strip fromisoformat isoformat lt_date lt_text
parse_op_date env raw = op_date_of (local_today_iso env) (strip raw)

-- `business_date or today`: an empty text counts as none.
abbrev pub date_or : Option Text → Text → Text
date_or none today = today
date_or (some []) today = today
date_or (some (c ∷ cs)) today = c ∷ cs
