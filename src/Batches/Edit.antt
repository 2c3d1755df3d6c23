-- ===== src/Batches/Edit.antt =====
-- app/services/batches.py: `update_batch`, the operator's edit of a batch.
use myorishop.Prelude.{
  Bool, true, false, ◌&&◌, Option, none, some, List, [], ◌∷◌, ◌++◌, ℤ, ltb, ◌==ℤ◌, length, map,
  if◌then◌else◌,
}
use myorishop.Text.{Text, eq_text, strip, or_none}
use myorishop.IsoDate.{fromisoformat, isoformat}
use myorishop.Models.{Batch}
use myorishop.Db.{Db, find_batch}
use myorishop.Session.{Env, Action, gets, modify, commit, pure, ◌>>=◌, ◌>>◌, warehouse_allowed}
use myorishop.Finance.{when}
use myorishop.Catalog.{OptionalCents, price_error, cents, parse_optional_cents}

pub record BatchForm : Type 0 where
  pub name_raw : Text
  pub expiry_raw : Text
  pub location_raw : Text
  pub comment_raw : Text
  pub price_raw : Text
  pub cost_raw : Text

pub data BatchError : Type 0 where
  batch_not_found name_too_long location_too_long comment_too_long expiry_error : BatchError
  bad_price bad_cost : BatchError

pub data BatchResult : Type 0 where
  updated : Batch → BatchResult
  refused_edit : List BatchError → BatchResult

pub data Expiry : Type 0 where
  bad_expiry : Expiry
  expiry : Option Text → Expiry

abbrev expiry_of : Text → Expiry
expiry_of [] = expiry none
expiry_of (c ∷ cs) = elim (fromisoformat (c ∷ cs)) [
  | none ↦ bad_expiry
  | some d ↦ expiry (some (isoformat d))
]

abbrev expiry_errors : Expiry → List BatchError
expiry_errors bad_expiry = expiry_error ∷ []
expiry_errors (expiry e) = []

abbrev cents_errors : BatchError → OptionalCents → List BatchError
cents_errors e price_error = e ∷ []
cents_errors e (cents a) = []

abbrev pub edit_errors : BatchForm → List BatchError
edit_errors f =
    when (ltb 220 (length (strip f.name_raw))) name_too_long
    ++ (when (ltb 100 (length (strip f.location_raw))) location_too_long
        ++ (when (ltb 200 (length (strip f.comment_raw))) comment_too_long
            ++ (expiry_errors (expiry_of (strip f.expiry_raw))
                ++ (cents_errors bad_price (parse_optional_cents f.price_raw)
                    ++ cents_errors bad_cost (parse_optional_cents f.cost_raw)))))

abbrev expiry_or_none : Expiry → Option Text
expiry_or_none bad_expiry = none
expiry_or_none (expiry e) = e

abbrev cents_or_none : OptionalCents → Option ℤ
cents_or_none price_error = none
cents_or_none (cents a) = a

abbrev pub edited : BatchForm → Batch → Batch
edited f b = record b {
  name = or_none (strip f.name_raw);
  expiry = expiry_or_none (expiry_of (strip f.expiry_raw));
  location = or_none (strip f.location_raw);
  comment = or_none (strip f.comment_raw);
  price_cents = cents_or_none (parse_optional_cents f.price_raw);
  cost_cents = cents_or_none (parse_optional_cents f.cost_raw);
}

abbrev same_text : Option Text → Option Text → Bool
same_text none none = true
same_text (some a) (some b) = eq_text a b
same_text _ _ = false

abbrev same_cents : Option ℤ → Option ℤ → Bool
same_cents none none = true
same_cents (some a) (some b) = a ==ℤ b
same_cents _ _ = false

-- No assignment changes a value.
abbrev pub is_same : Batch → Batch → Bool
is_same a b =
    same_text a.name b.name
    && (same_text a.expiry b.expiry
        && (same_text a.location b.location
            && (same_text a.comment b.comment
                && (same_cents a.price_cents b.price_cents
                    && same_cents a.cost_cents b.cost_cents))))

-- The UPDATE of one batch, with the column's `onupdate`, only if a value changes.
abbrev pub edit_row : Env → Text → BatchForm → Batch → Batch
edit_row env id f b =
    if eq_text b.id id
    then (if is_same b (edited f b) then b else record (edited f b) { updated_at = env.now })
    else b

abbrev pub edit_batches : Env → Text → BatchForm → Db → Db
edit_batches env id f db = record db { batches = map (edit_row env id f) db.batches }

abbrev pub write_edit : Env → Text → BatchForm → Batch → List BatchError → Action BatchResult
write_edit env id f b (e ∷ es) = pure (refused_edit (e ∷ es))
write_edit env id f b [] = do
  modify (edit_batches env id f)
  commit
  pure (updated (edit_row env id f b))

abbrev pub edit_of : Env → Text → BatchForm → Option Batch → Action BatchResult
edit_of env id f none = pure (refused_edit (batch_not_found ∷ []))
edit_of env id f (some b) =
    if warehouse_allowed env b.warehouse_id
    then write_edit env id f b (edit_errors f)
    else pure (refused_edit (batch_not_found ∷ []))

unfoldable pub update_batch : Env → Text → BatchForm → Action BatchResult
unfolding strip eq_text fromisoformat isoformat parse_optional_cents
update_batch env id f = do found ← gets (λ db. find_batch id db.batches); edit_of env id f found
