-- ===== src/Cards.antt =====
-- app/services/catalog.py: product cards, created, edited, deleted and restored, each change of a
-- price with its audit row.
pub mod Rows
pub mod Filled
pub mod Stored
pub mod Agrees
pub mod Edited
pub mod Rewrite
pub mod Created
pub mod Audited
pub mod Closing
pub mod Deletion
use myorishop.Prelude.{
  ℕ, Bool, true, false, not, ◌&&◌, ◌||◌, Option, none, some, List, [], ◌∷◌, ◌++◌, ℤ, pos, ltb_ℤ,
  leb, ◌==ℤ◌, is_some, is_empty, any, map, select, if◌then◌else◌,
}
use myorishop.Text.{
  Text, text, eq_text, is_text, strip, lower, or_none, is_ascii_digits, int_of_digits,
}
use myorishop.Sort.{sort_by}
use myorishop.Models.{
  OpType, Product, Payload, no_payload, card_created, card_edited, price_changed,
}
use myorishop.Money.{
  PriceSet, rub, uah, eur, PriceKind, cost, sale, min_sale, card_price, with_price, price_field,
}
use myorishop.Db.{Db, find_product, active_product, is_active, product_conflict, add_product}
use myorishop.Session.{
  Env, Action, ⊤, gets, modify, insert, commit, pure, new_id, closing, ◌>>=◌, ◌>>◌,
}
use myorishop.Ledger.{Draft, record_operation}
use myorishop.Finance.{when}
use myorishop.Catalog.{OptionalCents, price_error, cents, parse_optional_cents}

-- `parse_optional_int`
pub data OptionalInt : Type 0 where
  threshold_error : OptionalInt
  whole : Option ℤ → OptionalInt

abbrev optional_int : Text → OptionalInt
optional_int [] = whole none
optional_int (c ∷ cs) =
    if is_ascii_digits (c ∷ cs) && leb (int_of_digits (c ∷ cs)) 2147483647
    then whole (some (pos (int_of_digits (c ∷ cs))))
    else threshold_error

unfoldable pub parse_optional_int : Text → OptionalInt
unfolding strip is_ascii_digits int_of_digits
parse_optional_int raw = optional_int (strip raw)

-- `prices_raw` has a text for each price field, or None where an edit does not submit it.
pub record CardForm : Type 0 where
  pub code : Text
  pub name : Text
  pub category : Text
  pub prices_raw : PriceSet → PriceKind → Option Text
  pub low_stock_threshold_raw : Text
  pub stale_days_raw : Text

pub data CardError : Type 0 where
  code_required name_required duplicate_code not_found is_deleted : CardError
  bad_price : PriceSet → PriceKind → CardError
  bad_threshold bad_stale_days : CardError

pub data CardResult : Type 0 where
  -- The card as it was made, or as it was before the edit.
  saved : Product → CardResult
  refused_card : List CardError → CardResult

abbrev pub is_saved : CardResult → Bool
is_saved (saved p) = true
is_saved (refused_card es) = false

-- `_PRICE_FIELDS`
abbrev pub price_fields : List (PriceSet × PriceKind)
price_fields =
    (rub, cost)
    ∷ (rub, sale)
    ∷ (rub, min_sale)
    ∷ (uah, cost)
    ∷ (uah, sale)
    ∷ (uah, min_sale)
    ∷ (eur, cost)
    ∷ (eur, sale)
    ∷ (eur, min_sale)
    ∷ []

-- A price that was not submitted stays what it was.
abbrev entered : Option Text → Option ℤ → OptionalCents
entered none old = cents old
entered (some raw) old = parse_optional_cents raw

abbrev price_or_none : OptionalCents → Option ℤ
price_or_none price_error = none
price_or_none (cents a) = a

abbrev is_bad : OptionalCents → Bool
is_bad price_error = true
is_bad (cents a) = false

-- `new_prices[field]`
abbrev pub new_price : CardForm → Product → PriceSet × PriceKind → Option ℤ
new_price f p field =
    price_or_none (entered (f.prices_raw field.0 field.1) (card_price field.0 field.1 p))

abbrev price_errors : CardForm → Product → List (PriceSet × PriceKind) → List CardError
price_errors f p [] = []
price_errors f p (field ∷ fields) =
    let rest = price_errors f p fields in
    when (is_bad (entered (f.prices_raw field.0 field.1) (card_price field.0 field.1 p)))
      (bad_price field.0 field.1)
    ++ rest

abbrev is_threshold_error : OptionalInt → Bool
is_threshold_error threshold_error = true
is_threshold_error (whole a) = false

abbrev pub whole_or_none : OptionalInt → Option ℤ
whole_or_none threshold_error = none
whole_or_none (whole a) = a

-- What both forms check; `taken` says whether another active card has the code.
abbrev card_errors : CardForm → Product → Bool → List CardError
card_errors f p taken =
    when (is_empty (strip f.code)) code_required
    ++ (when (is_empty (strip f.name)) name_required
        ++ (when (not (is_empty (strip f.code)) && taken) duplicate_code
            ++ (price_errors f p price_fields
                ++ (when (is_threshold_error (parse_optional_int f.low_stock_threshold_raw))
                      bad_threshold
                    ++ when (is_threshold_error (parse_optional_int f.stale_days_raw))
                        bad_stale_days))))

abbrev pub blank_card : Env → Text → Product
blank_card env id = record {
  id = id;
  code = none;
  name = [];
  category = none;
  cost_cents = none;
  sale_cents = none;
  min_sale_cents = none;
  cost_uah_cents = none;
  sale_uah_cents = none;
  min_sale_uah_cents = none;
  cost_eur_cents = none;
  sale_eur_cents = none;
  min_sale_eur_cents = none;
  low_stock_threshold = none;
  stale_days = none;
  name_lc = none;
  quantity = pos 0;
  created_at = env.now;
  updated_at = env.now;
  deleted_at = none;
}

abbrev with_prices : CardForm → Product → List (PriceSet × PriceKind) → Product → Product
with_prices f old [] p = p
with_prices f old (field ∷ fields) p =
    with_prices f old fields (with_price field.0 field.1 (new_price f old field) p)

-- The assignments of the form's values to a card.
abbrev pub filled : CardForm → Product → Product
filled f p = record (with_prices f p price_fields p) {
  code = some (strip f.code);
  name = strip f.name;
  name_lc = some (lower (strip f.name));
  category = or_none (strip f.category);
  low_stock_threshold = whole_or_none (parse_optional_int f.low_stock_threshold_raw);
  stale_days = whole_or_none (parse_optional_int f.stale_days_raw);
}

-- An audit row of a card.
abbrev pub audit_draft : OpType → Text → Payload → Bool → Draft
audit_draft type product_id payload commit = record {
  type = type;
  product_id = product_id;
  qty_delta = pos 0;
  unit_cost_cents = none;
  unit_price_cents = none;
  payload = payload;
  sale_id = none;
  batch_id = none;
  business_date = none;
  commit = commit;
}

abbrev pub write_card : Env → CardForm → Action CardResult
write_card env f = do
  id ← new_id env
  let p = filled f (blank_card env id)
  closing (refused_card (duplicate_code ∷ [])) (do
    insert (product_conflict p) (add_product p)
    record_operation env
        (audit_draft OpType.product_created p.id (card_created (strip f.code) (strip f.name)) true)
    pure (saved p))

abbrev create_checked : Env → CardForm → List CardError → Action CardResult
create_checked env f (e ∷ es) = pure (refused_card (e ∷ es))
create_checked env f [] = write_card env f

unfoldable pub create_product : Env → CardForm → Action CardResult
unfolding record_operation parse_optional_cents parse_optional_int strip eq_text sort_by
create_product env f = do
  taken ← gets (λ db. is_some (active_product (strip f.code) db.products))
  create_checked env f (card_errors f (blank_card env []) taken)

abbrev same_price : Option ℤ → Option ℤ → Bool
same_price none none = true
same_price none (some b) = false
same_price (some a) none = false
same_price (some a) (some b) = a ==ℤ b

abbrev same_text : Option Text → Option Text → Bool
same_text none none = true
same_text none (some b) = false
same_text (some a) none = false
same_text (some a) (some b) = eq_text a b

-- `changed_prices`
abbrev pub changed_prices : CardForm → Product → List (PriceSet × PriceKind)
changed_prices f p =
    select (λ field. not (same_price (card_price field.0 field.1 p) (new_price f p field)))
      price_fields

-- `changed_non_price`, in the order of the names.
abbrev pub changed_non_price : CardForm → Product → List Text
changed_non_price f p =
    let q = filled f p in
    when (not (same_text p.category q.category)) (text "category")
    ++ (when (not (same_text p.code q.code)) (text "code")
        ++ (when (not (same_price p.low_stock_threshold q.low_stock_threshold))
              (text "low_stock_threshold")
            ++ (when (not (eq_text p.name q.name)) (text "name")
                ++ when (not (same_price p.stale_days q.stale_days)) (text "stale_days"))))

abbrev pub edited_payload : List Text → List Payload
edited_payload [] = []
edited_payload (c ∷ cs) = card_edited (c ∷ cs) ∷ []

-- The payloads of the price rows, in the order in which they are written.
abbrev pub price_payloads : CardForm → Product → List (PriceSet × PriceKind) → List Payload
price_payloads f p [] = []
price_payloads f p (field ∷ fields) =
    price_changed (price_field field.0 field.1) (card_price field.0 field.1 p) (new_price f p field)
    ∷ price_payloads f p fields

abbrev pub record_each : Env → OpType → Text → List Payload → Action ⊤
record_each env type id [] = pure tt
record_each env type id (payload ∷ payloads) =
    record_operation env (audit_draft type id payload false) >> record_each env type id payloads

-- The UPDATE of the card, which the unique index refuses if another active card has the code.
abbrev pub is_code_of_other : Text → Product → List Product → Bool
is_code_of_other code p = any (λ q. not (eq_text q.id p.id) && (is_text code q.code && is_active q))

abbrev replaced : Text → Product → Product → Product
replaced now p q =
    if eq_text q.id p.id then record p { quantity = q.quantity; updated_at = now } else q

abbrev pub update_card : Text → Product → Db → Db
update_card now p db = record db { products = map (replaced now p) db.products }

abbrev pub rewrite_card : Env → CardForm → Product → Action CardResult
rewrite_card env f p = closing (refused_card (duplicate_code ∷ [])) (do
  insert (λ db. is_code_of_other (strip f.code) p db.products) (update_card env.now (filled f p))
  record_each env OpType.price_change p.id (price_payloads f p (changed_prices f p))
  record_each env OpType.product_edited p.id (edited_payload (changed_non_price f p))
  commit
  pure (saved p))

abbrev is_unchanged : CardForm → Product → Bool
is_unchanged f p = is_empty (changed_prices f p) && is_empty (changed_non_price f p)

abbrev update_checked : Env → CardForm → Product → List CardError → Action CardResult
update_checked env f p (e ∷ es) = pure (refused_card (e ∷ es))
update_checked env f p [] = if is_unchanged f p then pure (saved p) else rewrite_card env f p

abbrev pub update_of : Env → CardForm → Db → Option Product → Action CardResult
update_of env f db none = pure (refused_card (not_found ∷ []))
update_of env f db (some p) =
    if is_some p.deleted_at
    then pure (refused_card (is_deleted ∷ []))
    else update_checked env f p (card_errors f p (is_code_of_other (strip f.code) p db.products))

unfoldable pub update_product : Env → Text → CardForm → Action CardResult
unfolding record_operation parse_optional_cents parse_optional_int strip eq_text
update_product env id f = do db ← gets (λ db. db); update_of env f db (find_product id db.products)
