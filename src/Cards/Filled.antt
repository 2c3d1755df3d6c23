-- ===== src/Cards/Filled.antt =====
-- A card that has what a form says, as a form that passed its checks is read.
use myorishop.Prelude.{
  Bool, true, false, not, ◌&&◌, Option, none, some, List, [], ◌∷◌, ◌++◌, ℤ, ◌≡◌, refl, sym, subst,
  is_empty, All,
}
use myorishop.Text.{Text, strip, or_none}
use myorishop.Models.{Product}
use myorishop.Money.{PriceSet, rub, uah, eur, PriceKind, cost, sale, min_sale, card_price}
use myorishop.Catalog.{OptionalCents, price_error, cents, parse_optional_cents}
use myorishop.Finance.{when}
use myorishop.Cards.{
  OptionalInt, threshold_error, whole, parse_optional_int, CardForm, CardError, code_required,
  name_required, duplicate_code, bad_price, bad_threshold, bad_stale_days, price_fields, entered,
  price_or_none, is_bad, new_price, price_errors, is_threshold_error, whole_or_none, card_errors,
  filled,
}

-- A price field that was not submitted stays as it was; the text of another reads as the new price.
abbrev pub Says : Option Text → Option ℤ → Option ℤ → Type 0
Says none old new = new ≡ old
Says (some raw) old new = parse_optional_cents raw ≡ cents new

-- The card that an old one becomes by a form.
pub record FilledBy (f : CardForm) (old new : Product) : Type 0 where
  pub code : new.code ≡ some (strip f.code)
  pub has_code : is_empty (strip f.code) ≡ false
  pub name : new.name ≡ strip f.name
  pub has_name : is_empty (strip f.name) ≡ false
  pub category : new.category ≡ or_none (strip f.category)
  pub low_stock : parse_optional_int f.low_stock_threshold_raw ≡ whole new.low_stock_threshold
  pub stale : parse_optional_int f.stale_days_raw ≡ whole new.stale_days
  pub prices :
      (set : PriceSet) (kind : PriceKind)
      → Says (f.prices_raw set kind) (card_price set kind old) (card_price set kind new)
  pub same_card :
      (new.id ≡ old.id) × (new.quantity ≡ old.quantity) × (new.deleted_at ≡ old.deleted_at)

-- What is true of each field of the list is true of every field.
pub each_field :
    (P : PriceSet × PriceKind → Type 0)
    → All P price_fields
    → (set : PriceSet) (kind : PriceKind) → P (set, kind)
each_field P h rub cost = h.0
each_field P h rub sale = h.1.0
each_field P h rub min_sale = h.1.1.0
each_field P h uah cost = h.1.1.1.0
each_field P h uah sale = h.1.1.1.1.0
each_field P h uah min_sale = h.1.1.1.1.1.0
each_field P h eur cost = h.1.1.1.1.1.1.0
each_field P h eur sale = h.1.1.1.1.1.1.1.0
each_field P h eur min_sale = h.1.1.1.1.1.1.1.1.0

when_nil :
    {A : Type 0} (b : Bool) (a : A) (rest : List A)
    → when b a ++ rest ≡ []
    → (b ≡ false) × (rest ≡ [])
when_nil true a rest h = absurd (cc h)
when_nil false a rest h = (refl, h)

last_nil : {A : Type 0} (b : Bool) (a : A) → when b a ≡ [] → b ≡ false
last_nil true a h = absurd (cc h)
last_nil false a h = refl

-- The form's price of a field reads without an error.
abbrev Reads : CardForm → Product → PriceSet × PriceKind → Type 0
Reads f p field =
    is_bad (entered (f.prices_raw field.0 field.1) (card_price field.0 field.1 p)) ≡ false

no_price_errors :
    (f : CardForm) (p : Product) (fields : List (PriceSet × PriceKind))
    → price_errors f p fields ≡ []
    → All (Reads f p) fields
no_price_errors f p [] h = tt
no_price_errors f p (field ∷ fields) h =
    let both =
      when_nil (is_bad (entered (f.prices_raw field.0 field.1) (card_price field.0 field.1 p)))
        (bad_price field.0 field.1) (price_errors f p fields) h in
    (both.0, no_price_errors f p fields both.1)

entered-Says :
    (raw : Option Text) (old : Option ℤ)
    → is_bad (entered raw old) ≡ false
    → Says raw old (price_or_none (entered raw old))
entered-Says none old h = refl
entered-Says (some raw) old h = go (parse_optional_cents raw) h
  where
    go : (r : OptionalCents) → is_bad r ≡ false → r ≡ cents (price_or_none r)
    go price_error e = absurd (cc e)
    go (cents a) e = refl

number_read : (r : OptionalInt) → is_threshold_error r ≡ false → r ≡ whole (whole_or_none r)
number_read threshold_error h = absurd (cc h)
number_read (whole a) h = refl

-- What a form that has no errors reads as.
pub record Passed (f : CardForm) (p : Product) (taken : Bool) : Type 0 where
  pub has_code : is_empty (strip f.code) ≡ false
  pub has_name : is_empty (strip f.name) ≡ false
  pub free : taken ≡ false
  pub low_stock : is_threshold_error (parse_optional_int f.low_stock_threshold_raw) ≡ false
  pub stale : is_threshold_error (parse_optional_int f.stale_days_raw) ≡ false
  pub prices : (set : PriceSet) (kind : PriceKind) → Reads f p (set, kind)

prices_nil :
    (f : CardForm) (p : Product) (fields : List (PriceSet × PriceKind)) (rest : List CardError)
    → price_errors f p fields ++ rest ≡ []
    → (price_errors f p fields ≡ []) × (rest ≡ [])
prices_nil f p fields rest h = go (price_errors f p fields) h
  where
    go : (es : List CardError) → es ++ rest ≡ [] → (es ≡ []) × (rest ≡ [])
    go [] e = (refl, e)
    go (x ∷ es) e = absurd (cc e)

pub card_errors-Passed :
    (f : CardForm) (p : Product) (taken : Bool) → card_errors f p taken ≡ [] → Passed f p taken
card_errors-Passed f p taken h =
    let a = when_nil (is_empty (strip f.code)) code_required _ h in
    let b = when_nil (is_empty (strip f.name)) name_required _ a.1 in
    let c = when_nil (not (is_empty (strip f.code)) && taken) duplicate_code _ b.1 in
    let d = prices_nil f p price_fields _ c.1 in
    let e =
      when_nil (is_threshold_error (parse_optional_int f.low_stock_threshold_raw)) bad_threshold _
        d.1 in
    record {
      has_code = a.0;
      has_name = b.0;
      free = free (is_empty (strip f.code)) taken a.0 c.0;
      low_stock = e.0;
      stale =
          last_nil (is_threshold_error (parse_optional_int f.stale_days_raw)) bad_stale_days e.1;
      prices = each_field (Reads f p) (no_price_errors f p price_fields d.0);
    }
  where
    free : (blank t : Bool) → blank ≡ false → (not blank && t) ≡ false → t ≡ false
    free true t blank h = absurd (cc blank)
    free false t blank h = h

-- The form's prices are on the filled card.
pub card_price-filled :
    (f : CardForm) (p : Product) (set : PriceSet) (kind : PriceKind)
    → card_price set kind (filled f p) ≡ new_price f p (set, kind)
card_price-filled f p rub cost = refl
card_price-filled f p rub sale = refl
card_price-filled f p rub min_sale = refl
card_price-filled f p uah cost = refl
card_price-filled f p uah sale = refl
card_price-filled f p uah min_sale = refl
card_price-filled f p eur cost = refl
card_price-filled f p eur sale = refl
card_price-filled f p eur min_sale = refl

-- The source's own assignment gives such a card.
pub filled-FilledBy :
    (f : CardForm) (p : Product) (taken : Bool) → Passed f p taken → FilledBy f p (filled f p)
filled-FilledBy f p taken h = record {
  code = refl;
  has_code = h.has_code;
  name = refl;
  has_name = h.has_name;
  category = refl;
  low_stock = number_read _ h.low_stock;
  stale = number_read _ h.stale;
  prices = λ set kind.
      subst (Says (f.prices_raw set kind) (card_price set kind p))
        (sym (card_price-filled f p set kind))
        (entered-Says (f.prices_raw set kind) (card_price set kind p) (h.prices set kind));
  same_card = (refl, refl, refl);
}
