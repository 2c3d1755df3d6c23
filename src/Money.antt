-- ===== src/Money.antt =====
-- app/core.py: money as integer cents. `to_cents` reads a text through Python's `Decimal`, which is
-- modelled here on ASCII digits; `format_cents` prints it back; `rub_suggestion` and the card price
-- fields choose a price in a warehouse's currency.
pub mod Decimals
pub mod Rounding
mod Digits
pub mod RoundTrip
use myorishop.Prelude.{
  ℕ, ◌+◌, ◌*◌, ◌/◌, ◌%◌, Bool, true, false, Option, none, some, List, [], ◌∷◌, ◌++◌, map, ℤ, pos,
  negsuc, neg, pos_part, neg_part, ltb_ℤ, ltb, ◌==◌, if◌then◌else◌, map_option,
}
use myorishop.Text.{Text, text, eq_text, strip}
use myorishop.Models.{Product, default_currency}
use myorishop.Money.Decimals.{Decimal, decimal, cents_of, digits_of}

-- `text.replace(",", ".")`
abbrev pub comma_to_dot : ℕ → ℕ
comma_to_dot c = if c == b',' then b'.' else c

abbrev pub cents_from : Option Decimal → Option ℤ
cents_from none = none
cents_from (some d) = cents_of d

-- `none` is the ValueError.
unfoldable pub to_cents : Text → Option ℤ
unfolding strip decimal cents_of
to_cents raw = cents_from (decimal (map comma_to_dot (strip raw)))

-- `f"{frac:02d}"` for a number below 100.
abbrev pub two_places : ℕ → Text
two_places n = (48 + n / 10) ∷ (48 + n % 10) ∷ []

abbrev pub magnitude : ℤ → ℕ
magnitude a = pos_part a + neg_part a

unfoldable pub format_cents : ℤ → Text
unfolding digits_of
format_cents cents =
    let sign : Text = if ltb_ℤ cents (pos 0) then b'-' ∷ [] else [] in
    sign ++ (digits_of (magnitude cents / 100) ++ (b',' ∷ two_places (magnitude cents % 100)))

-- The keys of `CARD_PRICE_FIELDS[currency]`.
pub data PriceKind : Type 0 where
  cost sale min_sale : PriceKind

-- The price set that `card_price_fields` gives for a currency: the RUB set for an unknown one.
pub data PriceSet : Type 0 where
  rub uah eur : PriceSet

unfoldable pub card_price_fields : Text → PriceSet
unfolding eq_text
card_price_fields currency =
    if eq_text currency (text "UAH")
    then uah
    else if eq_text currency (text "EUR")
    then eur
    else rub

-- `getattr(product, card_price_fields(currency)[kind])`
abbrev pub card_price : PriceSet → PriceKind → Product → Option ℤ
card_price rub cost p = p.cost_cents
card_price rub sale p = p.sale_cents
card_price rub min_sale p = p.min_sale_cents
card_price uah cost p = p.cost_uah_cents
card_price uah sale p = p.sale_uah_cents
card_price uah min_sale p = p.min_sale_uah_cents
card_price eur cost p = p.cost_eur_cents
card_price eur sale p = p.sale_eur_cents
card_price eur min_sale p = p.min_sale_eur_cents

-- `setattr(product, field, value)` for a field of a price set.
abbrev pub with_price : PriceSet → PriceKind → Option ℤ → Product → Product
with_price rub cost a p = record p { cost_cents = a }
with_price rub sale a p = record p { sale_cents = a }
with_price rub min_sale a p = record p { min_sale_cents = a }
with_price uah cost a p = record p { cost_uah_cents = a }
with_price uah sale a p = record p { sale_uah_cents = a }
with_price uah min_sale a p = record p { min_sale_uah_cents = a }
with_price eur cost a p = record p { cost_eur_cents = a }
with_price eur sale a p = record p { sale_eur_cents = a }
with_price eur min_sale a p = record p { min_sale_eur_cents = a }

-- The name of the field.
abbrev pub price_field : PriceSet → PriceKind → Text
price_field rub cost = text "cost_cents"
price_field rub sale = text "sale_cents"
price_field rub min_sale = text "min_sale_cents"
price_field uah cost = text "cost_uah_cents"
price_field uah sale = text "sale_uah_cents"
price_field uah min_sale = text "min_sale_uah_cents"
price_field eur cost = text "cost_eur_cents"
price_field eur sale = text "sale_eur_cents"
price_field eur min_sale = text "min_sale_eur_cents"

-- `_RUB_DIVISOR.get(currency, 1)`
unfoldable pub rub_divisor : Text → ℕ
unfolding eq_text
rub_divisor currency =
    if eq_text currency (text "UAH") then 2 else if eq_text currency (text "EUR") then 100 else 1

-- Half-up division of the magnitude, as `Decimal.quantize` rounds: ties go away from zero.
abbrev pub half_up : ℕ → ℕ → ℕ
half_up n d = (n * 2 + d) / (d * 2)

abbrev pub half_up_ℤ : ℤ → ℕ → ℤ
half_up_ℤ a d =
    if ltb_ℤ a (pos 0) then neg (pos (half_up (neg_part a) d)) else pos (half_up (pos_part a) d)

-- The currency, or the default if it is NULL or empty.
abbrev pub currency_or_default : Option Text → Text
currency_or_default none = default_currency
currency_or_default (some []) = default_currency
currency_or_default (some (c ∷ cs)) = c ∷ cs

unfoldable pub rub_suggestion : Option ℤ → Option Text → Option ℤ
unfolding rub_divisor neg
rub_suggestion none currency = none
rub_suggestion (some cents) currency =
    some (half_up_ℤ cents (rub_divisor (currency_or_default currency)))

abbrev or_suggestion : Option ℤ → Option ℤ → Option Text → Option ℤ
or_suggestion (some own) base currency = some own
or_suggestion none base currency = rub_suggestion base currency

unfoldable pub card_price_suggestion : Product → PriceKind → Option Text → Option ℤ
unfolding rub_suggestion card_price_fields
card_price_suggestion p kind currency =
    or_suggestion (card_price (card_price_fields (currency_or_default currency)) kind p)
      (card_price rub kind p) currency
