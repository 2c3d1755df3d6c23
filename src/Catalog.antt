-- ===== src/Catalog.antt =====
-- app/services/catalog.py: how the forms read an optional amount.
use myorishop.Prelude.{Option, none, some, [], ◌∷◌, ℤ, pos, ltb_ℤ, if◌then◌else◌}
use myorishop.Text.{Text, strip}
use myorishop.Money.{to_cents}

pub data OptionalCents : Type 0 where
  price_error : OptionalCents
  cents : Option ℤ → OptionalCents

abbrev non_negative : Option ℤ → OptionalCents
non_negative none = price_error
non_negative (some a) = if ltb_ℤ a (pos 0) then price_error else cents (some a)

abbrev optional_cents : Text → OptionalCents
optional_cents [] = cents none
optional_cents (c ∷ cs) = non_negative (to_cents (c ∷ cs))

unfoldable pub parse_optional_cents : Text → OptionalCents
unfolding strip to_cents
parse_optional_cents raw = optional_cents (strip raw)
