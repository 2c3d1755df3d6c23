-- ===== src/Tests/MoneyTests.antt =====
-- The theorems on money at concrete amounts.
use myorishop.Prelude.{some, pos, negsuc, arith, ◌≡◌, refl, ◌⊎◌, neg, ltb_ℤ, true, false}
use myorishop.Text.{text}
use myorishop.Money.RoundTrip.{to_cents-format_cents}
use myorishop.Money.{
  to_cents, format_cents, rub_suggestion, rub_divisor, currency_or_default, magnitude,
}
use myorishop.Money.Rounding.{IsNearest, rub_suggestion-IsNearest}

-- 123,50 roubles as euros: half a cent goes up.
rub_suggestion-IsNearest_example :
    IsNearest
      (rub_divisor (currency_or_default (some (text "EUR"))))
      (magnitude (pos 12350))
      (magnitude (pos 124))
    × ((pos 124 ≡ pos (magnitude (pos 124))) ⊎ (ltb_ℤ (pos 12350) (pos 0) ≡ true))
    × ((pos 124 ≡ neg (pos (magnitude (pos 124)))) ⊎ (ltb_ℤ (pos 12350) (pos 0) ≡ false))
unfolding rub_suggestion
rub_suggestion-IsNearest_example =
    rub_suggestion-IsNearest (pos 12350) (some (text "EUR")) (pos 124) refl

to_cents-format_cents_example : to_cents (format_cents (negsuc 1234)) ≡ some (negsuc 1234)
to_cents-format_cents_example = to_cents-format_cents (negsuc 1234) (omega arith)
