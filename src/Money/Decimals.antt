-- ===== src/Money/Decimals.antt =====
-- Python's `decimal.Decimal`, as far as `to_cents` uses it: the texts that the constructor reads as a
-- finite number, over ASCII digits, and `quantize(Decimal("0.01"), ROUND_HALF_UP)` at 28 digits.
use myorishop.Prelude.{
  ℕ, suc, zero, ◌+◌, ◌-◌, ◌*◌, ◌/◌, ◌%◌, ◌^◌, Bool, true, false, not, ◌&&◌, ◌||◌, Option, none,
  some, [], ◌∷◌, ℤ, pos, neg, ltb, ◌==◌, if◌then◌else◌, select,
}
use myorishop.Text.{Text, is_digit}

-- The number is coefficient * 10 ^ raised / 10 ^ places, negative if the flag says so.
pub record Decimal : Type 0 where
  pub negative : Bool
  pub coefficient : ℕ
  pub raised : ℕ
  pub places : ℕ

-- The digits at the front of a text: their value after `acc`, their number after `count`, the rest.
unfoldable pub read_digits : ℕ → ℕ → Text → ℕ × ℕ × Text
read_digits acc count [] = (acc, count, [])
read_digits acc count (c ∷ cs) =
    let more = read_digits (acc * 10 + (c - 48)) (count + 1) cs in
    if is_digit c then more else (acc, count, c ∷ cs)

abbrev at_end : Text → Bool
at_end [] = true
at_end (c ∷ cs) = false

-- The exponent after `e`: its sign and its magnitude.
abbrev exponent_of : Bool → ℕ × ℕ × Text → Option (Bool × ℕ)
exponent_of down (n, count, rest) = if ltb 0 count && at_end rest then some (down, n) else none

abbrev signed_exponent : Text → Option (Bool × ℕ)
signed_exponent [] = none
signed_exponent (c ∷ cs) =
    if c == b'-'
    then exponent_of true (read_digits 0 0 cs)
    else if c == b'+'
    then exponent_of false (read_digits 0 0 cs)
    else exponent_of false (read_digits 0 0 (c ∷ cs))

abbrev pub exponent : Text → Option (Bool × ℕ)
exponent [] = some (false, 0)
exponent (c ∷ cs) = if c == b'e' || c == b'E' then signed_exponent cs else none

abbrev pub scaled : Bool → ℕ → ℕ → Option (Bool × ℕ) → Option Decimal
scaled negative n fraction none = none
scaled negative n fraction (some (true, e)) =
    some (record { negative = negative; coefficient = n; raised = 0; places = fraction + e })
scaled negative n fraction (some (false, e)) =
    some (record { negative = negative; coefficient = n; raised = e; places = fraction })

-- After the point.
abbrev pub with_fraction : Bool → ℕ → ℕ × ℕ × Text → Option Decimal
with_fraction negative whole (n, count, rest) =
    if ltb 0 (whole + count) then scaled negative n count (exponent rest) else none

-- After the digits before the point.
abbrev pub with_whole : Bool → ℕ × ℕ × Text → Option Decimal
with_whole negative (n, count, []) = if ltb 0 count then scaled negative n 0 (exponent []) else none
with_whole negative (n, count, c ∷ cs) =
    if c == b'.'
    then with_fraction negative count (read_digits n 0 cs)
    else if ltb 0 count
    then scaled negative n 0 (exponent (c ∷ cs))
    else none

abbrev pub signed : Text → Option Decimal
signed [] = none
signed (c ∷ cs) =
    if c == b'-'
    then with_whole true (read_digits 0 0 cs)
    else if c == b'+'
    then with_whole false (read_digits 0 0 cs)
    else with_whole false (read_digits 0 0 (c ∷ cs))

-- `Decimal(text)` of a stripped text; `none` is a text that is no number, an infinity or a NaN.
-- Underscores are skipped.
unfoldable pub decimal : Text → Option Decimal
unfolding read_digits
decimal s = signed (select (λ c. not (c == b'_')) s)

-- The magnitude in hundredths, rounded half up.
abbrev pub hundredths : Decimal → ℕ
hundredths d =
    let n = d.coefficient * 10 ^ (d.raised + 2) in let m = 10 ^ d.places in (n * 2 + m) / (m * 2)

abbrev pub precision_bound : ℕ
precision_bound = 10 ^ 28

-- `int(amount.quantize(Decimal("0.01"), rounding=ROUND_HALF_UP) * 100)`; a result of more than 28
-- digits is an InvalidOperation.
unfoldable pub cents_of : Decimal → Option ℤ
unfolding neg
cents_of d =
    let n = hundredths d in
    if ltb n precision_bound then some (if d.negative then neg (pos n) else pos n) else none

-- The decimal digits of a number, in front of a text.
abbrev pub digits_onto : ℕ → ℕ → Text → Text
digits_onto zero n rest = rest
digits_onto (suc fuel) n rest =
    let more = digits_onto fuel (n / 10) ((48 + n % 10) ∷ rest) in
    if ltb n 10 then (48 + n) ∷ rest else more

-- `str(n)`
unfoldable pub digits_of : ℕ → Text
digits_of n = digits_onto (suc n) n []
