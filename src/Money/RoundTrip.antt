-- ===== src/Money/RoundTrip.antt =====
-- `to_cents` reads what `format_cents` prints.
use myorishop.Prelude.{
  ℕ, suc, ◌+◌, ◌*◌, ◌/◌, ◌%◌, ◌^◌, ◌≤◌, ◌<◌, Bool, true, false, not, ◌||◌, some, [], ◌∷◌, ◌++◌, map,
  select, length, ℤ, pos, negsuc, neg, ltb_ℤ, ltb, ◌==◌, All, ◌≡◌, refl, ap, ◌∙◌, arith,
  if◌then◌else◌,
}
use myorishop.Text.{Text, strip, rstrip, is_space, is_digit}
use myorishop.Money.Decimals.{
  Decimal, read_digits, digits_of, decimal, cents_of, hundredths, signed, with_whole,
  precision_bound,
}
use myorishop.Money.{to_cents, cents_from, format_cents, comma_to_dot, two_places, magnitude}
use myorishop.Money.Digits.{
  IsDigit, value, read_digits-point, digits_onto-IsDigit, digits_onto-length, value-digits_onto,
}

-- The characters of a printed amount.
abbrev is_plain : ℕ → Bool
is_plain c = is_digit c || (c == b'-' || c == b',')

abbrev IsPlain : ℕ → Type 0
IsPlain c = is_plain c ≡ true

rstrip-plain : (s : Text) → All IsPlain s → rstrip s ≡ s
rstrip-plain [] h = refl
rstrip-plain (c ∷ []) h = let dark : is_space c ≡ false = ground (arith, h.0) in rw dark refl
rstrip-plain (c ∷ d ∷ s) h = rw (rstrip-plain (d ∷ s) h.1) refl

strip-plain : (s : Text) → All IsPlain s → strip s ≡ s
unfolding strip
strip-plain [] h = refl
strip-plain (c ∷ s) h =
    let dark : is_space c ≡ false = ground (arith, h.0) in rw dark (rstrip-plain (c ∷ s) h)

all-append : (P : ℕ → Type 0) (xs ys : Text) → All P xs → All P ys → All P (xs ++ ys)
all-append P [] ys h k = k
all-append P (x ∷ xs) ys h k = (h.0, all-append P xs ys h.1 k)

digits-IsPlain : (ds : Text) → All IsDigit ds → All IsPlain ds
digits-IsPlain [] h = tt
digits-IsPlain (d ∷ ds) h = (rw h.0 refl, digits-IsPlain ds h.1)

map-append :
    (xs ys : Text) → map comma_to_dot (xs ++ ys) ≡ map comma_to_dot xs ++ map comma_to_dot ys
map-append [] ys = refl
map-append (x ∷ xs) ys = ap (λ l. comma_to_dot x ∷ l) (map-append xs ys)

map-digits : (ds : Text) → All IsDigit ds → map comma_to_dot ds ≡ ds
map-digits [] h = refl
map-digits (d ∷ ds) h =
    let other : (d == b',') ≡ false = ground (arith, h.0) in rw (other, map-digits ds h.1) refl

-- The digits of the whole part, and the two places, as the reader meets them.
abbrev shown : ℕ → Text
shown n = digits_of (n / 100) ++ (b'.' ∷ two_places (n % 100))

two_places-IsDigit : (n : ℕ) → n < 100 → All IsDigit (two_places n)
two_places-IsDigit n h =
    let tens : IsDigit (48 + n / 10) = ground arith in
    let ones : IsDigit (48 + n % 10) = ground arith in (tens, (ones, tt))

digits_of-IsDigit : (n : ℕ) → All IsDigit (digits_of n)
unfolding digits_of
digits_of-IsDigit n = digits_onto-IsDigit (suc n) n [] tt

digits_of-length : (n : ℕ) → 1 ≤ length (digits_of n)
unfolding digits_of
digits_of-length n = digits_onto-length (suc n) n [] (omega arith)

value-digits_of : (n : ℕ) → value 0 (digits_of n) ≡ n
unfolding digits_of
value-digits_of n = value-digits_onto (suc n) n [] (omega arith)

-- What the constructor makes of them.
abbrev read_back : Bool → ℕ → Decimal
read_back negative n = record { negative = negative; coefficient = n; raised = 0; places = 2 }

read_two_places : (w f : ℕ) → f < 100 → read_digits w 0 (two_places f) ≡ (w * 100 + f, 2, [])
unfolding read_digits
read_two_places w f h =
    let digits = two_places-IsDigit f h in
    rw (digits.0, digits.1.0) (ap (λ n. (n, 2, [])) (omega arith))

with_whole-shown :
    (negative : Bool) (n : ℕ)
    → with_whole negative (read_digits 0 0 (shown n)) ≡ some (read_back negative n)
with_whole-shown negative n =
    let w = n / 100 in
    let f = n % 100 in
    let long : ltb 0 (0 + length (digits_of w) + 2) ≡ true = ground arith in
    rw
      (
        read_digits-point 0 0 (digits_of w) (two_places f) (digits_of-IsDigit w),
        value-digits_of w,
        read_two_places w f (omega arith),
        long,
      )
      (ap (λ c. some (read_back negative c)) (omega arith))

signed-digits :
    (ds rest : Text)
    → All IsDigit ds
    → 1 ≤ length ds
    → signed (ds ++ rest) ≡ with_whole false (read_digits 0 0 (ds ++ rest))
signed-digits [] rest h k = absurd (omega arith)
signed-digits (d ∷ ds) rest h k =
    let minus : (d == b'-') ≡ false = ground (arith, h.0) in
    let plus : (d == b'+') ≡ false = ground (arith, h.0) in rw (minus, plus) refl

-- No underscores.
abbrev IsKept : ℕ → Type 0
IsKept c = (c == b'_') ≡ false

select-kept : (s : Text) → All IsKept s → select (λ c. not (c == b'_')) s ≡ s
select-kept [] h = refl
select-kept (c ∷ s) h = rw (h.0, select-kept s h.1) refl

digits-IsKept : (ds : Text) → All IsDigit ds → All IsKept ds
digits-IsKept [] h = tt
digits-IsKept (d ∷ ds) h = (ground (arith, h.0), digits-IsKept ds h.1)

shown-IsKept : (n : ℕ) → All IsKept (shown n)
shown-IsKept n =
    all-append IsKept (digits_of (n / 100)) _ (digits-IsKept _ (digits_of-IsDigit (n / 100)))
      (refl, digits-IsKept (two_places (n % 100)) (two_places-IsDigit (n % 100) (omega arith)))

-- The printed magnitude.
abbrev printed : ℕ → Text
printed n = digits_of (n / 100) ++ (b',' ∷ two_places (n % 100))

printed-IsPlain : (n : ℕ) → All IsPlain (printed n)
printed-IsPlain n =
    all-append IsPlain (digits_of (n / 100)) _ (digits-IsPlain _ (digits_of-IsDigit (n / 100)))
      (refl, digits-IsPlain (two_places (n % 100)) (two_places-IsDigit (n % 100) (omega arith)))

map-printed : (n : ℕ) → map comma_to_dot (printed n) ≡ shown n
map-printed n =
    map-append (digits_of (n / 100)) (b',' ∷ two_places (n % 100))
    ∙ rw
        (
          map-digits (digits_of (n / 100)) (digits_of-IsDigit (n / 100)),
          map-digits (two_places (n % 100)) (two_places-IsDigit (n % 100) (omega arith)),
        )
        refl

decimal-shown : (n : ℕ) → decimal (shown n) ≡ some (read_back false n)
unfolding decimal
decimal-shown n =
    rw
      (
        select-kept (shown n) (shown-IsKept n),
        signed-digits (digits_of (n / 100)) _ (digits_of-IsDigit (n / 100))
            (digits_of-length (n / 100)),
      )
      (with_whole-shown false n)

decimal-minus : (n : ℕ) → decimal (b'-' ∷ shown n) ≡ some (read_back true n)
unfolding decimal
decimal-minus n = rw (select-kept (shown n) (shown-IsKept n)) (with_whole-shown true n)

hundredths-read_back : (negative : Bool) (n : ℕ) → hundredths (read_back negative n) ≡ n
hundredths-read_back negative n = omega arith

cents_of-read_back :
    (negative : Bool) (n : ℕ)
    → n < 10 ^ 28
    → cents_of (read_back negative n) ≡ some (if negative then neg (pos n) else pos n)
unfolding cents_of
cents_of-read_back negative n h =
    let fits : ltb n precision_bound ≡ true = ground arith in
    rw (hundredths-read_back negative n, fits) refl

to_cents-printed :
    (s : Text) (d : Decimal)
    → All IsPlain s
    → decimal (map comma_to_dot s) ≡ some d
    → to_cents s ≡ cents_of d
unfolding to_cents
to_cents-printed s d plain e =
    ap (λ x. cents_from (decimal (map comma_to_dot x))) (strip-plain s plain) ∙ ap cents_from e

format_cents-pos : (n : ℕ) → format_cents (pos n) ≡ printed n
unfolding format_cents
format_cents-pos n =
    let size : magnitude (pos n) ≡ n = omega arith in
    let up : ltb_ℤ (pos n) (pos 0) ≡ false = ground arith in
    ap (λ (b : Bool). (if b then b'-' ∷ [] else []) ++ printed (magnitude (pos n))) up
    ∙ ap printed size

format_cents-negsuc : (n : ℕ) → format_cents (negsuc n) ≡ b'-' ∷ printed (suc n)
unfolding format_cents
format_cents-negsuc n =
    let size : magnitude (negsuc n) ≡ suc n = omega arith in
    let down : ltb_ℤ (negsuc n) (pos 0) ≡ true = ground arith in
    ap (λ (b : Bool). (if b then b'-' ∷ [] else []) ++ printed (magnitude (negsuc n))) down
    ∙ ap (λ m. b'-' ∷ printed m) size

neg-suc : (n : ℕ) → neg (pos (suc n)) ≡ negsuc n
unfolding neg
neg-suc n = ground arith

-- `to_cents` reads back every amount that `format_cents` prints, a negative one too, if it has at most
-- the 28 digits of the decimal context.
pub to_cents-format_cents : (a : ℤ) → magnitude a < 10 ^ 28 → to_cents (format_cents a) ≡ some a
to_cents-format_cents (pos n) h = rw (format_cents-pos n) (
    to_cents-printed (printed n) (read_back false n) (printed-IsPlain n)
      (ap decimal (map-printed n) ∙ decimal-shown n)
    ∙ cents_of-read_back false n (omega (arith, h)))
to_cents-format_cents (negsuc n) h = rw (format_cents-negsuc n) (
    to_cents-printed (b'-' ∷ printed (suc n)) (read_back true (suc n))
      (refl, printed-IsPlain (suc n))
      (ap (λ s. decimal (b'-' ∷ s)) (map-printed (suc n)) ∙ decimal-minus (suc n))
    ∙ cents_of-read_back true (suc n) (omega (arith, h))
    ∙ ap some (neg-suc n))
