-- ===== src/Text.antt =====
-- Python's `str` as a list of code points: equality, order, `strip`, and the tests and the
-- conversion that the services apply to a form's numbers.
use Prim.Native.Char.{code}
use Prim.Native.String.{String}
use myorishop.Prelude.{
  ℕ, ◌+◌, ◌-◌, ◌*◌, Bool, true, false, ◌&&◌, ◌||◌, Option, none, some, List, [], ◌∷◌, ◌≡◌, ◌↔◌,
  refl, arith, ltb, leb, ◌==◌, if◌then◌else◌,
}

abbrev pub Text : Type 0
Text = List ℕ

-- A text literal of the source.
abbrev pub text : String → Text
text String.[] = []
text (String.◌∷◌ c s) = code c ∷ text s

-- `a == b`
unfoldable pub eq_text : Text → Text → Bool
eq_text [] [] = true
eq_text [] (y ∷ ys) = false
eq_text (x ∷ xs) [] = false
eq_text (x ∷ xs) (y ∷ ys) = (x == y) && eq_text xs ys

pub eq_text_refl : (a : Text) → eq_text a a ≡ true
unfolding eq_text
eq_text_refl [] = refl
eq_text_refl (x ∷ xs) = ground (arith, eq_text_refl xs)

pub eq_text_sound : (a b : Text) → eq_text a b ≡ true → a ≡ b
unfolding eq_text
eq_text_sound [] [] h = refl
eq_text_sound [] (y ∷ ys) h = cc
eq_text_sound (x ∷ xs) [] h = cc
eq_text_sound (x ∷ xs) (y ∷ ys) h = ground (arith, eq_text_sound xs ys)

pub eq_text_iff : (a b : Text) → (eq_text a b ≡ true) ↔ (a ≡ b)
eq_text_iff a b = (eq_text_sound a b, λ e. rw e (eq_text_refl b))

pub eq_text_sym : (a b : Text) → eq_text a b ≡ eq_text b a
unfolding eq_text
eq_text_sym [] [] = refl
eq_text_sym [] (y ∷ ys) = refl
eq_text_sym (x ∷ xs) [] = refl
eq_text_sym (x ∷ xs) (y ∷ ys) = ground (arith, eq_text_sym xs ys)

-- A nullable column against a value: SQL's `column = value`, which NULL does not pass.
abbrev pub is_text : Text → Option Text → Bool
is_text a none = false
is_text a (some b) = eq_text b a

-- `value in allowed`
unfoldable pub contains : List Text → Text → Bool
unfolding eq_text
contains [] a = false
contains (x ∷ xs) a = eq_text x a || contains xs a

-- `a < b`: the order of Python's `str`, by code points.
unfoldable pub lt_text : Text → Text → Bool
lt_text [] [] = false
lt_text [] (y ∷ ys) = true
lt_text (x ∷ xs) [] = false
lt_text (x ∷ xs) (y ∷ ys) = if ltb x y then true else (x == y) && lt_text xs ys

-- The code points that `str.strip` removes.
abbrev pub is_space : ℕ → Bool
is_space c =
    (leb 9 c && leb c 13)
    || (leb 28 c && leb c 32)
    || c == 0x85
    || c == 0xa0
    || c == 0x1680
    || (leb 0x2000 c && leb c 0x200a)
    || c == 0x2028
    || c == 0x2029
    || c == 0x202f
    || c == 0x205f
    || c == 0x3000

abbrev pub lstrip : Text → Text
lstrip [] = []
lstrip (c ∷ cs) = if is_space c then lstrip cs else c ∷ cs

abbrev pub rstrip : Text → Text
rstrip [] = []
rstrip (c ∷ cs) =
    let rest = rstrip cs in
    elim rest [ [] ↦ if is_space c then [] else c ∷ [] | d ∷ ds ↦ c ∷ d ∷ ds ]

-- `s.strip()`
unfoldable pub strip : Text → Text
strip s = rstrip (lstrip s)

-- `s.upper()` of an ASCII text.
abbrev pub upper : Text → Text
upper [] = []
upper (c ∷ cs) = (if leb 97 c && leb c 122 then c - 32 else c) ∷ upper cs

-- `s.lower()` of a text of ASCII and Cyrillic letters.
abbrev lower_char : ℕ → ℕ
lower_char c =
    if (leb 65 c && leb c 90) || (leb 0x410 c && leb c 0x42f)
    then c + 32
    else if leb 0x400 c && leb c 0x40f
    then c + 80
    else c

abbrev pub lower : Text → Text
lower [] = []
lower (c ∷ cs) = lower_char c ∷ lower cs

-- `s.strip() or None`
abbrev pub or_none : Text → Option Text
or_none [] = none
or_none (c ∷ cs) = some (c ∷ cs)

abbrev pub is_digit : ℕ → Bool
is_digit c = leb 48 c && leb c 57

abbrev all_digits : Text → Bool
all_digits [] = true
all_digits (c ∷ cs) = is_digit c && all_digits cs

-- `s.isascii() and s.isdigit()`
unfoldable pub is_ascii_digits : Text → Bool
is_ascii_digits [] = false
is_ascii_digits (c ∷ cs) = all_digits (c ∷ cs)

abbrev digits_from : ℕ → Text → ℕ
digits_from acc [] = acc
digits_from acc (c ∷ cs) = digits_from (acc * 10 + (c - 48)) cs

-- `int(s)` for a text of ASCII digits.
unfoldable pub int_of_digits : Text → ℕ
int_of_digits s = digits_from 0 s

-- The services' quantity: `int(s) if s.isascii() and s.isdigit() else 0` after `strip`.
unfoldable pub parse_qty : Text → ℕ
unfolding strip is_ascii_digits int_of_digits
parse_qty raw = let s = strip raw in if is_ascii_digits s then int_of_digits s else 0
