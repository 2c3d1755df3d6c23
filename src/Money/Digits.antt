-- ===== src/Money/Digits.antt =====
-- Decimal digits: what `digits_of` prints, `read_digits` reads back.
use myorishop.Prelude.{
  ℕ, zero, suc, ◌+◌, ◌-◌, ◌*◌, ◌/◌, ◌%◌, ◌≤◌, ◌<◌, true, [], ◌∷◌, ◌++◌, length, ltb, All, ◌≡◌, ap,
  ◌∙◌, arith, Bool-cases, inl, inr,
}
use myorishop.Text.{Text, is_digit}
use myorishop.Money.Decimals.{read_digits, digits_onto}

abbrev pub IsDigit : ℕ → Type 0
IsDigit c = is_digit c ≡ true

-- What `read_digits` has read after some digits.
abbrev pub value : ℕ → Text → ℕ
value acc [] = acc
value acc (d ∷ ds) = value (acc * 10 + (d - 48)) ds

-- The digits up to the point, and the rest.
pub read_digits-point :
    (acc count : ℕ) (ds rest : Text)
    → All IsDigit ds
    → read_digits acc count (ds ++ (b'.' ∷ rest)) ≡ (value acc ds, count + length ds, b'.' ∷ rest)
unfolding read_digits
read_digits-point acc count [] rest h = ap (λ n. (acc, n, b'.' ∷ rest)) (omega arith)
read_digits-point acc count (d ∷ ds) rest h =
    rw (h.0, read_digits-point (acc * 10 + (d - 48)) (count + 1) ds rest h.1)
      (ap (λ n. (value (acc * 10 + (d - 48)) ds, n, b'.' ∷ rest)) (omega arith))

pub digits_onto-IsDigit :
    (fuel n : ℕ) (ds : Text) → All IsDigit ds → All IsDigit (digits_onto fuel n ds)
digits_onto-IsDigit zero n ds h = h
digits_onto-IsDigit (suc fuel) n ds h = elim (Bool-cases (ltb n 10)) [
  | inl small ↦ rw small (ground arith, h)
  | inr large ↦ rw large (digits_onto-IsDigit fuel (n / 10) ((48 + n % 10) ∷ ds) (ground arith, h))
]

pub digits_onto-length :
    (fuel n : ℕ) (ds : Text) → n < fuel → suc (length ds) ≤ length (digits_onto fuel n ds)
digits_onto-length zero n ds h = absurd (omega arith)
digits_onto-length (suc fuel) n ds h = elim (Bool-cases (ltb n 10)) [
  | inl small ↦ rw small (omega arith)
  | inr large ↦
      let big : 10 ≤ n = ground arith in
      rw large (omega (arith, digits_onto-length fuel (n / 10) ((48 + n % 10) ∷ ds) (omega arith)))
]

pub value-digits_onto :
    (fuel n : ℕ) (ds : Text) → n < fuel → value 0 (digits_onto fuel n ds) ≡ value n ds
value-digits_onto zero n ds h = absurd (omega arith)
value-digits_onto (suc fuel) n ds h = elim (Bool-cases (ltb n 10)) [
  | inl small ↦ rw small (ap (λ v. value v ds) (omega arith))
  | inr large ↦
      let big : 10 ≤ n = ground arith in
      rw large (
        value-digits_onto fuel (n / 10) ((48 + n % 10) ∷ ds) (omega arith)
        ∙ ap (λ v. value v ds) (omega arith))
]
