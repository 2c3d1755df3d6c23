-- ===== src/Money/Rounding.antt =====
-- `rub_suggestion`: the converted price is the nearest whole cent.
use myorishop.Prelude.{
  ℕ, ◌+◌, ◌*◌, ◌≤◌, ◌<◌, true, false, Option, some, ℤ, pos, negsuc, neg, neg_part, pos_part, ltb_ℤ,
  ◌≡◌, refl, arith, Bool-cases, inl, inr, ◌⊎◌, sym, ◌∙◌, ap, subst,
}
use mathlib.Core.Option.{some-injective}
use myorishop.Text.{Text, text, eq_text}
use myorishop.Money.{rub_suggestion, rub_divisor, currency_or_default, magnitude, half_up}

-- `2 * d * r` lies within `d` of `2 * n`, upwards at a tie.
abbrev pub IsNearest : ℕ → ℕ → ℕ → Type 0
IsNearest d n r = (r * (2 * d) ≤ n * 2 + d) × (n * 2 + d < r * (2 * d) + 2 * d)

half_up-IsNearest : (n : ℕ) (d : ℕ) → (d ≡ 1) ⊎ ((d ≡ 2) ⊎ (d ≡ 100)) → IsNearest d n (half_up n d)
half_up-IsNearest n d (inl one) = rw one (omega arith)
half_up-IsNearest n d (inr (inl two)) = rw two (omega arith)
half_up-IsNearest n d (inr (inr hundred)) = rw hundred (omega arith)

rub_divisor-cases : (c : Text) → (rub_divisor c ≡ 1) ⊎ ((rub_divisor c ≡ 2) ⊎ (rub_divisor c ≡ 100))
unfolding rub_divisor
rub_divisor-cases c = elim (Bool-cases (eq_text c (text "UAH"))) [
  | inl uah ↦ inr (inl (rw uah refl))
  | inr other ↦ elim (Bool-cases (eq_text c (text "EUR"))) [
    | inl eur ↦ inr (inr (rw (other, eur) refl))
    | inr neither ↦ inl (rw (other, neither) refl)
  ]
]

magnitude-pos : (n : ℕ) → magnitude (pos n) ≡ n
magnitude-pos n = omega arith

magnitude-neg : (n : ℕ) → magnitude (neg (pos n)) ≡ n
unfolding neg
magnitude-neg n = ground arith

neg_part-magnitude : (a : ℤ) → ltb_ℤ a (pos 0) ≡ true → neg_part a ≡ magnitude a
neg_part-magnitude (pos n) h = ground arith
neg_part-magnitude (negsuc n) h = omega arith

pos_part-magnitude : (a : ℤ) → ltb_ℤ a (pos 0) ≡ false → pos_part a ≡ magnitude a
pos_part-magnitude (pos n) h = omega arith
pos_part-magnitude (negsuc n) h = ground arith

-- A suggestion in a currency is the amount over the currency's divisor, to the nearest whole cent, a
-- tie away from zero; it has the sign of the amount or is 0.
pub rub_suggestion-IsNearest :
    (a : ℤ) (currency : Option Text) (r : ℤ)
    → rub_suggestion (some a) currency ≡ some r
    → IsNearest (rub_divisor (currency_or_default currency)) (magnitude a) (magnitude r)
      × ((r ≡ pos (magnitude r)) ⊎ (ltb_ℤ a (pos 0) ≡ true))
      × ((r ≡ neg (pos (magnitude r))) ⊎ (ltb_ℤ a (pos 0) ≡ false))
unfolding rub_suggestion
rub_suggestion-IsNearest a currency r e =
    let d = rub_divisor (currency_or_default currency) in
    let three = rub_divisor-cases (currency_or_default currency) in
    elim (Bool-cases (ltb_ℤ a (pos 0))) [
      | inl below ↦
          let q = some-injective (neg (pos (half_up (neg_part a) d))) r (rw below at e) in
          let size : magnitude r ≡ half_up (magnitude a) d =
            ap magnitude (sym q)
            ∙ magnitude-neg (half_up (neg_part a) d)
            ∙ ap (λ n. half_up n d) (neg_part-magnitude a below) in
          (
            subst (IsNearest d (magnitude a)) (sym size) (half_up-IsNearest (magnitude a) d three),
            inr below,
            inl (
                sym q
                ∙ ap (λ n. neg (pos (half_up n d))) (neg_part-magnitude a below)
                ∙ ap (λ n. neg (pos n)) (sym size)),
          )
      | inr above ↦
          let q = some-injective (pos (half_up (pos_part a) d)) r (rw above at e) in
          let size : magnitude r ≡ half_up (magnitude a) d =
            ap magnitude (sym q)
            ∙ magnitude-pos (half_up (pos_part a) d)
            ∙ ap (λ n. half_up n d) (pos_part-magnitude a above) in
          (
            subst (IsNearest d (magnitude a)) (sym size) (half_up-IsNearest (magnitude a) d three),
            inl (
                sym q
                ∙ ap (λ n. pos (half_up n d)) (pos_part-magnitude a above)
                ∙ ap pos (sym size)),
            inr above,
          )
    ]
