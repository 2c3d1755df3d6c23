-- ===== src/Merge/Suffix.antt =====
-- `_suffix_code`: the new code fits the column, and is free where a width of the marker is.
use myorishop.Prelude.{
  ℕ, zero, suc, ◌+◌, ◌-◌, ◌≤◌, false, List, [], ◌∷◌, ◌++◌, take, length, ◌≡◌, arith, Bool-cases,
  inl, inr, subst,
}
use myorishop.Text.{Text, contains}
use myorishop.Merge.Codes.{hex_of, max_hex_of, candidate, suffix_from, suffix_code}

length-append : (xs ys : Text) → length (xs ++ ys) ≡ length xs + length ys
length-append [] ys = omega arith
length-append (x ∷ xs) ys = omega (arith, length-append xs ys)

length-take : (n : ℕ) (xs : Text) → length (take n xs) ≤ n
length-take zero xs = omega arith
length-take (suc n) [] = omega arith
length-take (suc n) (x ∷ xs) = omega (arith, length-take n xs)

candidate-length : (code row_id : Text) (w : ℕ) → w ≤ 19 → length (candidate code row_id w) ≤ 20
candidate-length code row_id w h =
    let digits = take w (hex_of row_id) in
    let marker = b'~' ∷ digits in
    let short : length digits ≤ w = length-take w (hex_of row_id) in
    omega (
      arith,
      length-append (take (20 - length marker) code) marker,
      length-take (20 - length marker) code,
    )

suffix_from-length :
    (code row_id : Text) (taken : List Text) (n w : ℕ) (last : Text)
    → n + w ≤ 20
    → length last ≤ 20
    → length (suffix_from code row_id taken n w last) ≤ 20
unfolding suffix_from
suffix_from-length code row_id taken zero w last h k = k
suffix_from-length code row_id taken (suc n) w last h k =
    let c = candidate code row_id w in
    let c_fits : length c ≤ 20 = candidate-length code row_id w (omega arith) in
    elim (Bool-cases (contains taken c)) [
      | inl held ↦ rw held (suffix_from-length code row_id taken n (w + 1) c (omega arith) c_fits)
      | inr free ↦ rw free c_fits
    ]

-- A suffixed code fits the 20 characters of the column, whatever the code, the id and the codes that
-- are taken.
pub suffix_code-length :
    (code row_id : Text) (taken : List Text) → length (suffix_code code row_id taken) ≤ 20
unfolding suffix_code
suffix_code-length code row_id taken =
    suffix_from-length code row_id taken (max_hex_of row_id + 1 - 8) 8 [] (omega arith)
      (omega arith)

suffix_from-free :
    (code row_id : Text) (taken : List Text) (n w d : ℕ) (last : Text)
    → suc d ≤ n
    → contains taken (candidate code row_id (w + d)) ≡ false
    → contains taken (suffix_from code row_id taken n w last) ≡ false
unfolding suffix_from
suffix_from-free code row_id taken zero w d last h k = absurd (omega arith)
suffix_from-free code row_id taken (suc n) w zero last h k =
    let here : contains taken (candidate code row_id w) ≡ false =
      subst (λ v. contains taken (candidate code row_id v) ≡ false) (omega arith) k in
    rw here here
suffix_from-free code row_id taken (suc n) w (suc d) last h k =
    elim (Bool-cases (contains taken (candidate code row_id w))) [
      | inl held ↦ rw held (
          suffix_from-free code row_id taken n (w + 1) d (candidate code row_id w) (omega arith)
            (subst (λ v. contains taken (candidate code row_id v) ≡ false) (omega arith) k))
      | inr free ↦ rw free free
    ]

-- Where a marker of 8 digits or more, and of no more than the id has and the column takes, gives a
-- code that is not taken, the suffixed code is not taken.
pub suffix_code-free :
    (code row_id : Text) (taken : List Text) (w : ℕ)
    → 8 ≤ w
    → w ≤ max_hex_of row_id
    → contains taken (candidate code row_id w) ≡ false
    → contains taken (suffix_code code row_id taken) ≡ false
unfolding suffix_code
suffix_code-free code row_id taken w low high free =
    suffix_from-free code row_id taken (max_hex_of row_id + 1 - 8) 8 (w - 8) [] (omega arith)
      (subst (λ n. contains taken (candidate code row_id n) ≡ false) (omega arith) free)
