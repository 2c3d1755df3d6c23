-- ===== src/Pagination/Pages.antt =====
-- `paginate`: the pages are the list, and an out-of-range page is the nearest one.
use myorishop.Prelude.{
  ℕ, zero, suc, ◌+◌, ◌-◌, ◌*◌, ◌≤◌, List, [], ◌∷◌, ◌++◌, take, drop, length, ℤ, pos, negsuc, min,
  ◌≡◌, refl, sym, ap, ◌∙◌, arith,
}
use myorishop.Pagination.{total_pages_of, clamped, paginate}

clamped-last :
    (page : ℤ) (total : ℕ) → clamped page (total_pages_of total) ≤ total_pages_of total - 1
clamped-last (pos n) total = omega arith
clamped-last (negsuc n) total = omega arith

module _ {A : Type 0} where
  take-drop : (n : ℕ) (xs : List A) → take n xs ++ drop n xs ≡ xs
  take-drop zero xs = refl
  take-drop (suc n) [] = refl
  take-drop (suc n) (x ∷ xs) = ap (λ l. x ∷ l) (take-drop n xs)

  drop-nil : (n : ℕ) → drop {A = A} n [] ≡ []
  drop-nil zero = refl
  drop-nil (suc n) = refl

  drop-drop : (m n : ℕ) (xs : List A) → drop n (drop m xs) ≡ drop (m + n) xs
  drop-drop zero n xs = let e : n ≡ 0 + n = omega arith in ap (λ k. drop k xs) e
  drop-drop (suc m) n [] = drop-nil n ∙ sym (drop-nil (suc m + n))
  drop-drop (suc m) n (x ∷ xs) =
      let e : suc (m + n) ≡ suc m + n = omega arith in
      drop-drop m n xs ∙ ap (λ k. drop k (x ∷ xs)) e

  drop-all : (n : ℕ) (xs : List A) → length xs ≤ n → drop n xs ≡ []
  drop-all zero [] h = refl
  drop-all zero (x ∷ xs) h = absurd (omega arith)
  drop-all (suc n) [] h = refl
  drop-all (suc n) (x ∷ xs) h = drop-all n xs (omega arith)

  length-take-drop : (n m : ℕ) (xs : List A) → length (take n (drop m xs)) ≡ min n (length xs - m)
  length-take-drop zero m xs = omega arith
  length-take-drop (suc n) zero [] = omega arith
  length-take-drop (suc n) (suc m) [] = omega arith
  length-take-drop (suc n) zero (x ∷ xs) = omega (arith, length-take-drop n zero xs)
  length-take-drop (suc n) (suc m) (x ∷ xs) = omega (arith, length-take-drop (suc n) m xs)

  -- The pages from `i` on, one after the other.
  abbrev pub pages_from : List A → ℕ → ℕ → List A
  pages_from rows i zero = []
  pages_from rows i (suc k) = (paginate rows (pos i)).0 ++ pages_from rows (i + 1) k

  pages_from-drop :
      (rows : List A) (i k : ℕ)
      → i + k ≡ total_pages_of (length rows)
      → pages_from rows i k ≡ drop (i * 20) rows
  unfolding paginate
  pages_from-drop rows i zero h = sym (drop-all (i * 20) rows (omega (arith, h)))
  pages_from-drop rows i (suc k) h =
      let same : min i (total_pages_of (length rows) - 1) ≡ i = omega (arith, h) in
      let next : i * 20 + 20 ≡ (i + 1) * 20 = omega arith in
      ap (λ p. take 20 (drop (p * 20) rows) ++ pages_from rows (i + 1) k) same
      ∙ ap (λ l. take 20 (drop (i * 20) rows) ++ l)
          (pages_from-drop rows (i + 1) k (omega (arith, h))
            ∙ ap (λ n. drop n rows) (sym next)
            ∙ sym (drop-drop (i * 20) 20 rows))
      ∙ take-drop 20 (drop (i * 20) rows)

  -- The pages, from the first to the last that any of them reports, are the list: no row is missing or shown
  -- twice.
  pub paginate-all : (rows : List A) (page : ℤ) → pages_from rows 0 (paginate rows page).2 ≡ rows
  unfolding paginate
  paginate-all rows page = pages_from-drop rows 0 (total_pages_of (length rows)) (omega arith)

  -- Whatever page is asked for, a negative one or one past the end too, a list that has rows shows at
  -- least one and at most 20 of them.
  paginate-shows :
      (rows : List A) (page : ℤ)
      → 1 ≤ length rows
      → (1 ≤ length (paginate rows page).0) × (length (paginate rows page).0 ≤ 20)
  unfolding paginate
  paginate-shows rows page h =
      let at = clamped page (total_pages_of (length rows)) in
      let size = length-take-drop 20 (at * 20) rows in
      let inside : at ≤ total_pages_of (length rows) - 1 = clamped-last page (length rows) in
      (omega (arith, size, inside, h), omega (arith, size))
