-- ===== src/Pagination/Shown.antt =====
-- `page_window`: which pages it shows.
use myorishop.Prelude.{
  ℕ, zero, suc, ◌+◌, ◌-◌, ◌≤◌, ◌<◌, Bool, true, false, ◌||◌, List, [], ◌∷◌, ℤ, pos, negsuc, ◌+ℤ◌,
  ◌-ℤ◌, ◌≤ℤ◌, ltb, ◌==◌, any, ◌≡◌, refl, ap, ◌∙◌, arith, Bool-cases, inl, inr, int_laws, ◌⊎◌,
  pos_part, neg_part,
}
use myorishop.Pagination.{
  Mark, index, ellipsis, range, add_index, add_indices, marks_after, marks, first_near, end_near,
  indices_of, page_window,
}

-- Whether a page is shown.
abbrev pub shows : ℕ → List Mark → Bool
shows i [] = false
shows i (index j ∷ ms) = j == i || shows i ms
shows i (ellipsis ∷ ms) = shows i ms

abbrev has : ℕ → List ℕ → Bool
has i = any (λ j. j == i)

has-add_index : (i k : ℕ) (js : List ℕ) → has i (add_index k js) ≡ (k == i || has i js)
has-add_index i k [] = refl
has-add_index i k (j ∷ js) = ground (arith, has-add_index i k js)

has-add_indices : (i : ℕ) (ks js : List ℕ) → has i (add_indices ks js) ≡ (has i ks || has i js)
has-add_indices i [] js = refl
has-add_indices i (k ∷ ks) js =
    ground (arith, has-add_indices i ks (add_index k js), has-add_index i k js)

has-range : (i a n : ℕ) → a ≤ i → i < a + n → has i (range a n) ≡ true
has-range i a zero h k = absurd (omega (arith, h, k))
has-range i a (suc n) h k = elim (Bool-cases (a == i)) [
  | inl same ↦ rw same refl
  | inr other ↦
      let above : suc a ≤ i = ground (arith, h) in
      rw other (has-range i (suc a) n above (omega (arith, k)))
]

shows-marks_after : (i previous : ℕ) (js : List ℕ) → shows i (marks_after previous js) ≡ has i js
shows-marks_after i previous [] = refl
shows-marks_after i previous (j ∷ js) = elim (Bool-cases (ltb 1 (j - previous))) [
  | inl skips ↦ rw (skips, shows-marks_after i j js) refl
  | inr next ↦ rw (next, shows-marks_after i j js) refl
]

shows-marks : (i : ℕ) (js : List ℕ) → shows i (marks js) ≡ has i js
shows-marks i [] = refl
shows-marks i (j ∷ js) = ap (λ b. j == i || b) (shows-marks_after i j js)

shows-indices :
    (i : ℕ) (page : ℤ) (last spread : ℕ)
    → (has i (
          range (first_near page spread) (end_near page (suc last) spread - first_near page spread))
        || has i (add_index (suc last - 1) (0 ∷ [])))
      ≡ true
    → shows i (page_window page (suc last) spread) ≡ true
unfolding page_window
shows-indices i page last spread h =
    shows-marks i (indices_of page (suc last) spread)
    ∙ has-add_indices i (range (first_near page spread) _) (add_index (suc last - 1) (0 ∷ []))
    ∙ h

one_part : (a : ℤ) → (pos_part a ≡ 0) ⊎ (neg_part a ≡ 0)
one_part (pos n) = inr refl
one_part (negsuc n) = inl refl

or_true : (a b : Bool) → b ≡ true → (a || b) ≡ true
or_true a b h = ground (arith, h)

is_edge : (i last : ℕ) → (i ≡ 0) ⊎ (i + 1 ≡ suc last) → (suc last - 1 == i || has i (0 ∷ [])) ≡ true
is_edge i last (inl zero_page) = ground (arith, zero_page)
is_edge i last (inr last_page) = ground (arith, last_page)

-- The window shows the first page, the last one, and each one within the spread of the current page.
pub page_window-shows :
    (page : ℤ) (total_pages spread i : ℕ)
    → i < total_pages
    → ((i ≡ 0) ⊎ (i + 1 ≡ total_pages))
      ⊎ ((page -ℤ pos spread ≤ℤ pos i) × (pos i ≤ℤ page +ℤ pos spread))
    → shows i (page_window page total_pages spread) ≡ true
page_window-shows page zero spread i h near = absurd (omega (arith, h))
page_window-shows page (suc last) spread i h (inl edge) =
    shows-indices i page last spread
      (or_true _ _ (has-add_index i (suc last - 1) (0 ∷ []) ∙ is_edge i last edge))
page_window-shows page (suc last) spread i h (inr near) =
    let low = first_near page spread in
    let above : low ≤ i = omega (int_laws, near.0, one_part (page -ℤ pos spread)) in
    let below : i < end_near page (suc last) spread =
      omega (int_laws, near.1, h, one_part (page +ℤ pos (spread + 1))) in
    shows-indices i page last spread (
      rw
        (has-range i low (end_near page (suc last) spread - low) above
          (omega (arith, above, below)))
        refl)
