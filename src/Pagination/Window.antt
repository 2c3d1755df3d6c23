-- ===== src/Pagination/Window.antt =====
-- `page_window`: an ellipsis stands for the pages that it leaves out.
use myorishop.Prelude.{
  ℕ, zero, suc, ◌+◌, ◌-◌, ◌≤◌, ◌<◌, false, List, [], ◌∷◌, ◌++◌, ℤ, ltb, ◌==◌, ◌≡◌, refl, ap, ◌∙◌,
  arith, Bool-cases, inl, inr, subst,
}
use myorishop.Pagination.{
  Mark, index, ellipsis, range, add_index, add_indices, marks_after, marks, first_near, end_near,
  indices_of, page_window,
}

-- The pages of a window from the page `n` on, an ellipsis read as the pages up to the next index.
abbrev pub read_window : ℕ → List Mark → List ℕ
read_window n [] = []
read_window n (index i ∷ ms) = i ∷ read_window (i + 1) ms
read_window n (ellipsis ∷ index i ∷ ms) = range n (i - n) ++ (i ∷ read_window (i + 1) ms)
read_window n (ellipsis ∷ ellipsis ∷ ms) = []
read_window n (ellipsis ∷ []) = []

-- After `previous` the list climbs, and ends at `last`.
abbrev Climbs : ℕ → ℕ → List ℕ → Type 0
Climbs last previous [] = previous ≡ last
Climbs last previous (j ∷ js) = (previous < j) × Climbs last j js

Climbs-bound : (last previous : ℕ) (js : List ℕ) → Climbs last previous js → previous ≤ last
Climbs-bound last previous [] h = omega (arith, h)
Climbs-bound last previous (j ∷ js) h = omega (arith, h.0, Climbs-bound last j js h.1)

add_index-Climbs :
    (last previous i : ℕ) (js : List ℕ)
    → previous < i
    → i ≤ last
    → Climbs last previous js
    → Climbs last previous (add_index i js)
add_index-Climbs last previous i [] h k c = absurd (omega (arith, c))
add_index-Climbs last previous i (j ∷ js) h k c = elim (Bool-cases (ltb i j)) [
  | inl below ↦ rw below (h, (ground arith, c.1))
  | inr above ↦ elim (Bool-cases (i == j)) [
    | inl same ↦ rw (above, same) c
    | inr other ↦
        let later : j < i = ground arith in
        rw (above, other) (c.0, add_index-Climbs last j i js later k c.1)
  ]
]

not_below : (i : ℕ) → ltb (suc i) 0 ≡ false
not_below i = ground arith

not_zero : (i : ℕ) → (suc i == 0) ≡ false
not_zero i = ground arith

-- A set of indices that starts with 0.
abbrev Starts : ℕ → List ℕ → Type 0
Starts last [] = suc last ≤ last
Starts last (j ∷ js) = (j ≡ 0) × Climbs last 0 js

add_index-Starts :
    (last i : ℕ) (js : List ℕ) → i ≤ last → Starts last js → Starts last (add_index i js)
add_index-Starts last i [] h c = absurd (omega (arith, c))
add_index-Starts last zero (j ∷ js) h c = rw c.0 (refl, c.1)
add_index-Starts last (suc i) (j ∷ js) h c =
    let climbs = add_index-Climbs last 0 (suc i) js (omega arith) h c.1 in
    rw (c.0, not_below i, not_zero i) (refl, climbs)

add_indices-Starts :
    (last a n : ℕ) (js : List ℕ)
    → n ≤ last + 1 - a
    → Starts last js
    → Starts last (add_indices (range a n) js)
add_indices-Starts last a zero js h c = c
add_indices-Starts last a (suc n) js h c =
    add_indices-Starts last (suc a) n (add_index a js) (omega arith)
      (add_index-Starts last a js (omega arith) c)

ends : (last : ℕ) → Starts last (add_index last (0 ∷ []))
ends zero = (refl, refl)
ends (suc n) = let up : 0 < suc n = omega arith in rw (not_below n, not_zero n) (refl, (up, refl))

range-cong : (a b m n : ℕ) → a ≡ b → m ≡ n → range a m ≡ range b n
range-cong a b m n h k = rw (h, k) refl

range-append : (a m n : ℕ) → range a m ++ range (a + m) n ≡ range a (m + n)
range-append a zero n = range-cong (a + 0) a n (0 + n) (omega arith) (omega arith)
range-append a (suc m) n =
    let shift : a + suc m ≡ suc a + m = omega arith in
    let long : suc m + n ≡ suc (m + n) = omega arith in
    rw (shift, long) (ap (λ l. a ∷ l) (range-append (suc a) m n))

-- From an index of the window on.
from_index : (last j : ℕ) → j ≤ last → j ∷ range (j + 1) (last - j) ≡ range j (suc last - j)
from_index last j h =
    let long : suc last - j ≡ suc (last - j) = omega (arith, h) in
    rw long (ap (λ l. j ∷ l) (range-cong (j + 1) (suc j) (last - j) (last - j) (omega arith) refl))

read_window-marks_after :
    (last previous : ℕ) (js : List ℕ)
    → Climbs last previous js
    → read_window (previous + 1) (marks_after previous js) ≡ range (previous + 1) (last - previous)
read_window-marks_after last previous [] c =
    let none_left : 0 ≡ last - previous = omega (arith, c) in ap (range (previous + 1)) none_left
read_window-marks_after last previous (j ∷ js) c =
    let bound = Climbs-bound last j js c.1 in
    let rest : j ∷ read_window (j + 1) (marks_after j js) ≡ range j (suc last - j) =
      ap (λ l. j ∷ l) (read_window-marks_after last j js c.1) ∙ from_index last j bound in
    elim (Bool-cases (ltb 1 (j - previous))) [
      | inl skips ↦
          let here : j ≡ previous + 1 + (j - (previous + 1)) = omega (arith, c.0) in
          rw skips (
            ap (λ l. range (previous + 1) (j - (previous + 1)) ++ l)
              (rest ∙ range-cong _ _ (suc last - j) (suc last - j) here refl)
            ∙ range-append (previous + 1) (j - (previous + 1)) (suc last - j)
            ∙ ap (range (previous + 1)) (omega (arith, c.0, bound)))
      | inr next ↦
          let here : j ≡ previous + 1 = ground (arith, c.0) in
          rw next (
            rest
            ∙ range-cong j (previous + 1) (suc last - j) (last - previous) here
                (omega (arith, here, bound)))
    ]

read_window-marks :
    (last : ℕ) (js : List ℕ) → Starts last js → read_window 0 (marks js) ≡ range 0 (suc last)
read_window-marks last [] c = absurd (omega (arith, c))
read_window-marks last (j ∷ js) c = rw c.0 (
    ap (λ l. 0 ∷ l)
      (read_window-marks_after last 0 js c.1
        ∙ range-cong (0 + 1) 1 (last - 0) last (omega arith) (omega arith)))

-- The window of a list of pages, with each ellipsis read as the pages up to the index after it, is all
-- the pages once each and in their order, whatever the current page and the spread.
pub page_window-read :
    (page : ℤ) (total_pages spread : ℕ)
    → read_window 0 (page_window page total_pages spread) ≡ range 0 total_pages
unfolding page_window
page_window-read page zero spread = refl
page_window-read page (suc last) spread =
    let low = first_near page spread in
    let here : last ≡ suc last - 1 = omega arith in
    read_window-marks last (indices_of page (suc last) spread) (
      add_indices-Starts last low (end_near page (suc last) spread - low) _ (omega arith)
        (subst (λ n. Starts last (add_index n (0 ∷ []))) here (ends last)))
