-- ===== src/Pagination.antt =====
-- app/services/pagination.py: one page of a list, and the row of page numbers under it.
pub mod Pages
pub mod Window
pub mod Shown
use myorishop.Prelude.{
  ℕ, zero, suc, ◌+◌, ◌-◌, ◌*◌, ◌/◌, Bool, List, [], ◌∷◌, take, drop, length, ℤ, pos, negsuc, ◌+ℤ◌,
  ◌-ℤ◌, pos_part, max, min, ltb, ◌==◌, if◌then◌else◌,
}

-- `LIST_PAGE_SIZE`
abbrev pub list_page_size : ℕ
list_page_size = 20

-- `max(1, -(-total // LIST_PAGE_SIZE))`
abbrev pub total_pages_of : ℕ → ℕ
total_pages_of total = max 1 ((total + (list_page_size - 1)) / list_page_size)

-- `max(0, min(page, total_pages - 1))`
abbrev pub clamped : ℤ → ℕ → ℕ
clamped (pos n) total_pages = min n (total_pages - 1)
clamped (negsuc n) total_pages = 0

module _ {A : Type 0} where
  unfoldable pub paginate : List A → ℤ → List A × ℕ × ℕ
  paginate rows page =
      let total = length rows in
      let total_pages = total_pages_of total in
      let start = clamped page total_pages * list_page_size in
      (take list_page_size (drop start rows), total, total_pages)

-- An entry of the window: a page index, or the ellipsis.
pub data Mark : Type 0 where
  index : ℕ → Mark
  ellipsis : Mark

-- `range(a, b)` as its start and its length.
abbrev pub range : ℕ → ℕ → List ℕ
range a zero = []
range a (suc n) = a ∷ range (suc a) n

-- A sorted list without repetitions, for the set and its `sorted`.
abbrev pub add_index : ℕ → List ℕ → List ℕ
add_index i [] = i ∷ []
add_index i (j ∷ js) =
    let rest = add_index i js in if ltb i j then i ∷ j ∷ js else if i == j then j ∷ js else j ∷ rest

abbrev pub add_indices : List ℕ → List ℕ → List ℕ
add_indices [] js = js
add_indices (i ∷ is) js = add_indices is (add_index i js)

-- The loop, after an index.
abbrev pub marks_after : ℕ → List ℕ → List Mark
marks_after previous [] = []
marks_after previous (i ∷ is) =
    let rest = marks_after i is in
    if ltb 1 (i - previous) then ellipsis ∷ index i ∷ rest else index i ∷ rest

-- The loop, with no index before.
abbrev pub marks : List ℕ → List Mark
marks [] = []
marks (i ∷ is) = index i ∷ marks_after i is

-- `max(0, page - spread)` and `min(total_pages, page + spread + 1)`, the second for a range from 0 on.
abbrev pub first_near : ℤ → ℕ → ℕ
first_near page spread = pos_part (page -ℤ pos spread)

abbrev pub end_near : ℤ → ℕ → ℕ → ℕ
end_near page total_pages spread = min total_pages (pos_part (page +ℤ pos (spread + 1)))

abbrev pub indices_of : ℤ → ℕ → ℕ → List ℕ
indices_of page total_pages spread =
    let low = first_near page spread in
    add_indices (range low (end_near page total_pages spread - low))
      (add_index (total_pages - 1) (0 ∷ []))

-- `total_pages` is a count, so that `total_pages <= 0` is 0.
unfoldable pub page_window : ℤ → ℕ → ℕ → List Mark
unfolding ◌+ℤ◌ ◌-ℤ◌
page_window page zero spread = []
page_window page (suc n) spread = marks (indices_of page (suc n) spread)
