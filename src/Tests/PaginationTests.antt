-- ===== src/Tests/PaginationTests.antt =====
-- The theorems on pages at 45 rows.
use myorishop.Prelude.{ℕ, ◌≡◌, refl, List, [], ◌∷◌, pos, ◌+ℤ◌, ◌-ℤ◌, arith, inr, true}
use myorishop.Pagination.{paginate, page_window, range, index, ellipsis}
use myorishop.Pagination.Pages.{pages_from, paginate-all}
use myorishop.Pagination.Window.{read_window, page_window-read}
use myorishop.Pagination.Shown.{shows, page_window-shows}

abbrev rows : List ℕ
rows = range 1 45

last_page : paginate rows (pos 9) ≡ (range 41 5, 45, 3)
unfolding paginate
last_page = refl

gaps :
    page_window (pos 5) 12 2
    ≡ index 0
      ∷ ellipsis
      ∷ index 3
      ∷ index 4
      ∷ index 5
      ∷ index 6
      ∷ index 7
      ∷ ellipsis
      ∷ index 11
      ∷ []
unfolding page_window
gaps = refl

paginate-all_example : pages_from rows 0 (paginate rows (pos 9)).2 ≡ rows
paginate-all_example = paginate-all rows (pos 9)

page_window-read_example : read_window 0 (page_window (pos 5) 12 2) ≡ range 0 12
page_window-read_example = page_window-read (pos 5) 12 2

page_window-shows_example : shows 7 (page_window (pos 5) 12 2) ≡ true
unfolding ◌+ℤ◌ ◌-ℤ◌
page_window-shows_example =
    page_window-shows (pos 5) 12 2 7 (omega arith) (inr (omega arith, omega arith))
