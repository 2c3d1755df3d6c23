-- ===== src/Sort.antt =====
-- Python's stable sort by a text key.
use myorishop.Prelude.{List, [], ◌∷◌, if◌then◌else◌}
use myorishop.Text.{Text, lt_text}

-- `list.sort(key=name)`, `sorted(rows, key=name)`: a stable insertion.
module _ {A : Type 0} (name : A → Text) where
  abbrev insert_by : A → List A → List A
  insert_by a [] = a ∷ []
  insert_by a (b ∷ bs) =
      let rest = insert_by a bs in if lt_text (name b) (name a) then b ∷ rest else a ∷ b ∷ bs

  unfoldable pub sort_by : List A → List A
  unfolding lt_text
  sort_by [] = []
  sort_by (a ∷ as') = insert_by a (sort_by as')
