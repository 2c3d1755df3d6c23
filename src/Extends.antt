-- ===== src/Extends.antt =====
-- A table, newest row first, to which rows were only added.
use mathlib.Core.List.{append_assoc}
use myorishop.Prelude.{List, [], ◌++◌, ◌≡◌, refl, sym, ap, ◌∙◌}

-- The rows before are the oldest rows after.
abbrev pub Extends : {A : Type 0} → List A → List A → Type 0
Extends {A} xs ys = (zs : List A) × (ys ≡ zs ++ xs)

module _ {A : Type 0} where
  pub Extends-refl : (xs : List A) → Extends xs xs
  Extends-refl xs = ([], refl)

  pub Extends-trans : (xs ys zs : List A) → Extends xs ys → Extends ys zs → Extends xs zs
  Extends-trans xs ys zs h k =
      (k.0 ++ h.0, k.1 ∙ ap (λ l. k.0 ++ l) h.1 ∙ sym (append_assoc k.0 h.0 xs))
