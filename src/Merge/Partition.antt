-- ===== src/Merge/Partition.antt =====
-- `_partition_new`: the chunks do not matter.
use myorishop.Prelude.{
  ℕ, zero, suc, ◌-◌, ◌≤◌, Bool, true, false, not, ◌&&◌, ◌||◌, List, [], ◌∷◌, ◌++◌, map, select,
  take, drop, length, All, ◌≡◌, refl, ap, ◌∙◌, arith, Bool-cases, inl, inr,
}
use myorishop.Text.{Text, eq_text, eq_text_sound, eq_text_refl, contains}
use myorishop.Db.{Db}
use myorishop.Merge.Tables.{Table, existing_ids, ids_of, partition_new}

pub contains-append :
    (xs ys : List Text) (x : Text) → contains (xs ++ ys) x ≡ (contains xs x || contains ys x)
unfolding contains
contains-append [] ys x = refl
contains-append (a ∷ xs) ys x = ground (arith, contains-append xs ys x)

contains-select :
    (c ids : List Text) (x : Text)
    → contains (select (contains c) ids) x ≡ (contains ids x && contains c x)
unfolding contains
contains-select c [] x = refl
contains-select c (i ∷ ids) x = elim (Bool-cases (eq_text i x)) [
  | inl same ↦
      let e = ap (contains c) (eq_text_sound i x same) in ground (arith, e, contains-select c ids x)
  | inr other ↦ ground (arith, contains-select c ids x)
]

contains-take-drop :
    (n : ℕ) (xs : List Text) (x : Text)
    → (contains (take n xs) x || contains (drop n xs) x) ≡ contains xs x
unfolding contains
contains-take-drop zero xs x = refl
contains-take-drop (suc n) [] x = refl
contains-take-drop (suc n) (a ∷ xs) x = ground (arith, contains-take-drop n xs x)

length-drop : (n : ℕ) (xs : List Text) → length (drop n xs) ≤ length xs
length-drop zero xs = omega arith
length-drop (suc n) [] = omega arith
length-drop (suc n) (a ∷ xs) = omega (arith, length-drop n xs)

both_and : (a b c : Bool) → ((a && b) || (a && c)) ≡ (a && (b || c))
both_and true b c = refl
both_and false b c = refl

chunk :
    (n : ℕ) (ids incoming rest : List Text) (x : Text)
    → contains rest x ≡ (contains ids x && contains (drop n incoming) x)
    → contains (select (contains (take n incoming)) ids ++ rest) x
      ≡ (contains ids x && contains incoming x)
chunk n ids incoming rest x h =
    contains-append (select (contains (take n incoming)) ids) rest x
    ∙ rw (contains-select (take n incoming) ids x, h, ← contains-take-drop n incoming x)
        (both_and (contains ids x) (contains (take n incoming) x) (contains (drop n incoming) x))

-- The probes find the ids that are in the table and among the incoming ones.
contains-existing_ids :
    (fuel : ℕ) (ids incoming : List Text) (x : Text)
    → length incoming ≤ fuel
    → contains (existing_ids fuel ids incoming) x ≡ (contains ids x && contains incoming x)
unfolding existing_ids contains
contains-existing_ids zero ids [] x h = ground arith
contains-existing_ids zero ids (i ∷ is) x h = absurd (omega arith)
contains-existing_ids (suc fuel) ids [] x h = ground arith
contains-existing_ids (suc fuel) ids (i ∷ is) x h =
    let less : length (drop 500 (i ∷ is)) ≤ fuel = omega (arith, length-drop 499 is) in
    chunk 500 ids (i ∷ is) (existing_ids fuel ids (drop 500 (i ∷ is))) x
      (contains-existing_ids fuel ids (drop 500 (i ∷ is)) x less)

module _ {R : Type 0} where
  select-cong : (p q : R → Bool) (rs : List R) → All (λ r. p r ≡ q r) rs → select p rs ≡ select q rs
  select-cong p q [] h = refl
  select-cong p q (r ∷ rs) h = rw (h.0, select-cong p q rs h.1) refl

module _ {R : Type 0} (T : Table R) where
  -- The rows of an empty table's point of view: those whose id the table does not hold.
  abbrev pub new_rows_of : List R → Db → List R
  new_rows_of rows db = select (λ r. not (contains (ids_of T db) (T.key r))) rows

  same_test :
      (rows rs : List R) (db : Db)
      → All (λ r. contains (map T.key rows) (T.key r) ≡ true) rs
      → All
          (λ r.
            not (
              contains
                (existing_ids (length (map T.key rows)) (ids_of T db) (map T.key rows))
                (T.key r))
            ≡ not (contains (ids_of T db) (T.key r)))
          rs
  same_test rows [] db h = tt
  same_test rows (r ∷ rs) db h =
      let ids = map T.key rows in
      (
        ground (arith, contains-existing_ids (length ids) (ids_of T db) ids (T.key r), h.0),
        same_test rows rs db h.1,
      )

module _ {R : Type 0} (T : Table R) where
  one_more :
      (k : Text) (ks : List Text) (rs : List R)
      → All (λ r. contains ks (T.key r) ≡ true) rs
      → All (λ r. contains (k ∷ ks) (T.key r) ≡ true) rs
  unfolding contains
  one_more k ks [] h = tt
  one_more k ks (r ∷ rs) h = (ground (arith, h.0), one_more k ks rs h.1)

  own_keys : (rs : List R) → All (λ r. contains (map T.key rs) (T.key r) ≡ true) rs
  unfolding contains
  own_keys [] = tt
  own_keys (r ∷ rs) =
      (rw (eq_text_refl (T.key r)) refl, one_more (T.key r) (map T.key rs) rs (own_keys rs))

  -- Probing the ids 500 at a time gives the rows whose id the table does not hold, in their order, and
  -- the number of the others.
  pub partition_new-eq :
      (rows : List R) (db : Db)
      → partition_new T rows db
        ≡ (new_rows_of T rows db, length rows - length (new_rows_of T rows db))
  unfolding partition_new
  partition_new-eq rows db =
      ap (λ (new_rows : List R). (new_rows, length rows - length new_rows))
        (select-cong _ _ rows (same_test T rows rows db (own_keys rows)))
