-- ===== src/Ledger/Lots.antt =====
-- The stock of a product as the sum over its batches: each row of a batch counts once.
use myorishop.Prelude.{
  Bool, true, false, Option, none, some, List, [], ◌∷◌, ℤ, pos, ◌+ℤ◌, ◌≡◌, refl, sym, ap, subst,
  All, arith, int_laws, zero-+ℤ, +ℤ-zero, +ℤ_assoc, +ℤ_left_comm, if◌then◌else◌, first, Bool-cases,
  inl, inr, ◌&&◌, is_some, not,
}
use myorishop.Text.{Text, eq_text, eq_text_sound, eq_text_sym, is_text}
use myorishop.Models.{Batch, Operation}
use myorishop.Db.{Db}
use myorishop.Ledger.{
  compute_stock, compute_batch_stock, batch_rows, null_bucket, is_legacy, batch_total, has_legacy,
  expected_stock,
}
use myorishop.Ledger.Projection.{
  Lot, lots, lot, find_lot, IsOwned, is_legacy_of, NoSecond, AreDistinct, HasBatchStock,
  IsConsistent,
}

-- The rows of the batches of one product.
abbrev lot_rows : List Operation → Text → List Lot → ℤ
lot_rows ops id [] = pos 0
lot_rows ops id (l ∷ ls) =
    let rest = lot_rows ops id ls in
    if eq_text l.product_id id then batch_rows ops l.id +ℤ rest else rest

batch_rows-cons :
    (o : Operation) (ops : List Operation) (id : Text)
    → batch_rows (o ∷ ops) id
      ≡ (if is_text id o.batch_id then o.qty_delta +ℤ batch_rows ops id else batch_rows ops id)
unfolding batch_rows
batch_rows-cons o ops id = refl

lot_rows-cons_none :
    (o : Operation) (ops : List Operation) (id : Text) (ls : List Lot)
    → o.batch_id ≡ none
    → lot_rows (o ∷ ops) id ls ≡ lot_rows ops id ls
lot_rows-cons_none o ops id [] e = refl
lot_rows-cons_none o ops id (l ∷ ls) e =
    ground (arith, batch_rows-cons o ops l.id, lot_rows-cons_none o ops id ls e)

lot_rows-cons_missing :
    (o : Operation) (ops : List Operation) (id key : Text) (ls : List Lot)
    → o.batch_id ≡ some key
    → find_lot key ls ≡ none
    → lot_rows (o ∷ ops) id ls ≡ lot_rows ops id ls
lot_rows-cons_missing o ops id key [] e h = refl
lot_rows-cons_missing o ops id key (l ∷ ls) e h = ground (
  arith,
  batch_rows-cons o ops l.id,
  lot_rows-cons_missing o ops id key ls e,
  eq_text_sym l.id key,
)

-- A row of a batch counts once, for the product of its batch.
lot_rows-cons_found :
    (o : Operation) (ops : List Operation) (id key : Text) (ls : List Lot) (l : Lot)
    → AreDistinct ls
    → o.batch_id ≡ some key
    → find_lot key ls ≡ some l
    → lot_rows (o ∷ ops) id ls
      ≡ (if eq_text l.product_id id then o.qty_delta +ℤ lot_rows ops id ls else lot_rows ops id ls)
lot_rows-cons_found o ops id key [] l d e h = cc
lot_rows-cons_found o ops id key (m ∷ ls) l d e h = elim (Bool-cases (eq_text m.id key)) [
  | inl hit ↦ ground (
    arith,
    batch_rows-cons o ops m.id,
    eq_text_sym m.id key,
    lot_rows-cons_missing o ops id key ls e
        (subst (λ k. find_lot k ls ≡ none) (eq_text_sound m.id key hit) d.0),
    +ℤ_assoc o.qty_delta (batch_rows ops m.id) (lot_rows ops id ls),
  )
  | inr miss ↦ ground (
    arith,
    batch_rows-cons o ops m.id,
    eq_text_sym m.id key,
    lot_rows-cons_found o ops id key ls l d.2 e,
    +ℤ_left_comm (batch_rows ops m.id) o.qty_delta (lot_rows ops id ls),
  )
]

compute_stock-cons :
    (o : Operation) (ops : List Operation) (id : Text)
    → compute_stock (o ∷ ops) id ≡ (
        if eq_text id o.product_id
        then o.qty_delta +ℤ compute_stock ops id
        else compute_stock ops id)
unfolding compute_stock
compute_stock-cons o ops id = refl

null_bucket-cons :
    (o : Operation) (ops : List Operation) (id : Text)
    → null_bucket (o ∷ ops) id ≡ (
        if eq_text id o.product_id && not (is_some o.batch_id)
        then o.qty_delta +ℤ null_bucket ops id
        else null_bucket ops id)
unfolding null_bucket
null_bucket-cons o ops id = refl

lot_rows-nil : (ls : List Lot) (id : Text) → lot_rows [] id ls ≡ pos 0
unfolding batch_rows ◌+ℤ◌
lot_rows-nil [] id = refl
lot_rows-nil (l ∷ ls) id = ground (arith, lot_rows-nil ls id)

-- The stock of a product is what its batches and its NULL bucket hold.
stock-eq-lots :
    (ls : List Lot) (ops : List Operation) (id : Text)
    → AreDistinct ls
    → All (λ o. IsOwned ls o.product_id o.batch_id) ops
    → compute_stock ops id ≡ lot_rows ops id ls +ℤ null_bucket ops id
unfolding compute_stock null_bucket ◌+ℤ◌
stock-eq-lots ls [] id d h = rw (lot_rows-nil ls id)
stock-eq-lots ls (o ∷ ops) id d h = go o.batch_id refl h.0 (stock-eq-lots ls ops id d h.1)
  where
    go :
        (batch : Option Text)
        → o.batch_id ≡ batch
        → IsOwned ls o.product_id batch
        → compute_stock ops id ≡ lot_rows ops id ls +ℤ null_bucket ops id
        → compute_stock (o ∷ ops) id ≡ lot_rows (o ∷ ops) id ls +ℤ null_bucket (o ∷ ops) id
    go none e owned ih = ground (
      arith,
      compute_stock-cons o ops id,
      null_bucket-cons o ops id,
      lot_rows-cons_none o ops id ls e,
      +ℤ_left_comm (lot_rows ops id ls) o.qty_delta (null_bucket ops id),
    )
    go (some key) e (l, found, same) ih = ground (
      arith,
      compute_stock-cons o ops id,
      null_bucket-cons o ops id,
      lot_rows-cons_found o ops id key ls l d e found,
      eq_text_sym l.product_id id,
      +ℤ_assoc o.qty_delta (lot_rows ops id ls) (null_bucket ops id),
    )

has_legacy-none :
    (bs : List Batch) (id : Text)
    → first (is_legacy_of id) (lots bs) ≡ none
    → has_legacy bs id ≡ false
unfolding has_legacy
has_legacy-none [] id h = refl
has_legacy-none (b ∷ bs) id h = ground (arith, has_legacy-none bs id)

abbrev bucket_of : Bool → ℤ → ℤ
bucket_of true n = n
bucket_of false n = pos 0

regroup : (a n r : ℤ) → a +ℤ n +ℤ (r +ℤ pos 0) ≡ a +ℤ r +ℤ n
regroup a n r = omega int_laws

-- What the batches of a product hold: their own rows, and once the NULL bucket if one is legacy.
batch_total-eq :
    (bs : List Batch) (ops : List Operation) (id : Text)
    → AreDistinct (lots bs)
    → All (HasBatchStock ops) bs
    → batch_total bs id
      ≡ lot_rows ops id (lots bs) +ℤ bucket_of (has_legacy bs id) (null_bucket ops id)
unfolding batch_total has_legacy compute_batch_stock
batch_total-eq [] ops id d h = sym (zero-+ℤ (pos 0))
batch_total-eq (b ∷ bs) ops id d h = go (is_legacy b) refl d.1 (batch_total-eq bs ops id d.2 h.1)
  where
    nb : ℤ
    nb = null_bucket ops id

    rows : ℤ
    rows = lot_rows ops id (lots bs)

    go :
        (legacy : Bool)
        → is_legacy b ≡ legacy
        → NoSecond legacy (lot b) (lots bs)
        → batch_total bs id ≡ rows +ℤ bucket_of (has_legacy bs id) nb
        → batch_total (b ∷ bs) id
          ≡ lot_rows ops id (lots (b ∷ bs)) +ℤ bucket_of (has_legacy (b ∷ bs) id) nb
    go false e second ih =
        ground (arith, h.0, +ℤ_assoc (batch_rows ops b.id) rows (bucket_of (has_legacy bs id) nb))
    go true e second ih = elim (Bool-cases (eq_text b.product_id id)) [
      | inl mine ↦
          let same = eq_text_sound b.product_id id mine in
          ground (
            arith,
            h.0,
            ap (null_bucket ops) same,
            has_legacy-none bs id
                (subst (λ k. first (is_legacy_of k) (lots bs) ≡ none) same second),
            regroup (batch_rows ops b.id) nb rows,
          )
      | inr other ↦ ground arith
    ]

-- Recomputing a consistent product's stock finds what the batches and the NULL bucket add up to.
pub expected_stock-eq :
    (db : Db) (id : Text)
    → IsConsistent db
    → expected_stock db.batches db.operations id ≡ compute_stock db.operations id
expected_stock-eq db id h = ground (
  arith,
  batch_total-eq db.batches db.operations id h.distinct h.batch_stock,
  stock-eq-lots (lots db.batches) db.operations id h.distinct h.owned,
  +ℤ-zero (lot_rows db.operations id (lots db.batches)),
)
