-- ===== src/Ledger/Projection.antt =====
-- The invariant that ties the cached quantities to the ledger.
use myorishop.Prelude.{
  Bool, true, false, Option, none, some, List, [], ◌∷◌, ℤ, ◌≡◌, refl, All, first, map, arith,
}
use myorishop.Text.{Text, eq_text}
use myorishop.Models.{Product, Batch, Operation}
use myorishop.Db.{Db, bump_batch}
use myorishop.Ledger.{compute_stock, compute_batch_stock, is_legacy}

-- What never changes of a batch, once it is created.
pub record Lot : Type 0 where
  pub id : Text
  pub product_id : Text
  pub legacy : Bool

abbrev pub lot : Batch → Lot
lot b = record { id = b.id; product_id = b.product_id; legacy = is_legacy b }

abbrev pub lots : List Batch → List Lot
lots = map lot

abbrev pub find_lot : Text → List Lot → Option Lot
find_lot id = first (λ l. eq_text l.id id)

-- No row, or a row of a batch of the same product.
abbrev pub IsOwned : List Lot → Text → Option Text → Type 0
IsOwned ls product none = Unit
IsOwned ls product (some id) = (l : Lot) × (find_lot id ls ≡ some l) × (l.product_id ≡ product)

abbrev pub is_legacy_of : Text → Lot → Bool
is_legacy_of product l = elim l.legacy [ true ↦ eq_text l.product_id product | false ↦ false ]

abbrev pub NoSecond : Bool → Lot → List Lot → Type 0
NoSecond true l ls = first (is_legacy_of l.product_id) ls ≡ none
NoSecond false l ls = Unit

-- Batch ids are distinct, and a product has at most one legacy batch.
abbrev pub AreDistinct : List Lot → Type 0
AreDistinct [] = Unit
AreDistinct (l ∷ ls) = (find_lot l.id ls ≡ none) × NoSecond l.legacy l ls × AreDistinct ls

abbrev pub HasStock : List Operation → Product → Type 0
HasStock ops p = p.quantity ≡ compute_stock ops p.id

abbrev pub HasBatchStock : List Operation → Batch → Type 0
HasBatchStock ops b = b.quantity ≡ compute_batch_stock ops b

abbrev pub OwnedBy : List Batch → Operation → Type 0
OwnedBy bs o = IsOwned (lots bs) o.product_id o.batch_id

-- Every cached quantity is the sum that the ledger gives, and every row is of a batch of its own
-- product.
pub record IsConsistent (db : Db) : Type 0 where
  pub stock : All (HasStock db.operations) db.products
  pub batch_stock : All (HasBatchStock db.operations) db.batches
  pub owned : All (OwnedBy db.batches) db.operations
  pub distinct : AreDistinct (lots db.batches)

pub lots-map-bump_batch :
    (now : Text) (id : Option Text) (d : ℤ) (bs : List Batch)
    → lots (map (bump_batch now id d) bs) ≡ lots bs
lots-map-bump_batch now id d [] = refl
lots-map-bump_batch now id d (b ∷ bs) = ground (arith, lots-map-bump_batch now id d bs)
