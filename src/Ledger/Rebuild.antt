-- ===== src/Ledger/Rebuild.antt =====
-- `recompute_derived` and `rebuild_stock`: on a consistent database the assertion holds and nothing
-- is repaired.
use myorishop.Prelude.{true, List, [], ◌∷◌, ℤ, ◌+ℤ◌, ◌==ℤ◌, ◌≡◌, refl, ap, All, map, arith, ◌∙◌}
use myorishop.Text.{Text}
use myorishop.Models.{Product, Batch, Operation}
use myorishop.Db.{Db}
use myorishop.Session.{Env, Session, Result, ⊤, ok}
use myorishop.Ledger.{
  compute_stock, compute_batch_stock, batch_rows, null_bucket, repair_product, repair_batch,
  check_stock_invariant, repair, recompute_derived,
}
use myorishop.Ledger.Lots.{expected_stock-eq}
use myorishop.Ledger.Projection.{HasStock, HasBatchStock, IsConsistent}

==ℤ_refl : (a : ℤ) → (a ==ℤ a) ≡ true
==ℤ_refl a = ground arith

check_stock_invariant-holds :
    (db : Db) (ps : List Product)
    → IsConsistent db
    → All (HasStock db.operations) ps
    → check_stock_invariant db.batches db.operations ps ≡ ok tt
unfolding check_stock_invariant
check_stock_invariant-holds db [] h a = refl
check_stock_invariant-holds db (p ∷ ps) h a =
    rw (a.0, expected_stock-eq db p.id h, ==ℤ_refl (compute_stock db.operations p.id))
      (check_stock_invariant-holds db ps h a.1)

pub repair_products :
    (now : Text) (ops : List Operation) (ps : List Product)
    → All (HasStock ops) ps
    → map (repair_product now ops) ps ≡ ps
repair_products now ops [] h = refl
repair_products now ops (p ∷ ps) h =
    ground (arith, repair_products now ops ps h.1, h.0, ==ℤ_refl p.quantity)

pub repair_batches :
    (now : Text) (ops : List Operation) (bs : List Batch)
    → All (HasBatchStock ops) bs
    → map (repair_batch now ops) bs ≡ bs
repair_batches now ops [] h = refl
repair_batches now ops (b ∷ bs) h =
    ground (arith, repair_batches now ops bs h.1, h.0, ==ℤ_refl b.quantity)

repair-eq : (now : Text) (db : Db) → IsConsistent db → repair now db ≡ db
repair-eq now db h = ground (
  arith,
  repair_products now db.operations db.products h.stock,
  repair_batches now db.operations db.batches h.batch_stock,
)

-- On a consistent database the recompute raises nothing and repairs nothing: the cached quantities,
-- of the products and of the batches, are the ledger's, and the stock invariant holds.
pub recompute_derived-IsConsistent :
    (env : Env) (s : Session) → IsConsistent s.staged → recompute_derived env s ≡ (ok tt, s)
unfolding recompute_derived
recompute_derived-IsConsistent env s h =
    ap {B = Result ⊤ × Session}
      (λ (db : Db).
        (check_stock_invariant db.batches db.operations db.products, record s { staged = db }))
      (repair-eq env.now s.staged h)
    ∙ ap (λ r. (r, s)) (check_stock_invariant-holds s.staged s.staged.products h h.stock)

==ℤ_sound : (a b : ℤ) → (a ==ℤ b) ≡ true → a ≡ b
==ℤ_sound a b h = ground arith

repair_product-HasStock :
    (now : Text) (ops : List Operation) (p : Product) → HasStock ops (repair_product now ops p)
repair_product-HasStock now ops p = ground (arith, ==ℤ_sound (compute_stock ops p.id) p.quantity)

pub repaired_products :
    (now : Text) (ops : List Operation) (ps : List Product)
    → All (HasStock ops) (map (repair_product now ops) ps)
repaired_products now ops [] = tt
repaired_products now ops (p ∷ ps) =
    (repair_product-HasStock now ops p, repaired_products now ops ps)

repair_batch-HasBatchStock :
    (now : Text) (ops : List Operation) (b : Batch) → HasBatchStock ops (repair_batch now ops b)
unfolding compute_batch_stock
repair_batch-HasBatchStock now ops b = ground (
  arith,
  ==ℤ_sound (batch_rows ops b.id +ℤ null_bucket ops b.product_id) b.quantity,
  ==ℤ_sound (batch_rows ops b.id) b.quantity,
)

pub repaired_batches :
    (now : Text) (ops : List Operation) (bs : List Batch)
    → All (HasBatchStock ops) (map (repair_batch now ops) bs)
repaired_batches now ops [] = tt
repaired_batches now ops (b ∷ bs) =
    (repair_batch-HasBatchStock now ops b, repaired_batches now ops bs)

-- Whatever the cached quantities were, after the recompute each of them is the ledger's sum, and the
-- ledger itself is untouched.
pub recompute_derived-repairs :
    (env : Env) (s : Session)
    → let db = (recompute_derived env s).1.staged in
      All (HasStock s.staged.operations) db.products
      × All (HasBatchStock s.staged.operations) db.batches
      × (db.operations ≡ s.staged.operations)
unfolding recompute_derived
recompute_derived-repairs env s = (
  repaired_products env.now s.staged.operations s.staged.products,
  repaired_batches env.now s.staged.operations s.staged.batches,
  refl,
)
