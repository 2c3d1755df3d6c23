-- ===== src/Transfers/Moved.antt =====
-- `register_transfer`: what the answer says of the committed tables.
use myorishop.Prelude.{
  Bool, true, false, Option, none, some, List, [], ◌∷◌, ℤ, ℕ, pos, neg, ◌+ℤ◌, ◌≤ℤ◌, ◌≡◌, refl, ◌⊎◌,
  arith, if◌then◌else◌, ◌∙◌, subst, sym, ◌+◌, +ℤ-zero,
}
use myorishop.Text.{Text, text, eq_text, strip, parse_qty}
use myorishop.Models.{Product, Batch, Warehouse}
use myorishop.Db.{Db, active_product, find_batch, find_warehouse}
use myorishop.Session.{
  Env, Session, Result, ok, err, Action, ⊤, commit, pure, recover, resume, ◌>>◌, local_today_iso,
}
use myorishop.Session.Measure.{Moved}
use myorishop.Ledger.{date_or, parse_op_date}
use myorishop.Ledger.Moves.{stock_of}
use myorishop.Ledger.Posts.{held, find_batch-id}
use myorishop.Finance.{date_of}
use myorishop.Batches.{own_batch, is_active_warehouse}
use myorishop.Batches.Add.{own_batch_found}
use myorishop.Transfers.{
  TransferForm, TransferError, TransferResult, same_warehouse, warehouse_error, save_failed, moved,
  oversell, refused_transfer, Amounts, no_amounts, amounts, transfer_errors, transfer_amounts,
  dest_batch, stage_transfer, write_transfer, is_empty_split, transfer_overdraws, transfer_priced,
  transfer_between, transfer_from, transfer_of, transfer_checked, register_transfer,
}
use myorishop.Transfers.Balance.{Shifted, stage_transfer-Shifted, Adds-stage_transfer}

-- The units left the picked batch for a new one of the same product in the named warehouse, the stock
-- of a product is what it was, and the picked batch had the units unless the form was confirmed.
pub record MovedUnits (f : TransferForm) (product : Text) (p : Product) (b dest : Batch) (n : ℕ)
    (before after : Db) : Type 0 where
  pub asked : n ≡ parse_qty f.qty_raw
  pub source : find_batch (strip f.batch_id) before.batches ≡ some b
  pub given : held (strip f.batch_id) after ≡ some (b.quantity +ℤ neg (pos n))
  pub got : held dest.id after ≡ some (pos n)
  pub same_product : (b.product_id ≡ p.id) × (dest.product_id ≡ p.id)
  pub there : dest.warehouse_id ≡ strip f.dest_warehouse_id
  pub stock : stock_of product after ≡ stock_of product before
  pub covered : (eq_text f.confirm (text "1") ≡ true) ⊎ (pos n ≤ℤ b.quantity)

module _ (env : Env) (f : TransferForm) (product : Text) (s : Session) where
  abbrev MovedBy : Result TransferResult × Session → Type 0
  MovedBy (ok (moved p b dest n), s') = MovedUnits f product p b dest n s.staged s'.committed
  MovedBy _ = Unit

  write_transfer-MovedUnits :
      (p : Product) (b : Batch) (price cost : Option ℤ)
      → (find_batch (strip f.batch_id) s.staged.batches ≡ some b) × (b.product_id ≡ p.id)
      → transfer_overdraws f b ≡ false
      → MovedBy (write_transfer env f p b price cost s)
  write_transfer-MovedUnits p b price cost own covered =
      go (m s1).0 (m s1).1
        (subst
          (λ id.
            let r = stage_transfer env p id dest date qty s1 in
            Shifted (strip f.batch_id) b dest qty r.0 r.1)
          (sym_id own.0)
          (stage_transfer-Shifted (strip f.batch_id) b dest qty env p date s1 refl own.0))
        ((Adds-stage_transfer product env p b.id dest date qty).at s1)
    where
      s1 : Session
      s1 = record s { drawn = s.drawn + 1 }

      qty : ℕ
      qty = parse_qty f.qty_raw

      date : Text
      date = date_or (date_of (parse_op_date env f.op_date)) (local_today_iso env)

      dest : Batch
      dest = dest_batch env f p b price cost (env.uuid s.drawn)

      m : Action ⊤
      m = stage_transfer env p b.id dest date qty

      sym_id : find_batch (strip f.batch_id) s.staged.batches ≡ some b → strip f.batch_id ≡ b.id
      sym_id e = sym (find_batch-id (strip f.batch_id) s.staged.batches b e)

      finish : Result ⊤ → Session → Result TransferResult × Session
      finish r s' =
          let (q, t) = resume r (λ _. commit >> pure (moved p b dest qty)) s' in
          recover q (λ _. refused_transfer (save_failed ∷ [])) t

      go :
          (r : Result ⊤) (s' : Session)
          → Shifted (strip f.batch_id) b dest qty r s'
          → Moved (stock_of product) (stock_of product s.staged) (pos 0) r s'
          → MovedBy (finish r s')
      go (ok u) s' shifted stock = record {
        asked = refl;
        source = own.0;
        given = shifted.0;
        got = shifted.1;
        same_product = (own.1, refl);
        there = refl;
        stock = stock ∙ +ℤ-zero (stock_of product s.staged);
        covered = ground arith;
      }
      go (err x) s' shifted stock = tt

  transfer_priced-MovedUnits :
      (p : Product) (b : Batch) (a : Amounts)
      → (find_batch (strip f.batch_id) s.staged.batches ≡ some b) × (b.product_id ≡ p.id)
      → MovedBy (transfer_priced env f p b a s)
  transfer_priced-MovedUnits p b (no_amounts e) own = tt
  transfer_priced-MovedUnits p b (amounts price cost) own =
      go (is_empty_split f b) (transfer_overdraws f b) refl
    where
      go :
          (split over : Bool)
          → transfer_overdraws f b ≡ over
          → MovedBy (
              (if split
                  then pure (refused_transfer (same_warehouse ∷ []))
                  else if over
                  then pure (oversell p b.quantity (parse_qty f.qty_raw))
                  else write_transfer env f p b price cost)
                s)
      go true over e = tt
      go false true e = tt
      go false false e = write_transfer-MovedUnits p b price cost own e

  transfer_between-MovedUnits :
      (p : Product) (b : Batch) (there here : Option Warehouse)
      → (find_batch (strip f.batch_id) s.staged.batches ≡ some b) × (b.product_id ≡ p.id)
      → MovedBy (transfer_between env f p b there here s)
  transfer_between-MovedUnits p b (some there) (some here) own =
      transfer_priced-MovedUnits p b (transfer_amounts f b here there) own
  transfer_between-MovedUnits p b (some there) none own = tt
  transfer_between-MovedUnits p b none here own = tt

  transfer_from-MovedUnits :
      (p : Product) (o : Option Batch)
      → own_batch env s.staged p (strip f.batch_id) ≡ o
      → MovedBy (transfer_from env f s.staged p o s)
  transfer_from-MovedUnits p none own = tt
  transfer_from-MovedUnits p (some b) own =
      go (is_active_warehouse (strip f.dest_warehouse_id) s.staged.warehouses)
    where
      go :
          (active : Bool)
          → MovedBy (
              (if active
                  then transfer_between env f p b
                      (find_warehouse (strip f.dest_warehouse_id) s.staged.warehouses)
                      (find_warehouse b.warehouse_id s.staged.warehouses)
                  else pure (refused_transfer (warehouse_error ∷ [])))
                s)
      go true =
          transfer_between-MovedUnits p b _ _
            (own_batch_found env s.staged p (strip f.batch_id) b own)
      go false = tt

  transfer_checked-MovedUnits :
      (es : List TransferError) → MovedBy (transfer_checked env f s.staged es s)
  transfer_checked-MovedUnits (e ∷ es) = tt
  transfer_checked-MovedUnits [] = go (active_product (strip f.code) s.staged.products)
    where
      go : (o : Option Product) → MovedBy (transfer_of env f s.staged o s)
      go none = tt
      go (some p) = transfer_from-MovedUnits p _ refl

-- A move takes the form's quantity from the picked batch and leaves it in a new batch of the same
-- product in the named warehouse; in the committed tables the ledger's stock of every product is what
-- it was. The picked batch had the quantity unless the form was confirmed.
pub register_transfer-MovedUnits :
    (env : Env) (f : TransferForm) (product : Text) (s : Session) (p : Product) (b dest : Batch)
    (n : ℕ)
    → (register_transfer env f s).0 ≡ ok (moved p b dest n)
    → MovedUnits f product p b dest n s.staged (register_transfer env f s).1.committed
unfolding register_transfer
register_transfer-MovedUnits env f product s p b dest n e =
    subst (λ r. MovedBy env f product s (r, (register_transfer env f s).1)) e
      (transfer_checked-MovedUnits env f product s (transfer_errors env f))
