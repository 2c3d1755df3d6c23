-- ===== src/Writeoffs/Taken.antt =====
-- `register_writeoff`: what a written write-off has done to its batch and to the ledger.
use myorishop.Prelude.{
  Bool, true, false, Option, none, some, List, [], ◌∷◌, ℤ, pos, neg, ◌≤ℤ◌, ◌≡◌, refl, ◌⊎◌, arith,
  if◌then◌else◌, subst,
}
use myorishop.Text.{text, eq_text, strip, parse_qty}
use myorishop.Models.{Product, Batch, Operation}
use myorishop.Db.{Db, active_product, find_batch}
use myorishop.Session.{Env, Session, Result, ok, err, pure, recover, resume}
use myorishop.Session.Atomic.{Ends}
use myorishop.Ledger.{Draft, record_operation}
use myorishop.Ledger.Posts.{Posts, record_operation-Posts, TookRow, TookRow-record_operation}
use myorishop.Ledger.Staging.{Commits-record_operation}
use myorishop.Batches.{own_batch}
use myorishop.Batches.Add.{own_batch_found}
use myorishop.Writeoffs.{
  WriteoffForm, WriteoffError, WriteoffResult, save_failed, written_off, oversell, refused_writeoff,
  writeoff_errors, writeoff_draft, write_off, writeoff_overdraws, writeoff_from, writeoff_of,
  writeoff_checked, register_writeoff,
}

-- The picked batch held `held`, it gave the quantity of the form by one new row, and it had that much
-- unless the form was confirmed.
pub record Taken (f : WriteoffForm) (p : Product) (op : Operation) (before after : Db)
    : Type 0 where
  pub had : ℤ
  pub product : active_product (strip f.code) before.products ≡ some p
  pub row : TookRow (strip f.batch_id) had (neg (pos (parse_qty f.qty_raw))) op before after
  pub covered : (eq_text f.confirm (text "1") ≡ true) ⊎ (pos (parse_qty f.qty_raw) ≤ℤ had)

module _ (env : Env) (f : WriteoffForm) (s : Session) where
  abbrev TakenBy : Result WriteoffResult × Session → Type 0
  TakenBy (ok (written_off p op), s') = Taken f p op s.staged s'.committed
  TakenBy _ = Unit

  write_off-Taken :
      (p : Product) (b : Batch)
      → active_product (strip f.code) s.staged.products ≡ some p
      → find_batch (strip f.batch_id) s.staged.batches ≡ some b
      → writeoff_overdraws f b ≡ false
      → TakenBy (write_off env f p b s)
  write_off-Taken p b product found covered =
      go (record_operation env d s).0 (record_operation env d s).1 (record_operation-Posts env d s)
        ((Commits-record_operation env d refl).at s)
    where
      d : Draft
      d = writeoff_draft env f p b

      finish : Result Operation → Session → Result WriteoffResult × Session
      finish r s' =
          let (q, t) = resume r (λ op. pure (written_off p op)) s' in
          recover q (λ _. refused_writeoff (save_failed ∷ [])) t

      go :
          (r : Result Operation) (s' : Session)
          → Posts env d s r s'
          → Ends (λ _. true) s r s'
          → TakenBy (finish r s')
      go (ok op) s' posts ends = record {
        had = b.quantity;
        product = product;
        row = TookRow-record_operation env d s op s' (strip f.batch_id) b found refl posts ends.1;
        covered = ground arith;
      }
      go (err x) s' posts ends = tt

  writeoff_from-Taken :
      (p : Product) (o : Option Batch)
      → active_product (strip f.code) s.staged.products ≡ some p
      → own_batch env s.staged p (strip f.batch_id) ≡ o
      → TakenBy (writeoff_from env f p o s)
  writeoff_from-Taken p none product own = tt
  writeoff_from-Taken p (some b) product own = go (writeoff_overdraws f b) refl
    where
      go :
          (t : Bool)
          → writeoff_overdraws f b ≡ t
          → TakenBy (
              (if t
                  then pure (oversell p b.quantity (parse_qty f.qty_raw))
                  else write_off env f p b)
                s)
      go true e = tt
      go false e =
          write_off-Taken p b product (own_batch_found env s.staged p (strip f.batch_id) b own).0 e

  writeoff_of-Taken :
      (o : Option Product)
      → active_product (strip f.code) s.staged.products ≡ o
      → TakenBy (writeoff_of env f s.staged o s)
  writeoff_of-Taken none product = tt
  writeoff_of-Taken (some p) product = writeoff_from-Taken p _ product refl

  writeoff_checked-Taken :
      (es : List WriteoffError) → TakenBy (writeoff_checked env f s.staged es s)
  writeoff_checked-Taken (e ∷ es) = tt
  writeoff_checked-Taken [] = writeoff_of-Taken _ refl

-- A written write-off has taken exactly the form's quantity from the picked batch, by one new row on
-- top of the committed ledger, and the batch had that much unless the form was confirmed; the product
-- of the answer is the active one of the code.
pub register_writeoff-Taken :
    (env : Env) (f : WriteoffForm) (s : Session) (p : Product) (op : Operation)
    → (register_writeoff env f s).0 ≡ ok (written_off p op)
    → Taken f p op s.staged (register_writeoff env f s).1.committed
unfolding register_writeoff
register_writeoff-Taken env f s p op e =
    subst (λ r. TakenBy env f s (r, (register_writeoff env f s).1)) e
      (writeoff_checked-Taken env f s (writeoff_errors env f))
