-- ===== src/Transfers/Register.antt =====
-- `register_transfer`: all or nothing, and the invariant of the stock.
use myorishop.Prelude.{Option, none, some, List, [], ◌∷◌, ℤ, pos, neg, ℕ, ◌≡◌, refl, if-both}
use myorishop.Text.{Text, strip, parse_qty}
use myorishop.Models.{Product, Batch, Warehouse}
use myorishop.Db.{Db, active_product, find_warehouse, batch_conflict}
use myorishop.Session.{
  Env, Session, Action, gets, insert, commit, pure, new_id, ◌>>◌, local_today_iso,
}
use myorishop.Session.Keeps.{
  Keeps, Both, Keeps-bind, Keeps-pure, Keeps-insert, Keeps-commit, Keeps-new_id, Keeps-gets,
  Keeps-attempt,
}
use myorishop.Session.Atomic.{
  Stages, Stages-bind, Stages-pure, Stages-insert, Commits-bind, Commits-commit, IsAtomic,
  AllOrNothing, IsAtomic-pure, IsAtomic-gets, IsAtomic-new_id, IsAtomic-attempt,
}
use myorishop.Ledger.{record_operation, date_or, parse_op_date}
use myorishop.Ledger.Projection.{IsConsistent}
use myorishop.Ledger.Record.{Keeps-record_operation}
use myorishop.Ledger.Staging.{Stages-record_operation}
use myorishop.Finance.{date_of}
use myorishop.Batches.{own_batch, is_active_warehouse, add_batch}
use myorishop.Batches.Add.{add_batch-IsConsistent}
use myorishop.Transfers.{
  TransferForm, TransferError, TransferResult, save_failed, moved, refused_transfer, is_moved,
  Amounts, no_amounts, amounts, transfer_errors, transfer_amounts, dest_batch, leg, stage_transfer,
  write_transfer, is_empty_split, transfer_overdraws, transfer_priced, transfer_between,
  transfer_from, transfer_of, transfer_checked, register_transfer,
}

Stages-stage_transfer :
    (env : Env) (p : Product) (source : Text) (dest : Batch) (date : Text) (qty : ℕ)
    → Stages (stage_transfer env p source dest date qty)
Stages-stage_transfer env p source dest date qty =
    let out = leg p source date (neg (pos qty)) in
    let into = leg p dest.id date (pos qty) in
    Stages-bind (insert (batch_conflict dest) (add_batch dest)) _
      (Stages-insert (batch_conflict dest) (add_batch dest))
      λ _. Stages-bind (record_operation env out) _ (Stages-record_operation env out refl) λ _.
        Stages-bind (record_operation env into) (λ _. pure tt)
          (Stages-record_operation env into refl) (λ _. Stages-pure tt)

write_transfer-IsAtomic :
    (env : Env) (f : TransferForm) (p : Product) (b : Batch) (price cost : Option ℤ)
    → IsAtomic is_moved (write_transfer env f p b price cost)
write_transfer-IsAtomic env f p b price cost = IsAtomic-new_id env _ λ id.
    let date = date_or (date_of (parse_op_date env f.op_date)) (local_today_iso env) in
    let dest = dest_batch env f p b price cost id in
    let done = moved p b dest (parse_qty f.qty_raw) in
    let staged = stage_transfer env p b.id dest date (parse_qty f.qty_raw) in
    IsAtomic-attempt (do staged; commit; pure done) (λ _. refused_transfer (save_failed ∷ []))
      (Commits-bind staged (λ _. commit >> pure done)
        (Stages-stage_transfer env p b.id dest date (parse_qty f.qty_raw))
        (λ _. Commits-commit done refl))

Keeps-stage_transfer :
    (env : Env) (p : Product) (source : Text) (dest : Batch) (date : Text) (qty : ℕ)
    → dest.quantity ≡ pos 0
    → dest.is_legacy ≡ 0
    → Keeps (Both IsConsistent) (stage_transfer env p source dest date qty)
Keeps-stage_transfer env p source dest date qty empty new =
    let out = leg p source date (neg (pos qty)) in
    let into = leg p dest.id date (pos qty) in
    Keeps-bind (insert (batch_conflict dest) (add_batch dest)) _
      (Keeps-insert (batch_conflict dest) (add_batch dest)
        (λ db h free. add_batch-IsConsistent dest db empty (rw new refl) h free))
      λ _.
        Keeps-bind (record_operation env out) _ (Keeps-record_operation env out (λ audit. cc)) λ _.
          Keeps-bind (record_operation env into) (λ _. pure tt)
            (Keeps-record_operation env into (λ audit. cc)) (λ _. Keeps-pure tt)

Keeps-write_transfer :
    (env : Env) (f : TransferForm) (p : Product) (b : Batch) (price cost : Option ℤ)
    → Keeps (Both IsConsistent) (write_transfer env f p b price cost)
Keeps-write_transfer env f p b price cost = Keeps-bind (new_id env) _ (Keeps-new_id env) λ id.
    let date = date_or (date_of (parse_op_date env f.op_date)) (local_today_iso env) in
    let dest = dest_batch env f p b price cost id in
    let done = moved p b dest (parse_qty f.qty_raw) in
    let staged = stage_transfer env p b.id dest date (parse_qty f.qty_raw) in
    Keeps-attempt (do staged; commit; pure done) (λ _. refused_transfer (save_failed ∷ []))
      (Keeps-bind staged (λ _. commit >> pure done)
        (Keeps-stage_transfer env p b.id dest date (parse_qty f.qty_raw) refl refl)
        (λ _. Keeps-bind commit (λ _. pure done) Keeps-commit (λ _. Keeps-pure done)))

-- What holds of a refusal, a warning and the write holds of the whole request.
module _ (Q : Action TransferResult → Type 0) (Q-pure : (r : TransferResult) → Q (pure r))
    (Q-write : (env : Env) (f : TransferForm) (p : Product) (b : Batch) (price cost : Option ℤ)
      → Q (write_transfer env f p b price cost)) where
  each_transfer_priced :
      (env : Env) (f : TransferForm) (p : Product) (b : Batch) (a : Amounts)
      → Q (transfer_priced env f p b a)
  each_transfer_priced env f p b (no_amounts e) = Q-pure _
  each_transfer_priced env f p b (amounts price cost) =
      if-both Q (is_empty_split f b) _ _ (Q-pure _)
        (if-both Q (transfer_overdraws f b) _ _ (Q-pure _) (Q-write env f p b price cost))

  each_transfer_between :
      (env : Env) (f : TransferForm) (p : Product) (b : Batch) (there here : Option Warehouse)
      → Q (transfer_between env f p b there here)
  each_transfer_between env f p b (some there) (some here) =
      each_transfer_priced env f p b (transfer_amounts f b here there)
  each_transfer_between env f p b (some there) none = Q-pure _
  each_transfer_between env f p b none here = Q-pure _

  each_transfer_from :
      (env : Env) (f : TransferForm) (db : Db) (p : Product) (b : Option Batch)
      → Q (transfer_from env f db p b)
  each_transfer_from env f db p none = Q-pure _
  each_transfer_from env f db p (some b) =
      if-both Q (is_active_warehouse (strip f.dest_warehouse_id) db.warehouses) _ _
        (each_transfer_between env f p b (find_warehouse (strip f.dest_warehouse_id) db.warehouses)
          (find_warehouse b.warehouse_id db.warehouses))
        (Q-pure _)

  each_transfer_of :
      (env : Env) (f : TransferForm) (db : Db) (p : Option Product) → Q (transfer_of env f db p)
  each_transfer_of env f db none = Q-pure _
  each_transfer_of env f db (some p) =
      each_transfer_from env f db p (own_batch env db p (strip f.batch_id))

  each_transfer_checked :
      (env : Env) (f : TransferForm) (db : Db) (es : List TransferError)
      → Q (transfer_checked env f db es)
  each_transfer_checked env f db (e ∷ es) = Q-pure _
  each_transfer_checked env f db [] =
      each_transfer_of env f db (active_product (strip f.code) db.products)

-- From a session with nothing uncommitted a transfer raises nothing and leaves nothing uncommitted,
-- and unless its answer is a move the committed tables are as they were: there is no new batch, and
-- neither of the two rows is written without the other.
pub register_transfer-AllOrNothing :
    (env : Env) (f : TransferForm) (s : Session)
    → s.staged ≡ s.committed
    → AllOrNothing is_moved (register_transfer env f) s
unfolding register_transfer
register_transfer-AllOrNothing env f s clean =
    (IsAtomic-gets (λ db. db) _
        λ db.
          each_transfer_checked (IsAtomic is_moved) IsAtomic-pure write_transfer-IsAtomic env f db
            (transfer_errors env f)).at
      s clean

-- However a transfer ends, every cached quantity is still what the ledger gives, the new batch's
-- included, in the committed tables and in what is staged.
pub register_transfer-IsConsistent :
    (env : Env) (f : TransferForm) (s : Session)
    → IsConsistent s.committed
    → IsConsistent s.staged
    → Both IsConsistent (register_transfer env f s).1
unfolding register_transfer
register_transfer-IsConsistent env f s committed staged =
    (Keeps-bind (gets (λ db. db)) _ (Keeps-gets (λ db. db)) (λ db.
        each_transfer_checked (Keeps (Both IsConsistent)) Keeps-pure Keeps-write_transfer env f db
          (transfer_errors env f))).at
      s (record { committed = committed; staged = staged })
