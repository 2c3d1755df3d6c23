-- ===== src/Writeoffs/Register.antt =====
-- `register_writeoff`: all or nothing, and the invariant of the stock.
use myorishop.Prelude.{true, Option, none, some, List, [], ◌∷◌, ◌≡◌, refl}
use myorishop.Text.{strip, parse_qty}
use myorishop.Models.{Product, Batch}
use myorishop.Db.{Db, active_product}
use myorishop.Session.{Env, Session, gets, pure, ◌>>=◌}
use myorishop.Session.Keeps.{
  Keeps, Both, Keeps-bind, Keeps-pure, Keeps-if, Keeps-gets, Keeps-attempt,
}
use myorishop.Session.Atomic.{
  Commits-then, IsAtomic, AllOrNothing, IsAtomic-pure, IsAtomic-if, IsAtomic-gets, IsAtomic-attempt,
}
use myorishop.Ledger.{record_operation}
use myorishop.Ledger.Projection.{IsConsistent}
use myorishop.Ledger.Record.{Keeps-record_operation}
use myorishop.Ledger.Staging.{Commits-record_operation}
use myorishop.Batches.{own_batch}
use myorishop.Writeoffs.{
  WriteoffForm, WriteoffError, save_failed, written_off, oversell, refused_writeoff, is_written_off,
  writeoff_errors, writeoff_draft, write_off, writeoff_overdraws, writeoff_from, writeoff_of,
  writeoff_checked, register_writeoff,
}

write_off-IsAtomic :
    (env : Env) (f : WriteoffForm) (p : Product) (b : Batch)
    → IsAtomic is_written_off (write_off env f p b)
write_off-IsAtomic env f p b =
    let d = writeoff_draft env f p b in
    IsAtomic-attempt (record_operation env d >>= λ op. pure (written_off p op))
      (λ _. refused_writeoff (save_failed ∷ []))
      (Commits-then (λ _. true) (record_operation env d) (written_off p)
        (Commits-record_operation env d refl) (λ _. refl))

writeoff_from-IsAtomic :
    (env : Env) (f : WriteoffForm) (p : Product) (b : Option Batch)
    → IsAtomic is_written_off (writeoff_from env f p b)
writeoff_from-IsAtomic env f p none = IsAtomic-pure _
writeoff_from-IsAtomic env f p (some b) =
    IsAtomic-if (writeoff_overdraws f b) (pure (oversell p b.quantity (parse_qty f.qty_raw)))
      (write_off env f p b) (IsAtomic-pure _) (write_off-IsAtomic env f p b)

writeoff_of-IsAtomic :
    (env : Env) (f : WriteoffForm) (db : Db) (p : Option Product)
    → IsAtomic is_written_off (writeoff_of env f db p)
writeoff_of-IsAtomic env f db none = IsAtomic-pure _
writeoff_of-IsAtomic env f db (some p) =
    writeoff_from-IsAtomic env f p (own_batch env db p (strip f.batch_id))

writeoff_checked-IsAtomic :
    (env : Env) (f : WriteoffForm) (db : Db) (es : List WriteoffError)
    → IsAtomic is_written_off (writeoff_checked env f db es)
writeoff_checked-IsAtomic env f db (e ∷ es) = IsAtomic-pure _
writeoff_checked-IsAtomic env f db [] =
    writeoff_of-IsAtomic env f db (active_product (strip f.code) db.products)

-- From a session with nothing uncommitted a write-off raises nothing and leaves nothing uncommitted,
-- and unless its answer is the written row the committed tables are as they were.
pub register_writeoff-AllOrNothing :
    (env : Env) (f : WriteoffForm) (s : Session)
    → s.staged ≡ s.committed
    → AllOrNothing is_written_off (register_writeoff env f) s
unfolding register_writeoff
register_writeoff-AllOrNothing env f s clean =
    (IsAtomic-gets (λ db. db) _ λ db. writeoff_checked-IsAtomic env f db (writeoff_errors env f)).at
      s clean

Keeps-write_off :
    (env : Env) (f : WriteoffForm) (p : Product) (b : Batch)
    → Keeps (Both IsConsistent) (write_off env f p b)
Keeps-write_off env f p b =
    let d = writeoff_draft env f p b in
    Keeps-attempt (record_operation env d >>= λ op. pure (written_off p op))
      (λ _. refused_writeoff (save_failed ∷ []))
      (Keeps-bind (record_operation env d) _ (Keeps-record_operation env d (λ audit. cc))
        (λ op. Keeps-pure (written_off p op)))

Keeps-writeoff_from :
    (env : Env) (f : WriteoffForm) (p : Product) (b : Option Batch)
    → Keeps (Both IsConsistent) (writeoff_from env f p b)
Keeps-writeoff_from env f p none = Keeps-pure _
Keeps-writeoff_from env f p (some b) =
    Keeps-if (writeoff_overdraws f b) (pure (oversell p b.quantity (parse_qty f.qty_raw)))
      (write_off env f p b) (Keeps-pure _) (Keeps-write_off env f p b)

Keeps-writeoff_of :
    (env : Env) (f : WriteoffForm) (db : Db) (p : Option Product)
    → Keeps (Both IsConsistent) (writeoff_of env f db p)
Keeps-writeoff_of env f db none = Keeps-pure _
Keeps-writeoff_of env f db (some p) =
    Keeps-writeoff_from env f p (own_batch env db p (strip f.batch_id))

Keeps-writeoff_checked :
    (env : Env) (f : WriteoffForm) (db : Db) (es : List WriteoffError)
    → Keeps (Both IsConsistent) (writeoff_checked env f db es)
Keeps-writeoff_checked env f db (e ∷ es) = Keeps-pure _
Keeps-writeoff_checked env f db [] =
    Keeps-writeoff_of env f db (active_product (strip f.code) db.products)

-- However a write-off ends, every cached quantity is still what the ledger gives, in the committed
-- tables and in what is staged.
pub register_writeoff-IsConsistent :
    (env : Env) (f : WriteoffForm) (s : Session)
    → IsConsistent s.committed
    → IsConsistent s.staged
    → Both IsConsistent (register_writeoff env f s).1
unfolding register_writeoff
register_writeoff-IsConsistent env f s committed staged =
    (Keeps-bind (gets (λ db. db)) _ (Keeps-gets (λ db. db))
        (λ db. Keeps-writeoff_checked env f db (writeoff_errors env f))).at
      s (record { committed = committed; staged = staged })
