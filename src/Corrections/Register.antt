-- ===== src/Corrections/Register.antt =====
-- `register_correction`: all or nothing, and the invariant of the stock.
use myorishop.Prelude.{
  true, ◌||◌, Option, none, some, List, [], ◌∷◌, ℤ, pos, ◌==ℤ◌, ◌≡◌, refl, is_empty, if-both,
  if◌then◌else◌,
}
use myorishop.Text.{text, eq_text, strip}
use myorishop.Models.{Product, Batch, Operation}
use myorishop.Db.{Db, active_product, find_product}
use myorishop.Session.{Env, Session, Action, gets, pure, ◌>>=◌}
use myorishop.Session.Keeps.{Keeps, Both, Keeps-bind, Keeps-pure, Keeps-gets, Keeps-attempt}
use myorishop.Session.Atomic.{
  Commits-gets, IsAtomic, AllOrNothing, IsAtomic-pure, IsAtomic-gets, IsAtomic-attempt,
}
use myorishop.Ledger.{record_operation}
use myorishop.Ledger.Projection.{IsConsistent}
use myorishop.Ledger.Record.{Keeps-record_operation}
use myorishop.Ledger.Staging.{Commits-record_operation}
use myorishop.Batches.{own_batch}
use myorishop.Corrections.{
  CorrectionForm, CorrectionError, CorrectionResult, mode_error, save_failed, corrected,
  refused_correction, is_corrected, is_count, correction_delta, correction_draft, quantity_of,
  write_correction, correction_overdraws, correct_by, correct_checked, correct_in, correct_of,
  correct_code, register_correction,
}

abbrev corrected_as : Product → Operation → Db → CorrectionResult
corrected_as p op db = corrected p op (quantity_of (find_product p.id db.products))

write_correction-IsAtomic :
    (env : Env) (f : CorrectionForm) (p : Product) (b : Batch) (d : ℤ)
    → IsAtomic is_corrected (write_correction env f p b d)
write_correction-IsAtomic env f p b d =
    let a = correction_draft env f p b d in
    IsAtomic-attempt (record_operation env a >>= λ op. gets (corrected_as p op))
      (λ _. refused_correction (save_failed ∷ []))
      (Commits-gets (λ _. true) (record_operation env a) (corrected_as p)
        (Commits-record_operation env a refl) (λ _ _. refl))

Keeps-write_correction :
    (env : Env) (f : CorrectionForm) (p : Product) (b : Batch) (d : ℤ)
    → Keeps (Both IsConsistent) (write_correction env f p b d)
Keeps-write_correction env f p b d =
    let a = correction_draft env f p b d in
    Keeps-attempt (record_operation env a >>= λ op. gets (corrected_as p op))
      (λ _. refused_correction (save_failed ∷ []))
      (Keeps-bind (record_operation env a) _ (Keeps-record_operation env a (λ audit. cc))
        (λ op. Keeps-gets (corrected_as p op)))

-- What holds of a refusal, a warning and the write holds of the whole request.
module _ (Q : Action CorrectionResult → Type 0) (Q-pure : (r : CorrectionResult) → Q (pure r))
    (Q-write : (env : Env) (f : CorrectionForm) (p : Product) (b : Batch) (d : ℤ)
      → Q (write_correction env f p b d)) where
  each_correct_by :
      (env : Env) (f : CorrectionForm) (p : Product) (b : Batch) (d : ℤ)
      → Q (correct_by env f p b d)
  each_correct_by env f p b d =
      if-both Q (d ==ℤ pos 0) _ _ (Q-pure _)
        (if-both Q (correction_overdraws f b d) _ _ (Q-pure _) (Q-write env f p b d))

  each_correct_checked :
      (env : Env) (f : CorrectionForm) (p : Product) (b : Batch) (d : Option ℤ)
      (es : List CorrectionError)
      → Q (correct_checked env f p b d es)
  each_correct_checked env f p b (some d) [] = each_correct_by env f p b d
  each_correct_checked env f p b (some d) (e ∷ es) = Q-pure _
  each_correct_checked env f p b none es = Q-pure _

  each_correct_in :
      (env : Env) (f : CorrectionForm) (p : Product) (b : Option Batch) → Q (correct_in env f p b)
  each_correct_in env f p none = Q-pure _
  each_correct_in env f p (some b) = each_correct_checked env f p b (correction_delta f b) _

  each_correct_of :
      (env : Env) (f : CorrectionForm) (db : Db) (p : Option Product) → Q (correct_of env f db p)
  each_correct_of env f db none = Q-pure _
  each_correct_of env f db (some p) =
      each_correct_in env f p (own_batch env db p (strip f.batch_id))

  each_correct_mode :
      (env : Env) (f : CorrectionForm) (db : Db)
      → Q (
          if is_count f || eq_text f.mode (text "delta")
          then correct_code env f db
          else pure (refused_correction (mode_error ∷ [])))
  each_correct_mode env f db =
      if-both Q (is_count f || eq_text f.mode (text "delta")) _ _
        (if-both Q (is_empty (strip f.code)) _ _ (Q-pure _)
          (each_correct_of env f db (active_product (strip f.code) db.products)))
        (Q-pure _)

-- From a session with nothing uncommitted a correction raises nothing and leaves nothing uncommitted,
-- and unless its answer is the written row the committed tables are as they were.
pub register_correction-AllOrNothing :
    (env : Env) (f : CorrectionForm) (s : Session)
    → s.staged ≡ s.committed
    → AllOrNothing is_corrected (register_correction env f) s
unfolding register_correction
register_correction-AllOrNothing env f s clean =
    (IsAtomic-gets (λ db. db) _
        λ db.
          each_correct_mode (IsAtomic is_corrected) IsAtomic-pure write_correction-IsAtomic env f
            db).at
      s clean

-- However a correction ends, every cached quantity is still what the ledger gives, in the committed
-- tables and in what is staged.
pub register_correction-IsConsistent :
    (env : Env) (f : CorrectionForm) (s : Session)
    → IsConsistent s.committed
    → IsConsistent s.staged
    → Both IsConsistent (register_correction env f s).1
unfolding register_correction
register_correction-IsConsistent env f s committed staged =
    (Keeps-bind (gets (λ db. db)) _ (Keeps-gets (λ db. db)) (λ db.
        each_correct_mode (Keeps (Both IsConsistent)) Keeps-pure Keeps-write_correction env f
          db)).at
      s (record { committed = committed; staged = staged })
