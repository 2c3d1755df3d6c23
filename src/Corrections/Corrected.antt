-- ===== src/Corrections/Corrected.antt =====
-- `register_correction`: what a written correction has done to its batch and to the ledger.
use myorishop.Prelude.{
  Bool, true, false, ◌||◌, Option, none, some, List, [], ◌∷◌, ◌++◌, ℤ, pos, neg, ◌+ℤ◌, ◌-ℤ◌, ◌==ℤ◌,
  ◌≤ℤ◌, ◌≡◌, refl, ◌⊎◌, inl, inr, arith, int_laws, Bool-cases, if◌then◌else◌, subst, is_empty, map,
  ap,
}
use mathlib.Core.Option.{some-injective}
use myorishop.Text.{text, eq_text, strip, is_ascii_digits, int_of_digits}
use myorishop.Models.{Product, Batch, Operation}
use myorishop.Db.{Db, active_product, find_batch, find_product}
use myorishop.Session.{Env, Session, Result, ok, err, gets, pure, recover, resume}
use myorishop.Session.Atomic.{Ends}
use myorishop.Ledger.{Draft, record_operation, parse_op_date}
use myorishop.Ledger.Posts.{Posts, record_operation-Posts, TookRow, TookRow-record_operation}
use myorishop.Ledger.Staging.{Commits-record_operation}
use myorishop.Finance.{op_date_errors}
use myorishop.Batches.{own_batch}
use myorishop.Batches.Add.{own_batch_found}
use myorishop.Corrections.{
  CorrectionForm, CorrectionError, CorrectionResult, mode_error, code_error, zero_net, save_failed,
  op_date, corrected, oversell, refused_correction, is_count, correction_delta, correction_draft,
  quantity_of, write_correction, correction_overdraws, correct_by, value_errors, correct_checked,
  correct_in, correct_of, register_correction,
}

-- The picked batch held `had` and changed by `change`, which is not zero, by one new row: in count
-- mode it now holds the counted quantity, and it went below zero only if the form was confirmed.
pub record Corrected (f : CorrectionForm) (op : Operation) (n : ℤ) (p : Product) (before after : Db)
    : Type 0 where
  pub had : ℤ
  pub change : ℤ
  pub row : TookRow (strip f.batch_id) had change op before after
  pub nonzero : (change ==ℤ pos 0) ≡ false
  pub counted : (is_count f ≡ false) ⊎ (had +ℤ change ≡ pos (int_of_digits (strip f.value_raw)))
  pub covered : (eq_text f.confirm (text "1") ≡ true) ⊎ (neg change ≤ℤ had)
  pub reported : n ≡ quantity_of (find_product p.id after.products)

-- In count mode the change is from what the batch holds to what was counted.
counted_change :
    (f : CorrectionForm) (b : Batch) (d : ℤ)
    → correction_delta f b ≡ some d
    → (is_count f ≡ false) ⊎ (b.quantity +ℤ d ≡ pos (int_of_digits (strip f.value_raw)))
unfolding correction_delta
counted_change f b d e = elim (Bool-cases (is_count f)) [
  | inr signed ↦ inl signed
  | inl count ↦ elim (Bool-cases (is_ascii_digits (strip f.value_raw))) [
    | inl digits ↦
        let v = pos (int_of_digits (strip f.value_raw)) in
        let h = some-injective (v -ℤ b.quantity) d (rw (count, digits) at e) in
        inr (rw (← h) (add_back b.quantity v))
    | inr garbage ↦ ground arith
  ]
]
  where
    add_back : (q v : ℤ) → q +ℤ (v -ℤ q) ≡ v
    add_back q v = omega int_laws

module _ (env : Env) (f : CorrectionForm) (s : Session) where
  abbrev CorrectedBy : Result CorrectionResult × Session → Type 0
  CorrectedBy (ok (corrected p op n), s') = Corrected f op n p s.staged s'.committed
  CorrectedBy _ = Unit

  write_correction-Corrected :
      (p : Product) (b : Batch) (d : ℤ)
      → find_batch (strip f.batch_id) s.staged.batches ≡ some b
      → correction_delta f b ≡ some d
      → (d ==ℤ pos 0) ≡ false
      → correction_overdraws f b d ≡ false
      → CorrectedBy (write_correction env f p b d s)
  write_correction-Corrected p b d found delta nonzero covered =
      go (record_operation env a s).0 (record_operation env a s).1 (record_operation-Posts env a s)
        ((Commits-record_operation env a refl).at s)
    where
      a : Draft
      a = correction_draft env f p b d

      finish : Result Operation → Session → Result CorrectionResult × Session
      finish r s' =
          let (q, t) =
            resume r
              (λ op. gets (λ db. corrected p op (quantity_of (find_product p.id db.products))))
              s' in
          recover q (λ _. refused_correction (save_failed ∷ [])) t

      go :
          (r : Result Operation) (s' : Session)
          → Posts env a s r s'
          → Ends (λ _. true) s r s'
          → CorrectedBy (finish r s')
      go (ok op) s' posts ends = record {
        had = b.quantity;
        change = d;
        row = TookRow-record_operation env a s op s' (strip f.batch_id) b found refl posts ends.1;
        nonzero = nonzero;
        counted = counted_change f b d delta;
        covered = ground arith;
        reported = ap (λ db. quantity_of (find_product p.id db.products)) ends.1;
      }
      go (err x) s' posts ends = tt

  correct_by-Corrected :
      (p : Product) (b : Batch) (d : ℤ)
      → find_batch (strip f.batch_id) s.staged.batches ≡ some b
      → correction_delta f b ≡ some d
      → CorrectedBy (correct_by env f p b d s)
  correct_by-Corrected p b d found delta = go (d ==ℤ pos 0) (correction_overdraws f b d) refl refl
    where
      go :
          (idle over : Bool)
          → (d ==ℤ pos 0) ≡ idle
          → correction_overdraws f b d ≡ over
          → CorrectedBy (
              (if idle
                  then pure (refused_correction (zero_net ∷ []))
                  else if over
                  then pure (oversell p b.quantity (neg d))
                  else write_correction env f p b d)
                s)
      go true over e h = tt
      go false true e h = tt
      go false false e h = write_correction-Corrected p b d found delta e h

  correct_checked-Corrected :
      (p : Product) (b : Batch) (d : Option ℤ) (es : List CorrectionError)
      → find_batch (strip f.batch_id) s.staged.batches ≡ some b
      → correction_delta f b ≡ d
      → CorrectedBy (correct_checked env f p b d es s)
  correct_checked-Corrected p b (some d) [] found delta = correct_by-Corrected p b d found delta
  correct_checked-Corrected p b (some d) (e ∷ es) found delta = tt
  correct_checked-Corrected p b none es found delta = tt

  correct_in-Corrected :
      (p : Product) (o : Option Batch)
      → own_batch env s.staged p (strip f.batch_id) ≡ o
      → CorrectedBy (correct_in env f p o s)
  correct_in-Corrected p none own = tt
  correct_in-Corrected p (some b) own =
      correct_checked-Corrected p b (correction_delta f b)
        (value_errors f (correction_delta f b)
          ++ map op_date (op_date_errors (parse_op_date env f.op_date)))
        (own_batch_found env s.staged p (strip f.batch_id) b own).0 refl

  correct_of-Corrected : (o : Option Product) → CorrectedBy (correct_of env f s.staged o s)
  correct_of-Corrected none = tt
  correct_of-Corrected (some p) = correct_in-Corrected p _ refl

  correct_mode-Corrected :
      (mode blank : Bool)
      → CorrectedBy (
          (if mode
              then if blank
                then pure (refused_correction (code_error ∷ []))
                else correct_of env f s.staged (active_product (strip f.code) s.staged.products)
              else pure (refused_correction (mode_error ∷ [])))
            s)
  correct_mode-Corrected true true = tt
  correct_mode-Corrected true false = correct_of-Corrected _
  correct_mode-Corrected false blank = tt

-- A written correction has changed the picked batch, by one new row on top of the committed ledger,
-- by an amount that is not zero. In count mode the batch now holds exactly what was counted, whatever
-- it held. It gives up more than it held only if the form was confirmed, and the answer reports the
-- product's new quantity.
pub register_correction-Corrected :
    (env : Env) (f : CorrectionForm) (s : Session) (p : Product) (op : Operation) (n : ℤ)
    → (register_correction env f s).0 ≡ ok (corrected p op n)
    → Corrected f op n p s.staged (register_correction env f s).1.committed
unfolding register_correction
register_correction-Corrected env f s p op n e =
    subst (λ r. CorrectedBy env f s (r, (register_correction env f s).1)) e
      (correct_mode-Corrected env f s (is_count f || eq_text f.mode (text "delta"))
        (is_empty (strip f.code)))
