-- ===== src/Finance/Manual.antt =====
-- `record_manual_movement`: what a recorded movement has done to the balance.
use myorishop.Prelude.{
  Bool, true, false, ◌&&◌, List, [], ◌∷◌, pos, neg, ◌+ℤ◌, ◌≤ℤ◌, ◌≡◌, refl, ◌⊎◌, is_empty, if-both,
}
use myorishop.Text.{Text, text, eq_text, strip, upper}
use myorishop.Models.{is_withdrawal}
use myorishop.Db.{Db}
use myorishop.Session.{Env, Session, Result, ok}
use myorishop.Session.Atomic.{
  Commits-then, IsAtomic, AllOrNothing, IsAtomic-pure, IsAtomic-gets, IsAtomic-attempt,
}
use myorishop.Ledger.Moves.{delta_for}
use myorishop.Finance.{
  ManualForm, ManualError, ManualResult, recorded, negative_balance, refused_form, save_failed,
  or_default_currency, manual_amount, manual_draft, overdraws, compute_balance, write_manual,
  manual_after, needs_note, form_errors, record_cash_movement, record_manual_movement,
}
use myorishop.Finance.Record.{Commits-record_cash_movement}
use myorishop.Finance.Moves.{balance_in}

abbrev pub is_recorded : ManualResult → Bool
is_recorded (recorded m) = true
is_recorded _ = false

abbrev pub form_currency : ManualForm → Text
form_currency f = or_default_currency (upper (strip f.currency))

write_manual-IsAtomic : (env : Env) (f : ManualForm) → IsAtomic is_recorded (write_manual env f)
write_manual-IsAtomic env f =
    IsAtomic-attempt _ (λ _. refused_form (save_failed ∷ []))
      (Commits-then (λ _. true) (record_cash_movement env (manual_draft env f)) recorded
        (Commits-record_cash_movement env (manual_draft env f) refl) (λ _. refl))

manual_after-IsAtomic :
    (env : Env) (f : ManualForm) (es : List ManualError)
    → IsAtomic is_recorded (manual_after env f es)
manual_after-IsAtomic env f (e ∷ es) = IsAtomic-pure _
manual_after-IsAtomic env f [] =
    if-both (IsAtomic is_recorded) (needs_note f.category && is_empty (strip f.note)) _ _
      (IsAtomic-pure _)
      (IsAtomic-gets (λ db. compute_balance db (form_currency f)) _
        λ balance.
          if-both (IsAtomic is_recorded) (overdraws f balance) _ _
            (IsAtomic-pure (negative_balance balance (neg (manual_amount f))))
            (write_manual-IsAtomic env f))

-- From a session with nothing uncommitted a manual movement raises nothing and leaves nothing
-- uncommitted, and unless its answer is the recorded row the committed tables are as they were.
pub record_manual_movement-AllOrNothing :
    (env : Env) (f : ManualForm) (s : Session)
    → s.staged ≡ s.committed
    → AllOrNothing is_recorded (record_manual_movement env f) s
unfolding record_manual_movement
record_manual_movement-AllOrNothing env f s clean =
    (manual_after-IsAtomic env f (form_errors env f)).at s clean

-- The balance of the form's currency moved by the form's signed amount, no other balance moved, and
-- a withdrawal left it at zero or more unless it was confirmed.
pub record Recorded (f : ManualForm) (currency : Text) (before after : Db) : Type 0 where
  pub moved :
      balance_in currency after
      ≡ balance_in currency before +ℤ delta_for (form_currency f) currency (manual_amount f)
  pub covered :
      (is_withdrawal f.category ≡ false)
      ⊎ (eq_text f.confirm (text "1") ≡ true)
      ⊎ (pos 0 ≤ℤ balance_in (form_currency f) before +ℤ manual_amount f)

module _ (env : Env) (f : ManualForm) (currency : Text) (s : Session) where
  abbrev RecordedBy : Result ManualResult × Session → Type 0
  RecordedBy (ok (recorded m), s') = Recorded f currency s.staged s'.committed
  RecordedBy _ = Unit
