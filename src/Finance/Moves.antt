-- ===== src/Finance/Moves.antt =====
-- By how much a cash movement moves a currency's balance, and that it moves no stock.
use myorishop.Prelude.{◌≡◌, refl, sym, ℤ, pos, ◌+ℤ◌, +ℤ_comm, +ℤ-zero, Bool-cases, inl, inr}
use myorishop.Text.{Text, eq_text}
use myorishop.Models.{CashMovement}
use myorishop.Db.{Db, cash_conflict}
use myorishop.Session.{Env, query, gets, insert, commit_if, pure, new_id, ◌>>◌}
use myorishop.Session.Measure.{
  Adds, Adds-then, Adds-first, Adds-query, Adds-gets, Adds-new_id, Adds-insert, Adds-commit_if,
  Adds-pure,
}
use myorishop.Ledger.Moves.{delta_for}
use myorishop.Finance.{
  CashDraft, check_cash, next_cash_seq, cash_row, append_cash, record_cash_movement, balance_of,
}

abbrev pub balance_in : Text → Db → ℤ
balance_in currency db = balance_of db.cash_movements currency

balance_in-append :
    (currency : Text) (m : CashMovement) (db : Db)
    → balance_in currency (append_cash m db)
      ≡ balance_in currency db +ℤ delta_for m.currency currency m.amount_cents
unfolding balance_of
balance_in-append currency m db = elim (Bool-cases (eq_text m.currency currency)) [
  | inl e ↦ rw e (+ℤ_comm m.amount_cents (balance_of db.cash_movements currency))
  | inr e ↦ rw e (sym (+ℤ-zero (balance_of db.cash_movements currency)))
]

module _ (μ : Db → ℤ) (d : ℤ) (env : Env) (a : CashDraft) where
  Adds-cash :
      ((m : CashMovement) (db : Db)
        → m.currency ≡ a.currency
        → m.amount_cents ≡ a.amount_cents
        → μ (append_cash m db) ≡ μ db +ℤ d)
      → Adds μ d (record_cash_movement env a)
  unfolding record_cash_movement
  Adds-cash h = Adds-then d (query (λ _. check_cash a)) _ (Adds-query (λ _. check_cash a)) λ _.
      Adds-then d (new_id env) _ (Adds-new_id env) λ id.
        Adds-then d (gets (next_cash_seq env.device_id)) _ (Adds-gets (next_cash_seq env.device_id))
          λ seq.
            let m = cash_row env a id seq in
            Adds-first d (insert (cash_conflict m) (append_cash m))
              (λ _. commit_if a.commit >> pure m)
              (Adds-insert d (cash_conflict m) (append_cash m) (λ db. h m db refl refl))
              (λ _.
                Adds-then (pos 0) (commit_if a.commit) (λ _. pure m) (Adds-commit_if a.commit)
                  (λ _. Adds-pure m))

-- A movement adds its amount to the balance of its currency, and of no other.
pub Adds-record_cash_movement :
    (currency : Text) (env : Env) (a : CashDraft)
    → Adds
        (balance_in currency)
        (delta_for a.currency currency a.amount_cents)
        (record_cash_movement env a)
Adds-record_cash_movement currency env a =
    Adds-cash (balance_in currency) _ env a
      λ m db same amount. rw (← same, ← amount) (balance_in-append currency m db)

-- It moves no number that the cash ledger has no part in.
pub Adds-record_cash_movement_none :
    (μ : Db → ℤ) (env : Env) (a : CashDraft)
    → ((m : CashMovement) (db : Db) → μ (append_cash m db) ≡ μ db)
    → Adds μ (pos 0) (record_cash_movement env a)
Adds-record_cash_movement_none μ env a h =
    Adds-cash μ (pos 0) env a λ m db _ _. rw (h m db) (sym (+ℤ-zero (μ db)))
