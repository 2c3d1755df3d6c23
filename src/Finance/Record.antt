-- ===== src/Finance/Record.antt =====
-- `record_cash_movement`: what it keeps, how it ends, and its sequence numbers.
use myorishop.Prelude.{true, false, ◌≡◌, refl}
use myorishop.Models.{CashMovement}
use myorishop.Db.{Db, cash_conflict}
use myorishop.Session.{Env, commit_if, pure, query, new_id, gets, insert, ◌>>◌}
use myorishop.Session.Keeps.{
  Keeps, Both, Keeps-bind, Keeps-insert, Keeps-commit_if, Keeps-pure, Keeps-new_id, Keeps-gets,
  Keeps-check,
}
use myorishop.Session.Atomic.{
  Stages, Stages-bind, Stages-pure, Stages-query, Stages-gets, Stages-new_id, Stages-insert,
  Commits, Commits-bind, Commits-commit,
}
use myorishop.Ledger.Projection.{IsConsistent}
use myorishop.Finance.{
  CashDraft, cash_row, append_cash, check_cash, next_cash_seq, record_cash_movement,
}

append_cash-IsConsistent :
    (m : CashMovement) (db : Db) → IsConsistent db → IsConsistent (append_cash m db)
append_cash-IsConsistent m db h = record {
  stock = h.stock;
  batch_stock = h.batch_stock;
  owned = h.owned;
  distinct = h.distinct;
}

-- A cash movement touches no stock.
pub Keeps-record_cash_movement :
    (env : Env) (a : CashDraft) → Keeps (Both IsConsistent) (record_cash_movement env a)
unfolding record_cash_movement
Keeps-record_cash_movement env a =
    Keeps-bind (query (λ _. check_cash a)) _ (Keeps-check (λ _. check_cash a)) λ _.
      Keeps-bind (new_id env) _ (Keeps-new_id env) λ id.
        Keeps-bind (gets (next_cash_seq env.device_id)) _ (Keeps-gets (next_cash_seq env.device_id))
          λ seq.
            let m = cash_row env a id seq in
            Keeps-bind (insert (cash_conflict m) (append_cash m))
              (λ _. commit_if a.commit >> pure m)
              (Keeps-insert (cash_conflict m) (append_cash m)
                (λ db h _. append_cash-IsConsistent m db h))
              (λ _.
                Keeps-bind (commit_if a.commit) (λ _. pure m) (Keeps-commit_if a.commit)
                  (λ _. Keeps-pure m))

-- Without `commit` the row is only staged.
pub Stages-record_cash_movement :
    (env : Env) (a : CashDraft) → a.commit ≡ false → Stages (record_cash_movement env a)
unfolding record_cash_movement
Stages-record_cash_movement env a off =
    Stages-bind (query (λ _. check_cash a)) _ (Stages-query (λ _. check_cash a)) λ _.
      Stages-bind (new_id env) _ (Stages-new_id env) λ id.
        Stages-bind (gets (next_cash_seq env.device_id)) _
          (Stages-gets (next_cash_seq env.device_id))
          λ seq.
            let m = cash_row env a id seq in
            Stages-bind (insert (cash_conflict m) (append_cash m))
              (λ _. commit_if a.commit >> pure m) (Stages-insert (cash_conflict m) (append_cash m))
              (λ _. rw off (Stages-pure m))

-- With `commit` the row is committed last.
pub Commits-record_cash_movement :
    (env : Env) (a : CashDraft) → a.commit ≡ true → Commits (λ _. true) (record_cash_movement env a)
unfolding record_cash_movement
Commits-record_cash_movement env a on =
    Commits-bind (query (λ _. check_cash a)) _ (Stages-query (λ _. check_cash a)) λ _.
      Commits-bind (new_id env) _ (Stages-new_id env) λ id.
        Commits-bind (gets (next_cash_seq env.device_id)) _
          (Stages-gets (next_cash_seq env.device_id))
          λ seq.
            let m = cash_row env a id seq in
            Commits-bind (insert (cash_conflict m) (append_cash m))
              (λ _. commit_if a.commit >> pure m) (Stages-insert (cash_conflict m) (append_cash m))
              (λ _. rw on (Commits-commit m refl))
