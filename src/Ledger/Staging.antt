-- ===== src/Ledger/Staging.antt =====
-- `record_operation` and the committed tables: staged only, or committed last.
use myorishop.Prelude.{true, false, ◌≡◌, refl}
use myorishop.Db.{operation_conflict}
use myorishop.Session.{Env, query, gets, insert, commit_if, pure, new_id, ◌>>◌}
use myorishop.Session.Atomic.{
  Stages, Stages-bind, Stages-pure, Stages-query, Stages-gets, Stages-new_id, Stages-insert,
  Commits, Commits-bind, Commits-commit,
}
use myorishop.Ledger.{Draft, check_operation, next_seq, operation_row, post, record_operation}

-- Without `commit` the row is only staged.
pub Stages-record_operation :
    (env : Env) (a : Draft) → a.commit ≡ false → Stages (record_operation env a)
unfolding record_operation
Stages-record_operation env a off =
    Stages-bind (query (check_operation env a)) _ (Stages-query (check_operation env a)) λ _.
      Stages-bind (new_id env) _ (Stages-new_id env) λ id.
        Stages-bind (gets (next_seq env.device_id)) _ (Stages-gets (next_seq env.device_id)) λ seq.
          let op = operation_row env a id seq in
          Stages-bind (insert (operation_conflict op) (post env.now op))
            (λ _. commit_if a.commit >> pure op)
            (Stages-insert (operation_conflict op) (post env.now op)) (λ _. rw off (Stages-pure op))

-- With `commit` the row is committed last.
pub Commits-record_operation :
    (env : Env) (a : Draft) → a.commit ≡ true → Commits (λ _. true) (record_operation env a)
unfolding record_operation
Commits-record_operation env a on =
    Commits-bind (query (check_operation env a)) _ (Stages-query (check_operation env a)) λ _.
      Commits-bind (new_id env) _ (Stages-new_id env) λ id.
        Commits-bind (gets (next_seq env.device_id)) _ (Stages-gets (next_seq env.device_id)) λ seq.
          let op = operation_row env a id seq in
          Commits-bind (insert (operation_conflict op) (post env.now op))
            (λ _. commit_if a.commit >> pure op)
            (Stages-insert (operation_conflict op) (post env.now op))
            (λ _. rw on (Commits-commit op refl))
