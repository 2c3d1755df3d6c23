-- ===== src/Ledger/Trail.antt =====
-- What `record_operation` writes into the ledger, seen as the list of types, products and payloads.
use myorishop.Prelude.{Bool, true, false, not, ℤ, List, ◌∷◌, map, ◌≡◌, ap}
use myorishop.Text.{Text}
use myorishop.Models.{OpType, Payload, Operation}
use myorishop.Db.{Db, operation_conflict}
use myorishop.Session.{
  Env, Session, Result, ok, err, query, gets, insert, insert_if, commit_if, pure, new_id,
}
use myorishop.Session.Ensures.{Then, Ensures, Ensures-bind, Ensures-pure, Ensures-gets}
use myorishop.Ledger.{Draft, check_operation, next_seq, operation_row, post, record_operation}

-- A row as the history of a card shows it.
abbrev pub entry : Operation → OpType × Text × Payload
entry o = (o.type, o.product_id, o.payload)

abbrev pub trail : Db → List (OpType × Text × Payload)
trail db = map entry db.operations

Ensures-query : {A : Type 0} (P : Db → Type 0) (q : Db → Result A) → Ensures P (query q) P
Ensures-query {A} P q = record { at = λ s h. go s (q s.staged) h }
  where
    go : (s : Session) (r : Result A) → P s.staged → Then P r s
    go s (ok a) h = h
    go s (err e) h = tt

pub Ensures-insert :
    (P Q : Db → Type 0) (conflict : Db → Bool) (f : Db → Db)
    → ((db : Db) → P db → Q (f db))
    → Ensures P (insert conflict f) Q
Ensures-insert P Q conflict f keep = record { at = λ s h. go s (not (conflict s.staged)) h }
  where
    go : (s : Session) (b : Bool) → P s.staged → Then Q (insert_if b f s).0 (insert_if b f s).1
    go s true h = keep s.staged h
    go s false h = tt

pub Ensures-commit_if : (P : Db → Type 0) (b : Bool) → Ensures P (commit_if b) P
Ensures-commit_if P true = record { at = λ s h. h }
Ensures-commit_if P false = record { at = λ s h. h }

pub Ensures-record :
    (P Q : Db → Type 0) (env : Env) (a : Draft)
    → ((id : Text) (seq : ℤ) (db : Db) → P db → Q (post env.now (operation_row env a id seq) db))
    → Ensures P (record_operation env a) Q
unfolding record_operation
Ensures-record P Q env a keep =
    Ensures-bind P P Q (query (check_operation env a)) _ (Ensures-query P (check_operation env a))
      λ _.
        Ensures-bind P P Q (new_id env) _ (record { at = λ s h. h })
          λ id.
            Ensures-bind P P Q (gets (next_seq env.device_id)) _
              (Ensures-gets P (next_seq env.device_id))
              λ seq.
                let op = operation_row env a id seq in
                Ensures-bind P Q Q (insert (operation_conflict op) (post env.now op)) _
                  (Ensures-insert P Q (operation_conflict op) (post env.now op)
                    (λ db h. keep id seq db h))
                  λ _.
                    Ensures-bind Q Q Q (commit_if a.commit) (λ _. pure op)
                      (Ensures-commit_if Q a.commit) (λ _. Ensures-pure Q op)

-- One row more on the trail.
pub Ensures-record_operation :
    (env : Env) (a : Draft) (before : List (OpType × Text × Payload))
    → Ensures
        (λ db. trail db ≡ before)
        (record_operation env a)
        (λ db. trail db ≡ (a.type, a.product_id, a.payload) ∷ before)
Ensures-record_operation env a before =
    Ensures-record (λ db. trail db ≡ before)
      (λ db. trail db ≡ (a.type, a.product_id, a.payload) ∷ before) env a
      (λ id seq db h. ap (λ l. (a.type, a.product_id, a.payload) ∷ l) h)
