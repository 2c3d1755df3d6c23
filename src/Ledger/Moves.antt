-- ===== src/Ledger/Moves.antt =====
-- By how much `record_operation` moves a product's stock, and that it moves no cash.
use myorishop.Prelude.{
  ◌≡◌, sym, if◌then◌else◌, ℤ, pos, ◌+ℤ◌, +ℤ_comm, +ℤ-zero, Bool-cases, inl, inr,
}
use myorishop.Text.{Text, eq_text}
use myorishop.Models.{Operation}
use myorishop.Db.{Db, operation_conflict}
use myorishop.Session.{Env, query, gets, insert, commit_if, pure, new_id, ◌>>◌}
use myorishop.Session.Measure.{
  Adds, Adds-then, Adds-first, Adds-query, Adds-gets, Adds-new_id, Adds-insert, Adds-commit_if,
  Adds-pure,
}
use myorishop.Ledger.{
  Draft, check_operation, next_seq, operation_row, post, record_operation, compute_stock,
}

-- The stock of a product, by the ledger.
abbrev pub stock_of : Text → Db → ℤ
stock_of product db = compute_stock db.operations product

-- What a row of one product adds to the stock of another or the same.
abbrev pub delta_for : Text → Text → ℤ → ℤ
delta_for product own d = if eq_text product own then d else pos 0

pub stock_of-post :
    (product : Text) (now : Text) (o : Operation) (db : Db)
    → stock_of product (post now o db)
      ≡ stock_of product db +ℤ delta_for product o.product_id o.qty_delta
unfolding compute_stock
stock_of-post product now o db = elim (Bool-cases (eq_text product o.product_id)) [
  | inl e ↦ rw e (+ℤ_comm o.qty_delta (compute_stock db.operations product))
  | inr e ↦ rw e (sym (+ℤ-zero (compute_stock db.operations product)))
]

module _ (μ : Db → ℤ) (d : ℤ) (env : Env) (a : Draft) where
  -- A number that the draft's row moves by `d`, whatever its id and sequence number.
  pub Adds-record :
      ((id : Text) (seq : ℤ) (db : Db)
        → μ (post env.now (operation_row env a id seq) db) ≡ μ db +ℤ d)
      → Adds μ d (record_operation env a)
  unfolding record_operation
  Adds-record h =
      Adds-then d (query (check_operation env a)) _ (Adds-query (check_operation env a)) λ _.
        Adds-then d (new_id env) _ (Adds-new_id env) λ id.
          Adds-then d (gets (next_seq env.device_id)) _ (Adds-gets (next_seq env.device_id)) λ seq.
            let op = operation_row env a id seq in
            Adds-first d (insert (operation_conflict op) (post env.now op))
              (λ _. commit_if a.commit >> pure op)
              (Adds-insert d (operation_conflict op) (post env.now op) (λ db. h id seq db))
              (λ _.
                Adds-then (pos 0) (commit_if a.commit) (λ _. pure op) (Adds-commit_if a.commit)
                  (λ _. Adds-pure op))

-- A posted operation moves the stock of its product by its delta, and of no other.
pub Adds-record_operation :
    (product : Text) (env : Env) (a : Draft)
    → Adds (stock_of product) (delta_for product a.product_id a.qty_delta) (record_operation env a)
Adds-record_operation product env a =
    Adds-record (stock_of product) _ env a
      λ id seq db. stock_of-post product env.now (operation_row env a id seq) db

-- It moves no number that the operations and the cached quantities have no part in.
pub Adds-record_operation_none :
    (μ : Db → ℤ) (env : Env) (a : Draft)
    → ((o : Operation) (db : Db) → μ (post env.now o db) ≡ μ db)
    → Adds μ (pos 0) (record_operation env a)
Adds-record_operation_none μ env a h =
    Adds-record μ (pos 0) env a
      λ id seq db. rw (h (operation_row env a id seq) db) (sym (+ℤ-zero (μ db)))
