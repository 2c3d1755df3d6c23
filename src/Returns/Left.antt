-- ===== src/Returns/Left.antt =====
-- `register_return`: by how much its writes lower what may still be returned.
use myorishop.Prelude.{
  Option, none, some, ℤ, pos, neg, ℕ, ◌+ℤ◌, ◌-ℤ◌, ◌==ℤ◌, ◌≡◌, refl, sym, int_laws, +ℤ-zero, if-both,
}
use myorishop.Text.{Text, eq_text_refl}
use myorishop.Models.{Batch, Warehouse, Operation}
use myorishop.Db.{Db, batch_conflict}
use myorishop.Session.{Env, integrity_error, gets, insert, pure, new_id}
use myorishop.Session.Measure.{
  Adds, Adds-then, Adds-first, Adds-pure, Adds-raise, Adds-gets, Adds-new_id, Adds-insert,
}
use myorishop.Ledger.{record_operation, operation_row, post, sum_where}
use myorishop.Ledger.Moves.{Adds-record}
use myorishop.Finance.{record_cash_movement}
use myorishop.Finance.Moves.{Adds-record_cash_movement_none}
use myorishop.Batches.{legacy_batch, add_batch}
use myorishop.Returns.{
  sold_qty, returnable_qty, lazy_batch, create_legacy, return_batch_id,
  resolve_or_create_return_batch_id, return_draft, debit_of, refund_draft, refund_in, refund,
  stage_return,
}

-- What may still be returned of a product of a sale.
abbrev pub left_of : Text → Text → Db → ℤ
left_of sale_id product db = returnable_qty db.operations sale_id product

-- A return's own row lowers it by the quantity.
left_of-post :
    (env : Env) (origin : Operation) (sale_id batch_id date : Text) (qty : ℕ) (id : Text) (seq : ℤ)
    (db : Db)
    → let o = operation_row env (return_draft origin sale_id batch_id date qty) id seq in
      left_of sale_id origin.product_id (post env.now o db)
      ≡ left_of sale_id origin.product_id db +ℤ neg (pos qty)
unfolding returnable_qty sold_qty sum_where
left_of-post env origin sale_id batch_id date qty id seq db =
    rw (eq_text_refl sale_id, eq_text_refl origin.product_id) (less _ _ (pos qty))
  where
    less : (sold back n : ℤ) → sold -ℤ (n +ℤ back) ≡ (sold -ℤ back) +ℤ neg n
    less sold back n = omega int_laws

module _ (sale_id product : Text) where
  Adds-create_legacy_none :
      (env : Env) (p : Text) (found : Option Batch)
      → Adds (left_of sale_id product) (pos 0) (create_legacy env p found)
  Adds-create_legacy_none env p (some b) = Adds-pure b.id
  Adds-create_legacy_none env p none = Adds-then (pos 0) (new_id env) _ (Adds-new_id env) λ id.
      let b = lazy_batch env p id in
      Adds-then (pos 0) (insert (batch_conflict b) (add_batch b)) (λ _. pure id)
        (Adds-insert (pos 0) (batch_conflict b) (add_batch b)
          (λ db. sym (+ℤ-zero (left_of sale_id product db))))
        (λ _. Adds-pure id)

  Adds-return_batch_id_none :
      (env : Env) (p : Text) (id : Option Text)
      → Adds (left_of sale_id product) (pos 0) (return_batch_id env p id)
  Adds-return_batch_id_none env p (some id) = Adds-pure id
  Adds-return_batch_id_none env p none =
      Adds-then (pos 0) (gets (λ db. legacy_batch p db.batches)) _ (Adds-gets _)
        (Adds-create_legacy_none env p)

  Adds-resolve_none :
      (env : Env) (origin : Operation)
      → Adds (left_of sale_id product) (pos 0) (resolve_or_create_return_batch_id env origin)
  unfolding resolve_or_create_return_batch_id
  Adds-resolve_none env origin = Adds-return_batch_id_none env origin.product_id origin.batch_id

  Adds-refund_in_none :
      (env : Env) (s date : Text) (debit : ℤ) (w : Option Warehouse)
      → Adds (left_of sale_id product) (pos 0) (refund_in env s date debit w)
  Adds-refund_in_none env s date debit none = Adds-raise (pos 0) integrity_error
  Adds-refund_in_none env s date debit (some w) =
      let a = refund_draft w.currency s date debit in
      Adds-then (pos 0) (record_cash_movement env a) (λ _. pure tt)
        (Adds-record_cash_movement_none (left_of sale_id product) env a (λ m db. refl))
        (λ _. Adds-pure tt)

  Adds-refund_none :
      (env : Env) (s batch_id date : Text) (debit : ℤ)
      → Adds (left_of sale_id product) (pos 0) (refund env s batch_id date debit)
  Adds-refund_none env s batch_id date debit =
      if-both (Adds (left_of sale_id product) (pos 0)) (debit ==ℤ pos 0) _ _ (Adds-pure tt)
        (Adds-then (pos 0) (gets _) _ (Adds-gets _) (Adds-refund_in_none env s date debit))

-- The writes of a return lower what is left by its quantity.
pub Adds-stage_return :
    (env : Env) (origin : Operation) (sale_id date : Text) (qty : ℕ)
    → Adds
        (left_of sale_id origin.product_id)
        (neg (pos qty))
        (stage_return env origin sale_id date qty)
Adds-stage_return env origin sale_id date qty =
    Adds-then (neg (pos qty)) (resolve_or_create_return_batch_id env origin) _
      (Adds-resolve_none sale_id origin.product_id env origin)
      λ id.
        let a = return_draft origin sale_id id date qty in
        Adds-first (neg (pos qty)) (record_operation env a) _
          (Adds-record (left_of sale_id origin.product_id) (neg (pos qty)) env a
            (left_of-post env origin sale_id id date qty))
          λ op.
            Adds-then (pos 0) (refund env sale_id id date (debit_of origin qty)) (λ _. pure op)
              (Adds-refund_none sale_id origin.product_id env sale_id id date (debit_of origin qty))
              (λ _. Adds-pure op)
