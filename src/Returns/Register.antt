-- ===== src/Returns/Register.antt =====
-- `register_return`: all or nothing.
use myorishop.Prelude.{
  ◌&&◌, Option, none, some, ℤ, pos, ℕ, ◌-ℤ◌, ◌==ℤ◌, ltb_ℤ, leb_ℤ, ◌==◌, ◌≡◌, refl, if-both,
}
use myorishop.Text.{Text, parse_qty}
use myorishop.Models.{Batch, Warehouse, Operation}
use myorishop.Db.{Db, find_operation, find_product, batch_conflict}
use myorishop.Session.{Env, Session, integrity_error, gets, insert, pure, new_id, local_today_iso}
use myorishop.Session.Atomic.{
  Stages, Stages-bind, Stages-pure, Stages-raise, Stages-gets, Stages-new_id, Stages-insert,
  Commits-bind, Commits-commit_gets, IsAtomic, AllOrNothing, IsAtomic-pure, IsAtomic-gets,
  IsAtomic-attempt,
}
use myorishop.Ledger.{OpDate, accepted, refused, record_operation, parse_op_date, date_or}
use myorishop.Ledger.Staging.{Stages-record_operation}
use myorishop.Finance.{record_cash_movement}
use myorishop.Finance.Record.{Stages-record_cash_movement}
use myorishop.Batches.{legacy_batch, add_batch}
use myorishop.Returns.{
  ReturnForm, returned, is_returned, is_sale, returnable_qty, origin_allowed, lazy_batch,
  create_legacy, return_batch_id, resolve_or_create_return_batch_id, return_draft, debit_of,
  refund_draft, refund_in, refund, stage_return, return_failed, write_return, return_dated,
  return_capped, return_from, return_of, register_return,
}

Stages-create_legacy :
    (env : Env) (product : Text) (found : Option Batch) → Stages (create_legacy env product found)
Stages-create_legacy env product (some b) = Stages-pure b.id
Stages-create_legacy env product none = Stages-bind (new_id env) _ (Stages-new_id env) λ id.
    let b = lazy_batch env product id in
    Stages-bind (insert (batch_conflict b) (add_batch b)) (λ _. pure id)
      (Stages-insert (batch_conflict b) (add_batch b)) (λ _. Stages-pure id)

Stages-return_batch_id :
    (env : Env) (product : Text) (id : Option Text) → Stages (return_batch_id env product id)
Stages-return_batch_id env product (some id) = Stages-pure id
Stages-return_batch_id env product none =
    Stages-bind (gets (λ db. legacy_batch product db.batches)) _ (Stages-gets _)
      (Stages-create_legacy env product)

Stages-resolve :
    (env : Env) (origin : Operation) → Stages (resolve_or_create_return_batch_id env origin)
unfolding resolve_or_create_return_batch_id
Stages-resolve env origin = Stages-return_batch_id env origin.product_id origin.batch_id

Stages-refund_in :
    (env : Env) (sale_id date : Text) (debit : ℤ) (w : Option Warehouse)
    → Stages (refund_in env sale_id date debit w)
Stages-refund_in env sale_id date debit none = Stages-raise integrity_error
Stages-refund_in env sale_id date debit (some w) =
    let a = refund_draft w.currency sale_id date debit in
    Stages-bind (record_cash_movement env a) (λ _. pure tt) (Stages-record_cash_movement env a refl)
      (λ _. Stages-pure tt)

Stages-refund :
    (env : Env) (sale_id batch_id date : Text) (debit : ℤ)
    → Stages (refund env sale_id batch_id date debit)
Stages-refund env sale_id batch_id date debit =
    if-both Stages (debit ==ℤ pos 0) _ _ (Stages-pure tt)
      (Stages-bind (gets _) _ (Stages-gets _) (Stages-refund_in env sale_id date debit))

Stages-stage_return :
    (env : Env) (origin : Operation) (sale_id date : Text) (qty : ℕ)
    → Stages (stage_return env origin sale_id date qty)
Stages-stage_return env origin sale_id date qty =
    Stages-bind (resolve_or_create_return_batch_id env origin) _ (Stages-resolve env origin) λ id.
      let a = return_draft origin sale_id id date qty in
      Stages-bind (record_operation env a) _ (Stages-record_operation env a refl) λ op.
        Stages-bind (refund env sale_id id date (debit_of origin qty)) (λ _. pure op)
          (Stages-refund env sale_id id date (debit_of origin qty)) (λ _. Stages-pure op)

write_return-IsAtomic :
    (env : Env) (origin : Operation) (sale_id date : Text) (qty : ℕ) (remaining : ℤ)
    → IsAtomic is_returned (write_return env origin sale_id date qty remaining)
write_return-IsAtomic env origin sale_id date qty remaining = IsAtomic-attempt _ return_failed (
    Commits-bind (stage_return env origin sale_id date qty) _
      (Stages-stage_return env origin sale_id date qty)
      (λ op.
        Commits-commit_gets
          (λ db. returned (find_product origin.product_id db.products) op (remaining -ℤ pos qty))
          (λ db. refl)))

return_dated-IsAtomic :
    (env : Env) (origin : Operation) (sale_id : Text) (qty : ℕ) (remaining : ℤ) (d : OpDate)
    → IsAtomic is_returned (return_dated env origin sale_id qty remaining d)
return_dated-IsAtomic env origin sale_id qty remaining (refused e) = IsAtomic-pure _
return_dated-IsAtomic env origin sale_id qty remaining (accepted d) =
    write_return-IsAtomic env origin sale_id (date_or d (local_today_iso env)) qty remaining

return_capped-IsAtomic :
    (env : Env) (f : ReturnForm) (origin : Operation) (sale_id : Text) (remaining : ℤ)
    → IsAtomic is_returned (return_capped env f origin sale_id remaining)
return_capped-IsAtomic env f origin sale_id remaining =
    let Q = IsAtomic is_returned in
    if-both Q (parse_qty f.qty_raw == 0) _ _ (IsAtomic-pure _) (
      if-both Q (leb_ℤ remaining (pos 0)) _ _ (IsAtomic-pure _) (
        if-both Q (ltb_ℤ remaining (pos (parse_qty f.qty_raw))) _ _ (IsAtomic-pure _) (
          return_dated-IsAtomic env origin sale_id (parse_qty f.qty_raw) remaining
            (parse_op_date env f.op_date))))

return_from-IsAtomic :
    (env : Env) (f : ReturnForm) (db : Db) (origin : Operation) (sale_id : Option Text)
    → IsAtomic is_returned (return_from env f db origin sale_id)
return_from-IsAtomic env f db origin none = IsAtomic-pure _
return_from-IsAtomic env f db origin (some id) =
    if-both (IsAtomic is_returned) (is_sale origin.type && origin_allowed env db origin) _ _
      (return_capped-IsAtomic env f origin id (returnable_qty db.operations id origin.product_id))
      (IsAtomic-pure _)

return_of-IsAtomic :
    (env : Env) (f : ReturnForm) (db : Db) (o : Option Operation)
    → IsAtomic is_returned (return_of env f db o)
return_of-IsAtomic env f db none = IsAtomic-pure _
return_of-IsAtomic env f db (some origin) = return_from-IsAtomic env f db origin origin.sale_id

-- From a session with nothing uncommitted a return raises nothing and leaves nothing uncommitted, and
-- unless its answer is the written return the committed tables are as they were.
pub register_return-AllOrNothing :
    (env : Env) (f : ReturnForm) (s : Session)
    → s.staged ≡ s.committed
    → AllOrNothing is_returned (register_return env f) s
unfolding register_return
register_return-AllOrNothing env f s clean =
    (IsAtomic-gets (λ db. db) _
        λ db. return_of-IsAtomic env f db (find_operation f.origin_op_id db.operations)).at
      s clean
