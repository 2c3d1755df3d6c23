-- ===== src/Returns/Stock.antt =====
-- `register_return`: the invariant of the stock, for a sale that names its batch.
use myorishop.Prelude.{
  Option, none, some, ℤ, pos, ℕ, ◌-ℤ◌, ◌==ℤ◌, ltb_ℤ, leb_ℤ, ◌==◌, ◌&&◌, ◌≡◌, if-both,
}
use myorishop.Text.{Text, parse_qty}
use myorishop.Models.{Warehouse, Operation}
use myorishop.Db.{Db, find_operation, find_product}
use myorishop.Session.{Env, Session, integrity_error, gets, commit, pure, local_today_iso}
use myorishop.Session.Keeps.{
  Keeps, Both, Keeps-bind, Keeps-pure, Keeps-raise, Keeps-commit, Keeps-gets, Keeps-attempt,
}
use myorishop.Ledger.{OpDate, accepted, refused, record_operation, parse_op_date, date_or}
use myorishop.Ledger.Projection.{IsConsistent}
use myorishop.Ledger.Record.{Keeps-record_operation}
use myorishop.Finance.{record_cash_movement}
use myorishop.Finance.Record.{Keeps-record_cash_movement}
use myorishop.Returns.{
  ReturnForm, returned, is_sale, returnable_qty, origin_allowed, resolve_or_create_return_batch_id,
  return_draft, debit_of, refund_draft, refund_in, refund, stage_return, return_failed,
  write_return, return_dated, return_capped, return_from, register_return,
}

Keeps-refund_in :
    (env : Env) (sale_id date : Text) (debit : ℤ) (w : Option Warehouse)
    → Keeps (Both IsConsistent) (refund_in env sale_id date debit w)
Keeps-refund_in env sale_id date debit none = Keeps-raise integrity_error
Keeps-refund_in env sale_id date debit (some w) =
    let a = refund_draft w.currency sale_id date debit in
    Keeps-bind (record_cash_movement env a) (λ _. pure tt) (Keeps-record_cash_movement env a)
      (λ _. Keeps-pure tt)

Keeps-refund :
    (env : Env) (sale_id batch_id date : Text) (debit : ℤ)
    → Keeps (Both IsConsistent) (refund env sale_id batch_id date debit)
Keeps-refund env sale_id batch_id date debit =
    if-both (Keeps (Both IsConsistent)) (debit ==ℤ pos 0) _ _ (Keeps-pure tt)
      (Keeps-bind (gets _) _ (Keeps-gets _) (Keeps-refund_in env sale_id date debit))

module _ (env : Env) (origin : Operation) (batch : Text) (own : origin.batch_id ≡ some batch) where
  Keeps-resolve : Keeps (Both IsConsistent) (resolve_or_create_return_batch_id env origin)
  unfolding resolve_or_create_return_batch_id
  Keeps-resolve = rw own (Keeps-pure batch)

  Keeps-stage_return :
      (sale_id date : Text) (qty : ℕ)
      → Keeps (Both IsConsistent) (stage_return env origin sale_id date qty)
  Keeps-stage_return sale_id date qty =
      Keeps-bind (resolve_or_create_return_batch_id env origin) _ Keeps-resolve λ id.
        let a = return_draft origin sale_id id date qty in
        Keeps-bind (record_operation env a) _ (Keeps-record_operation env a (λ audit. cc)) λ op.
          Keeps-bind (refund env sale_id id date (debit_of origin qty)) (λ _. pure op)
            (Keeps-refund env sale_id id date (debit_of origin qty)) (λ _. Keeps-pure op)

  Keeps-write_return :
      (sale_id date : Text) (qty : ℕ) (remaining : ℤ)
      → Keeps (Both IsConsistent) (write_return env origin sale_id date qty remaining)
  Keeps-write_return sale_id date qty remaining = Keeps-attempt _ return_failed (
      Keeps-bind (stage_return env origin sale_id date qty) _ (Keeps-stage_return sale_id date qty)
        (λ op. Keeps-bind commit _ Keeps-commit (λ _.
          Keeps-gets (λ db.
            returned (find_product origin.product_id db.products) op (remaining -ℤ pos qty)))))

  Keeps-return_dated :
      (sale_id : Text) (qty : ℕ) (remaining : ℤ) (d : OpDate)
      → Keeps (Both IsConsistent) (return_dated env origin sale_id qty remaining d)
  Keeps-return_dated sale_id qty remaining (refused e) = Keeps-pure _
  Keeps-return_dated sale_id qty remaining (accepted d) =
      Keeps-write_return sale_id (date_or d (local_today_iso env)) qty remaining

  Keeps-return_capped :
      (f : ReturnForm) (sale_id : Text) (remaining : ℤ)
      → Keeps (Both IsConsistent) (return_capped env f origin sale_id remaining)
  Keeps-return_capped f sale_id remaining =
      let Q = Keeps (Both IsConsistent) in
      if-both Q (parse_qty f.qty_raw == 0) _ _ (Keeps-pure _) (
        if-both Q (leb_ℤ remaining (pos 0)) _ _ (Keeps-pure _) (
          if-both Q (ltb_ℤ remaining (pos (parse_qty f.qty_raw))) _ _ (Keeps-pure _) (
            Keeps-return_dated sale_id (parse_qty f.qty_raw) remaining
              (parse_op_date env f.op_date))))

  Keeps-return_from :
      (f : ReturnForm) (db : Db) (sale_id : Option Text)
      → Keeps (Both IsConsistent) (return_from env f db origin sale_id)
  Keeps-return_from f db none = Keeps-pure _
  Keeps-return_from f db (some id) =
      if-both (Keeps (Both IsConsistent)) (is_sale origin.type && origin_allowed env db origin) _ _
        (Keeps-return_capped f id (returnable_qty db.operations id origin.product_id))
        (Keeps-pure _)

-- However a return of a sale that names its batch ends, every cached quantity is still what the
-- ledger gives, in the committed tables and in what is staged.
pub register_return-IsConsistent :
    (env : Env) (f : ReturnForm) (s : Session) (origin : Operation) (batch : Text)
    → find_operation f.origin_op_id s.staged.operations ≡ some origin
    → origin.batch_id ≡ some batch
    → IsConsistent s.committed
    → IsConsistent s.staged
    → Both IsConsistent (register_return env f s).1
unfolding register_return
register_return-IsConsistent env f s origin batch found own committed staged = rw found (
    (Keeps-return_from env origin batch own f s.staged origin.sale_id).at s
      (record { committed = committed; staged = staged }))
