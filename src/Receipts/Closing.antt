-- ===== src/Receipts/Closing.antt =====
-- `register_receipt`: nothing of a receipt is committed without the rest.
use myorishop.Prelude.{Option, none, some, List, [], ◌∷◌, ℤ, ◌≡◌, refl, if-both, inr}
use myorishop.Text.{strip}
use myorishop.Models.{Product, Batch}
use myorishop.Money.{PriceSet, PriceKind, cost, sale, card_price_fields}
use myorishop.Db.{active_product, find_batch, product_conflict, batch_conflict}
use myorishop.Session.{Env, Session, gets, insert, pure, new_id}
use myorishop.Session.Atomic.{
  Stages, Stages-bind, Stages-pure, Stages-gets, Stages-new_id, Stages-insert, Stages-modify,
}
use myorishop.Session.Atomic.{Commits-bind, Commits-commit}
use myorishop.Session.Closes.{Closed, Closes, Closes-bind, Closes-closing}
use myorishop.Ledger.{record_operation}
use myorishop.Ledger.Staging.{Stages-record_operation}
use myorishop.Batches.{add_batch, warehouse_currency}
use myorishop.Db.{add_product}
use myorishop.Receipts.{
  ReceiptForm, ReceiptError, duplicate_code, received, refused_receipt, is_received, receipt_errors,
  cost_of, sale_of, new_card, created_draft, price_draft, receipt_draft, set_price, is_price,
  change_price, product_for, new_batch, receive, reject, is_top_up, top_up, is_new_batch,
  receive_into, receipt_checked, register_receipt,
}

Stages-change_price :
    (env : Env) (p : Product) (set : PriceSet) (kind : PriceKind) (a : Option ℤ)
    → Stages (change_price env p set kind a)
Stages-change_price env p set kind none = Stages-pure tt
Stages-change_price env p set kind (some a) = if-both Stages (is_price _ a) _ _ (Stages-pure tt) (
    Stages-bind (record_operation env (price_draft p set kind a)) _
      (Stages-record_operation env (price_draft p set kind a) refl)
      (λ _. Stages-modify (set_price env.now p.id set kind a)))

Stages-product_for :
    (env : Env) (f : ReceiptForm) (set : PriceSet) (o : Option Product)
    → Stages (product_for env f set o)
Stages-product_for env f set none = Stages-bind (new_id env) _ (Stages-new_id env) λ id.
    let p = new_card env f set id in
    Stages-bind (insert (product_conflict p) (add_product p)) _
      (Stages-insert (product_conflict p) (add_product p))
      λ _.
        Stages-bind (record_operation env (created_draft f p)) (λ _. pure p)
          (Stages-record_operation env (created_draft f p) refl) (λ _. Stages-pure p)
Stages-product_for env f set (some p) =
    Stages-bind (change_price env p set cost (cost_of f)) _
      (Stages-change_price env p set cost (cost_of f))
      λ _.
        Stages-bind (change_price env p set sale (sale_of f)) (λ _. pure p)
          (Stages-change_price env p set sale (sale_of f)) (λ _. Stages-pure p)

Closes-receive :
    (env : Env) (f : ReceiptForm) (p : Product) (b : Batch) → Closes is_received (receive env f p b)
Closes-receive env f p b =
    let a = receipt_draft env f p b in
    Closes-closing (refused_receipt (duplicate_code ∷ [])) _ (
      Commits-bind (record_operation env a) _ (Stages-record_operation env a refl)
        (λ op. Commits-commit (received p op b) refl))

Closes-reject : (es : List ReceiptError) → Closes is_received (reject es)
Closes-reject es = record { at = λ s. (refl, inr refl) }

Closes-top_up :
    (env : Env) (f : ReceiptForm) (p : Product) (o : Option Batch)
    → Closes is_received (top_up env f p o)
Closes-top_up env f p none = Closes-reject _
Closes-top_up env f p (some b) =
    if-both (Closes is_received) (is_top_up f p b) _ _ (Closes-receive env f p b) (Closes-reject _)

Closes-receive_into :
    (env : Env) (f : ReceiptForm) (p : Product) → Closes is_received (receive_into env f p)
Closes-receive_into env f p =
    if-both (Closes is_received) (is_new_batch f) _ _
      (Closes-bind (new_id env) _ (Stages-new_id env) λ id.
        let b = new_batch env f p id in
        Closes-bind (insert (batch_conflict b) (add_batch b)) _
          (Stages-insert (batch_conflict b) (add_batch b)) (λ _. Closes-receive env f p b))
      (Closes-bind (gets (λ db. find_batch (strip f.batch_choice) db.batches)) _
        (Stages-gets (λ db. find_batch (strip f.batch_choice) db.batches))
        (λ b. Closes-top_up env f p b))

receipt_checked-Closed :
    (env : Env) (f : ReceiptForm) (es : List ReceiptError) (s : Session)
    → s.staged ≡ s.committed
    → let m = receipt_checked env f s.staged es s in Closed is_received s m.0 m.1
receipt_checked-Closed env f (e ∷ es) s clean = (clean, inr refl)
receipt_checked-Closed env f [] s clean =
    let db = s.staged in
    let set = card_price_fields (warehouse_currency (strip f.warehouse_id) db.warehouses) in
    let o = active_product (strip f.code) db.products in
    (Closes-bind (product_for env f set o) (receive_into env f) (Stages-product_for env f set o)
        (Closes-receive_into env f)).at
      s

-- From a session with nothing uncommitted, a receipt that answers leaves nothing uncommitted, and
-- unless its answer is a receipt the committed tables are as they were; one that raises has committed
-- nothing. So a new card, a price change and a new batch never stay without the row of the receipt.
pub register_receipt-Closed :
    (env : Env) (f : ReceiptForm) (s : Session)
    → s.staged ≡ s.committed
    → Closed is_received s (register_receipt env f s).0 (register_receipt env f s).1
unfolding register_receipt
register_receipt-Closed env f s clean =
    receipt_checked-Closed env f (receipt_errors env f s.staged) s clean
