-- ===== src/Receipts/Register.antt =====
-- `register_receipt` keeps the invariant of the stock.
use myorishop.Prelude.{false, Option, none, some, List, [], ◌∷◌, ℤ, pos, ◌≡◌, refl, ◌∙◌, if-both}
use myorishop.Text.{strip}
use myorishop.Models.{Product, Batch}
use myorishop.Money.{PriceSet, PriceKind, cost, sale, card_price_fields}
use myorishop.Db.{Db, active_product, find_batch, product_conflict, batch_conflict}
use myorishop.Session.{
  Env, Session, value_error, warehouse_access, integrity_error, Result, ok, err, Action, gets,
  insert, commit, pure, new_id,
}
use myorishop.Session.Keeps.{
  Keeps, Both, Keeps-bind, Keeps-pure, Keeps-insert, Keeps-commit, Keeps-new_id, Keeps-gets,
  Keeps-modify,
}
use myorishop.Ledger.{is_legacy, record_operation}
use myorishop.Batches.{add_batch, warehouse_currency}
use myorishop.Batches.Add.{add_batch-IsConsistent}
use myorishop.Session.{close_with, closing}
use myorishop.Db.{add_product}
use myorishop.Receipts.{
  ReceiptForm, ReceiptError, ReceiptResult, duplicate_code, received, refused_receipt,
  receipt_errors, cost_of, sale_of, new_card, created_draft, price_draft, receipt_draft, set_price,
  is_price, change_price, product_for, new_batch, receive, reject, is_top_up, top_up, is_new_batch,
  receive_into, receipt_checked, register_receipt,
}
use myorishop.Receipts.Stock.{
  IsSound, Keeps-record_operation, add_product-IsSound, set_price-IsSound, with_price-same,
}

add_batch-IsSound :
    (b : Batch) (db : Db)
    → b.quantity ≡ pos 0
    → is_legacy b ≡ false
    → IsSound db
    → batch_conflict b db ≡ false
    → IsSound (add_batch b db)
add_batch-IsSound b db empty new h free = record {
  consistent = add_batch-IsConsistent b db empty new h.consistent free;
  known = h.known;
}

module _ (env : Env) where
  Keeps-change_price :
      (p : Product) (set : PriceSet) (kind : PriceKind) (a : Option ℤ)
      → Keeps (Both IsSound) (change_price env p set kind a)
  Keeps-change_price p set kind none = Keeps-pure tt
  Keeps-change_price p set kind (some a) =
      if-both (Keeps (Both IsSound)) (is_price _ a) _ _ (Keeps-pure tt) (
        Keeps-bind (record_operation env (price_draft p set kind a)) _
          (Keeps-record_operation env (price_draft p set kind a) (λ audit. refl))
          (λ _.
            Keeps-modify (set_price env.now p.id set kind a)
              (set_price-IsSound env.now p.id set kind a)))

  Keeps-product_for :
      (f : ReceiptForm) (set : PriceSet) (o : Option Product)
      → Keeps (Both IsSound) (product_for env f set o)
  Keeps-product_for f set none = Keeps-bind (new_id env) _ (Keeps-new_id env) λ id.
      let p = new_card env f set id in
      let costed = with_price-same set cost (cost_of f) in
      let sold = with_price-same set sale (sale_of f) in
      Keeps-bind (insert (product_conflict p) (add_product p)) _
        (Keeps-insert (product_conflict p) (add_product p)
          (λ db h free. add_product-IsSound p db ((sold _).1 ∙ (costed _).1) h free))
        λ _.
          Keeps-bind (record_operation env (created_draft f p)) (λ _. pure p)
            (Keeps-record_operation env (created_draft f p) (λ audit. refl)) (λ _. Keeps-pure p)
  Keeps-product_for f set (some p) =
      Keeps-bind (change_price env p set cost (cost_of f)) _
        (Keeps-change_price p set cost (cost_of f))
        λ _.
          Keeps-bind (change_price env p set sale (sale_of f)) (λ _. pure p)
            (Keeps-change_price p set sale (sale_of f)) (λ _. Keeps-pure p)

Keeps-reject : (es : List ReceiptError) → Keeps (Both IsSound) (reject es)
Keeps-reject es = record { at = λ s h. record { committed = h.committed; staged = h.committed } }

Keeps-closing :
    (r : ReceiptResult) (m : Action ReceiptResult)
    → Keeps (Both IsSound) m
    → Keeps (Both IsSound) (closing r m)
Keeps-closing r m km = record { at = λ s h. go (m s).0 (m s).1 (km.at s h) }
  where
    go :
        (q : Result ReceiptResult) (s : Session)
        → Both IsSound s
        → Both IsSound (close_with r q s).1
    go (ok a) s h = h
    go (err integrity_error) s h = record { committed = h.committed; staged = h.committed }
    go (err value_error) s h = h
    go (err warehouse_access) s h = h

module _ (env : Env) (f : ReceiptForm) (p : Product) where
  Keeps-receive : (b : Batch) → Keeps (Both IsSound) (receive env f p b)
  Keeps-receive b =
      let a = receipt_draft env f p b in
      Keeps-closing (refused_receipt (duplicate_code ∷ [])) _ (
        Keeps-bind (record_operation env a) _ (Keeps-record_operation env a (λ audit. cc))
          (λ op. Keeps-bind commit (λ _. pure (received p op b)) Keeps-commit (λ _. Keeps-pure _)))

  Keeps-top_up : (o : Option Batch) → Keeps (Both IsSound) (top_up env f p o)
  Keeps-top_up none = Keeps-reject _
  Keeps-top_up (some b) =
      if-both (Keeps (Both IsSound)) (is_top_up f p b) _ _ (Keeps-receive b) (Keeps-reject _)

  Keeps-receive_into : Keeps (Both IsSound) (receive_into env f p)
  Keeps-receive_into =
      if-both (Keeps (Both IsSound)) (is_new_batch f) _ _
        (Keeps-bind (new_id env) _ (Keeps-new_id env) λ id.
          let b = new_batch env f p id in
          Keeps-bind (insert (batch_conflict b) (add_batch b)) _
            (Keeps-insert (batch_conflict b) (add_batch b)
              (λ db h free. add_batch-IsSound b db refl refl h free))
            (λ _. Keeps-receive b))
        (Keeps-bind (gets (λ db. find_batch (strip f.batch_choice) db.batches)) _
          (Keeps-gets (λ db. find_batch (strip f.batch_choice) db.batches)) Keeps-top_up)

Keeps-receipt_checked :
    (env : Env) (f : ReceiptForm) (db : Db) (es : List ReceiptError)
    → Keeps (Both IsSound) (receipt_checked env f db es)
Keeps-receipt_checked env f db (e ∷ es) = Keeps-pure _
Keeps-receipt_checked env f db [] =
    let set = card_price_fields (warehouse_currency (strip f.warehouse_id) db.warehouses) in
    let o = active_product (strip f.code) db.products in
    Keeps-bind (product_for env f set o) (receive_into env f) (Keeps-product_for env f set o)
      (Keeps-receive_into env f)

-- However a receipt ends, every cached quantity is still what the ledger gives, the new card's and the
-- new batch's included, and each row of the ledger is of a product that there is: in the committed
-- tables and in what is staged.
pub register_receipt-IsSound :
    (env : Env) (f : ReceiptForm) (s : Session)
    → Both IsSound s
    → Both IsSound (register_receipt env f s).1
unfolding register_receipt
register_receipt-IsSound env f s sound =
    (Keeps-bind (gets (λ db. db)) _ (Keeps-gets (λ db. db))
        (λ db. Keeps-receipt_checked env f db (receipt_errors env f db))).at
      s sound
