-- ===== src/Receipts/Received.antt =====
-- `register_receipt`: what the answer says of the committed tables.
use myorishop.Prelude.{
  true, false, Option, none, some, List, [], ◌∷◌, pos, ◌+ℤ◌, ◌+◌, ◌≡◌, refl, ◌⊎◌, inl, inr, arith,
  if-cases, ◌∙◌, subst, sym, ap, map_option, any, Bool-cases,
}
use myorishop.Text.{Text, eq_text, eq_text_sound, eq_text_refl, strip, parse_qty}
use myorishop.Extends.{Extends}
use myorishop.Models.{Product, Batch, Operation}
use myorishop.Money.{PriceSet, rub, uah, eur, cost, sale, card_price_fields}
use myorishop.Db.{Db, active_product, find_batch, product_conflict, batch_conflict}
use myorishop.Session.{
  Env, Session, Action, value_error, warehouse_access, integrity_error, Result, ok, err, insert,
  commit, pure, new_id, resume, ◌>>◌,
}
use myorishop.Session.Measure.{Moved}
use myorishop.Session.Yields.{Value, Yields, Yields-bind, Yields-pure}
use myorishop.Ledger.{record_operation}
use myorishop.Ledger.Moves.{stock_of, delta_for, Adds-record_operation}
use myorishop.Ledger.Posts.{
  Posts, record_operation-Posts, held, held-post, find_batch-id, after-insert,
}
use myorishop.Batches.{add_batch, warehouse_currency}
use myorishop.Receipts.Audit.{Quiet, Relates-product_for}
use myorishop.Session.{close_with}
use myorishop.Db.{add_product}
use myorishop.Receipts.{
  ReceiptForm, ReceiptError, ReceiptResult, duplicate_code, received, refused_receipt,
  receipt_errors, cost_of, sale_of, new_card, created_draft, receipt_draft, change_price,
  product_for, new_batch, receive, is_top_up, top_up, open_batch, is_new_batch, receive_into,
  receipt_checked, register_receipt,
}

-- The product was picked by the code, or created with it.
abbrev pub IsCardOf : ReceiptForm → Db → Product → Type 0
IsCardOf f db p =
    (active_product (strip f.code) db.products ≡ some p)
    ⊎ ((active_product (strip f.code) db.products ≡ none) × (p.code ≡ some (strip f.code)))

-- The batch was there, or it is a new and empty one.
abbrev pub IsLotOf : ReceiptForm → Db → Batch → Type 0
IsLotOf f db b =
    (find_batch (strip f.batch_choice) db.batches ≡ some b)
    ⊎ ((is_new_batch f ≡ true) × (find_batch b.id db.batches ≡ none) × (b.quantity ≡ pos 0))

pub record Received (f : ReceiptForm) (p : Product) (op : Operation) (b : Batch) (before after : Db)
    : Type 0 where
  pub card : IsCardOf f before p
  pub lot : IsLotOf f before b
  pub own : (b.product_id ≡ p.id) × (b.warehouse_id ≡ strip f.warehouse_id)
  pub row : (op.batch_id ≡ some b.id) × (op.qty_delta ≡ pos (parse_qty f.qty_raw))
  pub ledger : (os : List Operation) × (after.operations ≡ op ∷ os) × Extends before.operations os
  pub got : held b.id after ≡ some (b.quantity +ℤ pos (parse_qty f.qty_raw))
  pub stock :
      (product : Text)
      → stock_of product after
        ≡ stock_of product before +ℤ delta_for product p.id (pos (parse_qty f.qty_raw))

not_there :
    (id : Text) (bs : List Batch) → any (λ x. eq_text x.id id) bs ≡ false → find_batch id bs ≡ none
not_there id [] h = refl
not_there id (b ∷ bs) h = elim (Bool-cases (eq_text b.id id)) [
  | inl same ↦ ground arith
  | inr other ↦ ground (arith, not_there id bs)
]

module _ (env : Env) (f : ReceiptForm) (before : Db) where
  abbrev ReceivedBy : Result ReceiptResult → Session → Type 0
  ReceivedBy (ok (received p op b)) s' = Received f p op b before s'.committed
  ReceivedBy (ok (refused_receipt es)) s' = Unit
  ReceivedBy (err e) s' = Unit

  receive-Received :
      (p : Product) (b : Batch) (s : Session)
      → IsCardOf f before p
      → IsLotOf f before b
      → (b.product_id ≡ p.id) × (b.warehouse_id ≡ strip f.warehouse_id)
      → find_batch b.id s.staged.batches ≡ some b
      → Extends before.operations s.staged.operations
      → ((product : Text) → stock_of product s.staged ≡ stock_of product before)
      → ReceivedBy (receive env f p b s).0 (receive env f p b s).1
  unfolding held
  receive-Received p b s card lot own found ledger stock =
      let a = receipt_draft env f p b in
      go (record_operation env a s).0 (record_operation env a s).1 (record_operation-Posts env a s)
        (λ product. (Adds-record_operation product env a).at s)
    where
      go :
          (r : Result Operation) (s' : Session)
          → Posts env (receipt_draft env f p b) s r s'
          → ((product : Text)
              → Moved
                  (stock_of product)
                  (stock_of product s.staged)
                  (delta_for product p.id (pos (parse_qty f.qty_raw)))
                  r
                  s')
          → let m = resume r (λ op. commit >> pure (received p op b)) s' in
            let e = close_with (refused_receipt (duplicate_code ∷ [])) m.0 m.1 in ReceivedBy e.0 e.1
      go (ok op) s' posts moved = record {
        card = card;
        lot = lot;
        own = own;
        row = (posts.1, posts.2);
        ledger = (s.staged.operations, ap (λ (db : Db). db.operations) posts.0, ledger);
        got =
            ap (held b.id) posts.0
            ∙ held-post env.now b.id op s.staged posts.1
            ∙ ap (map_option (λ n. n +ℤ op.qty_delta)) (ap (map_option (λ x. x.quantity)) found)
            ∙ ap (λ d. some (b.quantity +ℤ d)) posts.2;
        stock = λ product.
            moved product
            ∙ ap (λ n. n +ℤ delta_for product p.id (pos (parse_qty f.qty_raw))) (stock product);
      }
      go (err integrity_error) s' posts moved = tt
      go (err value_error) s' posts moved = tt
      go (err warehouse_access) s' posts moved = tt

  top_up-Received :
      (p : Product) (o : Option Batch) (s : Session)
      → IsCardOf f before p
      → Quiet before s.staged
      → find_batch (strip f.batch_choice) s.staged.batches ≡ o
      → ReceivedBy (top_up env f p o s).0 (top_up env f p o s).1
  top_up-Received p none s card quiet e = tt
  top_up-Received p (some b) s card quiet e =
      if-cases (λ (m : Action ReceiptResult). ReceivedBy (m s).0 (m s).1) (is_top_up f p b) _ _
        (λ h.
          receive-Received p b s card
            (inl (subst (λ bs. find_batch (strip f.batch_choice) bs ≡ some b) quiet.batches e))
            (
              ground (arith, eq_text_sound b.product_id p.id),
              ground (arith, eq_text_sound b.warehouse_id (strip f.warehouse_id)),
            )
            (subst (λ id. find_batch id s.staged.batches ≡ some b)
              (sym (find_batch-id (strip f.batch_choice) s.staged.batches b e)) e)
            quiet.operations quiet.stock)
        (λ h. tt)

  open_batch-Received :
      (p : Product) (s : Session)
      → IsCardOf f before p
      → Quiet before s.staged
      → is_new_batch f ≡ true
      → ReceivedBy (open_batch env f p s).0 (open_batch env f p s).1
  open_batch-Received p s card quiet chosen =
      let b = new_batch env f p (env.uuid s.drawn) in
      after-insert ReceivedBy (λ x s'. tt) (batch_conflict b) (add_batch b) (λ _. receive env f p b)
        (record s { drawn = s.drawn + 1 })
        λ free.
          receive-Received p b (record s { drawn = s.drawn + 1; staged = add_batch b s.staged })
            card
            (inr (
              chosen,
              subst (λ bs. find_batch b.id bs ≡ none) quiet.batches
                  (not_there b.id s.staged.batches (ground arith)),
              refl,
            ))
            (refl, refl) (rw (eq_text_refl b.id) refl) quiet.operations quiet.stock

  receive_into-Received :
      (p : Product) (s : Session)
      → IsCardOf f before p
      → Quiet before s.staged
      → ReceivedBy (receive_into env f p s).0 (receive_into env f p s).1
  receive_into-Received p s card quiet =
      if-cases (λ (m : Action ReceiptResult). ReceivedBy (m s).0 (m s).1) (is_new_batch f) _ _
        (λ chosen. open_batch-Received p s card quiet chosen)
        (λ h. top_up-Received p _ s card quiet refl)

-- The product of the receipt.
Yields-product_for :
    (env : Env) (f : ReceiptForm) (set : PriceSet) (db : Db) (o : Option Product)
    → active_product (strip f.code) db.products ≡ o
    → Yields (IsCardOf f db) (product_for env f set o)
Yields-product_for env f set db none e = Yields-bind (IsCardOf f db) (new_id env) _ λ id.
    let p = new_card env f set id in
    Yields-bind (IsCardOf f db) (insert (product_conflict p) (add_product p)) _ λ _.
      Yields-bind (IsCardOf f db) (record_operation env (created_draft f p)) (λ _. pure p)
        (λ _. Yields-pure (IsCardOf f db) p (inr (e, code_kept set id)))
  where
    code_kept : (set : PriceSet) (id : Text) → (new_card env f set id).code ≡ some (strip f.code)
    code_kept rub id = refl
    code_kept uah id = refl
    code_kept eur id = refl
Yields-product_for env f set db (some p) e =
    Yields-bind (IsCardOf f db) (change_price env p set cost (cost_of f)) _ λ _.
      Yields-bind (IsCardOf f db) (change_price env p set sale (sale_of f)) (λ _. pure p)
        (λ _. Yields-pure (IsCardOf f db) p (inl e))

receipt_checked-Received :
    (env : Env) (f : ReceiptForm) (es : List ReceiptError) (s : Session)
    → let m = receipt_checked env f s.staged es s in ReceivedBy env f s.staged m.0 m.1
receipt_checked-Received env f (e ∷ es) s = tt
receipt_checked-Received env f [] s =
    let m = product_for env f set o in
    go (m s).0 (m s).1 ((Relates-product_for env f set o).at s)
      ((Yields-product_for env f set s.staged o refl).at s)
  where
    set : PriceSet
    set = card_price_fields (warehouse_currency (strip f.warehouse_id) s.staged.warehouses)

    o : Option Product
    o = active_product (strip f.code) s.staged.products

    go :
        (r : Result Product) (s' : Session)
        → Quiet s.staged s'.staged
        → Value (IsCardOf f s.staged) r
        → let m = resume r (receive_into env f) s' in ReceivedBy env f s.staged m.0 m.1
    go (ok p) s' quiet card = receive_into-Received env f s.staged p s' card quiet
    go (err e) s' quiet card = tt

-- A receipt that was received is of the active product of the code, or of a new card with that code
-- where no active product had it, and of a batch of that product in the named warehouse: the chosen
-- one, or a new and empty one. The committed ledger extends the old one and has the receipt's row on
-- top; the batch holds the form's quantity more, the product's stock is that much more, and no other
-- product's stock moved.
pub register_receipt-Received :
    (env : Env) (f : ReceiptForm) (s : Session) (p : Product) (op : Operation) (b : Batch)
    → (register_receipt env f s).0 ≡ ok (received p op b)
    → Received f p op b s.staged (register_receipt env f s).1.committed
unfolding register_receipt
register_receipt-Received env f s p op b e =
    subst (λ r. ReceivedBy env f s.staged r (register_receipt env f s).1) e
      (receipt_checked-Received env f (receipt_errors env f s.staged) s)
