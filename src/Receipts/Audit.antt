-- ===== src/Receipts/Audit.antt =====
-- What a receipt does before its row: the audit rows of a new card or of new prices move no stock.
use myorishop.Prelude.{
  Option, none, some, List, [], ◌∷◌, map, ℤ, pos, ◌≡◌, refl, ap, ◌∙◌, if-both, arith, +ℤ-zero,
  Bool-cases, inl, inr,
}
use myorishop.Text.{Text}
use myorishop.Extends.{Extends, Extends-refl, Extends-trans}
use myorishop.Models.{Product, Batch, Operation}
use myorishop.Money.{PriceSet, PriceKind, cost, sale}
use myorishop.Db.{Db, bump_batch, operation_conflict, product_conflict}
use myorishop.Session.{Env, query, gets, insert, commit_if, pure, new_id}
use myorishop.Session.Relates.{
  Relates, Relates-bind, Relates-pure, Relates-gets, Relates-query, Relates-insert, Relates-modify,
}
use myorishop.Ledger.{Draft, check_operation, next_seq, operation_row, post, record_operation}
use myorishop.Ledger.Moves.{stock_of, delta_for, stock_of-post}
use myorishop.Db.{add_product}
use myorishop.Receipts.{
  ReceiptForm, cost_of, sale_of, new_card, created_draft, price_draft, set_price, is_price,
  change_price, product_for,
}

-- The batches are as they were, rows were only added to the ledger, and no product's stock moved.
pub record Quiet (a b : Db) : Type 0 where
  pub batches : b.batches ≡ a.batches
  pub operations : Extends a.operations b.operations
  pub stock : (product : Text) → stock_of product b ≡ stock_of product a

Quiet-refl : (db : Db) → Quiet db db
Quiet-refl db = record {
  batches = refl;
  operations = Extends-refl db.operations;
  stock = λ product. refl;
}

Quiet-trans : (a b c : Db) → Quiet a b → Quiet b c → Quiet a c
Quiet-trans a b c h k = record {
  batches = k.batches ∙ h.batches;
  operations = Extends-trans a.operations b.operations c.operations h.operations k.operations;
  stock = λ product. k.stock product ∙ h.stock product;
}

no_bump : (now : Text) (d : ℤ) (bs : List Batch) → map (bump_batch now none d) bs ≡ bs
no_bump now d [] = refl
no_bump now d (b ∷ bs) = ap (λ l. b ∷ l) (no_bump now d bs)

no_delta : (product own : Text) → delta_for product own (pos 0) ≡ pos 0
no_delta product own = ground arith

post-Quiet :
    (now : Text) (o : Operation) (db : Db)
    → o.batch_id ≡ none
    → o.qty_delta ≡ pos 0
    → Quiet db (post now o db)
post-Quiet now o db free still = record {
  batches = rw free (no_bump now o.qty_delta db.batches);
  operations = (o ∷ [], refl);
  stock = λ product.
      stock_of-post product now o db
      ∙ rw still (rw (no_delta product o.product_id) (+ℤ-zero (stock_of product db)));
}

Relates-audit :
    (env : Env) (a : Draft)
    → a.batch_id ≡ none
    → a.qty_delta ≡ pos 0
    → Relates Quiet (record_operation env a)
unfolding record_operation
Relates-audit env a free still =
    Relates-bind Quiet-refl Quiet-trans (query (check_operation env a)) _
      (Relates-query Quiet-refl Quiet-trans (check_operation env a))
      λ _.
        Relates-bind Quiet-refl Quiet-trans (new_id env) _
          (record { at = λ s. Quiet-refl s.staged })
          λ id.
            Relates-bind Quiet-refl Quiet-trans (gets (next_seq env.device_id)) _
              (Relates-gets Quiet-refl Quiet-trans (next_seq env.device_id))
              λ seq.
                let op = operation_row env a id seq in
                Relates-bind Quiet-refl Quiet-trans
                  (insert (operation_conflict op) (post env.now op)) _
                  (Relates-insert Quiet-refl Quiet-trans (operation_conflict op) (post env.now op)
                    (λ db. post-Quiet env.now op db free still))
                  λ _.
                    Relates-bind Quiet-refl Quiet-trans (commit_if a.commit) (λ _. pure op)
                      (elim (Bool-cases a.commit) [
                        | inl e ↦ rw e (record { at = λ s. Quiet-refl s.staged })
                        | inr e ↦ rw e (Relates-pure Quiet-refl Quiet-trans tt)
                      ])
                      (λ _. Relates-pure Quiet-refl Quiet-trans op)

module _ (env : Env) where
  Relates-change_price :
      (p : Product) (set : PriceSet) (kind : PriceKind) (a : Option ℤ)
      → Relates Quiet (change_price env p set kind a)
  Relates-change_price p set kind none = Relates-pure Quiet-refl Quiet-trans tt
  Relates-change_price p set kind (some a) =
      if-both (Relates Quiet) (is_price _ a) _ _ (Relates-pure Quiet-refl Quiet-trans tt) (
        Relates-bind Quiet-refl Quiet-trans (record_operation env (price_draft p set kind a)) _
          (Relates-audit env (price_draft p set kind a) refl refl)
          (λ _. Relates-modify (set_price env.now p.id set kind a) (λ db. record {
            batches = refl;
            operations = Extends-refl db.operations;
            stock = λ product. refl;
          })))

  pub Relates-product_for :
      (f : ReceiptForm) (set : PriceSet) (o : Option Product)
      → Relates Quiet (product_for env f set o)
  Relates-product_for f set none =
      Relates-bind Quiet-refl Quiet-trans (new_id env) _ (record { at = λ s. Quiet-refl s.staged })
        λ id.
          let p = new_card env f set id in
          Relates-bind Quiet-refl Quiet-trans (insert (product_conflict p) (add_product p)) _
            (Relates-insert Quiet-refl Quiet-trans (product_conflict p) (add_product p) (λ db.
              record {
                batches = refl;
                operations = Extends-refl db.operations;
                stock = λ product. refl;
              }))
            λ _.
              Relates-bind Quiet-refl Quiet-trans (record_operation env (created_draft f p))
                (λ _. pure p) (Relates-audit env (created_draft f p) refl refl)
                (λ _. Relates-pure Quiet-refl Quiet-trans p)
  Relates-product_for f set (some p) =
      Relates-bind Quiet-refl Quiet-trans (change_price env p set cost (cost_of f)) _
        (Relates-change_price p set cost (cost_of f))
        λ _.
          Relates-bind Quiet-refl Quiet-trans (change_price env p set sale (sale_of f))
            (λ _. pure p) (Relates-change_price p set sale (sale_of f))
            (λ _. Relates-pure Quiet-refl Quiet-trans p)
