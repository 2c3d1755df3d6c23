-- ===== src/Merge/OnlyAdds.antt =====
-- `apply_merge` only adds rows, and commits nothing.
use myorishop.Prelude.{ℕ, length, List, [], ◌∷◌, map, ◌≡◌, refl, if-both, ◌==ℤ◌}
use myorishop.Text.{Text}
use myorishop.Models.{Product, Batch, Operation}
use myorishop.Db.{Db}
use myorishop.Session.{Env, Session, Result, Action, ⊤, gets, insert, modify, pure, ◌>>=◌}
use myorishop.Session.Relates.{
  Relates, Relates-bind, Relates-pure, Relates-gets, Relates-query, Relates-insert, Relates-modify,
}
use myorishop.Session.Atomic.{
  Stages, Stages-bind, Stages-pure, Stages-gets, Stages-query, Stages-insert, Stages-modify,
}
use myorishop.Ledger.{
  compute_stock, compute_batch_stock, repair_product, repair_batch, repair, check_stock_invariant,
  recompute_derived,
}
use myorishop.Merge.Tables.{Table, partition_new, insert_all, insert_new}
use myorishop.Merge.Codes.{Conflict, resolve_code_collisions}
use myorishop.Merge.Appended.{
  card, lot_card, Appended, Appended-refl, Appended-trans, add_warehouse-Appended,
  add_product-Appended, add_customer-Appended, add_dictionary-Appended, add_batch-Appended,
  add_sale-Appended, add_operation-Appended, add_cash-Appended,
}
use myorishop.Merge.{
  ExchangeRecord, MergeReport, warehouse_table, product_table, customer_table, dictionary_table,
  batch_table, sale_table, operation_table, cash_table, warehouses_in, products_in, customers_in,
  dictionary_in, batches_in, sales_in, operations_in, cash_in, upsert_products, apply_merge,
}

-- What holds of the INSERT of one row of each table and of the recompute, and of a block if it holds
-- of its steps, holds of the merge.
module _ (Q : (A : Type 0) → Action A → Type 0)
    (Q-bind : (A B : Type 0) (m : Action A) (f : A → Action B)
      → Q A m
      → ((a : A) → Q B (f a))
      → Q B (m >>= f))
    (Q-pure : (A : Type 0) (a : A) → Q A (pure a))
    (Q-gets : (A : Type 0) (q : Db → A) → Q A (gets q)) where
  module _ {R : Type 0} (T : Table R)
      (Q-insert : (r : R) → Q ⊤ (insert (T.conflict r) (T.add r))) where
    each_insert_all : (rs : List R) → Q ⊤ (insert_all T rs)
    unfolding insert_all
    each_insert_all [] = Q-pure ⊤ tt
    each_insert_all (r ∷ rs) =
        Q-bind ⊤ ⊤ (insert (T.conflict r) (T.add r)) (λ _. insert_all T rs) (Q-insert r)
          (λ _. each_insert_all rs)

    each_insert_new : (rs : List R) → Q (ℕ × ℕ) (insert_new T rs)
    unfolding insert_new
    each_insert_new [] = Q-pure (ℕ × ℕ) (0, 0)
    each_insert_new (r ∷ rs) =
        Q-bind (List R × ℕ) (ℕ × ℕ) (gets (partition_new T (r ∷ rs))) _ (Q-gets (List R × ℕ) _)
          λ split.
            Q-bind ⊤ (ℕ × ℕ) (insert_all T split.0) _ (each_insert_all split.0)
              (λ _. Q-pure (ℕ × ℕ) (length split.0, split.1))

  each_upsert_products :
      (env : Env)
      → ((r : Product) → Q ⊤ (insert ((product_table env).conflict r) ((product_table env).add r)))
      → (rs : List Product) → Q (ℕ × ℕ × List Conflict) (upsert_products env rs)
  unfolding upsert_products
  each_upsert_products env Q-insert [] = Q-pure (ℕ × ℕ × List Conflict) _
  each_upsert_products env Q-insert (r ∷ rs) =
      let N = ℕ × ℕ × List Conflict in
      Q-bind (List Product × ℕ) N (gets (partition_new (product_table env) (r ∷ rs))) _
        (Q-gets (List Product × ℕ) _)
        λ split.
          Q-bind (List Product × List Conflict) N
            (gets (λ db. resolve_code_collisions db.products split.0)) _
            (Q-gets (List Product × List Conflict) _)
            λ resolved.
              Q-bind ⊤ N (insert_all (product_table env) resolved.0) _
                (each_insert_all (product_table env) Q-insert resolved.0)
                (λ _. Q-pure N (length split.0, split.1, resolved.1))

  module _ (env : Env)
      (Q-insert : (R : Type 0) (T : Table R)
        → ((r : R) (db : Db) → Appended db (T.add r db))
        → (r : R) → Q ⊤ (insert (T.conflict r) (T.add r)))
      (Q-recompute : Q ⊤ (recompute_derived env)) where
    abbrev merged :
        ℕ × ℕ → ℕ × ℕ × List Conflict → ℕ × ℕ → ℕ × ℕ → ℕ × ℕ → ℕ × ℕ → ℕ × ℕ → ℕ × ℕ → MergeReport
    merged w p c d b s o m = record {
      warehouses = w;
      products = (p.0, p.1);
      customers = c;
      dictionary = d;
      batches = b;
      sales = s;
      operations = o;
      cash_movements = m;
      conflicts = p.2;
    }

    new_rows :
        {R : Type 0} (T : Table R)
        → ((r : R) (db : Db) → Appended db (T.add r db))
        → (rs : List R) → Q (ℕ × ℕ) (insert_new T rs)
    new_rows {R} T adds rs = each_insert_new T (Q-insert R T adds) rs

    each_apply_merge : (records : List ExchangeRecord) → Q MergeReport (apply_merge env records)
    unfolding apply_merge
    each_apply_merge records =
        let N = ℕ × ℕ in
        Q-bind N MergeReport _ _
          (new_rows (warehouse_table env) (add_warehouse-Appended env) (warehouses_in records))
          λ w.
            Q-bind (ℕ × ℕ × List Conflict) MergeReport _ _
              (each_upsert_products env
                (Q-insert Product (product_table env) (add_product-Appended env))
                (products_in records))
              λ p.
                Q-bind N MergeReport _ _
                  (new_rows (customer_table env) (add_customer-Appended env) (customers_in records))
                  λ c.
                    Q-bind N MergeReport _ _
                      (new_rows (dictionary_table env) (add_dictionary-Appended env)
                        (dictionary_in records))
                      λ d.
                        Q-bind N MergeReport _ _
                          (new_rows (batch_table env) (add_batch-Appended env) (batches_in records))
                          λ b.
                            Q-bind N MergeReport _ _
                              (new_rows (sale_table env) (add_sale-Appended env) (sales_in records))
                              λ s.
                                Q-bind N MergeReport _ _
                                  (new_rows (operation_table env) (add_operation-Appended env)
                                    (operations_in records))
                                  λ o.
                                    Q-bind N MergeReport _ _
                                      (new_rows (cash_table env) (add_cash-Appended env)
                                        (cash_in records))
                                      λ m.
                                        Q-bind ⊤ MergeReport _ _ Q-recompute
                                          (λ _. Q-pure MergeReport (merged w p c d b s o m))

repair_product-card :
    (now : Text) (ops : List Operation) (p : Product) → card (repair_product now ops p) ≡ card p
repair_product-card now ops p =
    if-both (λ x. card x ≡ card p) (compute_stock ops p.id ==ℤ p.quantity) _ _ refl refl

repair_batch-card :
    (now : Text) (ops : List Operation) (b : Batch) → lot_card (repair_batch now ops b) ≡ lot_card b
repair_batch-card now ops b =
    if-both (λ x. lot_card x ≡ lot_card b) (compute_batch_stock ops b ==ℤ b.quantity) _ _ refl refl

repair_products-card :
    (now : Text) (ops : List Operation) (ps : List Product)
    → map card (map (repair_product now ops) ps) ≡ map card ps
repair_products-card now ops [] = refl
repair_products-card now ops (p ∷ ps) =
    rw (repair_product-card now ops p, repair_products-card now ops ps) refl

repair_batches-card :
    (now : Text) (ops : List Operation) (bs : List Batch)
    → map lot_card (map (repair_batch now ops) bs) ≡ map lot_card bs
repair_batches-card now ops [] = refl
repair_batches-card now ops (b ∷ bs) =
    rw (repair_batch-card now ops b, repair_batches-card now ops bs) refl

repair-Appended : (now : Text) (db : Db) → Appended db (repair now db)
repair-Appended now db = record {
  warehouses = ([], refl);
  products = ([], repair_products-card now db.operations db.products);
  customers = ([], refl);
  dictionary = ([], refl);
  batches = ([], repair_batches-card now db.operations db.batches);
  sales = ([], refl);
  operations = ([], refl);
  cash_movements = ([], refl);
}

abbrev assertion : Db → Result ⊤
assertion db = check_stock_invariant db.batches db.operations db.products

pub Relates-insert_all :
    {R : Type 0} (T : Table R)
    → ((r : R) (db : Db) → Appended db (T.add r db))
    → (rs : List R) → Relates Appended (insert_all T rs)
Relates-insert_all T adds =
    each_insert_all (λ A m. Relates Appended m)
      (λ A B m f hm hf. Relates-bind Appended-refl Appended-trans m f hm hf)
      (λ A a. Relates-pure Appended-refl Appended-trans a)
      (λ A q. Relates-gets Appended-refl Appended-trans q) T
      (λ r. Relates-insert Appended-refl Appended-trans (T.conflict r) (T.add r) (adds r))

pub Relates-insert_new :
    {R : Type 0} (T : Table R)
    → ((r : R) (db : Db) → Appended db (T.add r db))
    → (rs : List R) → Relates Appended (insert_new T rs)
Relates-insert_new T adds =
    each_insert_new (λ A m. Relates Appended m)
      (λ A B m f hm hf. Relates-bind Appended-refl Appended-trans m f hm hf)
      (λ A a. Relates-pure Appended-refl Appended-trans a)
      (λ A q. Relates-gets Appended-refl Appended-trans q) T
      (λ r. Relates-insert Appended-refl Appended-trans (T.conflict r) (T.add r) (adds r))

pub Relates-upsert_products :
    (env : Env) (rs : List Product) → Relates Appended (upsert_products env rs)
Relates-upsert_products env =
    each_upsert_products (λ A m. Relates Appended m)
      (λ A B m f hm hf. Relates-bind Appended-refl Appended-trans m f hm hf)
      (λ A a. Relates-pure Appended-refl Appended-trans a)
      (λ A q. Relates-gets Appended-refl Appended-trans q) env
      (λ r.
        Relates-insert Appended-refl Appended-trans ((product_table env).conflict r)
          ((product_table env).add r) (add_product-Appended env r))

pub Relates-recompute_derived : (env : Env) → Relates Appended (recompute_derived env)
unfolding recompute_derived
Relates-recompute_derived env =
    Relates-bind Appended-refl Appended-trans (modify (repair env.now)) _
      (Relates-modify (repair env.now) (repair-Appended env.now))
      (λ _. Relates-query Appended-refl Appended-trans assertion)

Stages-recompute_derived : (env : Env) → Stages (recompute_derived env)
unfolding recompute_derived
Stages-recompute_derived env =
    Stages-bind (modify (repair env.now)) _ (Stages-modify (repair env.now))
      (λ _. Stages-query assertion)

-- Whether it returns or raises, a merge only adds rows. Every row that the database held is still
-- there as it was, deleted or not, below the new ones, but for the recomputed quantity of a product or
-- a batch and the time of its repair: the database's row wins over a record of the same id, and the
-- two ledgers are only appended to.
pub apply_merge-Appended :
    (env : Env) (records : List ExchangeRecord) (s : Session)
    → Appended s.staged (apply_merge env records s).1.staged
apply_merge-Appended env records s =
    (each_apply_merge (λ A m. Relates Appended m)
        (λ A B m f hm hf. Relates-bind Appended-refl Appended-trans m f hm hf)
        (λ A a. Relates-pure Appended-refl Appended-trans a)
        (λ A q. Relates-gets Appended-refl Appended-trans q) env
        (λ R T adds r.
          Relates-insert Appended-refl Appended-trans (T.conflict r) (T.add r) (adds r))
        (Relates-recompute_derived env) records).at
      s

-- A merge commits nothing, however it ends, so that the caller's one transaction has all of it or none.
apply_merge-Stages :
    (env : Env) (records : List ExchangeRecord) (s : Session)
    → (apply_merge env records s).1.committed ≡ s.committed
apply_merge-Stages env records s =
    (each_apply_merge (λ A m. Stages m) (λ A B m f hm hf. Stages-bind m f hm hf)
        (λ A a. Stages-pure a) (λ A q. Stages-gets q) env
        (λ R T adds r. Stages-insert (T.conflict r) (T.add r)) (Stages-recompute_derived env)
        records).at
      s
