-- ===== src/Merge/Replay.antt =====
-- `apply_merge` of what was merged before: nothing is inserted, and nothing changes.
use myorishop.Prelude.{
  ℕ, List, [], ◌∷◌, map, length, ◌≡◌, refl, ap, subst, ◌∙◌, Option-cases, inl, inr, first,
}
use myorishop.Text.{Text, eq_text}
use myorishop.Models.{Product, Batch}
use myorishop.Db.{Db}
use myorishop.Session.{Env, Session, Result, ok, err, ⊤, pure, resume}
use myorishop.Session.Ensures.{Then, Ensures, Ensures-and, Ensures-weaken}
use myorishop.Merge.Tables.{Table, partition_new, insert_all, insert_new}
use myorishop.Merge.Codes.{Conflict, renamed, resolve_code_collisions}
use myorishop.Merge.Partition.{new_rows_of, partition_new-eq}
use myorishop.Merge.Appended.{Appended}
use myorishop.Merge.OnlyAdds.{Relates-insert_all, Relates-insert_new}
use myorishop.Merge.Present.{
  Holds, Present, IsLasting, Ensures-insert_all, Ensures-insert_new, all-Present, Present-lasts,
}
use myorishop.Merge.Lasting.{
  warehouse-IsLasting, product-IsLasting, customer-IsLasting, dictionary-IsLasting, batch-IsLasting,
  sale-IsLasting, operation-IsLasting, cash-IsLasting,
}
use myorishop.Ledger.{
  repair, repair_product, repair_batch, check_stock_invariant, recompute_derived,
}
use myorishop.Ledger.Rebuild.{repair_products, repair_batches, repaired_products, repaired_batches}
use myorishop.Merge.{
  warehouses_in, products_in, customers_in, dictionary_in, batches_in, sales_in, operations_in,
  cash_in, ExchangeRecord, warehouse_table, product_table, customer_table, dictionary_table,
  batch_table, sale_table, operation_table, cash_table, upsert_products,
}

-- A rename keeps the id.
renamed-id : (cs : List Conflict) (r : Product) → (renamed cs r).id ≡ r.id
renamed-id cs r = elim (Option-cases (first (λ c. eq_text c.product_id r.id) cs)) [
  | inl none_found ↦ rw (none_found, renamed) refl
  | inr (c, found) ↦ rw (found, renamed) refl
]

Present-renamed :
    (env : Env) (cs : List Conflict) (rs : List Product) (db : Db)
    → Present (product_table env) (map (renamed cs) rs) db
    → Present (product_table env) rs db
Present-renamed env cs [] db h = tt
Present-renamed env cs (r ∷ rs) db h = (
  subst (λ id. Holds (product_table env) id db) (renamed-id cs r) h.0,
  Present-renamed env cs rs db h.1,
)

pub Ensures-upsert_products :
    (env : Env) (rs : List Product)
    → Ensures (λ _. Unit) (upsert_products env rs) (Present (product_table env) rs)
unfolding upsert_products resolve_code_collisions
Ensures-upsert_products env [] = record { at = λ s h. tt }
Ensures-upsert_products env (r ∷ rs) = record {
  at = λ s h.
      let T = product_table env in
      let split = partition_new T (r ∷ rs) s.staged in
      let resolved = resolve_code_collisions s.staged.products split.0 in
      let m = insert_all T resolved.0 in
      go s (length split.0, split.1, resolved.1) resolved.1 (m s).0 (m s).1
        ((Relates-insert_all T (product-IsLasting env).adds resolved.0).at s)
        (subst
          (λ (new_rows : List Product).
            Then (Present T (map (renamed resolved.1) new_rows)) (m s).0 (m s).1)
          (ap (λ x. x.0) (partition_new-eq T (r ∷ rs) s.staged))
          ((Ensures-insert_all T (product-IsLasting env) resolved.0).at s tt));
}
  where
    go :
        (t : Session) (n : ℕ × ℕ × List Conflict) (cs : List Conflict) (q : Result ⊤) (s : Session)
        → Appended t.staged s.staged
        → Then
            (Present
              (product_table env)
              (map (renamed cs) (new_rows_of (product_table env) (r ∷ rs) t.staged)))
            q
            s
        → Then
            (Present (product_table env) (r ∷ rs))
            (resume q (λ _. pure n) s).0
            (resume q (λ _. pure n) s).1
    go t n cs (ok u) s h k =
        all-Present (product_table env) (product-IsLasting env) t.staged s.staged (r ∷ rs) h
          (Present-renamed env cs (new_rows_of (product_table env) (r ∷ rs) t.staged) s.staged k)
    go t n cs (err e) s h k = tt

-- A second pass of the recompute changes nothing and raises nothing.
abbrev pub Settled : Text → Db → Type 0
Settled now db =
    (repair now db ≡ db) × (check_stock_invariant db.batches db.operations db.products ≡ ok tt)

repair_twice : (now : Text) (db : Db) → repair now (repair now db) ≡ repair now db
repair_twice now db =
    ap
      (λ (ps : List Product). record (repair now db) {
        products = ps;
        batches =
            map (repair_batch now db.operations) (map (repair_batch now db.operations) db.batches);
      })
      (repair_products now db.operations (map (repair_product now db.operations) db.products)
        (repaired_products now db.operations db.products))
    ∙ ap (λ (bs : List Batch). record (repair now db) { batches = bs })
        (repair_batches now db.operations (map (repair_batch now db.operations) db.batches)
          (repaired_batches now db.operations db.batches))

pub Ensures-recompute_derived :
    (env : Env) → Ensures (λ _. Unit) (recompute_derived env) (Settled env.now)
unfolding recompute_derived
Ensures-recompute_derived env = record {
  at = λ s h.
      let db = repair env.now s.staged in
      go db (check_stock_invariant db.batches db.operations db.products) refl
        (repair_twice env.now s.staged) s;
}
  where
    go :
        (db : Db) (r : Result ⊤)
        → check_stock_invariant db.batches db.operations db.products ≡ r
        → repair env.now db ≡ db
        → (s : Session) → Then (Settled env.now) r (record s { staged = db })
    go db (ok u) e h s = (h, e)
    go db (err x) e h s = tt

-- Every record's id is held, and the quantities are repaired.
module _ (env : Env) (records : List ExchangeRecord) where
  abbrev pub P1 : Db → Type 0
  P1 db = Unit × Present (warehouse_table env) (warehouses_in records) db

  abbrev pub P2 : Db → Type 0
  P2 db = P1 db × Present (product_table env) (products_in records) db

  abbrev pub P3 : Db → Type 0
  P3 db = P2 db × Present (customer_table env) (customers_in records) db

  abbrev pub P4 : Db → Type 0
  P4 db = P3 db × Present (dictionary_table env) (dictionary_in records) db

  abbrev pub P5 : Db → Type 0
  P5 db = P4 db × Present (batch_table env) (batches_in records) db

  abbrev pub P6 : Db → Type 0
  P6 db = P5 db × Present (sale_table env) (sales_in records) db

  abbrev pub P7 : Db → Type 0
  P7 db = P6 db × Present (operation_table env) (operations_in records) db

  abbrev pub P8 : Db → Type 0
  P8 db = P7 db × Present (cash_table env) (cash_in records) db

  -- What lasts, lasts beside one more bucket.
  and-lasts :
      {R : Type 0} (T : Table R) (L : IsLasting T) (rs : List R) (P : Db → Type 0)
      → ((a b : Db) → Appended a b → P a → P b)
      → (a b : Db) → Appended a b
      → P a × Present T rs a
      → P b × Present T rs b
  and-lasts T L rs P keep a b h k = (keep a b h k.0, Present-lasts T L rs a b h k.1)

  pub next :
      {R : Type 0} (T : Table R) (L : IsLasting T) (rs : List R) (P : Db → Type 0)
      → ((a b : Db) → Appended a b → P a → P b)
      → Ensures P (insert_new T rs) (λ db. P db × Present T rs db)
  next T L rs P keep =
      Ensures-and Appended P (Present T rs) (insert_new T rs) keep (Relates-insert_new T L.adds rs)
        (Ensures-weaken P (Present T rs) (insert_new T rs) (Ensures-insert_new T L rs))

  pub K1 : (a b : Db) → Appended a b → P1 a → P1 b
  K1 =
      and-lasts (warehouse_table env) (warehouse-IsLasting env) (warehouses_in records) (λ _. Unit)
        (λ a b h k. k)

  pub K2 : (a b : Db) → Appended a b → P2 a → P2 b
  K2 = and-lasts (product_table env) (product-IsLasting env) (products_in records) P1 K1

  pub K3 : (a b : Db) → Appended a b → P3 a → P3 b
  K3 = and-lasts (customer_table env) (customer-IsLasting env) (customers_in records) P2 K2

  pub K4 : (a b : Db) → Appended a b → P4 a → P4 b
  K4 = and-lasts (dictionary_table env) (dictionary-IsLasting env) (dictionary_in records) P3 K3

  pub K5 : (a b : Db) → Appended a b → P5 a → P5 b
  K5 = and-lasts (batch_table env) (batch-IsLasting env) (batches_in records) P4 K4

  pub K6 : (a b : Db) → Appended a b → P6 a → P6 b
  K6 = and-lasts (sale_table env) (sale-IsLasting env) (sales_in records) P5 K5

  pub K7 : (a b : Db) → Appended a b → P7 a → P7 b
  K7 = and-lasts (operation_table env) (operation-IsLasting env) (operations_in records) P6 K6

  pub K8 : (a b : Db) → Appended a b → P8 a → P8 b
  K8 = and-lasts (cash_table env) (cash-IsLasting env) (cash_in records) P7 K7
