-- ===== src/Merge/Replayed.antt =====
-- `apply_merge` a second time.
use myorishop.Prelude.{ℕ, List, [], ◌∷◌, length, ◌-◌, ◌≡◌, refl, subst, ap, All, ◌∙◌, arith}
use myorishop.Models.{Product}
use myorishop.Db.{Db}
use myorishop.Session.{Env, Session, Result, ok, ⊤, pure, ◌>>◌}
use myorishop.Session.Idle.{Idle, Idle-bind, Idle-pure}
use myorishop.Session.Ensures.{
  Then, Ensures, Ensures-bind, Ensures-and, Ensures-weaken, Ensures-pure,
}
use myorishop.Merge.Tables.{Table, partition_new, insert_all, insert_new}
use myorishop.Sort.{sort_by}
use myorishop.Merge.Codes.{Conflict, claim_rows, resolve_code_collisions}
use myorishop.Merge.Partition.{new_rows_of, partition_new-eq}
use myorishop.Merge.Appended.{Appended}
use myorishop.Merge.OnlyAdds.{Relates-upsert_products, Relates-recompute_derived}
use myorishop.Merge.Present.{Present}
use myorishop.Merge.Lasting.{
  warehouse-IsLasting, customer-IsLasting, dictionary-IsLasting, batch-IsLasting, sale-IsLasting,
  operation-IsLasting, cash-IsLasting,
}
use myorishop.Ledger.Projection.{HasStock, HasBatchStock}
use myorishop.Ledger.Rebuild.{repaired_products, repaired_batches}
use myorishop.Ledger.{check_stock_invariant, recompute_derived}
use myorishop.Merge.Replay.{
  Settled, P1, P2, P3, P4, P5, P6, P7, P8, K1, K2, K3, K4, K5, K6, K7, K8, next,
  Ensures-upsert_products, Ensures-recompute_derived,
}
use myorishop.Merge.{
  ExchangeRecord, MergeReport, warehouse_table, product_table, customer_table, dictionary_table,
  batch_table, sale_table, operation_table, cash_table, warehouses_in, products_in, customers_in,
  dictionary_in, batches_in, sales_in, operations_in, cash_in, upsert_products, apply_merge,
}

module _ (env : Env) (records : List ExchangeRecord) where
  abbrev Merged : Db → Type 0
  Merged db = P8 env records db × Settled env.now db

  products_step :
      Ensures (P1 env records) (upsert_products env (products_in records)) (P2 env records)
  products_step =
      let m = upsert_products env (products_in records) in
      let Q = Present (product_table env) (products_in records) in
      Ensures-and Appended (P1 env records) Q m (K1 env records)
        (Relates-upsert_products env (products_in records))
        (Ensures-weaken (P1 env records) Q m (Ensures-upsert_products env (products_in records)))

  recompute_step : Ensures (P8 env records) (recompute_derived env) Merged
  recompute_step =
      Ensures-and Appended (P8 env records) (Settled env.now) (recompute_derived env)
        (K8 env records) (Relates-recompute_derived env)
        (Ensures-weaken (P8 env records) (Settled env.now) (recompute_derived env)
          (Ensures-recompute_derived env))

  Ensures-apply_merge : Ensures (λ _. Unit) (apply_merge env records) Merged
  unfolding apply_merge
  Ensures-apply_merge =
      Ensures-bind (λ _. Unit) (P1 env records) Merged _ _
        (next env records (warehouse_table env) (warehouse-IsLasting env) (warehouses_in records)
          (λ _. Unit) (λ a b h k. k))
        λ a1. Ensures-bind (P1 env records) (P2 env records) Merged _ _ products_step λ a2.
          Ensures-bind (P2 env records) (P3 env records) Merged _ _
            (next env records (customer_table env) (customer-IsLasting env) (customers_in records)
              (P2 env records) (K2 env records))
            λ a3.
              Ensures-bind (P3 env records) (P4 env records) Merged _ _
                (next env records (dictionary_table env) (dictionary-IsLasting env)
                  (dictionary_in records) (P3 env records) (K3 env records))
                λ a4.
                  Ensures-bind (P4 env records) (P5 env records) Merged _ _
                    (next env records (batch_table env) (batch-IsLasting env) (batches_in records)
                      (P4 env records) (K4 env records))
                    λ a5.
                      Ensures-bind (P5 env records) (P6 env records) Merged _ _
                        (next env records (sale_table env) (sale-IsLasting env) (sales_in records)
                          (P5 env records) (K5 env records))
                        λ a6.
                          Ensures-bind (P6 env records) (P7 env records) Merged _ _
                            (next env records (operation_table env) (operation-IsLasting env)
                              (operations_in records) (P6 env records) (K6 env records))
                            λ a7.
                              Ensures-bind (P7 env records) (P8 env records) Merged _ _
                                (next env records (cash_table env) (cash-IsLasting env)
                                  (cash_in records) (P7 env records) (K7 env records))
                                λ a8.
                                  Ensures-bind (P8 env records) Merged Merged _ _ recompute_step
                                    λ a9. Ensures-pure Merged _

sub_zero : (n : ℕ) → n - 0 ≡ n
sub_zero n = omega arith

module _ {R : Type 0} (T : Table R) where
  none_new : (rs : List R) (db : Db) → Present T rs db → new_rows_of T rs db ≡ []
  none_new [] db h = refl
  none_new (r ∷ rs) db h = ground (arith, h.0, none_new rs db h.1)

  partition_new-Present :
      (rs : List R) (db : Db) → Present T rs db → partition_new T rs db ≡ ([], length rs)
  partition_new-Present rs db h =
      partition_new-eq T rs db
      ∙ ap (λ (new_rows : List R). (new_rows, length rs - length new_rows)) (none_new rs db h)
      ∙ ap (λ n. ([], n)) (sub_zero (length rs))

  insert_new-Present :
      (rs : List R) (s : Session) → Present T rs s.staged → Idle s (0, length rs) (insert_new T rs)
  unfolding insert_new insert_all
  insert_new-Present [] s h = Idle-pure s (0, 0)
  insert_new-Present (r ∷ rs) s h = record {
    at =
        ap {B = Result (ℕ × ℕ) × Session}
          (λ (split : List R × ℕ). (insert_all T split.0 >> pure (length split.0, split.1)) s)
          (partition_new-Present (r ∷ rs) s.staged h);
  }

upsert_products-Present :
    (env : Env) (rs : List Product) (s : Session)
    → Present (product_table env) rs s.staged
    → Idle s (0, length rs, []) (upsert_products env rs)
unfolding upsert_products insert_all resolve_code_collisions claim_rows sort_by
upsert_products-Present env [] s h = Idle-pure s (0, 0, [])
upsert_products-Present env (r ∷ rs) s h = record {
  at =
      ap {B = Result (ℕ × ℕ × List Conflict) × Session}
        (λ (split : List Product × ℕ).
          let resolved = resolve_code_collisions s.staged.products split.0 in
          (insert_all (product_table env) resolved.0 >> pure (length split.0, split.1, resolved.1))
            s)
        (partition_new-Present (product_table env) (r ∷ rs) s.staged h);
}

recompute_derived-Settled :
    (env : Env) (s : Session) → Settled env.now s.staged → Idle s tt (recompute_derived env)
unfolding recompute_derived
recompute_derived-Settled env s h = record {
  at =
      ap {B = Result ⊤ × Session}
        (λ (db : Db).
          (check_stock_invariant db.batches db.operations db.products, record s { staged = db }))
        h.0
      ∙ ap (λ r. (r, s)) h.1;
}

-- The report of a merge that finds every record.
abbrev pub all_skipped : List ExchangeRecord → MergeReport
all_skipped records = record {
  warehouses = (0, length (warehouses_in records));
  products = (0, length (products_in records));
  customers = (0, length (customers_in records));
  dictionary = (0, length (dictionary_in records));
  batches = (0, length (batches_in records));
  sales = (0, length (sales_in records));
  operations = (0, length (operations_in records));
  cash_movements = (0, length (cash_in records));
  conflicts = [];
}

module _ (env : Env) (records : List ExchangeRecord) where
  apply_merge-Merged :
      (s : Session)
      → Merged env records s.staged
      → Idle s (all_skipped records) (apply_merge env records)
  unfolding apply_merge
  apply_merge-Merged s h =
      let h7 = h.0.0 in
      let h6 = h7.0 in
      let h5 = h6.0 in
      let h4 = h5.0 in
      let h3 = h4.0 in
      let h2 = h3.0 in
      let h1 = h2.0 in
      let r = all_skipped records in
      Idle-bind s (0, length (warehouses_in records)) r _ _
        (insert_new-Present (warehouse_table env) (warehouses_in records) s h1.1)
        (Idle-bind s (0, length (products_in records), []) r _ _
          (upsert_products-Present env (products_in records) s h2.1)
          (Idle-bind s (0, length (customers_in records)) r _ _
            (insert_new-Present (customer_table env) (customers_in records) s h3.1)
            (Idle-bind s (0, length (dictionary_in records)) r _ _
              (insert_new-Present (dictionary_table env) (dictionary_in records) s h4.1)
              (Idle-bind s (0, length (batches_in records)) r _ _
                (insert_new-Present (batch_table env) (batches_in records) s h5.1)
                (Idle-bind s (0, length (sales_in records)) r _ _
                  (insert_new-Present (sale_table env) (sales_in records) s h6.1)
                  (Idle-bind s (0, length (operations_in records)) r _ _
                    (insert_new-Present (operation_table env) (operations_in records) s h7.1)
                    (Idle-bind s (0, length (cash_in records)) r _ _
                      (insert_new-Present (cash_table env) (cash_in records) s h.0.1)
                      (Idle-bind s tt r _ _ (recompute_derived-Settled env s h.1)
                        (Idle-pure s r)))))))))

-- A merge that returned leaves nothing for the same records to do: merged again, they are all
-- skipped, no conflict is reported, and the session is the one the first merge left.
pub apply_merge-replay :
    (env : Env) (records : List ExchangeRecord) (s s' : Session) (report : MergeReport)
    → apply_merge env records s ≡ (ok report, s')
    → apply_merge env records s' ≡ (ok (all_skipped records), s')
apply_merge-replay env records s s' report h =
    (apply_merge-Merged env records s' (
      subst (λ (r : Result MergeReport × Session). Then (Merged env records) r.0 r.1) h
        ((Ensures-apply_merge env records).at s tt))).at

-- After a merge that returned, the cached quantity of every product and of every batch is what the
-- merged ledger gives, and the stock assertion holds.
pub apply_merge-HasStock :
    (env : Env) (records : List ExchangeRecord) (s s' : Session) (report : MergeReport)
    → apply_merge env records s ≡ (ok report, s')
    → All (HasStock s'.staged.operations) s'.staged.products
      × All (HasBatchStock s'.staged.operations) s'.staged.batches
      × (check_stock_invariant s'.staged.batches s'.staged.operations s'.staged.products ≡ ok tt)
apply_merge-HasStock env records s s' report h =
    let settled : Settled env.now s'.staged =
      (subst (λ (r : Result MergeReport × Session). Then (Merged env records) r.0 r.1) h
        ((Ensures-apply_merge env records).at s tt)).1 in
    let db = s'.staged in
    (
      subst (All (HasStock db.operations)) (ap (λ (d : Db). d.products) settled.0)
          (repaired_products env.now db.operations db.products),
      subst (All (HasBatchStock db.operations)) (ap (λ (d : Db). d.batches) settled.0)
          (repaired_batches env.now db.operations db.batches),
      settled.1,
    )
