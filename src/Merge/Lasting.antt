-- ===== src/Merge/Lasting.antt =====
-- The tables of a merge keep the ids that they hold.
use myorishop.Prelude.{true, List, [], ◌∷◌, ◌++◌, map, ◌≡◌, refl, ap, Bool-cases, inl, inr}
use myorishop.Text.{Text, contains, eq_text, eq_text_refl}
use myorishop.Models.{Product, Batch}
use myorishop.Extends.{Extends}
use myorishop.Session.{Env}
use myorishop.Merge.Tables.{Table}
use myorishop.Merge.Appended.{
  card, lot_card, add_warehouse-Appended, add_product-Appended, add_customer-Appended,
  add_dictionary-Appended, add_batch-Appended, add_sale-Appended, add_operation-Appended,
  add_cash-Appended,
}
use myorishop.Merge.Present.{IsLasting}
use myorishop.Merge.{
  warehouse_table, product_table, customer_table, dictionary_table, batch_table, sale_table,
  operation_table, cash_table,
}

contains-cons :
    (x : Text) (xs : List Text) (id : Text) → contains xs id ≡ true → contains (x ∷ xs) id ≡ true
unfolding contains
contains-cons x xs id h = elim (Bool-cases (eq_text x id)) [ inl e ↦ rw e refl | inr e ↦ rw e h ]

-- An id that a table held, a longer table holds.
Extends-contains :
    {A : Type 0} (key : A → Text) (xs ys : List A) (id : Text)
    → Extends xs ys
    → contains (map key xs) id ≡ true
    → contains (map key ys) id ≡ true
Extends-contains {A} key xs ys id h k = rw h.1 (go h.0)
  where
    go : (zs : List A) → contains (map key (zs ++ xs)) id ≡ true
    go [] = k
    go (z ∷ zs) = contains-cons (key z) (map key (zs ++ xs)) id (go zs)

first_held :
    {R : Type 0} (T : Table R) (r : R) (rs : List R)
    → contains (map T.key (r ∷ rs)) (T.key r) ≡ true
unfolding contains
first_held T r rs = rw (eq_text_refl (T.key r)) refl

card-ids : (ps : List Product) → map (λ p. p.id) (map card ps) ≡ map (λ p. p.id) ps
card-ids [] = refl
card-ids (p ∷ ps) = ap (λ l. p.id ∷ l) (card-ids ps)

lot_card-ids : (bs : List Batch) → map (λ b. b.id) (map lot_card bs) ≡ map (λ b. b.id) bs
lot_card-ids [] = refl
lot_card-ids (b ∷ bs) = ap (λ l. b.id ∷ l) (lot_card-ids bs)

module _ (env : Env) where
  pub warehouse-IsLasting : IsLasting (warehouse_table env)
  warehouse-IsLasting = record {
    added = λ r db. first_held (warehouse_table env) r db.warehouses;
    lasts = λ a b id h k. Extends-contains (λ x. x.id) a.warehouses b.warehouses id h.warehouses k;
    adds = add_warehouse-Appended env;
  }

  pub product-IsLasting : IsLasting (product_table env)
  product-IsLasting = record {
    added = λ r db. first_held (product_table env) r db.products;
    lasts = λ a b id h k. rw (← card-ids b.products) (
        Extends-contains (λ x. x.id) (map card a.products) (map card b.products) id h.products
          (rw (card-ids a.products) k));
    adds = add_product-Appended env;
  }

  pub customer-IsLasting : IsLasting (customer_table env)
  customer-IsLasting = record {
    added = λ r db. first_held (customer_table env) r db.customers;
    lasts = λ a b id h k. Extends-contains (λ x. x.id) a.customers b.customers id h.customers k;
    adds = add_customer-Appended env;
  }

  pub dictionary-IsLasting : IsLasting (dictionary_table env)
  dictionary-IsLasting = record {
    added = λ r db. first_held (dictionary_table env) r db.dictionary;
    lasts = λ a b id h k. Extends-contains (λ x. x.id) a.dictionary b.dictionary id h.dictionary k;
    adds = add_dictionary-Appended env;
  }

  pub batch-IsLasting : IsLasting (batch_table env)
  batch-IsLasting = record {
    added = λ r db. first_held (batch_table env) r db.batches;
    lasts = λ a b id h k. rw (← lot_card-ids b.batches) (
        Extends-contains (λ x. x.id) (map lot_card a.batches) (map lot_card b.batches) id h.batches
          (rw (lot_card-ids a.batches) k));
    adds = add_batch-Appended env;
  }

  pub sale-IsLasting : IsLasting (sale_table env)
  sale-IsLasting = record {
    added = λ r db. first_held (sale_table env) r db.sales;
    lasts = λ a b id h k. Extends-contains (λ x. x.id) a.sales b.sales id h.sales k;
    adds = add_sale-Appended env;
  }

  pub operation-IsLasting : IsLasting (operation_table env)
  operation-IsLasting = record {
    added = λ r db. first_held (operation_table env) r db.operations;
    lasts = λ a b id h k. Extends-contains (λ x. x.id) a.operations b.operations id h.operations k;
    adds = add_operation-Appended env;
  }

  pub cash-IsLasting : IsLasting (cash_table env)
  cash-IsLasting = record {
    added = λ r db. first_held (cash_table env) r db.cash_movements;
    lasts = λ a b id h k.
        Extends-contains (λ x. x.id) a.cash_movements b.cash_movements id h.cash_movements k;
    adds = add_cash-Appended env;
  }
