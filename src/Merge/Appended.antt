-- ===== src/Merge/Appended.antt =====
-- That a step only adds rows: what the tables held is still there, but for the recomputed quantities.
use myorishop.Prelude.{[], ◌∷◌, map, pos, refl}
use myorishop.Extends.{Extends, Extends-trans}
use myorishop.Models.{
  Warehouse, Product, Customer, DictionaryEntry, Batch, Sale, Operation, CashMovement,
}
use myorishop.Db.{Db}
use myorishop.Session.{Env}
use myorishop.Merge.{
  warehouse_table, product_table, customer_table, dictionary_table, batch_table, sale_table,
  operation_table, cash_table,
}

-- A product and a batch, but for the cached quantity and the time that its repair stamps.
abbrev pub card : Product → Product
card p = record p { quantity = pos 0; updated_at = [] }

abbrev pub lot_card : Batch → Batch
lot_card b = record b { quantity = pos 0; updated_at = [] }

pub record Appended (before after : Db) : Type 0 where
  pub warehouses : Extends before.warehouses after.warehouses
  pub products : Extends (map card before.products) (map card after.products)
  pub customers : Extends before.customers after.customers
  pub dictionary : Extends before.dictionary after.dictionary
  pub batches : Extends (map lot_card before.batches) (map lot_card after.batches)
  pub sales : Extends before.sales after.sales
  pub operations : Extends before.operations after.operations
  pub cash_movements : Extends before.cash_movements after.cash_movements

pub Appended-refl : (db : Db) → Appended db db
Appended-refl db = record {
  warehouses = ([], refl);
  products = ([], refl);
  customers = ([], refl);
  dictionary = ([], refl);
  batches = ([], refl);
  sales = ([], refl);
  operations = ([], refl);
  cash_movements = ([], refl);
}

pub Appended-trans : (a b c : Db) → Appended a b → Appended b c → Appended a c
Appended-trans a b c h k = record {
  warehouses = Extends-trans a.warehouses b.warehouses c.warehouses h.warehouses k.warehouses;
  products =
      Extends-trans (map card a.products) (map card b.products) (map card c.products) h.products
        k.products;
  customers = Extends-trans a.customers b.customers c.customers h.customers k.customers;
  dictionary = Extends-trans a.dictionary b.dictionary c.dictionary h.dictionary k.dictionary;
  batches =
      Extends-trans (map lot_card a.batches) (map lot_card b.batches) (map lot_card c.batches)
        h.batches k.batches;
  sales = Extends-trans a.sales b.sales c.sales h.sales k.sales;
  operations = Extends-trans a.operations b.operations c.operations h.operations k.operations;
  cash_movements =
      Extends-trans a.cash_movements b.cash_movements c.cash_movements h.cash_movements
        k.cash_movements;
}

-- One row more.
pub add_warehouse-Appended :
    (env : Env) (r : Warehouse) (db : Db) → Appended db ((warehouse_table env).add r db)
add_warehouse-Appended env r db = record {
  warehouses = (r ∷ [], refl);
  products = ([], refl);
  customers = ([], refl);
  dictionary = ([], refl);
  batches = ([], refl);
  sales = ([], refl);
  operations = ([], refl);
  cash_movements = ([], refl);
}

pub add_product-Appended :
    (env : Env) (r : Product) (db : Db) → Appended db ((product_table env).add r db)
add_product-Appended env r db = record {
  warehouses = ([], refl);
  products = (card r ∷ [], refl);
  customers = ([], refl);
  dictionary = ([], refl);
  batches = ([], refl);
  sales = ([], refl);
  operations = ([], refl);
  cash_movements = ([], refl);
}

pub add_customer-Appended :
    (env : Env) (r : Customer) (db : Db) → Appended db ((customer_table env).add r db)
add_customer-Appended env r db = record {
  warehouses = ([], refl);
  products = ([], refl);
  customers = (r ∷ [], refl);
  dictionary = ([], refl);
  batches = ([], refl);
  sales = ([], refl);
  operations = ([], refl);
  cash_movements = ([], refl);
}

pub add_dictionary-Appended :
    (env : Env) (r : DictionaryEntry) (db : Db) → Appended db ((dictionary_table env).add r db)
add_dictionary-Appended env r db = record {
  warehouses = ([], refl);
  products = ([], refl);
  customers = ([], refl);
  dictionary = (r ∷ [], refl);
  batches = ([], refl);
  sales = ([], refl);
  operations = ([], refl);
  cash_movements = ([], refl);
}

pub add_batch-Appended :
    (env : Env) (r : Batch) (db : Db) → Appended db ((batch_table env).add r db)
add_batch-Appended env r db = record {
  warehouses = ([], refl);
  products = ([], refl);
  customers = ([], refl);
  dictionary = ([], refl);
  batches = (lot_card r ∷ [], refl);
  sales = ([], refl);
  operations = ([], refl);
  cash_movements = ([], refl);
}

pub add_sale-Appended : (env : Env) (r : Sale) (db : Db) → Appended db ((sale_table env).add r db)
add_sale-Appended env r db = record {
  warehouses = ([], refl);
  products = ([], refl);
  customers = ([], refl);
  dictionary = ([], refl);
  batches = ([], refl);
  sales = (r ∷ [], refl);
  operations = ([], refl);
  cash_movements = ([], refl);
}

pub add_operation-Appended :
    (env : Env) (r : Operation) (db : Db) → Appended db ((operation_table env).add r db)
add_operation-Appended env r db = record {
  warehouses = ([], refl);
  products = ([], refl);
  customers = ([], refl);
  dictionary = ([], refl);
  batches = ([], refl);
  sales = ([], refl);
  operations = (r ∷ [], refl);
  cash_movements = ([], refl);
}

pub add_cash-Appended :
    (env : Env) (r : CashMovement) (db : Db) → Appended db ((cash_table env).add r db)
add_cash-Appended env r db = record {
  warehouses = ([], refl);
  products = ([], refl);
  customers = ([], refl);
  dictionary = ([], refl);
  batches = ([], refl);
  sales = ([], refl);
  operations = ([], refl);
  cash_movements = (r ∷ [], refl);
}
