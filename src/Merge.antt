-- ===== src/Merge.antt =====
-- app/services/merge.py: `apply_merge`, the records of another device into the tables. A record's
-- `data` is the row of its columns.
pub mod Tables
pub mod Codes
pub mod Suffix
pub mod Partition
pub mod Appended
pub mod OnlyAdds
pub mod Present
pub mod Lasting
pub mod Replay
pub mod Replayed
use myorishop.Prelude.{
  ℕ, Bool, true, not, ◌||◌, Option, none, some, List, [], ◌∷◌, ◌++◌, ℤ, pos, is_some, length, any,
  if◌then◌else◌, ◌==◌,
}
use myorishop.Text.{Text, contains}
use myorishop.Models.{
  Warehouse, Product, Customer, DictionaryEntry, Batch, Sale, Operation, CashMovement,
}
use myorishop.Db.{
  Db, find_product, find_batch, warehouse_conflict, product_conflict, customer_conflict,
  dictionary_conflict, batch_conflict, sale_conflict, operation_conflict, cash_conflict,
}
use myorishop.Session.{Env, Action, ⊤, gets, pure, ◌>>=◌, ◌>>◌}
use myorishop.Ledger.{recompute_derived}
use Tables.{Table, partition_new, insert_all, insert_new}
use Codes.{Conflict, resolve_code_collisions}

-- `ExchangeRecord`: the kinds of `KIND_TO_MODEL`.
pub data ExchangeRecord : Type 0 where
  warehouse_record : Warehouse → ExchangeRecord
  product_record : Product → ExchangeRecord
  customer_record : Customer → ExchangeRecord
  dictionary_record : DictionaryEntry → ExchangeRecord
  batch_record : Batch → ExchangeRecord
  sale_record : Sale → ExchangeRecord
  operation_record : Operation → ExchangeRecord
  cash_record : CashMovement → ExchangeRecord

-- Inserted and already there, for each kind.
pub record MergeReport : Type 0 where
  pub warehouses : ℕ × ℕ
  pub products : ℕ × ℕ
  pub customers : ℕ × ℕ
  pub dictionary : ℕ × ℕ
  pub batches : ℕ × ℕ
  pub sales : ℕ × ℕ
  pub operations : ℕ × ℕ
  pub cash_movements : ℕ × ℕ
  pub conflicts : List Conflict

-- A foreign key to `users`: NULL, or a known id.
abbrev is_author_id : Env → Option Text → Bool
is_author_id env none = true
is_author_id env (some id) = contains env.user_ids id

abbrev is_batch_id : Option Text → List Batch → Bool
is_batch_id none batches = true
is_batch_id (some id) batches = is_some (find_batch id batches)

module _ (env : Env) where
  abbrev pub warehouse_table : Table Warehouse
  warehouse_table = record {
    key = λ r. r.id;
    rows = λ db. db.warehouses;
    conflict = warehouse_conflict;
    add = λ r db. record db { warehouses = r ∷ db.warehouses };
  }

  abbrev pub product_table : Table Product
  product_table = record {
    key = λ r. r.id;
    rows = λ db. db.products;
    conflict = product_conflict;
    add = λ r db. record db { products = r ∷ db.products };
  }

  abbrev pub customer_table : Table Customer
  customer_table = record {
    key = λ r. r.id;
    rows = λ db. db.customers;
    conflict = customer_conflict;
    add = λ r db. record db { customers = r ∷ db.customers };
  }

  abbrev pub dictionary_table : Table DictionaryEntry
  dictionary_table = record {
    key = λ r. r.id;
    rows = λ db. db.dictionary;
    conflict = dictionary_conflict;
    add = λ r db. record db { dictionary = r ∷ db.dictionary };
  }

  abbrev pub batch_table : Table Batch
  batch_table = record {
    key = λ r. r.id;
    rows = λ db. db.batches;
    conflict = batch_conflict;
    add = λ r db. record db { batches = r ∷ db.batches };
  }

  abbrev pub sale_table : Table Sale
  sale_table = record {
    key = λ r. r.id;
    rows = λ db. db.sales;
    conflict = λ r db. sale_conflict r db || not (is_author_id env r.author_id);
    add = λ r db. record db { sales = r ∷ db.sales };
  }

  -- A merged row has not passed `record_operation`: every foreign key is the database's to check.
  abbrev pub operation_table : Table Operation
  operation_table = record {
    key = λ r. r.id;
    rows = λ db. db.operations;
    conflict = λ r db.
        operation_conflict r db
        || (not (is_some (find_product r.product_id db.products))
            || (not (is_batch_id r.batch_id db.batches) || not (is_author_id env r.author_id)));
    add = λ r db. record db { operations = r ∷ db.operations };
  }

  abbrev pub cash_table : Table CashMovement
  cash_table = record {
    key = λ r. r.id;
    rows = λ db. db.cash_movements;
    conflict = λ r db. cash_conflict r db || not (is_author_id env r.author_id);
    add = λ r db. record db { cash_movements = r ∷ db.cash_movements };
  }

-- The buckets of `apply_merge`, one for each kind. A cached quantity is not taken from the wire, nor
-- is `synced_at`.
abbrev pub warehouses_in : List ExchangeRecord → List Warehouse
warehouses_in [] = []
warehouses_in (warehouse_record r ∷ rs) = r ∷ warehouses_in rs
warehouses_in (_ ∷ rs) = warehouses_in rs

abbrev pub products_in : List ExchangeRecord → List Product
products_in [] = []
products_in (product_record r ∷ rs) = record r { quantity = pos 0 } ∷ products_in rs
products_in (_ ∷ rs) = products_in rs

abbrev pub customers_in : List ExchangeRecord → List Customer
customers_in [] = []
customers_in (customer_record r ∷ rs) = r ∷ customers_in rs
customers_in (_ ∷ rs) = customers_in rs

abbrev pub dictionary_in : List ExchangeRecord → List DictionaryEntry
dictionary_in [] = []
dictionary_in (dictionary_record r ∷ rs) = r ∷ dictionary_in rs
dictionary_in (_ ∷ rs) = dictionary_in rs

abbrev pub batches_in : List ExchangeRecord → List Batch
batches_in [] = []
batches_in (batch_record r ∷ rs) = record r { quantity = pos 0 } ∷ batches_in rs
batches_in (_ ∷ rs) = batches_in rs

abbrev pub sales_in : List ExchangeRecord → List Sale
sales_in [] = []
sales_in (sale_record r ∷ rs) = r ∷ sales_in rs
sales_in (_ ∷ rs) = sales_in rs

abbrev pub operations_in : List ExchangeRecord → List Operation
operations_in [] = []
operations_in (operation_record r ∷ rs) = record r { synced_at = none } ∷ operations_in rs
operations_in (_ ∷ rs) = operations_in rs

abbrev pub cash_in : List ExchangeRecord → List CashMovement
cash_in [] = []
cash_in (cash_record r ∷ rs) = record r { synced_at = none } ∷ cash_in rs
cash_in (_ ∷ rs) = cash_in rs

-- `_upsert_reference` of the products, whose new rows pass through the code collisions.
unfoldable pub upsert_products : Env → List Product → Action (ℕ × ℕ × List Conflict)
unfolding partition_new insert_all resolve_code_collisions
upsert_products env [] = pure (0, 0, [])
upsert_products env (r ∷ rs) = do
  split ← gets (partition_new (product_table env) (r ∷ rs))
  resolved ← gets (λ db. resolve_code_collisions db.products split.0)
  insert_all (product_table env) resolved.0
  pure (length split.0, split.1, resolved.1)

unfoldable pub apply_merge : Env → List ExchangeRecord → Action MergeReport
unfolding insert_new upsert_products recompute_derived contains
apply_merge env records = do
  warehouses ← insert_new (warehouse_table env) (warehouses_in records)
  products ← upsert_products env (products_in records)
  customers ← insert_new (customer_table env) (customers_in records)
  dictionary ← insert_new (dictionary_table env) (dictionary_in records)
  batches ← insert_new (batch_table env) (batches_in records)
  sales ← insert_new (sale_table env) (sales_in records)
  operations ← insert_new (operation_table env) (operations_in records)
  cash_movements ← insert_new (cash_table env) (cash_in records)
  recompute_derived env
  pure (record {
    warehouses = warehouses;
    products = (products.0, products.1);
    customers = customers;
    dictionary = dictionary;
    batches = batches;
    sales = sales;
    operations = operations;
    cash_movements = cash_movements;
    conflicts = products.2;
  })
