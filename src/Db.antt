-- ===== src/Db.antt =====
-- The database as the services see it through SQLAlchemy: the tables, each newest row first, the
-- constraints that an INSERT meets, and the queries by id and by code.
use myorishop.Prelude.{
  Bool, true, false, not, ◌&&◌, ◌||◌, Option, none, some, List, ◌∷◌, ℤ, ◌+ℤ◌, ◌==ℤ◌, any, first,
  is_some, if◌then◌else◌,
}
use myorishop.Text.{Text, eq_text, is_text}
use myorishop.Models.{
  Warehouse, Product, Customer, DictionaryEntry, Batch, Sale, Operation, CashMovement,
}

pub record Db : Type 0 where
  pub warehouses : List Warehouse
  pub products : List Product
  pub customers : List Customer
  pub dictionary : List DictionaryEntry
  pub batches : List Batch
  pub sales : List Sale
  pub operations : List Operation
  pub cash_movements : List CashMovement

-- `session.get(Model, id)`
abbrev pub find_product : Text → List Product → Option Product
find_product id = first (λ p. eq_text p.id id)

abbrev pub find_batch : Text → List Batch → Option Batch
find_batch id = first (λ b. eq_text b.id id)

abbrev pub find_warehouse : Text → List Warehouse → Option Warehouse
find_warehouse id = first (λ w. eq_text w.id id)

abbrev pub find_operation : Text → List Operation → Option Operation
find_operation id = first (λ o. eq_text o.id id)

-- `select(Product).where(Product.code == code, Product.deleted_at.is_(None)).first()`
abbrev pub active_product : Text → List Product → Option Product
active_product code = first (λ p. is_text code p.code && not (is_some p.deleted_at))

-- A foreign key: NULL, or the id of a row.
abbrev pub is_sale_id : Option Text → List Sale → Bool
is_sale_id none sales = true
is_sale_id (some id) sales = any (λ s. eq_text s.id id) sales

abbrev pub is_customer_id : Option Text → List Customer → Bool
is_customer_id none customers = true
is_customer_id (some id) customers = any (λ c. eq_text c.id id) customers

-- UNIQUE(device_id, seq) on `operations` and on `cash_movements`.
abbrev pub is_seq_taken : Text → ℤ → List Operation → Bool
is_seq_taken device seq = any (λ o. eq_text o.device_id device && o.seq ==ℤ seq)

abbrev pub is_cash_seq_taken : Text → ℤ → List CashMovement → Bool
is_cash_seq_taken device seq = any (λ m. eq_text m.device_id device && m.seq ==ℤ seq)

-- What makes the INSERT of a row an IntegrityError: its primary key, a UNIQUE, a foreign key.
abbrev pub operation_conflict : Operation → Db → Bool
operation_conflict o db =
    any (λ x. eq_text x.id o.id) db.operations
    || (is_seq_taken o.device_id o.seq db.operations || not (is_sale_id o.sale_id db.sales))

abbrev pub cash_conflict : CashMovement → Db → Bool
cash_conflict m db =
    any (λ x. eq_text x.id m.id) db.cash_movements
    || (is_cash_seq_taken m.device_id m.seq db.cash_movements
        || not (is_sale_id m.sale_id db.sales))

abbrev pub sale_conflict : Sale → Db → Bool
sale_conflict s db =
    any (λ x. eq_text x.id s.id) db.sales || not (is_customer_id s.customer_id db.customers)

abbrev pub batch_conflict : Batch → Db → Bool
batch_conflict b db =
    any (λ x. eq_text x.id b.id) db.batches
    || (not (is_some (find_product b.product_id db.products))
        || not (is_some (find_warehouse b.warehouse_id db.warehouses)))

-- `product.quantity = Product.quantity + delta`, with the column's `onupdate`.
abbrev pub bump_product : Text → Text → ℤ → Product → Product
bump_product now id delta p =
    if eq_text p.id id then record p { quantity = p.quantity +ℤ delta; updated_at = now } else p

abbrev pub bump_batch : Text → Option Text → ℤ → Batch → Batch
bump_batch now id delta b =
    if is_text b.id id then record b { quantity = b.quantity +ℤ delta; updated_at = now } else b

abbrev pub is_active : Product → Bool
is_active p = not (is_some p.deleted_at)

-- `uq_products_code_active`: no two active products have one code; NULL is no code.
abbrev pub is_code_taken : Option Text → List Product → Bool
is_code_taken none products = false
is_code_taken (some code) products = any (λ p. is_text code p.code && is_active p) products

abbrev pub product_conflict : Product → Db → Bool
product_conflict p db =
    any (λ x. eq_text x.id p.id) db.products || (is_active p && is_code_taken p.code db.products)

abbrev pub add_product : Product → Db → Db
add_product p db = record db { products = p ∷ db.products }

abbrev pub warehouse_conflict : Warehouse → Db → Bool
warehouse_conflict w db = any (λ x. eq_text x.id w.id) db.warehouses

abbrev pub customer_conflict : Customer → Db → Bool
customer_conflict c db = any (λ x. eq_text x.id c.id) db.customers

abbrev pub dictionary_conflict : DictionaryEntry → Db → Bool
dictionary_conflict d db =
    any (λ x. eq_text x.id d.id) db.dictionary || any (λ x. eq_text x.code d.code) db.dictionary
