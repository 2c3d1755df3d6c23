-- ===== src/Tests/Shop.antt =====
-- One warehouse, one product with one batch of ten units, and the receipt that brought them in.
use myorishop.Prelude.{none, some, [], ◌∷◌, pos, ◌+◌}
use myorishop.Text.{Text, text}
use myorishop.Models.{OpType, Warehouse, Product, Batch, Operation, no_payload, default_currency}
use myorishop.Db.{Db}
use myorishop.Session.{Session, Env}

abbrev pub at_start : Text
at_start = text "2026-09-01T08:00:00+00:00"

abbrev pub shelf : Warehouse
shelf = record {
  id = text "w1";
  name = text "Main";
  address = none;
  currency = default_currency;
  created_at = at_start;
  updated_at = at_start;
  deleted_at = none;
}

abbrev pub cream : Product
cream = record {
  id = text "p1";
  code = some (text "1234");
  name = text "Cream";
  category = none;
  cost_cents = some (pos 500);
  sale_cents = some (pos 900);
  min_sale_cents = some (pos 700);
  cost_uah_cents = none;
  sale_uah_cents = none;
  min_sale_uah_cents = none;
  cost_eur_cents = none;
  sale_eur_cents = none;
  min_sale_eur_cents = none;
  low_stock_threshold = none;
  stale_days = none;
  name_lc = some (text "cream");
  quantity = pos 10;
  created_at = at_start;
  updated_at = at_start;
  deleted_at = none;
}

abbrev pub lot_of_ten : Batch
lot_of_ten = record {
  id = text "b1";
  product_id = text "p1";
  warehouse_id = text "w1";
  expiry = none;
  price_cents = none;
  cost_cents = none;
  location = none;
  comment = none;
  name = none;
  quantity = pos 10;
  is_legacy = 0;
  created_at = at_start;
  updated_at = at_start;
}

abbrev pub arrival : Operation
arrival = record {
  id = text "o1";
  type = OpType.receipt;
  product_id = text "p1";
  qty_delta = pos 10;
  unit_cost_cents = none;
  unit_price_cents = none;
  payload = no_payload;
  sale_id = none;
  batch_id = some (text "b1");
  reverses_op_id = none;
  author_id = none;
  device_id = text "dev";
  seq = pos 1;
  created_at = at_start;
  business_date = some (text "2026-09-01");
  created_by = text "operator";
  synced_at = none;
}

abbrev pub shop : Db
shop = record {
  warehouses = shelf ∷ [];
  products = cream ∷ [];
  customers = [];
  dictionary = [];
  batches = lot_of_ten ∷ [];
  sales = [];
  operations = arrival ∷ [];
  cash_movements = [];
}

abbrev pub opened : Session
opened = record { committed = shop; staged = shop; drawn = 0 }

abbrev pub at_desk : Env
at_desk = record {
  device_id = text "dev";
  operator_name = text "operator";
  user = none;
  allowed_warehouses = none;
  user_ids = [];
  now = text "2026-09-05T10:00:00+00:00";
  today = record { year = 2026; month = 9; day = 5 };
  uuid = λ n. b'u' ∷ (48 + n) ∷ [];
}
