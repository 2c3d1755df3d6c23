-- ===== src/Models.antt =====
-- app/models.py: the rows of the tables that the services read and write, and the constants that
-- they test. Ids, codes, dates and timestamps are texts; quantities and money are integers.
use myorishop.Prelude.{ℕ, Bool, true, false, Option, List, [], ◌∷◌, ℤ}
use myorishop.Text.{Text, text}

-- `Operation.type`: the values of `OPERATION_TYPES`, or any other text.
pub data OpType : Type 0 where
  receipt sale writeoff return correction transfer : OpType
  price_change product_created product_edited : OpType
  other : Text → OpType

-- `type_ in OPERATION_TYPES`
abbrev pub is_operation_type : OpType → Bool
is_operation_type (other t) = false
is_operation_type _ = true

-- The keys of `WRITEOFF_REASONS`.
abbrev pub writeoff_reasons : List Text
writeoff_reasons =
    text "damaged"
    ∷ text "expired"
    ∷ text "lost"
    ∷ text "personal"
    ∷ text "gift"
    ∷ text "other"
    ∷ []

-- `CashMovement.category`: the keys of `CASH_CATEGORIES`, or any other text.
pub data CashCategory : Type 0 where
  sale return : CashCategory
  withdrawal_supplier withdrawal_salary withdrawal_rent withdrawal_utilities : CashCategory
  withdrawal_other deposit_opening deposit_correction : CashCategory
  other : Text → CashCategory

-- `category in CASH_CATEGORIES`
abbrev pub is_cash_category : CashCategory → Bool
is_cash_category (CashCategory.other t) = false
is_cash_category _ = true

-- `category in CASH_BUCKETS["withdrawal"]`
abbrev pub is_withdrawal : CashCategory → Bool
is_withdrawal CashCategory.withdrawal_supplier = true
is_withdrawal CashCategory.withdrawal_salary = true
is_withdrawal CashCategory.withdrawal_rent = true
is_withdrawal CashCategory.withdrawal_utilities = true
is_withdrawal CashCategory.withdrawal_other = true
is_withdrawal _ = false

-- `category in CASH_BUCKETS["deposit"]`
abbrev pub is_deposit : CashCategory → Bool
is_deposit CashCategory.deposit_opening = true
is_deposit CashCategory.deposit_correction = true
is_deposit _ = false

pub record Product : Type 0 where
  pub id : Text
  pub code : Option Text
  pub name : Text
  pub category : Option Text
  pub cost_cents : Option ℤ
  pub sale_cents : Option ℤ
  pub min_sale_cents : Option ℤ
  pub cost_uah_cents : Option ℤ
  pub sale_uah_cents : Option ℤ
  pub min_sale_uah_cents : Option ℤ
  pub cost_eur_cents : Option ℤ
  pub sale_eur_cents : Option ℤ
  pub min_sale_eur_cents : Option ℤ
  pub low_stock_threshold : Option ℤ
  pub stale_days : Option ℤ
  pub name_lc : Option Text
  pub quantity : ℤ
  pub created_at : Text
  pub updated_at : Text
  pub deleted_at : Option Text

pub record Warehouse : Type 0 where
  pub id : Text
  pub name : Text
  pub address : Option Text
  pub currency : Text
  pub created_at : Text
  pub updated_at : Text
  pub deleted_at : Option Text

pub record Batch : Type 0 where
  pub id : Text
  pub product_id : Text
  pub warehouse_id : Text
  pub expiry : Option Text
  pub price_cents : Option ℤ
  pub cost_cents : Option ℤ
  pub location : Option Text
  pub comment : Option Text
  pub name : Option Text
  pub quantity : ℤ
  pub is_legacy : ℕ
  pub created_at : Text
  pub updated_at : Text

-- `Operation.payload`: the JSON objects that the services write, and any other JSON as its text.
pub data Payload : Type 0 where
  no_payload : Payload
  writeoff_note : Text → Text → Payload
  correction_note : Option Text → Text → Payload
  origin_op : Text → Payload
  card_created : Text → Text → Payload
  price_changed : Text → Option ℤ → Option ℤ → Payload
  card_edited : List Text → Payload
  json : Text → Payload

pub record Operation : Type 0 where
  pub id : Text
  pub type : OpType
  pub product_id : Text
  pub qty_delta : ℤ
  pub unit_cost_cents : Option ℤ
  pub unit_price_cents : Option ℤ
  pub payload : Payload
  pub sale_id : Option Text
  pub batch_id : Option Text
  pub reverses_op_id : Option Text
  pub author_id : Option Text
  pub device_id : Text
  pub seq : ℤ
  pub created_at : Text
  pub business_date : Option Text
  pub created_by : Text
  pub synced_at : Option Text

pub record Customer : Type 0 where
  pub id : Text
  pub name : Text
  pub surname : Option Text
  pub consultant_number : Option Text
  pub address : Option Text
  pub search_lc : Option Text
  pub created_at : Text
  pub updated_at : Text

pub record DictionaryEntry : Type 0 where
  pub id : Text
  pub code : Text
  pub name : Text
  pub catalogs : Option (List Text)
  pub name_lc : Option Text
  pub rubric : Option Text
  pub created_at : Text
  pub updated_at : Text

pub record Sale : Type 0 where
  pub id : Text
  pub customer_id : Option Text
  pub created_at : Text
  pub created_by : Text
  pub author_id : Option Text
  pub device_id : Option Text

pub record CashMovement : Type 0 where
  pub id : Text
  pub category : CashCategory
  pub amount_cents : ℤ
  pub currency : Text
  pub note : Option Text
  pub sale_id : Option Text
  pub reverses_movement_id : Option Text
  pub author_id : Option Text
  pub device_id : Text
  pub seq : ℤ
  pub created_at : Text
  pub business_date : Option Text
  pub created_by : Text
  pub synced_at : Option Text

-- app/core.py: `CURRENCIES` and `DEFAULT_CURRENCY`.
abbrev pub currencies : List Text
currencies = text "RUB" ∷ text "UAH" ∷ text "EUR" ∷ []

abbrev pub default_currency : Text
default_currency = text "RUB"
