-- ===== src/Warehouses.antt =====
-- app/services/warehouses.py: warehouses added, edited, deleted and restored.
pub mod Reachable
use myorishop.Prelude.{
  ℕ, ◌+◌, Bool, true, false, not, Option, none, some, List, [], ◌∷◌, ◌++◌, map, ℤ, pos, ◌+ℤ◌, ltb_ℤ,
  leb, is_some, is_empty, if◌then◌else◌,
}
use myorishop.Text.{Text, eq_text, strip, upper, or_none, contains}
use myorishop.Models.{Warehouse, Batch, currencies, default_currency}
use myorishop.Db.{Db, find_warehouse, warehouse_conflict}
use myorishop.Session.{Env, Action, gets, modify, insert, commit, pure, new_id, ⊤, ◌>>=◌, ◌>>◌}
use myorishop.Finance.{when}

pub data WarehouseError : Type 0 where
  name_required not_found currency_invalid : WarehouseError

pub data WarehouseResult : Type 0 where
  saved : Warehouse → WarehouseResult
  refused_warehouse : List WarehouseError → WarehouseResult

-- `_clean_currency`; `none` is its error.
abbrev listed_currency : Text → Option Text
listed_currency [] = some default_currency
listed_currency (c ∷ cs) = if contains currencies (c ∷ cs) then some (c ∷ cs) else none

unfoldable pub clean_currency : Text → Option Text
unfolding strip contains
clean_currency currency = listed_currency (upper (strip currency))

-- The code beside an error is not used.
abbrev code_or_default : Option Text → Text
code_or_default none = default_currency
code_or_default (some code) = code

abbrev form_errors : Text → Option Text → List WarehouseError
form_errors name code =
    when (not (is_some code)) currency_invalid ++ when (is_empty (strip name)) name_required

abbrev pub new_warehouse : Env → Text → Text → Text → Text → Warehouse
new_warehouse env name address code id = record {
  id = id;
  name = strip name;
  address = or_none (strip address);
  currency = code;
  created_at = env.now;
  updated_at = env.now;
  deleted_at = none;
}

abbrev pub add_row : Warehouse → Db → Db
add_row w db = record db { warehouses = w ∷ db.warehouses }

abbrev pub insert_warehouse : Env → Text → Text → Text → Action WarehouseResult
insert_warehouse env name address code = do
  id ← new_id env
  let w = new_warehouse env name address code id
  insert (warehouse_conflict w) (add_row w)
  commit
  pure (saved w)

abbrev pub add_checked :
    Env → Text → Text → Option Text → List WarehouseError → Action WarehouseResult
add_checked env name address code (e ∷ es) = pure (refused_warehouse (e ∷ es))
add_checked env name address none [] = pure (refused_warehouse (currency_invalid ∷ []))
add_checked env name address (some code) [] = insert_warehouse env name address code

unfoldable pub add_warehouse : Env → Text → Text → Text → Action WarehouseResult
unfolding clean_currency strip eq_text
add_warehouse env name address currency =
    add_checked env name address (clean_currency currency)
      (form_errors name (clean_currency currency))

-- An UPDATE of one row.
abbrev pub at_id : Text → (Warehouse → Warehouse) → Warehouse → Warehouse
at_id id change w = if eq_text w.id id then change w else w

abbrev pub change_row : Text → (Warehouse → Warehouse) → Db → Db
change_row id change db = record db { warehouses = map (at_id id change) db.warehouses }

abbrev pub with_form : Env → Text → Text → Text → Warehouse → Warehouse
with_form env name address code w = record w {
  name = strip name;
  address = or_none (strip address);
  currency = code;
  updated_at = env.now;
}

-- An omitted currency is the current one.
unfoldable pub edited_currency : Text → Text → Option Text
unfolding clean_currency strip
edited_currency currency current =
    if is_empty (strip currency) then some current else clean_currency currency

abbrev pub write_form : Env → Text → Text → Text → Warehouse → Action WarehouseResult
write_form env name address code w =
    modify (change_row w.id (with_form env name address code))
    >> commit
    >> pure (saved (with_form env name address code w))

abbrev pub update_checked :
    Env → Text → Text → Option Text → Warehouse → List WarehouseError → Action WarehouseResult
update_checked env name address code w (e ∷ es) = pure (refused_warehouse (e ∷ es))
update_checked env name address none w [] = pure (refused_warehouse (currency_invalid ∷ []))
update_checked env name address (some code) w [] = write_form env name address code w

abbrev pub update_of : Env → Text → Text → Text → Option Warehouse → Action WarehouseResult
update_of env name address currency none = pure (refused_warehouse (not_found ∷ []))
update_of env name address currency (some w) =
    let code = edited_currency currency w.currency in
    if is_some w.deleted_at
    then pure (refused_warehouse (not_found ∷ []))
    else update_checked env name address code w (form_errors name code)

unfoldable pub update_warehouse : Env → Text → Text → Text → Text → Action WarehouseResult
unfolding edited_currency strip eq_text
update_warehouse env id name address currency =
    gets (λ db. find_warehouse id db.warehouses) >>= update_of env name address currency

abbrev pub marked : Env → Option Text → Warehouse → Warehouse
marked env at w = record w { deleted_at = at; updated_at = env.now }

abbrev pub mark : Env → Text → Option Text → Action ⊤
mark env id at = modify (change_row id (marked env at)) >> commit

abbrev pub restore_of : Env → Option Warehouse → Action ⊤
restore_of env none = pure tt
restore_of env (some w) = if is_some w.deleted_at then mark env w.id none else pure tt

unfoldable pub restore_warehouse : Env → Text → Action ⊤
unfolding eq_text
restore_warehouse env id = gets (λ db. find_warehouse id db.warehouses) >>= restore_of env

pub data DeleteAnswer : Type 0 where
  deleted nothing_to_delete : DeleteAnswer
  has_stock : ℤ → DeleteAnswer
  is_last : Warehouse → DeleteAnswer

-- `func.sum(Batch.quantity)` of the warehouse.
unfoldable pub warehouse_stock : Text → List Batch → ℤ
unfolding eq_text
warehouse_stock id [] = pos 0
warehouse_stock id (b ∷ bs) =
    let rest = warehouse_stock id bs in
    if eq_text b.warehouse_id id then b.quantity +ℤ rest else rest

abbrev pub active_count : List Warehouse → ℕ
active_count [] = 0
active_count (w ∷ ws) =
    let rest = active_count ws in if is_some w.deleted_at then rest else rest + 1

abbrev pub needs_confirm : Bool → List Warehouse → Bool
needs_confirm true ws = false
needs_confirm false ws = leb (active_count ws) 1

abbrev pub delete_of : Env → Bool → Db → Option Warehouse → Action DeleteAnswer
delete_of env confirm db none = pure nothing_to_delete
delete_of env confirm db (some w) =
    let stock = warehouse_stock w.id db.batches in
    if is_some w.deleted_at
    then pure nothing_to_delete
    else if ltb_ℤ (pos 0) stock
    then pure (has_stock stock)
    else if needs_confirm confirm db.warehouses
    then pure (is_last w)
    else mark env w.id (some env.now) >> pure deleted

unfoldable pub soft_delete_warehouse : Env → Text → Bool → Action DeleteAnswer
unfolding warehouse_stock eq_text
soft_delete_warehouse env id confirm = do
  db ← gets (λ db. db)
  delete_of env confirm db (find_warehouse id db.warehouses)
