-- ===== src/Batches.antt =====
-- app/services/batches.py: which batches a user may write to, the legacy batch of a product, the
-- active warehouses; and the INSERT of a batch.
pub mod Add
pub mod Edit
pub mod EditStock
use myorishop.Prelude.{
  Bool, not, ◌&&◌, ◌||◌, Option, none, some, List, [], ◌∷◌, any, first, is_some, if◌then◌else◌,
  ◌==◌,
}
use myorishop.Text.{Text, eq_text}
use myorishop.Models.{Product, Batch, Warehouse, default_currency}
use myorishop.Money.{currency_or_default}
use myorishop.Db.{Db, find_batch, find_warehouse}
use myorishop.Session.{Env, warehouse_allowed}

abbrev owned : Env → Product → Option Batch → Option Batch
owned env p none = none
owned env p (some b) =
    if not (eq_text b.product_id p.id) || not (warehouse_allowed env b.warehouse_id)
    then none
    else some b

-- The guard that a write-off, a correction and a transfer share: the id names a batch of the product
-- in a warehouse of the user.
unfoldable pub own_batch : Env → Db → Product → Text → Option Batch
unfolding eq_text
own_batch env db p [] = none
own_batch env db p (c ∷ cs) = owned env p (find_batch (c ∷ cs) db.batches)

-- `legacy_batch`
unfoldable pub legacy_batch : Text → List Batch → Option Batch
unfolding eq_text
legacy_batch product_id = first (λ b. eq_text b.product_id product_id && (b.is_legacy == 1))

-- `id in {w.id for w in active_warehouses(session, scoped=False)}`
unfoldable pub is_active_warehouse : Text → List Warehouse → Bool
unfolding eq_text
is_active_warehouse id = any (λ w. eq_text w.id id && not (is_some w.deleted_at))

abbrev pub add_batch : Batch → Db → Db
add_batch b db = record db { batches = b ∷ db.batches }

-- `active_warehouses(session)`: the active ones of the user.
abbrev pub is_own_warehouse : Env → Warehouse → Bool
is_own_warehouse env w = not (is_some w.deleted_at) && warehouse_allowed env w.id

-- `warehouse_currency`
unfoldable pub warehouse_currency : Text → List Warehouse → Text
unfolding eq_text
warehouse_currency [] warehouses = default_currency
warehouse_currency (c ∷ cs) warehouses = elim (find_warehouse (c ∷ cs) warehouses) [
  | none ↦ default_currency
  | some w ↦ currency_or_default (some w.currency)
]
