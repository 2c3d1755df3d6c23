-- ===== src/Tests/LedgerTests.antt =====
-- The ledger's theorems at the small shop.
use myorishop.Prelude.{All, true, none, some, negsuc, ◌≡◌, refl, ◌+ℤ◌}
use myorishop.Text.{text, eq_text}
use myorishop.Models.{OpType, no_payload}
use myorishop.Session.{ok}
use myorishop.Session.Keeps.{Both}
use myorishop.Ledger.{
  Draft, record_operation, recompute_derived, compute_stock, compute_batch_stock, batch_rows,
}
use myorishop.Ledger.Projection.{IsConsistent, HasStock, HasBatchStock}
use myorishop.Ledger.Record.{record_operation-IsConsistent}
use myorishop.Ledger.Effect.{RecordedBy, record_operation-RecordedBy}
use myorishop.Ledger.Rebuild.{recompute_derived-IsConsistent, recompute_derived-repairs}
use myorishop.Tests.Shop.{shop, opened, at_desk}

abbrev damage : Draft
damage = record {
  type = OpType.writeoff;
  product_id = text "p1";
  qty_delta = negsuc 2;
  unit_cost_cents = none;
  unit_price_cents = none;
  payload = no_payload;
  sale_id = none;
  batch_id = some (text "b1");
  business_date = none;
  commit = true;
}

pub shop-IsConsistent : IsConsistent shop
unfolding compute_stock compute_batch_stock batch_rows eq_text ◌+ℤ◌
shop-IsConsistent = record {
  stock = (refl, tt);
  batch_stock = (refl, tt);
  owned = ((_, refl, refl), tt);
  distinct = (refl, tt, tt);
}

record_operation-IsConsistent_example : Both IsConsistent (record_operation at_desk damage opened).1
record_operation-IsConsistent_example =
    record_operation-IsConsistent at_desk damage opened (λ e. cc) shop-IsConsistent
      shop-IsConsistent

record_operation-RecordedBy_example :
    let m = record_operation at_desk damage opened in RecordedBy at_desk damage opened m.0 m.1
record_operation-RecordedBy_example = record_operation-RecordedBy at_desk damage opened

recompute_derived-IsConsistent_example : recompute_derived at_desk opened ≡ (ok tt, opened)
recompute_derived-IsConsistent_example =
    recompute_derived-IsConsistent at_desk opened shop-IsConsistent

recompute_derived-repairs_example :
    let db = (recompute_derived at_desk opened).1.staged in
    All (HasStock shop.operations) db.products
    × All (HasBatchStock shop.operations) db.batches
    × (db.operations ≡ shop.operations)
recompute_derived-repairs_example = recompute_derived-repairs at_desk opened
