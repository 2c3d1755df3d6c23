-- ===== src/Tests/MergeTests.antt =====
-- The theorems on merges at the small shop.
use myorishop.Prelude.{
  List, ◌≡◌, refl, [], ◌∷◌, some, pos, ◌+ℤ◌, length, false, ◌-◌, ◌≤◌, arith, All,
}
use myorishop.Text.{Text, text, contains, eq_text}
use myorishop.Models.{Product, Batch, Operation}
use myorishop.Session.{Session, ok}
use myorishop.Ledger.{check_stock_invariant}
use myorishop.Ledger.Projection.{HasStock, HasBatchStock}
use myorishop.Merge.{
  ExchangeRecord, MergeReport, product_record, batch_record, operation_record, apply_merge,
  product_table,
}
use myorishop.Merge.Tables.{partition_new}
use myorishop.Merge.Partition.{new_rows_of, partition_new-eq}
use myorishop.Merge.Appended.{Appended}
use myorishop.Merge.OnlyAdds.{apply_merge-Appended}
use myorishop.Merge.Replayed.{all_skipped, apply_merge-replay, apply_merge-HasStock}
use myorishop.Merge.Codes.{suffix_code}
use myorishop.Merge.Suffix.{suffix_code-length, suffix_code-free}
use myorishop.Tests.Shop.{shop, opened, at_desk, cream, lot_of_ten, arrival}

-- Another device's card under the shop's own code, its batch and its receipt.
abbrev other_cream : Product
other_cream = record cream { id = text "aaaa-bbbb-cccc"; quantity = pos 77 }

abbrev other_lot : Batch
other_lot = record lot_of_ten { id = text "b2"; product_id = text "aaaa-bbbb-cccc" }

abbrev other_arrival : Operation
other_arrival = record arrival {
  id = text "o2";
  product_id = text "aaaa-bbbb-cccc";
  batch_id = some (text "b2");
  qty_delta = pos 4;
  device_id = text "phone";
}

abbrev incoming : List ExchangeRecord
incoming =
    product_record other_cream
    ∷ product_record cream
    ∷ batch_record other_lot
    ∷ operation_record other_arrival
    ∷ operation_record arrival
    ∷ []

abbrev after_merge : Session
after_merge = (apply_merge at_desk incoming opened).1

-- The second card got another code.
abbrev report : MergeReport
report = record {
  warehouses = (0, 0);
  products = (1, 1);
  customers = (0, 0);
  dictionary = (0, 0);
  batches = (1, 0);
  sales = (0, 0);
  operations = (1, 1);
  cash_movements = (0, 0);
  conflicts =
      record {
        product_id = text "aaaa-bbbb-cccc";
        original_code = text "1234";
        resolved_code = text "1234~aaaabbbb";
        incumbent_id = text "p1";
      }
      ∷ [];
}

merged : apply_merge at_desk incoming opened ≡ (ok report, after_merge)
unfolding apply_merge ◌+ℤ◌
merged = refl

apply_merge-replay_example :
    apply_merge at_desk incoming after_merge ≡ (ok (all_skipped incoming), after_merge)
apply_merge-replay_example = apply_merge-replay at_desk incoming opened after_merge report merged

apply_merge-HasStock_example :
    let db = after_merge.staged in
    All (HasStock db.operations) db.products
    × All (HasBatchStock db.operations) db.batches
    × (check_stock_invariant db.batches db.operations db.products ≡ ok tt)
apply_merge-HasStock_example =
    apply_merge-HasStock at_desk incoming opened after_merge report merged

apply_merge-Appended_example : Appended shop (apply_merge at_desk incoming opened).1.staged
apply_merge-Appended_example = apply_merge-Appended at_desk incoming opened

partition_new-eq_example :
    let T = product_table at_desk in
    let rows = other_cream ∷ cream ∷ [] in
    partition_new T rows shop
    ≡ (new_rows_of T rows shop, length rows - length (new_rows_of T rows shop))
partition_new-eq_example = partition_new-eq (product_table at_desk) (other_cream ∷ cream ∷ []) shop

-- The first candidate is taken, the second is not.
abbrev taken_codes : List Text
taken_codes = text "1234~aaaabbbb" ∷ []

suffix_code-length_example :
    length (suffix_code (text "1234") (text "aaaa-bbbb-cccc") taken_codes) ≤ 20
suffix_code-length_example = suffix_code-length (text "1234") (text "aaaa-bbbb-cccc") taken_codes

suffix_code-free_example :
    contains taken_codes (suffix_code (text "1234") (text "aaaa-bbbb-cccc") taken_codes) ≡ false
unfolding contains eq_text
suffix_code-free_example =
    suffix_code-free (text "1234") (text "aaaa-bbbb-cccc") taken_codes 9 (omega arith) (omega arith)
      refl
