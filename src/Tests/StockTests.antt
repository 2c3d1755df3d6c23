-- ===== src/Tests/StockTests.antt =====
-- The theorems on write-offs, corrections, transfers and manual cash movements at the small shop.
use myorishop.Prelude.{refl, [], none, pos, negsuc, ◌+ℤ◌}
use myorishop.Text.{text}
use myorishop.Models.{CashCategory}
use myorishop.Session.Keeps.{Both}
use myorishop.Session.Atomic.{AllOrNothing}
use myorishop.Ledger.{operation_row}
use myorishop.Ledger.Projection.{IsConsistent}
use myorishop.Writeoffs.{WriteoffForm, register_writeoff, is_written_off, writeoff_draft}
use myorishop.Writeoffs.Register.{register_writeoff-AllOrNothing, register_writeoff-IsConsistent}
use myorishop.Writeoffs.Taken.{Taken, register_writeoff-Taken}
use myorishop.Corrections.{CorrectionForm, register_correction, is_corrected, correction_draft}
use myorishop.Corrections.Register.{
  register_correction-AllOrNothing, register_correction-IsConsistent,
}
use myorishop.Corrections.Corrected.{Corrected, register_correction-Corrected}
use myorishop.Transfers.{TransferForm, register_transfer, is_moved, dest_batch}
use myorishop.Transfers.Register.{register_transfer-AllOrNothing, register_transfer-IsConsistent}
use myorishop.Transfers.Moved.{MovedUnits, register_transfer-MovedUnits}
use myorishop.Batches.Edit.{BatchForm, update_batch}
use myorishop.Batches.EditStock.{update_batch-IsConsistent}
use myorishop.Finance.{ManualForm, record_manual_movement}
use myorishop.Finance.Manual.{is_recorded, record_manual_movement-AllOrNothing}
use myorishop.Tests.Shop.{shop, opened, at_desk, cream, lot_of_ten}
use myorishop.Tests.LedgerTests.{shop-IsConsistent}

abbrev broken_three : WriteoffForm
broken_three = record {
  code = text "1234";
  qty_raw = text " 3 ";
  reason_code = text "damaged";
  note = text "dropped";
  batch_id = text "b1";
  confirm = [];
  op_date = [];
}

register_writeoff-AllOrNothing_example :
    AllOrNothing is_written_off (register_writeoff at_desk broken_three) opened
register_writeoff-AllOrNothing_example =
    register_writeoff-AllOrNothing at_desk broken_three opened refl

register_writeoff-IsConsistent_example :
    Both IsConsistent (register_writeoff at_desk broken_three opened).1
register_writeoff-IsConsistent_example =
    register_writeoff-IsConsistent at_desk broken_three opened shop-IsConsistent shop-IsConsistent

register_writeoff-Taken_example :
    Taken broken_three cream
      (operation_row at_desk
        (writeoff_draft at_desk broken_three cream lot_of_ten)
        (text "u0")
        (pos 2))
      shop
      (register_writeoff at_desk broken_three opened).1.committed
unfolding register_writeoff ◌+ℤ◌
register_writeoff-Taken_example =
    register_writeoff-Taken at_desk broken_three opened cream
      (operation_row at_desk (writeoff_draft at_desk broken_three cream lot_of_ten) (text "u0")
        (pos 2))
      refl

abbrev eight_left : CorrectionForm
eight_left = record {
  code = text "1234";
  mode = text "count";
  value_raw = text "8";
  note = [];
  batch_id = text "b1";
  confirm = [];
  op_date = text "2026-09-04";
}

register_correction-AllOrNothing_example :
    AllOrNothing is_corrected (register_correction at_desk eight_left) opened
register_correction-AllOrNothing_example =
    register_correction-AllOrNothing at_desk eight_left opened refl

register_correction-IsConsistent_example :
    Both IsConsistent (register_correction at_desk eight_left opened).1
register_correction-IsConsistent_example =
    register_correction-IsConsistent at_desk eight_left opened shop-IsConsistent shop-IsConsistent

register_correction-Corrected_example :
    Corrected eight_left
      (operation_row at_desk
        (correction_draft at_desk eight_left cream lot_of_ten (negsuc 1))
        (text "u0")
        (pos 2))
      (pos 8)
      cream
      shop
      (register_correction at_desk eight_left opened).1.committed
unfolding register_correction ◌+ℤ◌
register_correction-Corrected_example =
    register_correction-Corrected at_desk eight_left opened cream
      (operation_row at_desk (correction_draft at_desk eight_left cream lot_of_ten (negsuc 1))
        (text "u0") (pos 2))
      (pos 8) refl

-- Four units split off within the warehouse, under another comment.
abbrev four_aside : TransferForm
four_aside = record {
  code = text "1234";
  qty_raw = text "4";
  batch_id = text "b1";
  dest_warehouse_id = text "w1";
  new_expiry = [];
  new_comment = text "aside";
  cost_raw = [];
  sale_price_raw = [];
  confirm = [];
  op_date = [];
}

register_transfer-AllOrNothing_example :
    AllOrNothing is_moved (register_transfer at_desk four_aside) opened
register_transfer-AllOrNothing_example =
    register_transfer-AllOrNothing at_desk four_aside opened refl

register_transfer-IsConsistent_example :
    Both IsConsistent (register_transfer at_desk four_aside opened).1
register_transfer-IsConsistent_example =
    register_transfer-IsConsistent at_desk four_aside opened shop-IsConsistent shop-IsConsistent

register_transfer-MovedUnits_example :
    MovedUnits four_aside
      (text "p1")
      cream
      lot_of_ten
      (dest_batch at_desk four_aside cream lot_of_ten none none (text "u0"))
      4
      shop
      (register_transfer at_desk four_aside opened).1.committed
unfolding register_transfer ◌+ℤ◌
register_transfer-MovedUnits_example =
    register_transfer-MovedUnits at_desk four_aside (text "p1") opened cream lot_of_ten
      (dest_batch at_desk four_aside cream lot_of_ten none none (text "u0")) 4 refl

-- A confirmed withdrawal from an empty till.
abbrev rent_paid : ManualForm
rent_paid = record {
  category = CashCategory.withdrawal_rent;
  amount_raw = text "150,5";
  note = [];
  currency = text "rub";
  confirm = text "1";
  op_date = [];
}

record_manual_movement-AllOrNothing_example :
    AllOrNothing is_recorded (record_manual_movement at_desk rent_paid) opened
record_manual_movement-AllOrNothing_example =
    record_manual_movement-AllOrNothing at_desk rent_paid opened refl

-- The batch gets a name, an expiry as a week date, and a cost.
abbrev named : BatchForm
named = record {
  name_raw = text "First";
  expiry_raw = text "2027-W01";
  location_raw = [];
  comment_raw = [];
  price_raw = [];
  cost_raw = text "4,99";
}

update_batch-IsConsistent_example :
    Both IsConsistent (update_batch at_desk (text "b1") named opened).1
update_batch-IsConsistent_example =
    update_batch-IsConsistent at_desk (text "b1") named opened shop-IsConsistent shop-IsConsistent
