-- ===== src/Tests/ReceiptTests.antt =====
-- The theorems on receipts at the small shop.
use myorishop.Prelude.{◌≡◌, refl, [], some, pos, ◌+ℤ◌}
use myorishop.Text.{text, eq_text}
use myorishop.Models.{Product, Batch, Operation}
use myorishop.Money.{rub}
use myorishop.Session.{ok}
use myorishop.Session.Keeps.{Both}
use myorishop.Session.Closes.{Closed}
use myorishop.IsoDate.{format_ru_date}
use myorishop.Ledger.{operation_row, parse_op_date}
use myorishop.Receipts.{
  ReceiptForm, register_receipt, received, is_received, new_card, new_batch, receipt_draft,
}
use myorishop.Receipts.Closing.{register_receipt-Closed}
use myorishop.Receipts.Received.{Received, register_receipt-Received}
use myorishop.Receipts.Stock.{IsSound}
use myorishop.Receipts.Register.{register_receipt-IsSound}
use myorishop.Tests.Shop.{shop, opened, at_desk}
use myorishop.Tests.LedgerTests.{shop-IsConsistent}

-- Five units of a code that the shop does not know, into a new batch.
abbrev five_soaps : ReceiptForm
five_soaps = record {
  code = text " 777 ";
  name = text "Soap";
  qty_raw = text "5";
  cost_raw = text "2,50";
  sale_raw = text "4,00";
  warehouse_id = text "w1";
  batch_choice = text "new";
  expiry_raw = text "2027-01-31";
  location_raw = [];
  comment_raw = [];
  op_date = text "2026-09-04";
}

abbrev soap : Product
soap = new_card at_desk five_soaps rub (text "u0")

abbrev soap_lot : Batch
soap_lot = new_batch at_desk five_soaps soap (text "u2")

abbrev soap_row : Operation
soap_row =
    operation_row at_desk (receipt_draft at_desk five_soaps soap soap_lot) (text "u3") (pos 3)

lot_name : soap_lot.name ≡ some (text "Soap — 04.09.2026")
unfolding format_ru_date parse_op_date
lot_name = refl

received_soap :
    (register_receipt at_desk five_soaps opened).0 ≡ ok (received soap soap_row soap_lot)
unfolding register_receipt ◌+ℤ◌
received_soap = refl

opened-IsSound : Both IsSound opened
unfolding eq_text
opened-IsSound =
    let sound : IsSound shop = record { consistent = shop-IsConsistent; known = (refl, tt) } in
    record { committed = sound; staged = sound }

register_receipt-Received_example :
    Received five_soaps soap soap_row soap_lot shop
      (register_receipt at_desk five_soaps opened).1.committed
register_receipt-Received_example =
    register_receipt-Received at_desk five_soaps opened soap soap_row soap_lot received_soap

register_receipt-Closed_example :
    let m = register_receipt at_desk five_soaps opened in Closed is_received opened m.0 m.1
register_receipt-Closed_example = register_receipt-Closed at_desk five_soaps opened refl

register_receipt-IsSound_example : Both IsSound (register_receipt at_desk five_soaps opened).1
register_receipt-IsSound_example = register_receipt-IsSound at_desk five_soaps opened opened-IsSound
