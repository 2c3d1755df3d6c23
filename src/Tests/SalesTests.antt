-- ===== src/Tests/SalesTests.antt =====
-- The sales theorems at the small shop.
use myorishop.Prelude.{refl, [], ◌∷◌, none}
use myorishop.Text.{text}
use myorishop.Session.Keeps.{Both}
use myorishop.Session.Atomic.{AllOrNothing}
use myorishop.Ledger.Projection.{IsConsistent}
use myorishop.Sales.{SaleForm, register_sale, is_registered}
use myorishop.Sales.Register.{register_sale-AllOrNothing, register_sale-IsConsistent}
use myorishop.Tests.Shop.{opened, at_desk}
use myorishop.Tests.LedgerTests.{shop-IsConsistent}

-- Two units at 9,50 each, with a blank row before them.
abbrev two_creams : SaleForm
two_creams = record {
  customer_id = none;
  codes = text " " ∷ text "1234" ∷ [];
  qtys = [] ∷ text "2" ∷ [];
  prices = [] ∷ text "9,50" ∷ [];
  batch_ids = [] ∷ text "b1" ∷ [];
  confirm = [];
  op_date = text "2026-09-03";
}

register_sale-AllOrNothing_example :
    AllOrNothing is_registered (register_sale at_desk two_creams) opened
register_sale-AllOrNothing_example = register_sale-AllOrNothing at_desk two_creams opened refl

register_sale-IsConsistent_example : Both IsConsistent (register_sale at_desk two_creams opened).1
register_sale-IsConsistent_example =
    register_sale-IsConsistent at_desk two_creams opened shop-IsConsistent shop-IsConsistent
