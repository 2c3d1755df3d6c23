-- ===== src/Tests/WarehouseTests.antt =====
-- The theorem on warehouses after two requests to the small shop.
use myorishop.Prelude.{◌≡◌, refl, [], ◌+ℤ◌, pos, false}
use myorishop.Text.{text, contains, eq_text}
use myorishop.Session.{Session, ok}
use myorishop.Session.Keeps.{Both}
use myorishop.Warehouses.{add_warehouse, soft_delete_warehouse, has_stock}
use myorishop.Warehouses.Reachable.{adds, deletes, stay, more, HasCurrencies, Steps-HasCurrencies}
use myorishop.Tests.Shop.{opened, at_desk}

abbrev with_annex : Session
with_annex = (add_warehouse at_desk (text "Annex") [] (text " eur ") opened).1

abbrev after_both : Session
after_both = (soft_delete_warehouse at_desk (text "w1") false with_annex).1

barred : (soft_delete_warehouse at_desk (text "w1") false with_annex).0 ≡ ok (has_stock (pos 10))
unfolding add_warehouse soft_delete_warehouse ◌+ℤ◌
barred = refl

Steps-HasCurrencies_example : Both HasCurrencies after_both
unfolding contains eq_text
Steps-HasCurrencies_example =
    Steps-HasCurrencies at_desk
      (more opened with_annex after_both
        (more opened opened with_annex (stay opened) (adds (text "Annex") [] (text " eur ") opened))
        (deletes (text "w1") false with_annex))
      (record { committed = (refl, tt); staged = (refl, tt) })
