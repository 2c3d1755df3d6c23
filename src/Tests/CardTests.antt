-- ===== src/Tests/CardTests.antt =====
-- The theorems on cards at the small shop.
use myorishop.Prelude.{◌+ℤ◌, ◌≡◌, refl, [], ◌∷◌, none, some, pos, negsuc, Option}
use myorishop.Text.{Text, text, eq_text}
use myorishop.Models.{OpType, price_changed, card_edited, card_created}
use myorishop.Money.{PriceSet, PriceKind, rub, cost, sale, min_sale}
use myorishop.Db.{Db}
use myorishop.Session.{Session, ok}
use myorishop.Ledger.Trail.{trail}
use myorishop.Cards.{CardForm, saved, create_product, update_product}
use myorishop.Cards.Audited.{AuditedBy, update_product-Audited}
use myorishop.Cards.Created.{CreatedBy, create_product-CreatedBy}
use myorishop.Cards.Deletion.{
  deleted, blocked, soft_delete_product, quick_delete_product, restore_product, DeletedBy,
  quick_delete_product-DeletedBy,
}
use myorishop.Ledger.{compute_stock, compute_batch_stock, batch_rows}
use myorishop.Ledger.Projection.{IsConsistent}
use myorishop.Tests.Shop.{shop, opened, at_desk, cream, lot_of_ten, arrival}

-- Another name and another sale price; the amounts in the other currencies are not submitted.
abbrev new_prices_raw : PriceSet → PriceKind → Option Text
new_prices_raw rub cost = some (text "5,00")
new_prices_raw rub sale = some (text "9,90")
new_prices_raw rub min_sale = some (text "7")
new_prices_raw _ _ = none

abbrev day_cream : CardForm
day_cream = record {
  code = text "1234";
  name = text "Day cream";
  category = [];
  prices_raw = new_prices_raw;
  low_stock_threshold_raw = [];
  stale_days_raw = [];
}

edited : (update_product at_desk (text "p1") day_cream opened).0 ≡ ok (saved cream)
unfolding update_product ◌+ℤ◌
edited = refl

two_rows :
    trail (update_product at_desk (text "p1") day_cream opened).1.committed
    ≡ (OpType.product_edited, text "p1", card_edited (text "name" ∷ []))
      ∷ (
        OpType.price_change,
        text "p1",
        price_changed (text "sale_cents") (some (pos 900)) (some (pos 990)),
      )
      ∷ trail shop
unfolding update_product ◌+ℤ◌
two_rows = refl

update_product-Audited_example :
    let m = update_product at_desk (text "p1") day_cream opened in
    AuditedBy at_desk day_cream opened (text "p1") m.0 m.1
update_product-Audited_example = update_product-Audited at_desk (text "p1") day_cream opened refl

-- A code that no card has.
abbrev night_cream : CardForm
night_cream = record day_cream { code = text " 5678 "; name = text "Night cream" }

made_and_told :
    trail (create_product at_desk night_cream opened).1.committed
    ≡ (OpType.product_created, text "u0", card_created (text "5678") (text "Night cream"))
      ∷ trail shop
unfolding create_product ◌+ℤ◌
made_and_told = refl

create_product-CreatedBy_example :
    let m = create_product at_desk night_cream opened in
    CreatedBy at_desk night_cream opened m.0 m.1
create_product-CreatedBy_example = create_product-CreatedBy at_desk night_cream opened refl

-- All ten units are gone.
abbrev sold_out : Db
sold_out = record shop {
  products = record cream { quantity = pos 0 } ∷ [];
  batches = record lot_of_ten { quantity = pos 0 } ∷ [];
  operations =
      record arrival { id = text "o2"; type = OpType.writeoff; qty_delta = negsuc 9; seq = pos 2 }
      ∷ arrival
      ∷ [];
}

abbrev out_of_stock : Session
out_of_stock = record { committed = sold_out; staged = sold_out; drawn = 0 }

gone : (quick_delete_product at_desk (text "p1") out_of_stock).0 ≡ ok deleted
unfolding quick_delete_product
gone = refl

kept : (quick_delete_product at_desk (text "p1") opened).0 ≡ ok (blocked (pos 10))
unfolding quick_delete_product
kept = refl

-- A code is free again once its card is deleted, and a restored card has it back.
restored :
    (restore_product at_desk
      (text "p1")
      (soft_delete_product at_desk (text "p1") opened).1).1.committed.products
    ≡ record cream { updated_at = at_desk.now } ∷ []
unfolding restore_product soft_delete_product
restored = refl

sold_out-IsConsistent : IsConsistent sold_out
unfolding compute_stock compute_batch_stock batch_rows eq_text ◌+ℤ◌
sold_out-IsConsistent = record {
  stock = (refl, tt);
  batch_stock = (refl, tt);
  owned = ((_, refl, refl), ((_, refl, refl), tt));
  distinct = (refl, tt, tt);
}

quick_delete_product-DeletedBy_example :
    let m = quick_delete_product at_desk (text "p1") out_of_stock in
    DeletedBy at_desk (text "p1") out_of_stock m.0 m.1
quick_delete_product-DeletedBy_example =
    quick_delete_product-DeletedBy at_desk (text "p1") out_of_stock sold_out-IsConsistent
