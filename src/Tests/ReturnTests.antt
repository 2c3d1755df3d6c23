-- ===== src/Tests/ReturnTests.antt =====
-- The theorems on returns at the small shop, after two units were sold.
use myorishop.Prelude.{◌≡◌, refl, [], ◌∷◌, map, ◌*ℤ◌, none, some, pos, negsuc, ◌+ℤ◌}
use myorishop.Text.{text, eq_text}
use myorishop.Models.{OpType, Operation, Product, CashMovement}
use myorishop.Db.{Db}
use myorishop.Session.{Session}
use myorishop.Session.Keeps.{Both}
use myorishop.Ledger.{operation_row, sum_where, compute_stock, compute_batch_stock, batch_rows}
use myorishop.Ledger.Projection.{IsConsistent}
use myorishop.Finance.{record_cash_movement}
use myorishop.Returns.{ReturnForm, register_return, return_draft}
use myorishop.Returns.Refunded.{AnsweredBy, register_return-AnsweredBy}
use myorishop.Returns.Stock.{register_return-IsConsistent}
use myorishop.Returns.Capped.{Capped, register_return-Capped}
use myorishop.Tests.Shop.{shop, at_desk, at_start, arrival, cream, lot_of_ten}

abbrev sale_row : Operation
sale_row = record arrival {
  id = text "o2";
  type = OpType.sale;
  qty_delta = negsuc 1;
  unit_price_cents = some (pos 900);
  sale_id = some (text "s1");
  seq = pos 2;
}

abbrev sold_shop : Db
sold_shop = record shop {
  products = record cream { quantity = pos 8 } ∷ [];
  batches = record lot_of_ten { quantity = pos 8 } ∷ [];
  sales =
      record {
        id = text "s1";
        customer_id = none;
        created_at = at_start;
        created_by = text "operator";
        author_id = none;
        device_id = some (text "dev");
      }
      ∷ [];
  operations = sale_row ∷ arrival ∷ [];
}

abbrev after_sale : Session
after_sale = record { committed = sold_shop; staged = sold_shop; drawn = 0 }

-- One of the two units comes back.
abbrev one_back : ReturnForm
one_back = record { origin_op_id = text "o2"; qty_raw = text "1"; op_date = text "2026-09-05" }

abbrev cream_back : Product
cream_back = record cream { quantity = pos 9; updated_at = text "2026-09-05T10:00:00+00:00" }

abbrev back_row : Operation
back_row =
    operation_row at_desk (return_draft sale_row (text "s1") (text "b1") (text "2026-09-05") 1)
      (text "u0") (pos 3)

register_return-AnsweredBy_example :
    let m = register_return at_desk one_back after_sale in
    AnsweredBy at_desk one_back after_sale m.0 m.1
register_return-AnsweredBy_example = register_return-AnsweredBy at_desk one_back after_sale refl

-- Nine roubles go back, and one unit.
paid_back :
    map
      (λ (m : CashMovement). m.amount_cents)
      (register_return at_desk one_back after_sale).1.committed.cash_movements
    ≡ negsuc 899 ∷ []
unfolding register_return ◌+ℤ◌ ◌*ℤ◌ record_cash_movement sum_where
paid_back = refl

register_return-Capped_example :
    Capped one_back (pos 1) sold_shop (register_return at_desk one_back after_sale).1.committed
unfolding register_return ◌+ℤ◌ sum_where
register_return-Capped_example =
    register_return-Capped at_desk one_back after_sale (some cream_back) back_row (pos 1) refl

sold_shop-IsConsistent : IsConsistent sold_shop
unfolding compute_stock compute_batch_stock batch_rows sum_where eq_text ◌+ℤ◌
sold_shop-IsConsistent = record {
  stock = (refl, tt);
  batch_stock = (refl, tt);
  owned = ((_, refl, refl), ((_, refl, refl), tt));
  distinct = (refl, tt, tt);
}

register_return-IsConsistent_example :
    Both IsConsistent (register_return at_desk one_back after_sale).1
unfolding eq_text
register_return-IsConsistent_example =
    register_return-IsConsistent at_desk one_back after_sale sale_row (text "b1") refl refl
      sold_shop-IsConsistent sold_shop-IsConsistent
