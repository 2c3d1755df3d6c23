-- ===== src/Sales/Effect.antt =====
-- What a registered basket moves: the stock of its products, and the cash of its currency.
use myorishop.Prelude.{List, [], ◌∷◌, ℤ, pos, neg, ◌+ℤ◌, refl, sym, +ℤ-zero}
use myorishop.Text.{Text}
use myorishop.Models.{Sale}
use myorishop.Db.{sale_conflict}
use myorishop.Session.{Env, insert, pure}
use myorishop.Session.Measure.{Adds, Adds-bind, Adds-then, Adds-first, Adds-pure, Adds-insert}
use myorishop.Ledger.{record_operation}
use myorishop.Ledger.Moves.{stock_of, delta_for, Adds-record_operation, Adds-record_operation_none}
use myorishop.Finance.{record_cash_movement}
use myorishop.Finance.Moves.{balance_in, Adds-record_cash_movement, Adds-record_cash_movement_none}
use myorishop.Sales.{Line, line_draft, post_lines, sale_credit, add_sale, stage_basket, total_of}

-- What the lines take from the stock of one product.
pub taken_from : Text → List Line → ℤ
taken_from product [] = pos 0
taken_from product (l ∷ ls) =
    delta_for product l.product.id (neg (pos l.qty)) +ℤ taken_from product ls

Adds-post_lines :
    (product : Text) (env : Env) (header date currency : Text) (ls : List Line)
    → Adds (stock_of product) (taken_from product ls) (post_lines env header date currency ls)
unfolding post_lines taken_from
Adds-post_lines product env header date currency [] = Adds-pure tt
Adds-post_lines product env header date currency (l ∷ ls) =
    Adds-bind (delta_for product l.product.id (neg (pos l.qty))) (taken_from product ls)
      (record_operation env (line_draft header date currency l))
      (λ _. post_lines env header date currency ls)
      (Adds-record_operation product env (line_draft header date currency l))
      (λ _. Adds-post_lines product env header date currency ls)

Adds-post_lines_none :
    (currency : Text) (env : Env) (header date c : Text) (ls : List Line)
    → Adds (balance_in currency) (pos 0) (post_lines env header date c ls)
unfolding post_lines
Adds-post_lines_none currency env header date c [] = Adds-pure tt
Adds-post_lines_none currency env header date c (l ∷ ls) =
    Adds-then (pos 0) (record_operation env (line_draft header date c l))
      (λ _. post_lines env header date c ls)
      (Adds-record_operation_none (balance_in currency) env (line_draft header date c l)
        (λ o db. refl))
      (λ _. Adds-post_lines_none currency env header date c ls)

-- A staged basket takes each product's stock down by the quantities of its lines.
pub Adds-stage_basket_stock :
    (product : Text) (env : Env) (h : Sale) (date currency : Text) (ls : List Line)
    → Adds (stock_of product) (taken_from product ls) (stage_basket env h date currency ls)
Adds-stage_basket_stock product env h date currency ls =
    let credit = sale_credit h.id date currency (total_of ls) in
    Adds-then (taken_from product ls) (insert (sale_conflict h) (add_sale h)) _
      (Adds-insert (pos 0) (sale_conflict h) (add_sale h)
        (λ db. sym (+ℤ-zero (stock_of product db))))
      λ _.
        Adds-first (taken_from product ls) (post_lines env h.id date currency ls) _
          (Adds-post_lines product env h.id date currency ls)
          λ _.
            Adds-then (pos 0) (record_cash_movement env credit) (λ _. pure tt)
              (Adds-record_cash_movement_none (stock_of product) env credit (λ m db. refl))
              (λ _. Adds-pure tt)

-- And credits the basket's total to its currency, and nothing to any other.
pub Adds-stage_basket_balance :
    (c : Text) (env : Env) (h : Sale) (date currency : Text) (ls : List Line)
    → Adds (balance_in c) (delta_for currency c (total_of ls)) (stage_basket env h date currency ls)
Adds-stage_basket_balance c env h date currency ls =
    let credit = sale_credit h.id date currency (total_of ls) in
    let d = delta_for currency c (total_of ls) in
    Adds-then d (insert (sale_conflict h) (add_sale h)) _
      (Adds-insert (pos 0) (sale_conflict h) (add_sale h) (λ db. sym (+ℤ-zero (balance_in c db))))
      λ _.
        Adds-then d (post_lines env h.id date currency ls) _
          (Adds-post_lines_none c env h.id date currency ls)
          λ _.
            Adds-first d (record_cash_movement env credit) (λ _. pure tt)
              (Adds-record_cash_movement c env credit) (λ _. Adds-pure tt)
