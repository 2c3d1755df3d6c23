-- ===== src/Sales/Register.antt =====
-- `register_sale`: all or nothing, and the invariant of the stock.
use myorishop.Prelude.{not, ◌&&◌, List, [], ◌∷◌, ◌≡◌, refl, is_empty, length}
use myorishop.Text.{Text, text, eq_text}
use myorishop.Models.{Sale}
use myorishop.Db.{Db, sale_conflict}
use myorishop.Session.{Env, Session, gets, insert, commit, pure, new_id, ◌>>◌, local_today_iso}
use myorishop.Session.Keeps.{
  Keeps, Both, Keeps-bind, Keeps-pure, Keeps-if, Keeps-insert, Keeps-commit, Keeps-new_id,
  Keeps-gets, Keeps-attempt,
}
use myorishop.Session.Atomic.{
  Stages, Stages-bind, Stages-pure, Stages-insert, Commits-bind, Commits-commit, IsAtomic,
  AllOrNothing, IsAtomic-pure, IsAtomic-if, IsAtomic-gets, IsAtomic-new_id, IsAtomic-attempt,
}
use myorishop.Ledger.{record_operation, date_or, parse_op_date}
use myorishop.Ledger.Projection.{IsConsistent}
use myorishop.Ledger.Record.{Keeps-record_operation}
use myorishop.Ledger.Staging.{Stages-record_operation}
use myorishop.Finance.{record_cash_movement, date_of}
use myorishop.Finance.Record.{Keeps-record_cash_movement, Stages-record_cash_movement}
use myorishop.Sales.{
  RawLine, Line, SaleError, SaleForm, registered, warned, refused_sale, save_rollback, Currency,
  one, none_found, several, is_registered, line_draft, post_lines, sale_header, sale_credit,
  add_sale, stage_basket, write_basket, with_currency, with_errors, with_lines, register_sale,
  basket_currency, oversold_of, below_minimum_of, total_of, non_blank_lines,
}

Stages-post_lines :
    (env : Env) (header date currency : Text) (ls : List Line)
    → Stages (post_lines env header date currency ls)
unfolding post_lines
Stages-post_lines env header date currency [] = Stages-pure tt
Stages-post_lines env header date currency (l ∷ ls) =
    Stages-bind (record_operation env (line_draft header date currency l))
      (λ _. post_lines env header date currency ls)
      (Stages-record_operation env (line_draft header date currency l) refl)
      (λ _. Stages-post_lines env header date currency ls)

Stages-stage_basket :
    (env : Env) (h : Sale) (date currency : Text) (ls : List Line)
    → Stages (stage_basket env h date currency ls)
Stages-stage_basket env h date currency ls =
    Stages-bind (insert (sale_conflict h) (add_sale h)) _
      (Stages-insert (sale_conflict h) (add_sale h))
      λ _.
        Stages-bind (post_lines env h.id date currency ls) _
          (Stages-post_lines env h.id date currency ls)
          λ _.
            let credit = sale_credit h.id date currency (total_of ls) in
            Stages-bind (record_cash_movement env credit) (λ _. pure tt)
              (Stages-record_cash_movement env credit refl) (λ _. Stages-pure tt)

write_basket-IsAtomic :
    (env : Env) (f : SaleForm) (currency : Text) (ls : List Line)
    → IsAtomic is_registered (write_basket env f currency ls)
write_basket-IsAtomic env f currency ls = IsAtomic-new_id env _ λ id.
    let date = date_or (date_of (parse_op_date env f.op_date)) (local_today_iso env) in
    let h = sale_header env f.customer_id id in
    let done = registered h (length ls) (total_of ls) in
    IsAtomic-attempt (do stage_basket env h date currency ls; commit; pure done)
      (λ _. refused_sale (save_rollback ∷ []))
      (Commits-bind (stage_basket env h date currency ls) (λ _. commit >> pure done)
        (Stages-stage_basket env h date currency ls) (λ _. Commits-commit done refl))

with_currency-IsAtomic :
    (env : Env) (f : SaleForm) (ls : List Line) (c : Currency)
    → IsAtomic is_registered (with_currency env f ls c)
with_currency-IsAtomic env f ls (one c) =
    IsAtomic-if
      (not (eq_text f.confirm (text "1"))
        && not (is_empty (oversold_of ls) && is_empty (below_minimum_of c ls)))
      (pure (warned (oversold_of ls) (below_minimum_of c ls))) (write_basket env f c ls)
      (IsAtomic-pure (warned (oversold_of ls) (below_minimum_of c ls)))
      (write_basket-IsAtomic env f c ls)
with_currency-IsAtomic env f ls none_found = IsAtomic-pure (refused_sale (save_rollback ∷ []))
with_currency-IsAtomic env f ls several = IsAtomic-pure _

with_errors-IsAtomic :
    (env : Env) (f : SaleForm) (db : Db) (es : List SaleError) (ls : List Line)
    → IsAtomic is_registered (with_errors env f db es ls)
with_errors-IsAtomic env f db (e ∷ es) ls = IsAtomic-pure _
with_errors-IsAtomic env f db [] ls =
    with_currency-IsAtomic env f ls (basket_currency db.warehouses ls)

with_lines-IsAtomic :
    (env : Env) (f : SaleForm) (db : Db) (raw : List RawLine)
    → IsAtomic is_registered (with_lines env f db raw)
with_lines-IsAtomic env f db [] = IsAtomic-pure _
with_lines-IsAtomic env f db (l ∷ ls) = with_errors-IsAtomic env f db _ _

register_sale-IsAtomic : (env : Env) (f : SaleForm) → IsAtomic is_registered (register_sale env f)
unfolding register_sale
register_sale-IsAtomic env f =
    IsAtomic-gets (λ db. db) _
      λ db. with_lines-IsAtomic env f db (non_blank_lines f.codes f.qtys f.prices f.batch_ids)

-- A basket is registered whole or not at all: from a session with nothing uncommitted the request
-- raises nothing, leaves nothing uncommitted, and unless the basket is registered the committed
-- tables are as they were, also when a constraint fails half way through.
pub register_sale-AllOrNothing :
    (env : Env) (f : SaleForm) (s : Session)
    → s.staged ≡ s.committed
    → AllOrNothing is_registered (register_sale env f) s
register_sale-AllOrNothing env f s clean = (register_sale-IsAtomic env f).at s clean

Keeps-post_lines :
    (env : Env) (header date currency : Text) (ls : List Line)
    → Keeps (Both IsConsistent) (post_lines env header date currency ls)
unfolding post_lines
Keeps-post_lines env header date currency [] = Keeps-pure tt
Keeps-post_lines env header date currency (l ∷ ls) =
    Keeps-bind (record_operation env (line_draft header date currency l))
      (λ _. post_lines env header date currency ls)
      (Keeps-record_operation env (line_draft header date currency l) (λ audit. cc))
      (λ _. Keeps-post_lines env header date currency ls)

add_sale-IsConsistent : (h : Sale) (db : Db) → IsConsistent db → IsConsistent (add_sale h db)
add_sale-IsConsistent h db c = record {
  stock = c.stock;
  batch_stock = c.batch_stock;
  owned = c.owned;
  distinct = c.distinct;
}

Keeps-stage_basket :
    (env : Env) (h : Sale) (date currency : Text) (ls : List Line)
    → Keeps (Both IsConsistent) (stage_basket env h date currency ls)
Keeps-stage_basket env h date currency ls =
    Keeps-bind (insert (sale_conflict h) (add_sale h)) _
      (Keeps-insert (sale_conflict h) (add_sale h) (λ db c _. add_sale-IsConsistent h db c))
      λ _.
        Keeps-bind (post_lines env h.id date currency ls) _
          (Keeps-post_lines env h.id date currency ls)
          λ _.
            let credit = sale_credit h.id date currency (total_of ls) in
            Keeps-bind (record_cash_movement env credit) (λ _. pure tt)
              (Keeps-record_cash_movement env credit) (λ _. Keeps-pure tt)

Keeps-write_basket :
    (env : Env) (f : SaleForm) (currency : Text) (ls : List Line)
    → Keeps (Both IsConsistent) (write_basket env f currency ls)
Keeps-write_basket env f currency ls = Keeps-bind (new_id env) _ (Keeps-new_id env) λ id.
    let date = date_or (date_of (parse_op_date env f.op_date)) (local_today_iso env) in
    let h = sale_header env f.customer_id id in
    let done = registered h (length ls) (total_of ls) in
    Keeps-attempt (do stage_basket env h date currency ls; commit; pure done)
      (λ _. refused_sale (save_rollback ∷ []))
      (Keeps-bind (stage_basket env h date currency ls) (λ _. commit >> pure done)
        (Keeps-stage_basket env h date currency ls)
        (λ _. Keeps-bind commit (λ _. pure done) Keeps-commit (λ _. Keeps-pure done)))

Keeps-with_currency :
    (env : Env) (f : SaleForm) (ls : List Line) (c : Currency)
    → Keeps (Both IsConsistent) (with_currency env f ls c)
Keeps-with_currency env f ls (one c) =
    Keeps-if
      (not (eq_text f.confirm (text "1"))
        && not (is_empty (oversold_of ls) && is_empty (below_minimum_of c ls)))
      (pure (warned (oversold_of ls) (below_minimum_of c ls))) (write_basket env f c ls)
      (Keeps-pure (warned (oversold_of ls) (below_minimum_of c ls))) (Keeps-write_basket env f c ls)
Keeps-with_currency env f ls none_found = Keeps-pure _
Keeps-with_currency env f ls several = Keeps-pure _

Keeps-with_errors :
    (env : Env) (f : SaleForm) (db : Db) (es : List SaleError) (ls : List Line)
    → Keeps (Both IsConsistent) (with_errors env f db es ls)
Keeps-with_errors env f db (e ∷ es) ls = Keeps-pure _
Keeps-with_errors env f db [] ls = Keeps-with_currency env f ls (basket_currency db.warehouses ls)

Keeps-with_lines :
    (env : Env) (f : SaleForm) (db : Db) (raw : List RawLine)
    → Keeps (Both IsConsistent) (with_lines env f db raw)
Keeps-with_lines env f db [] = Keeps-pure _
Keeps-with_lines env f db (l ∷ ls) = Keeps-with_errors env f db _ _

Keeps-register_sale : (env : Env) (f : SaleForm) → Keeps (Both IsConsistent) (register_sale env f)
unfolding register_sale
Keeps-register_sale env f =
    Keeps-bind (gets (λ db. db)) _ (Keeps-gets (λ db. db))
      λ db. Keeps-with_lines env f db (non_blank_lines f.codes f.qtys f.prices f.batch_ids)

-- However a sale ends, every cached quantity is still what the ledger gives, in the committed tables
-- and in what is staged.
pub register_sale-IsConsistent :
    (env : Env) (f : SaleForm) (s : Session)
    → IsConsistent s.committed
    → IsConsistent s.staged
    → Both IsConsistent (register_sale env f s).1
register_sale-IsConsistent env f s committed staged =
    (Keeps-register_sale env f).at s (record { committed = committed; staged = staged })
