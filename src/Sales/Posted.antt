-- ===== src/Sales/Posted.antt =====
-- `register_sale`: what a registered basket has done to the stock and to the cash.
use myorishop.Prelude.{List, ℤ, pos, ◌+ℤ◌, ◌≡◌, length}
use myorishop.Text.{Text}
use myorishop.Db.{Db}
use myorishop.Session.{Env, Session, Result, ok}
use myorishop.Ledger.Moves.{stock_of, delta_for}
use myorishop.Finance.Moves.{balance_in}
use myorishop.Sales.{
  Line, SaleForm, SaleResult, registered, Currency, one, collect, total_of, non_blank_lines,
}
use myorishop.Sales.Effect.{taken_from}

-- The whole lines of a form.
pub basket_of : Env → SaleForm → Db → List Line
basket_of env f db = (collect env db 0 (non_blank_lines f.codes f.qtys f.prices f.batch_ids)).lines

-- What a basket of a currency credits to a currency.
abbrev pub credit_of : Currency → Text → ℤ → ℤ
credit_of (one c) to total = delta_for c to total
credit_of _ to total = pos 0

module _ (product to : Text) (s : Session) where
  -- What a registration says and leaves; nothing is said of another answer.
  abbrev Posted : List Line → Currency → Result SaleResult → Session → Type 0
  Posted ls k (ok (registered h n total)) s' =
      (n ≡ length ls)
      × (total ≡ total_of ls)
      × (stock_of product s'.committed ≡ stock_of product s.staged +ℤ taken_from product ls)
      × (balance_in to s'.committed ≡ balance_in to s.staged +ℤ credit_of k to (total_of ls))
  Posted ls k _ s' = Unit

  abbrev PostedBy : List Line → Currency → Result SaleResult × Session → Type 0
  PostedBy ls k (r, s') = Posted ls k r s'
