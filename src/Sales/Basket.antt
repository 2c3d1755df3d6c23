-- ===== src/Sales/Basket.antt =====
-- app/services/sales.py: the lines of a basket, their validation, the basket's currency, and what
-- the warnings list.
use myorishop.Prelude.{
  ℕ, ◌+◌, Bool, false, not, ◌&&◌, ◌||◌, Option, none, some, List, [], ◌∷◌, ◌++◌, ℤ, pos, ◌+ℤ◌, ◌*ℤ◌,
  ltb_ℤ, ◌==◌, if◌then◌else◌, is_empty, any, select, map,
}
use myorishop.Text.{Text, eq_text, strip, parse_qty}
use myorishop.Sort.{sort_by}
use myorishop.Money.{to_cents, card_price, card_price_fields, min_sale}
use myorishop.Models.{Product, Batch, Warehouse}
use myorishop.Db.{Db, find_batch, active_product}
use myorishop.Session.{Env, warehouse_allowed}
use myorishop.Ledger.{OpDateError}
use myorishop.Finance.{when}

-- One row of the form: code, quantity, price, batch.
abbrev pub RawLine : Type 0
RawLine = Text × Text × Text × Text

abbrev is_blank : Text → Bool
is_blank s = is_empty (strip s)

abbrev head_or_empty : List Text → Text
head_or_empty [] = []
head_or_empty (b ∷ bs) = b

abbrev rest_of : List Text → List Text
rest_of [] = []
rest_of (b ∷ bs) = bs

-- The rows with a code, a quantity or a price; a batch beside them rides along, "" where none is.
unfoldable pub non_blank_lines : List Text → List Text → List Text → List Text → List RawLine
unfolding strip
non_blank_lines (c ∷ cs) (q ∷ qs) (p ∷ ps) bs =
    let rest = non_blank_lines cs qs ps (rest_of bs) in
    if is_blank c && (is_blank q && is_blank p) then rest else (c, q, p, head_or_empty bs) ∷ rest
non_blank_lines _ _ _ _ = []

-- The errors of a form, under the keys of the source; a line's carry its index.
pub data SaleError : Type 0 where
  empty_basket mixed_currency save_rollback : SaleError
  qty_error price_required price_error batch_required : ℕ → SaleError
  code_not_found : ℕ → Text → SaleError
  op_date : OpDateError → SaleError

pub record Line : Type 0 where
  pub product : Product
  pub qty : ℕ
  pub price_cents : ℤ
  pub batch : Batch

pub data PriceInput : Type 0 where
  missing invalid : PriceInput
  price : ℤ → PriceInput

abbrev non_negative : Option ℤ → PriceInput
non_negative none = invalid
non_negative (some a) = if ltb_ℤ a (pos 0) then invalid else price a

abbrev price_of : Text → PriceInput
price_of [] = missing
price_of (c ∷ cs) = non_negative (to_cents (c ∷ cs))

unfoldable pub parse_price : Text → PriceInput
unfolding strip to_cents
parse_price raw = price_of (strip raw)

abbrev is_foreign : Option Product → Batch → Bool
is_foreign none b = false
is_foreign (some p) b = not (eq_text b.product_id p.id)

abbrev usable : Env → Option Product → Option Batch → Option Batch
usable env product none = none
usable env product (some b) =
    if is_foreign product b || not (warehouse_allowed env b.warehouse_id) then none else some b

-- The picked batch, if it is one of the product's and of the user's.
unfoldable pub pick_batch : Env → Db → Option Product → Text → Option Batch
unfolding eq_text
pick_batch env db product [] = none
pick_batch env db product (c ∷ cs) = usable env product (find_batch (c ∷ cs) db.batches)

abbrev price_errors : ℕ → PriceInput → List SaleError
price_errors i missing = price_required i ∷ []
price_errors i invalid = price_error i ∷ []
price_errors i (price a) = []

abbrev code_errors : ℕ → Text → Option Product → List SaleError
code_errors i code none = code_not_found i code ∷ []
code_errors i code (some p) = []

abbrev batch_errors : ℕ → Option Batch → List SaleError
batch_errors i none = batch_required i ∷ []
batch_errors i (some b) = []

abbrev whole_line : Option Product → ℕ → PriceInput → Option Batch → List Line
whole_line (some p) q (price a) (some b) =
    record { product = p; qty = q; price_cents = a; batch = b } ∷ []
whole_line _ _ _ _ = []

-- The errors of the lines, and the lines that are whole.
pub record Resolved : Type 0 where
  pub errors : List SaleError
  pub lines : List Line

unfoldable pub resolve_line : Env → Db → ℕ → RawLine → Resolved
unfolding strip parse_qty parse_price pick_batch
resolve_line env db i (code_raw, qty_raw, price_raw, batch_raw) =
    let code = strip code_raw in
    let qty = parse_qty qty_raw in
    let amount = parse_price price_raw in
    let product = active_product code db.products in
    let batch = pick_batch env db product (strip batch_raw) in
    record {
      errors =
          when (qty == 0) (qty_error i)
          ++ (price_errors i amount ++ (code_errors i code product ++ batch_errors i batch));
      lines = whole_line product qty amount batch;
    }

unfoldable pub collect : Env → Db → ℕ → List RawLine → Resolved
unfolding resolve_line
collect env db i [] = record { errors = []; lines = [] }
collect env db i (l ∷ ls) =
    let here = resolve_line env db i l in
    let rest = collect env db (i + 1) ls in
    record { errors = here.errors ++ rest.errors; lines = here.lines ++ rest.lines }

pub data Currency : Type 0 where
  one : Text → Currency
  none_found several : Currency

abbrev single : List Text → Currency
single [] = none_found
single (c ∷ cs) = if any (λ d. not (eq_text d c)) cs then several else one c

-- The distinct currencies of the warehouses that the lines' batches lie in.
unfoldable pub basket_currency : List Warehouse → List Line → Currency
unfolding eq_text
basket_currency warehouses lines = single (
    map (λ w. w.currency)
      (select (λ w. any (λ l. eq_text w.id l.batch.warehouse_id) lines) warehouses))

-- What the basket asks of one batch.
pub record Request : Type 0 where
  pub product : Product
  pub batch : Batch
  pub requested : ℕ

-- `requested_by_batch[batch.id] += qty`, in insertion order; the last line's batch and product stay.
abbrev add_request : Line → List Request → List Request
add_request l [] = record { product = l.product; batch = l.batch; requested = l.qty } ∷ []
add_request l (r ∷ rs) =
    let rest = add_request l rs in
    if eq_text r.batch.id l.batch.id
    then record { product = l.product; batch = l.batch; requested = r.requested + l.qty } ∷ rs
    else r ∷ rest

abbrev requests_from : List Request → List Line → List Request
requests_from rs [] = rs
requests_from rs (l ∷ ls) = requests_from (add_request l rs) ls

unfoldable pub requests_of : List Line → List Request
unfolding eq_text
requests_of lines = requests_from [] lines

-- A line under its card's minimum price.
pub record Below : Type 0 where
  pub product : Product
  pub entered : ℤ
  pub minimum : ℤ

abbrev below_of : Line → Option ℤ → List Below
below_of l none = []
below_of l (some m) =
    if ltb_ℤ l.price_cents m
    then record { product = l.product; entered = l.price_cents; minimum = m } ∷ []
    else []

abbrev below_all : Text → List Line → List Below
below_all currency [] = []
below_all currency (l ∷ ls) =
    below_of l (card_price (card_price_fields currency) min_sale l.product) ++ below_all currency ls

unfoldable pub oversold_of : List Line → List Request
unfolding requests_of sort_by
oversold_of lines =
    sort_by (λ r. r.product.name)
      (select (λ r. ltb_ℤ r.batch.quantity (pos r.requested)) (requests_of lines))

unfoldable pub below_minimum_of : Text → List Line → List Below
unfolding sort_by card_price_fields
below_minimum_of currency lines = sort_by (λ b. b.product.name) (below_all currency lines)

-- `total_cents`
unfoldable pub total_of : List Line → ℤ
unfolding ◌+ℤ◌ ◌*ℤ◌
total_of [] = pos 0
total_of (l ∷ ls) = pos l.qty *ℤ l.price_cents +ℤ total_of ls
