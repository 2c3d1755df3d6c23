-- ===== src/Cards/Edited.antt =====
-- `update_product`: what an edit of a card is, and the source's audit rows against it.
use myorishop.Prelude.{
  true, false, ◌&&◌, List, [], ◌∷◌, Option, none, some, ◌≡◌, refl, ap, ◌∙◌, is_empty, arith,
  is_some, map_option,
}
use mathlib.Core.Option.{some-injective}
use myorishop.Text.{Text, eq_text}
use myorishop.Models.{OpType, Product, Payload, card_edited}
use myorishop.Money.{PriceSet, PriceKind}
use myorishop.Db.{Db, find_product}
use myorishop.Ledger.Trail.{trail}
use myorishop.Cards.{
  price_fields, CardForm, filled, price_payloads, edited_payload, changed_prices, changed_non_price,
  is_unchanged,
}
use myorishop.Cards.Rows.{Listed, price_claims, field_claims}
use myorishop.Cards.Filled.{FilledBy}
use myorishop.Cards.Stored.{timeless, Holds}
use myorishop.Cards.Agrees.{Agrees, FilledBy-Agrees, timeless-Agrees, unchanged-Agrees, rows-Listed}

-- Rows of one type about one product, the last one first, in front of a trail.
abbrev pub entries :
    OpType → Text → List Payload → List (OpType × Text × Payload) → List (OpType × Text × Payload)
entries type id [] before = before
entries type id (payload ∷ payloads) before =
    entries type id payloads ((type, id, payload) ∷ before)

-- The row that names the changed fields, if there are any.
abbrev pub name_row : List Text → List Payload
name_row [] = []
name_row (n ∷ ns) = card_edited (n ∷ ns) ∷ []

-- An edit of the card of an id: the card after it has what the form says, no other card changed, and
-- the ledger has, on top of what it had, a row for each price in which the two cards differ, with
-- the price before and the price after, and one with the names of the other fields that differ.
pub record Edited (f : CardForm) (id : Text) (old : Product) (before after : Db) : Type 0 where
  pub found : find_product id before.products ≡ some old
  pub active : old.deleted_at ≡ none
  pub card : Product
  pub stored : find_product id after.products ≡ some card
  pub by_form : FilledBy f old card
  pub others :
      (other : Text)
      → eq_text other id ≡ false
      → find_product other after.products ≡ find_product other before.products
  pub prices : List Payload
  pub names : List Text
  pub price_rows : Listed (price_claims old card price_fields) prices
  pub field_row : Listed (field_claims old card) names
  pub history :
      trail after
      ≡ entries OpType.product_edited id
          (name_row names)
          (entries OpType.price_change id prices (trail before))

-- What the source's own rows come to.
abbrev pub rows_of : CardForm → Product → Db → List (OpType × Text × Payload)
rows_of f p before =
    entries OpType.product_edited p.id (edited_payload (changed_non_price f p))
      (entries OpType.price_change p.id (price_payloads f p (changed_prices f p)) (trail before))

name_row-eq : (names : List Text) → edited_payload names ≡ name_row names
name_row-eq [] = refl
name_row-eq (n ∷ ns) = refl

pub active_card : (d : Option Text) → is_some d ≡ false → d ≡ none
active_card none h = refl
active_card (some x) h = absurd (cc h)

module _ (f : CardForm) (p : Product) (before : Db)
    (found : find_product p.id before.products ≡ some p) (active : p.deleted_at ≡ none)
    (passed : FilledBy f p (filled f p)) where
  agreeing-Edited :
      (after : Db) (card : Product)
      → find_product p.id after.products ≡ some card
      → Agrees card (filled f p)
      → ((other : Text)
          → eq_text other p.id ≡ false
          → find_product other after.products ≡ find_product other before.products)
      → trail after ≡ rows_of f p before
      → Edited f p.id p before after
  agreeing-Edited after card stored agrees others history = record {
    found = found;
    active = active;
    card = card;
    stored = stored;
    by_form = FilledBy-Agrees f p (filled f p) card agrees passed;
    others = others;
    prices = price_payloads f p (changed_prices f p);
    names = changed_non_price f p;
    price_rows = (rows-Listed f p card agrees).0;
    field_row = (rows-Listed f p card agrees).1;
    history =
        history
        ∙ ap
            (λ l. entries OpType.product_edited p.id l (
              entries OpType.price_change p.id (price_payloads f p (changed_prices f p))
                (trail before)))
            (name_row-eq (changed_non_price f p));
  }

  pub holding-Edited :
      (after : Db)
      → Holds p.id (filled f p) before after
      → trail after ≡ rows_of f p before
      → Edited f p.id p before after
  holding-Edited after h history = go (find_product p.id after.products) refl h.own
    where
      go :
          (o : Option Product)
          → find_product p.id after.products ≡ o
          → map_option timeless o ≡ some (timeless (filled f p))
          → Edited f p.id p before after
      go none e own = absurd (cc own)
      go (some q) e own =
          agreeing-Edited after q e
            (timeless-Agrees q (filled f p)
              (some-injective (timeless q) (timeless (filled f p)) own))
            h.others history

  pub unchanged-Edited : is_unchanged f p ≡ true → Edited f p.id p before before
  unchanged-Edited same =
      agreeing-Edited before p found (unchanged-Agrees f p same) (λ other different. refl)
        (no_rows (changed_prices f p) (changed_non_price f p) same)
    where
      no_rows :
          (fields : List (PriceSet × PriceKind)) (names : List Text)
          → (is_empty fields && is_empty names) ≡ true
          → trail before
            ≡ entries OpType.product_edited p.id
                (edited_payload names)
                (entries OpType.price_change p.id (price_payloads f p fields) (trail before))
      no_rows [] [] h = refl
      no_rows (x ∷ fields) names h = absurd (ground arith)
      no_rows [] (n ∷ names) h = absurd (ground arith)
