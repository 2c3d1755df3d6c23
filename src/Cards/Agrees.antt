-- ===== src/Cards/Agrees.antt =====
-- Cards that agree in the fields of the form: the stored card with the filled one, and an unchanged
-- card with what the form would have made of it.
use myorishop.Prelude.{
  Bool, true, false, not, ◌&&◌, List, [], ◌∷◌, ◌++◌, ◌≡◌, refl, sym, ap, ◌∙◌, subst, is_empty,
  select, All, Bool-cases, inl, inr,
}
use myorishop.Text.{Text, text, eq_text, eq_text_sound}
use myorishop.Models.{Product}
use myorishop.Money.{PriceSet, rub, uah, eur, PriceKind, cost, sale, min_sale, card_price}
use myorishop.Finance.{when}
use myorishop.Cards.{
  whole, CardForm, price_fields, new_price, filled, same_price, same_text, changed_prices,
  changed_non_price, is_unchanged, price_payloads,
}
use myorishop.Cards.Rows.{
  same_price_sound, same_text_sound, Listed, price_claims, field_claims, price_payloads-Listed,
  changed_non_price-Listed,
}
use myorishop.Cards.Filled.{FilledBy, Says, each_field, card_price-filled}
use myorishop.Cards.Stored.{timeless}

pub record Agrees (q new : Product) : Type 0 where
  pub code : q.code ≡ new.code
  pub name : q.name ≡ new.name
  pub category : q.category ≡ new.category
  pub low_stock : q.low_stock_threshold ≡ new.low_stock_threshold
  pub stale : q.stale_days ≡ new.stale_days
  pub prices : (set : PriceSet) (kind : PriceKind) → card_price set kind q ≡ card_price set kind new
  pub same_card : (q.id ≡ new.id) × (q.quantity ≡ new.quantity) × (q.deleted_at ≡ new.deleted_at)

card_price-timeless :
    (set : PriceSet) (kind : PriceKind) (p : Product)
    → card_price set kind (timeless p) ≡ card_price set kind p
card_price-timeless rub cost p = refl
card_price-timeless rub sale p = refl
card_price-timeless rub min_sale p = refl
card_price-timeless uah cost p = refl
card_price-timeless uah sale p = refl
card_price-timeless uah min_sale p = refl
card_price-timeless eur cost p = refl
card_price-timeless eur sale p = refl
card_price-timeless eur min_sale p = refl

pub timeless-Agrees : (q new : Product) → timeless q ≡ timeless new → Agrees q new
timeless-Agrees q new e = record {
  code = ap (λ p. p.code) e;
  name = ap (λ p. p.name) e;
  category = ap (λ p. p.category) e;
  low_stock = ap (λ p. p.low_stock_threshold) e;
  stale = ap (λ p. p.stale_days) e;
  prices = λ set kind.
      sym (card_price-timeless set kind q)
      ∙ ap (card_price set kind) e
      ∙ card_price-timeless set kind new;
  same_card = (ap (λ p. p.id) e, ap (λ p. p.quantity) e, ap (λ p. p.deleted_at) e);
}

-- What a form makes of a card, any card makes that agrees with it.
pub FilledBy-Agrees :
    (f : CardForm) (old new q : Product) → Agrees q new → FilledBy f old new → FilledBy f old q
FilledBy-Agrees f old new q a h = record {
  code = a.code ∙ h.code;
  has_code = h.has_code;
  name = a.name ∙ h.name;
  has_name = h.has_name;
  category = a.category ∙ h.category;
  low_stock = h.low_stock ∙ ap whole (sym a.low_stock);
  stale = h.stale ∙ ap whole (sym a.stale);
  prices = λ set kind.
      subst (Says (f.prices_raw set kind) (card_price set kind old)) (sym (a.prices set kind))
        (h.prices set kind);
  same_card =
      (a.same_card.0 ∙ h.same_card.0, a.same_card.1 ∙ h.same_card.1, a.same_card.2 ∙ h.same_card.2);
}

select_none :
    {A : Type 0} (test : A → Bool) (xs : List A)
    → is_empty (select test xs) ≡ true
    → All (λ x. test x ≡ false) xs
select_none test [] h = tt
select_none test (x ∷ xs) h = elim (Bool-cases (test x)) [
  | inl passed ↦ absurd (cc (rw passed at h))
  | inr failed ↦ (failed, select_none test xs (rw failed at h))
]

flip_false : (b : Bool) → not b ≡ false → b ≡ true
flip_false true h = refl
flip_false false h = absurd (cc h)

both_true : (a b : Bool) → (a && b) ≡ true → (a ≡ true) × (b ≡ true)
both_true true b h = (refl, h)
both_true false b h = absurd (cc h)

when_none :
    (b : Bool) (n : Text) (rest : List Text)
    → is_empty (when (not b) n ++ rest) ≡ true
    → (b ≡ true) × (is_empty rest ≡ true)
when_none true n rest h = (refl, h)
when_none false n rest h = absurd (cc h)

last_none : (b : Bool) (n : Text) → is_empty (when (not b) n) ≡ true → b ≡ true
last_none true n h = refl
last_none false n h = absurd (cc h)

-- A card that the source takes for unchanged is what the form makes of it.
pub unchanged-Agrees :
    (f : CardForm) (p : Product) → is_unchanged f p ≡ true → Agrees p (filled f p)
unchanged-Agrees f p h =
    let new = filled f p in
    let both = both_true (is_empty (changed_prices f p)) (is_empty (changed_non_price f p)) h in
    let a = when_none (same_text p.category new.category) (text "category") _ both.1 in
    let b = when_none (same_text p.code new.code) (text "code") _ a.1 in
    let c =
      when_none (same_price p.low_stock_threshold new.low_stock_threshold)
        (text "low_stock_threshold") _ b.1 in
    let d = when_none (eq_text p.name new.name) (text "name") _ c.1 in
    let e = last_none (same_price p.stale_days new.stale_days) (text "stale_days") d.1 in
    let differs = λ (field : PriceSet × PriceKind).
      not (same_price (card_price field.0 field.1 p) (new_price f p field)) in
    let prices = select_none differs price_fields both.0 in
    record {
      code = same_text_sound p.code new.code b.0;
      name = eq_text_sound p.name new.name d.0;
      category = same_text_sound p.category new.category a.0;
      low_stock = same_price_sound p.low_stock_threshold new.low_stock_threshold c.0;
      stale = same_price_sound p.stale_days new.stale_days e;
      prices = λ set kind.
          same_price_sound (card_price set kind p) (new_price f p (set, kind))
            (flip_false _ (each_field (λ field. differs field ≡ false) prices set kind))
          ∙ sym (card_price-filled f p set kind);
      same_card = (refl, refl, refl);
    }

-- The source's audit rows against any card that agrees with the filled one.
pub rows-Listed :
    (f : CardForm) (p q : Product)
    → Agrees q (filled f p)
    → Listed (price_claims p q price_fields) (price_payloads f p (changed_prices f p))
      × Listed (field_claims p q) (changed_non_price f p)
rows-Listed f p q a = (
  price_payloads-Listed f p q (λ set kind. a.prices set kind ∙ card_price-filled f p set kind),
  changed_non_price-Listed f p q a.category a.code a.low_stock a.name a.stale,
)
