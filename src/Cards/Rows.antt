-- ===== src/Cards/Rows.antt =====
-- The audit rows of an edit against the card before and the card after it.
use myorishop.Prelude.{
  Bool, true, false, not, Option, none, some, List, [], ◌∷◌, ◌++◌, ℤ, ◌≡◌, refl, sym, ap, ◌∙◌,
  subst, ◌⊎◌, inl, inr, select, Bool-cases, arith,
}
use myorishop.Text.{Text, text, eq_text, eq_text_refl, eq_text_sound}
use myorishop.Models.{Product, Payload, price_changed}
use myorishop.Money.{PriceSet, PriceKind, card_price, price_field}
use myorishop.Finance.{when}
use myorishop.Cards.{
  CardForm, price_fields, same_price, same_text, new_price, changed_prices, price_payloads, filled,
  changed_non_price,
}

-- The items whose claim fails, in their order, and no others.
abbrev pub Listed : {A : Type 0} → List (A × Type 0) → List A → Type 0
Listed [] items = items ≡ []
Listed {A} ((a, Claim) ∷ claims) items =
    (Claim × Listed claims items)
    ⊎ ((¬ Claim) × ((rest : List A) × (items ≡ a ∷ rest) × Listed claims rest))

-- Of each price field, the row that tells of a change, and the claim that the two cards agree.
abbrev pub price_claims : Product → Product → List (PriceSet × PriceKind) → List (Payload × Type 0)
price_claims p q [] = []
price_claims p q ((set, kind) ∷ fields) =
    (
      price_changed (price_field set kind) (card_price set kind p) (card_price set kind q),
      card_price set kind p ≡ card_price set kind q,
    )
    ∷ price_claims p q fields

-- The fields that are no prices, in the order of their names.
abbrev pub field_claims : Product → Product → List (Text × Type 0)
field_claims p q =
    (text "category", p.category ≡ q.category)
    ∷ (text "code", p.code ≡ q.code)
    ∷ (text "low_stock_threshold", p.low_stock_threshold ≡ q.low_stock_threshold)
    ∷ (text "name", p.name ≡ q.name)
    ∷ (text "stale_days", p.stale_days ≡ q.stale_days)
    ∷ []

-- The Boolean tests of the source decide equality.
pub same_price_sound : (a b : Option ℤ) → same_price a b ≡ true → a ≡ b
same_price_sound none none h = refl
same_price_sound none (some b) h = cc
same_price_sound (some a) none h = cc
same_price_sound (some a) (some b) h = ground arith

same_price_refl : (a : Option ℤ) → same_price a a ≡ true
same_price_refl none = refl
same_price_refl (some a) = ground arith

pub same_text_sound : (a b : Option Text) → same_text a b ≡ true → a ≡ b
same_text_sound none none h = refl
same_text_sound none (some b) h = cc
same_text_sound (some a) none h = cc
same_text_sound (some a) (some b) h = ap some (eq_text_sound a b h)

same_text_refl : (a : Option Text) → same_text a a ≡ true
same_text_refl none = refl
same_text_refl (some a) = eq_text_refl a

-- A reflexive test that fails refutes the equation.
differ :
    {A : Type 0} (test : A → A → Bool) (a b : A) → test a a ≡ true → test a b ≡ false → ¬ (a ≡ b)
differ test a b same other e = cc (ap (test a) e)

module _ {B : Type 0} (test : B → B → Bool) (sound : (a b : B) → test a b ≡ true → a ≡ b)
    (same : (a : B) → test a a ≡ true) where
  -- A name that is listed if a test of the field fails.
  Listed-field :
      (name : Text) (old new after : B) (claims : List (Text × Type 0)) (rest : List Text)
      → after ≡ new
      → Listed claims rest
      → Listed ((name, old ≡ after) ∷ claims) (when (not (test old new)) name ++ rest)
  Listed-field name old new after claims rest e h = go (test old new) refl
    where
      go :
          (t : Bool)
          → test old new ≡ t
          → Listed ((name, old ≡ after) ∷ claims) (when (not t) name ++ rest)
      go true passed = inl (sound old new passed ∙ sym e, h)
      go false failed = inr ((λ k. differ test old new (same old) failed (k ∙ e)), (rest, refl, h))

append_nil : (b : Bool) (n : Text) → when b n ++ [] ≡ when b n
append_nil true n = refl
append_nil false n = refl

module _ (f : CardForm) (p q : Product) where
  -- The payloads that the source writes tell of the prices in which the cards differ.
  pub price_payloads-Listed :
      ((set : PriceSet) (kind : PriceKind) → card_price set kind q ≡ new_price f p (set, kind))
      → Listed (price_claims p q price_fields) (price_payloads f p (changed_prices f p))
  price_payloads-Listed new = go price_fields
    where
      go :
          (fields : List (PriceSet × PriceKind))
          → Listed (price_claims p q fields) (
              price_payloads f p (
                select
                  (λ field. not (same_price (card_price field.0 field.1 p) (new_price f p field)))
                  fields))
      go [] = refl
      go ((set, kind) ∷ fields) =
          let rest = go fields in
          let old = card_price set kind p in
          elim (Bool-cases (same_price old (new_price f p (set, kind)))) [
            | inl same ↦ rw same (inl (same_price_sound old _ same ∙ sym (new set kind), rest))
            | inr other ↦ rw other (
                inr (
                  (λ e. differ same_price old _ (same_price_refl old) other (e ∙ new set kind)),
                  (
                    _,
                    ap
                        (λ n.
                          price_changed (price_field set kind) old n
                          ∷ price_payloads f p (
                              select
                                (λ field.
                                  not (
                                    same_price (card_price field.0 field.1 p)
                                      (new_price f p field)))
                                fields))
                        (sym (new set kind)),
                    rest,
                  ),
                ))
          ]

  -- The names that the source writes are those of the other fields in which they differ.
  pub changed_non_price-Listed :
      q.category ≡ (filled f p).category
      → q.code ≡ (filled f p).code
      → q.low_stock_threshold ≡ (filled f p).low_stock_threshold
      → q.name ≡ (filled f p).name
      → q.stale_days ≡ (filled f p).stale_days
      → Listed (field_claims p q) (changed_non_price f p)
  changed_non_price-Listed category code low name stale =
      let new = filled f p in
      let of_text = Listed-field same_text same_text_sound same_text_refl in
      let of_number = Listed-field same_price same_price_sound same_price_refl in
      let stale_row = when (not (same_price p.stale_days new.stale_days)) (text "stale_days") in
      let name_rows = when (not (eq_text p.name new.name)) (text "name") ++ stale_row in
      let low_rows =
        when (not (same_price p.low_stock_threshold new.low_stock_threshold))
          (text "low_stock_threshold")
        ++ name_rows in
      let code_rows = when (not (same_text p.code new.code)) (text "code") ++ low_rows in
      let by_stale = (text "stale_days", p.stale_days ≡ q.stale_days) ∷ [] in
      let by_name = (text "name", p.name ≡ q.name) ∷ by_stale in
      let by_low =
        (text "low_stock_threshold", p.low_stock_threshold ≡ q.low_stock_threshold) ∷ by_name in
      let by_code = (text "code", p.code ≡ q.code) ∷ by_low in
      of_text (text "category") p.category new.category q.category by_code code_rows category (
        of_text (text "code") p.code new.code q.code by_low low_rows code (
          of_number (text "low_stock_threshold") p.low_stock_threshold new.low_stock_threshold
            q.low_stock_threshold by_name name_rows low
            (Listed-field eq_text eq_text_sound eq_text_refl (text "name") p.name new.name q.name
              by_stale stale_row name
              (subst (Listed by_stale)
                (append_nil (not (same_price p.stale_days new.stale_days)) (text "stale_days"))
                (of_number (text "stale_days") p.stale_days new.stale_days q.stale_days [] [] stale
                  refl)))))
