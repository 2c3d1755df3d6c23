-- ===== src/Cards/Created.antt =====
-- `create_product`: what a saved card has committed.
use myorishop.Prelude.{
  Bool, true, false, ◌&&◌, ◌||◌, Option, none, some, List, [], ◌∷◌, ℤ, pos, +ℤ-zero, ◌≡◌, refl, sym,
  ap, ◌∙◌, subst, map, any, is_some, Bool-cases, inl, inr, arith, ◌+◌,
}
use myorishop.Text.{Text, eq_text, eq_text_refl, strip, lower}
use myorishop.Models.{OpType, Product, Operation, card_created}
use myorishop.Money.{PriceSet, rub, uah, eur, PriceKind, cost, sale, min_sale, card_price}
use myorishop.Db.{Db, active_product, bump_product, is_code_taken, product_conflict, add_product}
use myorishop.Session.{
  Env, Session, value_error, warehouse_access, integrity_error, Result, ok, err, Action, insert,
  pure, close_with, ◌>>◌,
}
use myorishop.Session.Closes.{Closed}
use myorishop.Ledger.{record_operation}
use myorishop.Ledger.Posts.{after-insert, after-record_operation}
use myorishop.Cards.{
  CardForm, CardError, CardResult, saved, refused_card, is_saved, duplicate_code, card_errors,
  blank_card, filled, audit_draft, write_card, create_checked, create_product,
}
use myorishop.Cards.Filled.{FilledBy, Says, card_errors-Passed, filled-FilledBy}
use myorishop.Cards.Closing.{cards-Closed}

-- A new card and its one row.
pub record Created (f : CardForm) (p : Product) (before after : Db) : Type 0 where
  pub new_id : any (λ x. eq_text x.id p.id) before.products ≡ false
  pub free_code : is_code_taken (some (strip f.code)) before.products ≡ false
  pub by_form : FilledBy f p p
  pub prices :
      (set : PriceSet) (kind : PriceKind)
      → Says (f.prices_raw set kind) none (card_price set kind p)
  pub searched : p.name_lc ≡ some (lower (strip f.name))
  pub empty : (p.quantity ≡ pos 0) × (p.deleted_at ≡ none)
  pub added : after.products ≡ p ∷ before.products
  pub row : Operation
  pub on_top : after.operations ≡ row ∷ before.operations
  pub tells :
      (row.type ≡ OpType.product_created)
      × (row.product_id ≡ p.id)
      × (row.payload ≡ card_created (strip f.code) (strip f.name))
      × (row.qty_delta ≡ pos 0)

card_price-blank :
    (env : Env) (id : Text) (set : PriceSet) (kind : PriceKind)
    → card_price set kind (blank_card env id) ≡ none
card_price-blank env id rub cost = refl
card_price-blank env id rub sale = refl
card_price-blank env id rub min_sale = refl
card_price-blank env id uah cost = refl
card_price-blank env id uah sale = refl
card_price-blank env id uah min_sale = refl
card_price-blank env id eur cost = refl
card_price-blank env id eur sale = refl
card_price-blank env id eur min_sale = refl

-- What a form makes of one card, it says of the card that it made.
own_form : (f : CardForm) (old p : Product) → FilledBy f old p → FilledBy f p p
own_form f old p h = record {
  code = h.code;
  has_code = h.has_code;
  name = h.name;
  has_name = h.has_name;
  category = h.category;
  low_stock = h.low_stock;
  stale = h.stale;
  prices = λ set kind.
      said (f.prices_raw set kind) (card_price set kind old) (card_price set kind p)
        (h.prices set kind);
  same_card = (refl, refl, refl);
}
  where
    said : (raw : Option Text) (a b : Option ℤ) → Says raw a b → Says raw b b
    said none a b h = refl
    said (some raw) a b h = h

bump_absent :
    (now id : Text) (d : ℤ) (ps : List Product)
    → any (λ x. eq_text x.id id) ps ≡ false
    → map (bump_product now id d) ps ≡ ps
bump_absent now id d [] h = refl
bump_absent now id d (p ∷ ps) h = elim (Bool-cases (eq_text p.id id)) [
  | inl hit ↦ absurd (cc (rw hit at h))
  | inr miss ↦ rw miss (ap (λ l. p ∷ l) (bump_absent now id d ps (rw miss at h)))
]

-- The row of a new card leaves it as it was made.
own_turn :
    (env : Env) (f : CardForm) (id : Text)
    → let p = filled f (blank_card env id) in bump_product env.now p.id (pos 0) p ≡ p
own_turn env f id =
    rw (eq_text_refl id)
      (ap (λ n. record (filled f (blank_card env id)) { quantity = n }) (+ℤ-zero (pos 0)))

no_clash : (a b c : Bool) → (a || (b && c)) ≡ false → b ≡ true → (a ≡ false) × (c ≡ false)
no_clash a b c h active = ground arith

module _ (env : Env) (f : CardForm) (s : Session) where
  abbrev SavedBy : Result CardResult → Session → Type 0
  SavedBy (ok (saved p)) s' = Created f p s.staged s'.staged
  SavedBy (ok (refused_card es)) s' = Unit
  SavedBy (err e) s' = Unit

  closed :
      (r : Result CardResult) (s' : Session)
      → SavedBy r s'
      → let e = close_with (refused_card (duplicate_code ∷ [])) r s' in SavedBy e.0 e.1
  closed (ok x) s' h = h
  closed (err integrity_error) s' h = tt
  closed (err value_error) s' h = tt
  closed (err warehouse_access) s' h = tt

  module _ (id : Text) (passed : FilledBy f (blank_card env id) (filled f (blank_card env id)))
      (drawn : Session) (same : drawn.staged ≡ s.staged) where
    -- The card, its row, and the end of the transaction.
    written :
        let p = filled f (blank_card env id) in
        let a =
          audit_draft OpType.product_created p.id
            (card_created (strip f.code) (strip f.name))
            true in
        let m : Action CardResult =
          insert (product_conflict p) (add_product p)
          >> (record_operation env a >> pure (saved p)) in
        SavedBy (m drawn).0 (m drawn).1
    written =
        let p = filled f (blank_card env id) in
        let a =
          audit_draft OpType.product_created p.id (card_created (strip f.code) (strip f.name))
            true in
        after-insert SavedBy (λ x s'. tt) (product_conflict p) (add_product p) _ drawn
          λ free.
            let clear =
              no_clash (any (λ x. eq_text x.id p.id) drawn.staged.products) true
                (is_code_taken p.code drawn.staged.products) free refl in
            after-record_operation SavedBy (λ x s'. tt) env a (λ op. pure (saved p))
              (record drawn { staged = add_product p drawn.staged })
              λ op s' posts. record {
                new_id = ap (λ db. any (λ x. eq_text x.id p.id) db.products) (sym same) ∙ clear.0;
                free_code =
                    ap (λ db. is_code_taken (some (strip f.code)) db.products) (sym same) ∙ clear.1;
                by_form = own_form f (blank_card env id) p passed;
                prices = λ set kind.
                    subst (λ old. Says (f.prices_raw set kind) old (card_price set kind p))
                      (card_price-blank env id set kind) (passed.prices set kind);
                searched = refl;
                empty = (refl, refl);
                added =
                    ap (λ db. db.products) posts.0
                    ∙ ap
                        (λ (o : Operation).
                          map (bump_product env.now o.product_id o.qty_delta)
                            (p ∷ drawn.staged.products))
                        posts.4
                    ∙ ap (λ q. q ∷ map (bump_product env.now p.id (pos 0)) drawn.staged.products)
                        (own_turn env f id)
                    ∙ ap (λ l. p ∷ l)
                        (bump_absent env.now p.id (pos 0) drawn.staged.products clear.0)
                    ∙ ap (λ db. p ∷ db.products) same;
                row = op;
                on_top = ap (λ db. db.operations) posts.0 ∙ ap (λ db. op ∷ db.operations) same;
                tells = (
                  ap (λ (o : Operation). o.type) posts.4,
                  ap (λ (o : Operation). o.product_id) posts.4,
                  ap (λ (o : Operation). o.payload) posts.4,
                  ap (λ (o : Operation). o.qty_delta) posts.4,
                );
              }

  write_card-SavedBy :
      ((id : Text) → FilledBy f (blank_card env id) (filled f (blank_card env id)))
      → SavedBy (write_card env f s).0 (write_card env f s).1
  write_card-SavedBy passed =
      let id = env.uuid s.drawn in
      let drawn : Session = record s { drawn = s.drawn + 1 } in
      let p = filled f (blank_card env id) in
      let a =
        audit_draft OpType.product_created p.id (card_created (strip f.code) (strip f.name)) true in
      let m : Action CardResult =
        insert (product_conflict p) (add_product p) >> (record_operation env a >> pure (saved p)) in
      closed (m drawn).0 (m drawn).1 (written id (passed id) drawn refl)

  create_checked-SavedBy :
      (taken : Bool) (es : List CardError)
      → card_errors f (blank_card env []) taken ≡ es
      → SavedBy (create_checked env f es s).0 (create_checked env f es s).1
  create_checked-SavedBy taken (e ∷ es) errors = tt
  create_checked-SavedBy taken [] errors = write_card-SavedBy λ id.
      filled-FilledBy f (blank_card env id) taken
        (card_errors-Passed f (blank_card env id) taken errors)

  -- How the making of a card is answered.
  abbrev pub CreatedBy : Result CardResult → Session → Type 0
  CreatedBy (ok (saved p)) s' = (s'.staged ≡ s'.committed) × Created f p s.staged s'.committed
  CreatedBy (ok (refused_card es)) s' = (s'.staged ≡ s'.committed) × (s'.committed ≡ s.committed)
  CreatedBy (err e) s' = s'.committed ≡ s.committed

  created :
      (r : Result CardResult) (s' : Session)
      → Closed is_saved s r s'
      → SavedBy r s'
      → CreatedBy r s'
  created (ok (saved p)) s' (clean, done) h = (clean, subst (Created f p s.staged) clean h)
  created (ok (refused_card es)) s' (clean, inl d) h = absurd (cc d)
  created (ok (refused_card es)) s' (clean, inr same) h = (clean, same)
  created (err e) s' same h = same

create_product-SavedBy :
    (env : Env) (f : CardForm) (s : Session)
    → SavedBy env f s (create_product env f s).0 (create_product env f s).1
unfolding create_product
create_product-SavedBy env f s =
    create_checked-SavedBy env f s (is_some (active_product (strip f.code) s.staged.products)) _
      refl

-- From a session with nothing uncommitted: a card that was saved has an id and a code that no card,
-- or no active card, had; it has what the form says, no price that the form does not submit, and no
-- stock. In the committed tables it is the one card more, and the ledger has one row more, a
-- product_created row of no quantity with the card's id, code and name. A card that is refused has
-- left the committed tables as they were and nothing uncommitted, and a call that raises has
-- committed nothing.
pub create_product-CreatedBy :
    (env : Env) (f : CardForm) (s : Session)
    → s.staged ≡ s.committed
    → CreatedBy env f s (create_product env f s).0 (create_product env f s).1
create_product-CreatedBy env f s clean =
    created env f s (create_product env f s).0 (create_product env f s).1
      (cards-Closed env [] f s clean).0 (create_product-SavedBy env f s)
