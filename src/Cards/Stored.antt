-- ===== src/Cards/Stored.antt =====
-- The row of a card in the table of products, through the UPDATE of the card and its audit rows.
use myorishop.Prelude.{
  true, false, Option, none, some, List, [], ◌∷◌, ℤ, pos, +ℤ-zero, ◌≡◌, refl, sym, ap, ◌∙◌, subst,
  fun_ext, map, map_option, first, first-map, Bool-cases, inl, inr,
}
use mathlib.Core.Option.{some-injective}
use myorishop.Text.{Text, eq_text, eq_text_refl, eq_text_sound}
use myorishop.Models.{OpType, Product, Payload, Operation}
use myorishop.Db.{Db, find_product, bump_product}
use myorishop.Session.{Env}
use myorishop.Session.Ensures.{Ensures, Ensures-bind, Ensures-pure}
use myorishop.Ledger.{record_operation, post}
use myorishop.Ledger.Trail.{Ensures-record}
use myorishop.Cards.{audit_draft, record_each, replaced}

pub find_product-id :
    (id : Text) (ps : List Product) (p : Product) → find_product id ps ≡ some p → p.id ≡ id
find_product-id id [] p e = absurd (cc e)
find_product-id id (x ∷ ps) p e = elim (Bool-cases (eq_text x.id id)) [
  | inl same ↦ ap (λ y. y.id) (sym (some-injective x p (rw same at e))) ∙ eq_text_sound x.id id same
  | inr other ↦ find_product-id id ps p (rw other at e)
]

-- A change of the rows that keeps their ids.
module _ (g : Product → Product) (same_id : (p : Product) → (g p).id ≡ p.id) where
  find_product-map :
      (id : Text) (ps : List Product)
      → find_product id (map g ps) ≡ map_option g (find_product id ps)
  find_product-map id ps =
      subst (λ t. find_product id (map g ps) ≡ map_option g (first t ps))
        (fun_ext (λ p. ap (λ i. eq_text i id) (same_id p))) (first-map g (λ p. eq_text p.id id) ps)

  find_product-map_other :
      (id : Text) (ps : List Product)
      → ((p : Product) → p.id ≡ id → g p ≡ p)
      → find_product id (map g ps) ≡ find_product id ps
  find_product-map_other id ps h = find_product-map id ps ∙ go (find_product id ps) refl
    where
      go : (o : Option Product) → find_product id ps ≡ o → map_option g o ≡ o
      go none e = refl
      go (some p) e = ap some (h p (find_product-id id ps p e))

-- A card but for the time of its last change.
abbrev pub timeless : Product → Product
timeless p = record p { updated_at = [] }

-- An audit row's turn at the cached quantity adds nothing to it.
bump_none : (now id : Text) (p : Product) → timeless (bump_product now id (pos 0) p) ≡ timeless p
bump_none now id p = elim (Bool-cases (eq_text p.id id)) [
  | inl hit ↦ rw hit (ap (λ n. record p { quantity = n; updated_at = [] }) (+ℤ-zero p.quantity))
  | inr miss ↦ rw miss refl
]

pub bump-id : (now id : Text) (d : ℤ) (p : Product) → (bump_product now id d p).id ≡ p.id
bump-id now id d p = elim (Bool-cases (eq_text p.id id)) [
  | inl hit ↦ rw hit refl
  | inr miss ↦ rw miss refl
]

-- The card of an id is the one given, and every other card is that of before.
pub record Holds (id : Text) (card : Product) (before db : Db) : Type 0 where
  pub own : map_option timeless (find_product id db.products) ≡ some (timeless card)
  pub others :
      (other : Text)
      → eq_text other id ≡ false
      → find_product other db.products ≡ find_product other before.products

elsewhere :
    (other id : Text) (p : Product)
    → eq_text other id ≡ false
    → p.id ≡ other
    → eq_text p.id id ≡ false
elsewhere other id p different e = ap (λ t. eq_text t id) e ∙ different

Holds-post :
    (now : Text) (id : Text) (card : Product) (before db : Db) (o : Operation)
    → o.product_id ≡ id
    → o.qty_delta ≡ pos 0
    → Holds id card before db
    → Holds id card before (post now o db)
Holds-post now id card before db o own_row nothing h = record {
  own =
      rw (own_row, nothing)
        (ap (map_option timeless) (find_product-map g (bump-id now id (pos 0)) id db.products)
          ∙ erased (find_product id db.products)
          ∙ h.own);
  others = λ other different.
      rw (own_row, nothing)
        (find_product-map_other g (bump-id now id (pos 0)) other db.products
            (λ p e. rw (elsewhere other id p different e) refl)
          ∙ h.others other different);
}
  where
    g : Product → Product
    g = bump_product now id (pos 0)

    erased : (q : Option Product) → map_option timeless (map_option g q) ≡ map_option timeless q
    erased none = refl
    erased (some p) = ap some (bump_none now id p)

pub Holds-record_each :
    (env : Env) (type : OpType) (id : Text) (payloads : List Payload) (card : Product) (before : Db)
    → Ensures (Holds id card before) (record_each env type id payloads) (Holds id card before)
Holds-record_each env type id [] card before = Ensures-pure (Holds id card before) tt
Holds-record_each env type id (payload ∷ payloads) card before =
    let P = Holds id card before in
    Ensures-bind P P P (record_operation env (audit_draft type id payload false))
      (λ _. record_each env type id payloads)
      (Ensures-record P P env (audit_draft type id payload false)
        (λ i seq db h. Holds-post env.now id card before db _ refl refl h))
      (λ _. Holds-record_each env type id payloads card before)

-- The UPDATE of the card of an id.
pub Holds-update :
    (now : Text) (p new : Product) (db : Db)
    → new.id ≡ p.id
    → new.quantity ≡ p.quantity
    → find_product p.id db.products ≡ some p
    → Holds p.id new db (record db { products = map (replaced now new) db.products })
Holds-update now p new db same_id same_quantity found = record {
  own =
      ap (map_option timeless) (
        find_product-map (replaced now new) keeps p.id db.products
        ∙ ap (map_option (replaced now new)) found)
      ∙ ap some (hit (eq_text_refl_at same_id));
  others = λ other different.
      find_product-map_other (replaced now new) keeps other db.products
        (λ q e. miss q (ap (eq_text q.id) same_id ∙ elsewhere other p.id q different e));
}
  where
    keeps : (q : Product) → (replaced now new q).id ≡ q.id
    keeps q = elim (Bool-cases (eq_text q.id new.id)) [
      | inl same ↦ rw same (sym (eq_text_sound q.id new.id same))
      | inr other ↦ rw other refl
    ]

    miss : (q : Product) → eq_text q.id new.id ≡ false → replaced now new q ≡ q
    miss q other = rw other refl

    eq_text_refl_at : new.id ≡ p.id → eq_text p.id new.id ≡ true
    eq_text_refl_at e = ap (eq_text p.id) e ∙ eq_text_refl p.id

    hit : eq_text p.id new.id ≡ true → timeless (replaced now new p) ≡ timeless new
    hit same = rw same (ap (λ n. record new { quantity = n; updated_at = [] }) (sym same_quantity))
