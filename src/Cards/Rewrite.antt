-- ===== src/Cards/Rewrite.antt =====
-- `update_product`: the writes of an edit, the UPDATE of the card and its audit rows.
use myorishop.Prelude.{false, List, [], ◌∷◌, none, some, ◌≡◌, refl, sym, ap, subst}
use myorishop.Text.{Text, strip}
use myorishop.Models.{OpType, Product, Payload}
use myorishop.Db.{Db, find_product}
use myorishop.Session.{
  Env, Session, value_error, warehouse_access, integrity_error, Result, ok, err, Action, ⊤, insert,
  commit, pure, close_with, ◌>>◌,
}
use myorishop.Session.Yields.{Value, Yields-bind, Yields-pure}
use myorishop.Session.Ensures.{Then, Ensures, Ensures-bind, Ensures-pure}
use myorishop.Ledger.{record_operation}
use myorishop.Ledger.Trail.{trail, Ensures-insert, Ensures-record_operation}
use myorishop.Cards.{
  CardForm, CardResult, saved, refused_card, duplicate_code, filled, audit_draft, record_each,
  price_payloads, edited_payload, changed_prices, changed_non_price, is_code_of_other, update_card,
  rewrite_card,
}
use myorishop.Cards.Filled.{FilledBy}
use myorishop.Cards.Stored.{Holds, Holds-update, Holds-record_each}
use myorishop.Cards.Edited.{entries, Edited, rows_of, holding-Edited}

Ensures-record_each :
    (env : Env) (type : OpType) (id : Text) (payloads : List Payload)
    (before : List (OpType × Text × Payload))
    → Ensures
        (λ db. trail db ≡ before)
        (record_each env type id payloads)
        (λ db. trail db ≡ entries type id payloads before)
Ensures-record_each env type id [] before = Ensures-pure _ tt
Ensures-record_each env type id (payload ∷ payloads) before =
    Ensures-bind (λ db. trail db ≡ before) (λ db. trail db ≡ (type, id, payload) ∷ before)
      (λ db. trail db ≡ entries type id (payload ∷ payloads) before)
      (record_operation env (audit_draft type id payload false))
      (λ _. record_each env type id payloads)
      (Ensures-record_operation env (audit_draft type id payload false) before)
      (λ _. Ensures-record_each env type id payloads ((type, id, payload) ∷ before))

module _ (env : Env) (f : CardForm) (s : Session) where
  -- An answer that a card was saved; nothing is said of another.
  abbrev pub SavedBy : Text → Result CardResult → Session → Type 0
  SavedBy id (ok (saved q)) s' = Edited f id q s.staged s'.staged
  SavedBy id (ok (refused_card es)) s' = Unit
  SavedBy id (err e) s' = Unit

  answered :
      (p : Product) (r : Result CardResult) (s' : Session)
      → Value (λ x. x ≡ saved p) r
      → Then (λ db. Edited f p.id p s.staged db) r s'
      → let e = close_with (refused_card (duplicate_code ∷ [])) r s' in SavedBy p.id e.0 e.1
  answered p (ok x) s' same h = subst (λ y. SavedBy p.id (ok y) s') (sym same) h
  answered p (err integrity_error) s' same h = tt
  answered p (err value_error) s' same h = tt
  answered p (err warehouse_access) s' same h = tt

  module _ (p : Product) (found : find_product p.id s.staged.products ≡ some p)
      (active : p.deleted_at ≡ none) (passed : FilledBy f p (filled f p)) where
    rewrite : Action ⊤
    rewrite =
        insert (λ db. is_code_of_other (strip f.code) p db.products)
          (update_card env.now (filled f p))

    first_rows : Action ⊤
    first_rows = record_each env OpType.price_change p.id (price_payloads f p (changed_prices f p))

    last_row : Action ⊤
    last_row = record_each env OpType.product_edited p.id (edited_payload (changed_non_price f p))

    block : Action CardResult
    unfolding rewrite first_rows last_row
    block = rewrite >> (first_rows >> (last_row >> (commit >> pure (saved p))))

    block-trail : Ensures (λ db. db ≡ s.staged) block (λ db. trail db ≡ rows_of f p s.staged)
    unfolding block
    block-trail =
        let before = trail s.staged in
        let Done = λ (db : Db). trail db ≡ rows_of f p s.staged in
        let prices = price_payloads f p (changed_prices f p) in
        let Priced = λ (db : Db). trail db ≡ entries OpType.price_change p.id prices before in
        Ensures-bind (λ db. db ≡ s.staged) (λ db. trail db ≡ before) Done rewrite _
          (Ensures-insert (λ db. db ≡ s.staged) (λ db. trail db ≡ before)
            (λ db. is_code_of_other (strip f.code) p db.products) (update_card env.now (filled f p))
            (λ db h. ap trail h))
          λ _.
            Ensures-bind (λ db. trail db ≡ before) Priced Done first_rows _
              (Ensures-record_each env OpType.price_change p.id prices before)
              λ _.
                Ensures-bind Priced Done Done last_row _
                  (Ensures-record_each env OpType.product_edited p.id
                    (edited_payload (changed_non_price f p))
                    (entries OpType.price_change p.id prices before))
                  λ _. record { at = λ s' h. h }

    block-Holds : Ensures (λ db. db ≡ s.staged) block (Holds p.id (filled f p) s.staged)
    unfolding block
    block-Holds =
        let new = filled f p in
        let P = Holds p.id new s.staged in
        Ensures-bind (λ db. db ≡ s.staged) P P rewrite _
          (Ensures-insert (λ db. db ≡ s.staged) P
            (λ db. is_code_of_other (strip f.code) p db.products) (update_card env.now new)
            (λ db h.
              subst (λ x. P (update_card env.now new x)) (sym h)
                (Holds-update env.now p new s.staged refl refl found)))
          λ _.
            Ensures-bind P P P first_rows _
              (Holds-record_each env OpType.price_change p.id _ new s.staged)
              λ _.
                Ensures-bind P P P last_row _
                  (Holds-record_each env OpType.product_edited p.id _ new s.staged)
                  λ _. record { at = λ s' h. h }

    pub rewrite_card-SavedBy : SavedBy p.id (rewrite_card env f p s).0 (rewrite_card env f p s).1
    unfolding block
    rewrite_card-SavedBy =
        let Is = λ (x : CardResult). x ≡ saved p in
        answered p (block s).0 (block s).1
          ((Yields-bind Is rewrite _ λ _. Yields-bind Is first_rows _ λ _.
              Yields-bind Is last_row _ λ _.
                Yields-bind Is commit (λ _. pure (saved p)) (λ _. Yields-pure Is (saved p) refl)).at
            s)
          (join (block s).0 (block s).1 (block-trail.at s refl) (block-Holds.at s refl))
      where
        join :
            (r : Result CardResult) (s' : Session)
            → Then (λ db. trail db ≡ rows_of f p s.staged) r s'
            → Then (Holds p.id (filled f p) s.staged) r s'
            → Then (λ db. Edited f p.id p s.staged db) r s'
        join (ok x) s' h k = holding-Edited f p s.staged found active passed s'.staged k h
        join (err x) s' h k = tt
