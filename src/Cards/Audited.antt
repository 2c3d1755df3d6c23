-- ===== src/Cards/Audited.antt =====
-- `update_product`: the audit rows are what changed.
use myorishop.Prelude.{
  Bool, inl, inr, List, [], ◌∷◌, Option, none, some, ◌≡◌, refl, sym, subst, if-cases, is_some,
}
use myorishop.Text.{Text, strip}
use myorishop.Models.{Product}
use myorishop.Db.{find_product}
use myorishop.Session.{Env, Session, Result, ok, err, Action}
use myorishop.Cards.{
  card_errors, is_saved, CardForm, CardError, CardResult, saved, refused_card, is_code_of_other,
  is_unchanged, update_checked, update_of, update_product,
}
use myorishop.Cards.Stored.{find_product-id}
use myorishop.Cards.Edited.{Edited, active_card, unchanged-Edited}
use myorishop.Cards.Rewrite.{SavedBy, rewrite_card-SavedBy}
use myorishop.Cards.Filled.{filled-FilledBy, card_errors-Passed}
use myorishop.Cards.Closing.{cards-Closed}
use myorishop.Session.Closes.{Closed}

module _ (env : Env) (f : CardForm) (s : Session) where
  update_checked-SavedBy :
      (p : Product) (taken : Bool) (es : List CardError)
      → find_product p.id s.staged.products ≡ some p
      → p.deleted_at ≡ none
      → card_errors f p taken ≡ es
      → SavedBy env f s p.id (update_checked env f p es s).0 (update_checked env f p es s).1
  update_checked-SavedBy p taken (e ∷ es) found active errors = tt
  update_checked-SavedBy p taken [] found active errors =
      let passed = filled-FilledBy f p taken (card_errors-Passed f p taken errors) in
      if-cases (λ (m : Action CardResult). SavedBy env f s p.id (m s).0 (m s).1) (is_unchanged f p)
        _ _ (λ same. unchanged-Edited f p s.staged found active passed same)
        (λ other. rewrite_card-SavedBy env f s p found active passed)

  update_of-SavedBy :
      (id : Text) (o : Option Product)
      → find_product id s.staged.products ≡ o
      → SavedBy env f s id (update_of env f s.staged o s).0 (update_of env f s.staged o s).1
  update_of-SavedBy id none found = tt
  update_of-SavedBy id (some p) found =
      let same_id = find_product-id id s.staged.products p found in
      let own = subst (λ i. find_product i s.staged.products ≡ some p) (sym same_id) found in
      subst
        (λ i.
          SavedBy env f s i (update_of env f s.staged (some p) s).0
            (update_of env f s.staged (some p) s).1)
        same_id
        (if-cases (λ (m : Action CardResult). SavedBy env f s p.id (m s).0 (m s).1)
          (is_some p.deleted_at) _ _ (λ deleted. tt)
          (λ active.
            update_checked-SavedBy p (is_code_of_other (strip f.code) p s.staged.products) _ own
              (active_card p.deleted_at active) refl))

  -- How an edit of the card of an id is answered.
  abbrev pub AuditedBy : Text → Result CardResult → Session → Type 0
  AuditedBy id (ok (saved p)) s' = (s'.staged ≡ s'.committed) × Edited f id p s.staged s'.committed
  AuditedBy id (ok (refused_card es)) s' = (s'.staged ≡ s'.committed) × (s'.committed ≡ s.committed)
  AuditedBy id (err e) s' = s'.committed ≡ s.committed

  audited :
      (id : Text) (r : Result CardResult) (s' : Session)
      → Closed is_saved s r s'
      → SavedBy env f s id r s'
      → AuditedBy id r s'
  audited id (ok (saved p)) s' (clean, done) h = (clean, subst (Edited f id p s.staged) clean h)
  audited id (ok (refused_card es)) s' (clean, inl d) h = absurd (cc d)
  audited id (ok (refused_card es)) s' (clean, inr same) h = (clean, same)
  audited id (err e) s' same h = same

update_product-SavedBy :
    (env : Env) (f : CardForm) (s : Session) (id : Text)
    → SavedBy env f s id (update_product env id f s).0 (update_product env id f s).1
unfolding update_product
update_product-SavedBy env f s id =
    update_of-SavedBy env f s id (find_product id s.staged.products) refl

-- From a session with nothing uncommitted: an edit that was saved is of the active card of the id. In
-- the committed tables the card has what the form says, every price that the form submits and the
-- other prices as they were; no other card changed; and the ledger has exactly one price_change row
-- more for each price in which the card before and the card after differ, with the field, the price
-- before and the price after, and, if other fields differ, one product_edited row with their names.
-- An edit that is refused has left the committed tables as they were and nothing uncommitted, and one
-- that raises has committed nothing.
pub update_product-Audited :
    (env : Env) (id : Text) (f : CardForm) (s : Session)
    → s.staged ≡ s.committed
    → AuditedBy env f s id (update_product env id f s).0 (update_product env id f s).1
update_product-Audited env id f s clean =
    audited env f s id (update_product env id f s).0 (update_product env id f s).1
      (cards-Closed env id f s clean).1 (update_product-SavedBy env f s id)
