-- ===== src/Cards/Closing.antt =====
-- `create_product` and `update_product`: how the transaction is closed.
use myorishop.Prelude.{
  true, false, List, [], ◌∷◌, Option, none, some, ◌≡◌, refl, inr, if-cases, is_some,
}
use myorishop.Text.{Text, strip}
use myorishop.Models.{OpType, Product, Payload, card_created}
use myorishop.Db.{Db, active_product, find_product, product_conflict, add_product}
use myorishop.Session.{Env, Session, Action, insert, new_id}
use myorishop.Session.Atomic.{
  Stages, Stages-bind, Stages-pure, Stages-insert, Stages-new_id, Commits-bind, Commits-then,
  Commits-commit,
}
use myorishop.Session.Closes.{Closed, Closes, Closes-bind, Closes-closing}
use myorishop.Ledger.{record_operation}
use myorishop.Ledger.Staging.{Stages-record_operation, Commits-record_operation}
use myorishop.Cards.{
  CardForm, CardError, CardResult, saved, refused_card, is_saved, duplicate_code, card_errors,
  blank_card, filled, audit_draft, write_card, create_checked, create_product, record_each,
  price_payloads, edited_payload, changed_prices, changed_non_price, is_code_of_other, update_card,
  rewrite_card, is_unchanged, update_checked, update_of, update_product,
}

Stages-record_each :
    (env : Env) (type : OpType) (id : Text) (payloads : List Payload)
    → Stages (record_each env type id payloads)
Stages-record_each env type id [] = Stages-pure tt
Stages-record_each env type id (payload ∷ payloads) =
    Stages-bind (record_operation env (audit_draft type id payload false)) _
      (Stages-record_operation env (audit_draft type id payload false) refl)
      (λ _. Stages-record_each env type id payloads)

module _ (env : Env) (f : CardForm) where
  Closes-rewrite_card : (p : Product) → Closes is_saved (rewrite_card env f p)
  Closes-rewrite_card p =
      let prices = price_payloads f p (changed_prices f p) in
      let fields = edited_payload (changed_non_price f p) in
      let code_taken = λ (db : Db). is_code_of_other (strip f.code) p db.products in
      let rewrite = update_card env.now (filled f p) in
      Closes-closing (refused_card (duplicate_code ∷ [])) _ (
        Commits-bind (insert code_taken rewrite) _ (Stages-insert code_taken rewrite) λ _.
          Commits-bind (record_each env OpType.price_change p.id prices) _
            (Stages-record_each env OpType.price_change p.id prices)
            λ _.
              Commits-bind (record_each env OpType.product_edited p.id fields) _
                (Stages-record_each env OpType.product_edited p.id fields)
                (λ _. Commits-commit (saved p) refl))

  Closes-write_card : Closes is_saved (write_card env f)
  Closes-write_card = Closes-bind (new_id env) _ (Stages-new_id env) λ id.
      let p = filled f (blank_card env id) in
      let a =
        audit_draft OpType.product_created p.id (card_created (strip f.code) (strip f.name)) true in
      Closes-closing (refused_card (duplicate_code ∷ [])) _ (
        Commits-bind (insert (product_conflict p) (add_product p)) _
          (Stages-insert (product_conflict p) (add_product p))
          (λ _.
            Commits-then (λ _. true) (record_operation env a) (λ _. saved p)
              (Commits-record_operation env a refl) (λ _. refl)))

  abbrev ClosedBy : Session → Action CardResult → Type 0
  ClosedBy s m = Closed is_saved s (m s).0 (m s).1

  create_checked-Closed :
      (s : Session) (es : List CardError)
      → s.staged ≡ s.committed
      → ClosedBy s (create_checked env f es)
  create_checked-Closed s (e ∷ es) clean = (clean, inr refl)
  create_checked-Closed s [] clean = Closes-write_card.at s

  update_checked-Closed :
      (s : Session) (p : Product) (es : List CardError)
      → s.staged ≡ s.committed
      → ClosedBy s (update_checked env f p es)
  update_checked-Closed s p (e ∷ es) clean = (clean, inr refl)
  update_checked-Closed s p [] clean =
      if-cases (ClosedBy s) (is_unchanged f p) _ _ (λ same. (clean, inr refl))
        (λ other. (Closes-rewrite_card p).at s)

  update_of-Closed :
      (s : Session) (o : Option Product)
      → s.staged ≡ s.committed
      → ClosedBy s (update_of env f s.staged o)
  update_of-Closed s none clean = (clean, inr refl)
  update_of-Closed s (some p) clean =
      if-cases (ClosedBy s) (is_some p.deleted_at) _ _ (λ deleted. (clean, inr refl))
        (λ active. update_checked-Closed s p _ clean)

-- From a session with nothing uncommitted, creating or editing a card leaves nothing uncommitted if it
-- answers, and unless its answer is a saved card the committed tables are as they were; a call that
-- raises has committed nothing.
pub cards-Closed :
    (env : Env) (id : Text) (f : CardForm) (s : Session)
    → s.staged ≡ s.committed
    → Closed is_saved s (create_product env f s).0 (create_product env f s).1
      × Closed is_saved s (update_product env id f s).0 (update_product env id f s).1
unfolding create_product update_product
cards-Closed env id f s clean = (
  create_checked-Closed env f s
      (card_errors f (blank_card env [])
        (is_some (active_product (strip f.code) s.staged.products)))
      clean,
  update_of-Closed env f s (find_product id s.staged.products) clean,
)
