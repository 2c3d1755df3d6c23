-- ===== src/Returns/Staged.antt =====
-- `register_return`: what its writes have staged, the goods and the refund.
use myorishop.Prelude.{Option, none, some, ◌∷◌, ℕ, ◌≡◌, sym, ap, ◌∙◌, subst}
use myorishop.Text.{Text}
use myorishop.Models.{Batch, Operation}
use myorishop.Db.{Db, batch_conflict}
use myorishop.Session.{
  Env, Session, Result, ok, err, Action, gets, insert, pure, new_id, resume, ◌>>=◌, ◌>>◌,
}
use myorishop.Session.Ensures.{Then, Ensures, Ensures-bind, Ensures-pure, Ensures-gets}
use myorishop.Ledger.{record_operation, operation_row}
use myorishop.Ledger.Trail.{Ensures-insert}
use myorishop.Ledger.Posts.{after-record_operation}
use myorishop.Batches.{legacy_batch, add_batch}
use myorishop.Returns.{
  lazy_batch, create_legacy, return_batch_id, resolve_or_create_return_batch_id, return_draft,
  debit_of, refund, stage_return,
}
use myorishop.Returns.Refund.{Refunded, Pays, refund-PaysBy}

-- The tables of goods and money are those of before.
abbrev Untouched : Db → Db → Type 0
Untouched before db =
    (db.operations ≡ before.operations) × (db.cash_movements ≡ before.cash_movements)

module _ (before : Db) where
  Ensures-create_legacy :
      (env : Env) (product : Text) (found : Option Batch)
      → Ensures (Untouched before) (create_legacy env product found) (Untouched before)
  Ensures-create_legacy env product (some b) = Ensures-pure (Untouched before) b.id
  Ensures-create_legacy env product none =
      let P = Untouched before in
      Ensures-bind P P P (new_id env) _ (record { at = λ s h. h })
        λ id.
          let b = lazy_batch env product id in
          Ensures-bind P P P (insert (batch_conflict b) (add_batch b)) (λ _. pure id)
            (Ensures-insert P P (batch_conflict b) (add_batch b) (λ db h. h))
            (λ _. Ensures-pure P id)

  Ensures-return_batch_id :
      (env : Env) (product : Text) (id : Option Text)
      → Ensures (Untouched before) (return_batch_id env product id) (Untouched before)
  Ensures-return_batch_id env product (some id) = Ensures-pure (Untouched before) id
  Ensures-return_batch_id env product none =
      let P = Untouched before in
      Ensures-bind P P P (gets (λ db. legacy_batch product db.batches)) _ (Ensures-gets P _)
        (Ensures-create_legacy env product)

  Ensures-resolve :
      (env : Env) (origin : Operation)
      → Ensures (Untouched before) (resolve_or_create_return_batch_id env origin) (Untouched before)
  unfolding resolve_or_create_return_batch_id
  Ensures-resolve env origin = Ensures-return_batch_id env origin.product_id origin.batch_id

module _ (env : Env) (origin : Operation) (sale_id date : Text) (qty : ℕ)
    (linked : origin.sale_id ≡ some sale_id) (before : Db) where
  abbrev pub StagedBy : Result Operation → Session → Type 0
  StagedBy (ok op) s' = Refunded origin qty op before s'.staged
  StagedBy (err e) s' = Unit

  refund-StagedBy :
      (batch_id : Text) (s : Session)
      → Untouched before s.staged
      → let m = record_operation env (return_draft origin sale_id batch_id date qty) >>= λ op.
          refund env sale_id batch_id date (debit_of origin qty) >> pure op in
        StagedBy (m s).0 (m s).1
  unfolding debit_of
  refund-StagedBy batch_id s same =
      after-record_operation StagedBy (λ x s'. tt) env
        (return_draft origin sale_id batch_id date qty) _ s
        λ op t posts.
          let row = posts.4 in
          let goods = ap (λ db. db.operations) posts.0 ∙ ap (λ l. op ∷ l) same.0 in
          let till = ap (λ db. db.cash_movements) posts.0 ∙ same.1 in
          let sale = ap (λ o. o.sale_id) row in
          let m : Action Operation =
            refund env sale_id batch_id date (debit_of origin qty) >> pure op in
          go op row (m t).0 (m t).1 (
            refund-PaysBy env before op sale_id batch_id date (debit_of origin qty) t goods till
              posts.1 sale (ap (λ (o : Operation). o.business_date) posts.4))
    where
      go :
          (op : Operation)
          → op ≡ operation_row env (return_draft origin sale_id batch_id date qty) op.id op.seq
          → (r : Result Operation) (s' : Session) → Pays op (debit_of origin qty) before r s'
          → StagedBy r s'
      go op row (err x) s' h = tt
      go op row (ok x) s' h =
          subst (λ y. StagedBy (ok y) s') (sym h.0)
            (record {
              goods = h.1;
              kind = ap (λ o. o.type) row;
              units = ap (λ o. o.qty_delta) row;
              subject = (ap (λ o. o.product_id) row, ap (λ o. o.sale_id) row ∙ sym linked);
              figures = (ap (λ o. o.unit_price_cents) row, ap (λ o. o.unit_cost_cents) row);
              money = h.2;
            })

  pub stage_return-StagedBy :
      (s : Session)
      → Untouched before s.staged
      → let m = stage_return env origin sale_id date qty in StagedBy (m s).0 (m s).1
  stage_return-StagedBy s same = go (m s).0 (m s).1 ((Ensures-resolve before env origin).at s same)
    where
      m : Action Text
      m = resolve_or_create_return_batch_id env origin

      go :
          (r : Result Text) (s' : Session)
          → Then (Untouched before) r s'
          → let k = λ (batch_id : Text).
            record_operation env (return_draft origin sale_id batch_id date qty) >>= λ op.
            refund env sale_id batch_id date (debit_of origin qty) >> pure op in
            StagedBy (resume r k s').0 (resume r k s').1
      go (ok id) s' h = refund-StagedBy id s' h
      go (err x) s' h = tt
