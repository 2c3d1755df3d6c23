-- ===== src/Batches/EditStock.antt =====
-- `update_batch` and the invariant of the stock.
use myorishop.Prelude.{Option, none, some, List, [], ◌∷◌, map, ◌≡◌, refl, sym, subst, All, if-both}
use myorishop.Text.{Text, eq_text}
use myorishop.Models.{Batch, Operation}
use myorishop.Db.{Db, find_batch}
use myorishop.Session.{Env, Session, gets, modify, commit, warehouse_allowed}
use myorishop.Session.Keeps.{
  Keeps, Both, Keeps-bind, Keeps-gets, Keeps-pure, Keeps-modify, Keeps-commit,
}
use myorishop.Ledger.{compute_batch_stock}
use myorishop.Ledger.Projection.{
  lot, lots, AreDistinct, IsOwned, HasBatchStock, OwnedBy, IsConsistent,
}
use myorishop.Batches.Edit.{
  BatchForm, BatchError, updated, edit_errors, edited, is_same, edit_row, edit_batches, write_edit,
  edit_of, update_batch,
}

-- An edit changes neither what a batch is nor its quantity.
edit_row-lot :
    (env : Env) (id : Text) (f : BatchForm) (b : Batch) → lot (edit_row env id f b) ≡ lot b
edit_row-lot env id f b =
    if-both (λ x. lot x ≡ lot b) (eq_text b.id id) _ _
      (if-both (λ x. lot x ≡ lot b) (is_same b (edited f b)) _ _ refl refl) refl

edit_row-HasBatchStock :
    (env : Env) (id : Text) (f : BatchForm) (ops : List Operation) (b : Batch)
    → HasBatchStock ops b
    → HasBatchStock ops (edit_row env id f b)
unfolding compute_batch_stock
edit_row-HasBatchStock env id f ops b h =
    if-both (HasBatchStock ops) (eq_text b.id id) _ _
      (if-both (HasBatchStock ops) (is_same b (edited f b)) _ _ h h) h

module _ (env : Env) (id : Text) (f : BatchForm) where
  lots-map-edit_row : (bs : List Batch) → lots (map (edit_row env id f) bs) ≡ lots bs
  lots-map-edit_row [] = refl
  lots-map-edit_row (b ∷ bs) = rw (edit_row-lot env id f b, lots-map-edit_row bs) refl

  All-map-edit_row :
      (ops : List Operation) (bs : List Batch)
      → All (HasBatchStock ops) bs
      → All (HasBatchStock ops) (map (edit_row env id f) bs)
  All-map-edit_row ops [] h = tt
  All-map-edit_row ops (b ∷ bs) h =
      (edit_row-HasBatchStock env id f ops b h.0, All-map-edit_row ops bs h.1)

  All-OwnedBy-edit_row :
      (bs : List Batch) (ops : List Operation)
      → All (OwnedBy bs) ops
      → All (OwnedBy (map (edit_row env id f) bs)) ops
  All-OwnedBy-edit_row bs [] h = tt
  All-OwnedBy-edit_row bs (o ∷ ops) h = (
    subst (λ ls. IsOwned ls o.product_id o.batch_id) (sym (lots-map-edit_row bs)) h.0,
    All-OwnedBy-edit_row bs ops h.1,
  )

  edit_batches-IsConsistent : (db : Db) → IsConsistent db → IsConsistent (edit_batches env id f db)
  edit_batches-IsConsistent db h = record {
    stock = h.stock;
    batch_stock = All-map-edit_row db.operations db.batches h.batch_stock;
    owned = All-OwnedBy-edit_row db.batches db.operations h.owned;
    distinct = subst AreDistinct (sym (lots-map-edit_row db.batches)) h.distinct;
  }

  Keeps-write_edit :
      (b : Batch) (es : List BatchError) → Keeps (Both IsConsistent) (write_edit env id f b es)
  Keeps-write_edit b (e ∷ es) = Keeps-pure _
  Keeps-write_edit b [] =
      Keeps-bind (modify (edit_batches env id f)) _
        (Keeps-modify (edit_batches env id f) edit_batches-IsConsistent)
        (λ _. Keeps-bind commit _ Keeps-commit (λ _. Keeps-pure (updated (edit_row env id f b))))

  Keeps-edit_of : (found : Option Batch) → Keeps (Both IsConsistent) (edit_of env id f found)
  Keeps-edit_of none = Keeps-pure _
  Keeps-edit_of (some b) =
      if-both (Keeps (Both IsConsistent)) (warehouse_allowed env b.warehouse_id) _ _
        (Keeps-write_edit b (edit_errors f)) (Keeps-pure _)

-- However the edit of a batch ends, every cached quantity is still what the ledger gives: the form
-- reaches none of the fields that the stock is computed from.
pub update_batch-IsConsistent :
    (env : Env) (id : Text) (f : BatchForm) (s : Session)
    → IsConsistent s.committed
    → IsConsistent s.staged
    → Both IsConsistent (update_batch env id f s).1
unfolding update_batch
update_batch-IsConsistent env id f s committed staged =
    (Keeps-bind (gets (λ db. find_batch id db.batches)) _ (Keeps-gets _)
        (Keeps-edit_of env id f)).at
      s (record { committed = committed; staged = staged })
