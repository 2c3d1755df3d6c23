-- ===== src/Returns/Refund.antt =====
-- `register_return`: what the refund of a returned row adds to the cash ledger.
use myorishop.Prelude.{
  ◌+◌, Bool, true, false, Option, none, some, ◌∷◌, ℤ, pos, neg, ℕ, ◌*ℤ◌, ◌==ℤ◌, ◌≡◌, ◌≢◌, refl, sym,
  ap, ◌∙◌, ◌⊎◌, inl, inr, if-cases, Bool-cases, arith,
}
use myorishop.Text.{Text}
use myorishop.Models.{OpType, CashCategory, Batch, Warehouse, Operation, CashMovement}
use myorishop.Db.{Db, find_batch, find_warehouse, cash_conflict}
use myorishop.Session.{
  local_today_iso, Env, Session, Result, ok, err, Action, ⊤, commit_if, pure, resume, ◌>>◌,
}
use myorishop.Ledger.{date_or}
use myorishop.Ledger.Posts.{check-cases}
use myorishop.Finance.{
  CashDraft, record_cash_movement, check_cash, next_cash_seq, cash_row, append_cash,
}
use myorishop.Returns.{price_or_zero, refund_draft, refund_in, batch_warehouse, refund}

-- The movement that pays a row's units back: in the currency of the warehouse of the
-- row's batch, on the row's day.
pub record PaidBack (op : Operation) (debit : ℤ) (before after : Db) : Type 0 where
  pub movement : CashMovement
  pub batch : Batch
  pub warehouse : Warehouse
  pub batch_id : Text
  pub of_batch : (op.batch_id ≡ some batch_id) × (find_batch batch_id after.batches ≡ some batch)
  pub of_warehouse : find_warehouse batch.warehouse_id after.warehouses ≡ some warehouse
  pub on_top : after.cash_movements ≡ movement ∷ before.cash_movements
  pub amount : movement.amount_cents ≡ neg debit
  pub currency : movement.currency ≡ warehouse.currency
  pub category : movement.category ≡ CashCategory.return
  pub same_day : movement.business_date ≡ op.business_date
  pub owed : debit ≢ pos 0
  pub of_sale : movement.sale_id ≡ op.sale_id

-- The goods: one row of the origin's product and sale, at its price and cost. The money: one movement
-- of quantity times that price out of the till, or none where that is 0.
pub record Refunded (origin : Operation) (qty : ℕ) (op : Operation) (before after : Db)
    : Type 0 where
  pub goods : after.operations ≡ op ∷ before.operations
  pub kind : op.type ≡ OpType.return
  pub units : op.qty_delta ≡ pos qty
  pub subject : (op.product_id ≡ origin.product_id) × (op.sale_id ≡ origin.sale_id)
  pub figures :
      (op.unit_price_cents ≡ origin.unit_price_cents)
      × (op.unit_cost_cents ≡ origin.unit_cost_cents)
  pub money :
      let debit = pos qty *ℤ price_or_zero origin.unit_price_cents in
      ((debit ≡ pos 0) × (after.cash_movements ≡ before.cash_movements))
      ⊎ PaidBack op debit before after

-- What a cash movement that was recorded has done to what the transaction sees.
abbrev CashThen : Env → CashDraft → Session → Result CashMovement → Session → Type 0
CashThen env a s (ok m) s' =
    (s'.staged ≡ append_cash m s.staged)
    × (m.amount_cents ≡ a.amount_cents)
    × (m.currency ≡ a.currency)
    × (m.category ≡ a.category)
    × (m.sale_id ≡ a.sale_id)
    × (m.business_date ≡ some (date_or a.business_date (local_today_iso env)))
CashThen env a s (err e) s' = Unit

record_cash_movement-Then :
    (env : Env) (a : CashDraft) (s : Session)
    → CashThen env a s (record_cash_movement env a s).0 (record_cash_movement env a s).1
unfolding record_cash_movement
record_cash_movement-Then env a s = elim (check-cases (check_cash a)) [
  | inr (x, e) ↦ rw e tt
  | inl e ↦ elim (Bool-cases (cash_conflict m s.staged)) [
    | inl clash ↦ rw (e, clash) tt
    | inr free ↦
        rw (e, free)
          (finish a.commit (record s { drawn = s.drawn + 1; staged = append_cash m s.staged }) refl)
  ]
]
  where
    m : CashMovement
    m = cash_row env a (env.uuid s.drawn) (next_cash_seq env.device_id s.staged)

    finish :
        (b : Bool) (t : Session)
        → t.staged ≡ append_cash m s.staged
        → CashThen env a s ((commit_if b >> pure m) t).0 ((commit_if b >> pure m) t).1
    finish true t h = (h, refl, refl, refl, refl, refl)
    finish false t h = (h, refl, refl, refl, refl, refl)

zero_of : (d : ℤ) → (d ==ℤ pos 0) ≡ true → d ≡ pos 0
zero_of d h = ground arith

not_zero : (d : ℤ) → (d ==ℤ pos 0) ≡ false → d ≢ pos 0
not_zero d h e = cc (ap (λ x. x ==ℤ pos 0) e)

-- What the refund of a row adds to tables that have the row, and had no other movement.
abbrev pub Pays : Operation → ℤ → Db → Result Operation → Session → Type 0
Pays op debit before (ok x) s' =
    (x ≡ op)
    × (s'.staged.operations ≡ op ∷ before.operations)
    × (((debit ≡ pos 0) × (s'.staged.cash_movements ≡ before.cash_movements))
        ⊎ PaidBack op debit before s'.staged)
Pays op debit before (err e) s' = Unit

module _ (env : Env) (before : Db) (op : Operation) (sale_id batch_id date : Text) (debit : ℤ)
    (t : Session) (goods : t.staged.operations ≡ op ∷ before.operations)
    (till : t.staged.cash_movements ≡ before.cash_movements) (own : op.batch_id ≡ some batch_id)
    (linked : op.sale_id ≡ some sale_id)
    (dated : op.business_date ≡ some (date_or (some date) (local_today_iso env))) where
  abbrev pub PaysBy : Result Operation × Session → Type 0
  PaysBy (r, s') = Pays op debit before r s'

  abbrev pub then_row : Action ⊤ → Action Operation
  then_row m = m >> pure op

  refund_in-PaysBy :
      (b : Batch) (w : Option Warehouse)
      → debit ≢ pos 0
      → find_batch batch_id t.staged.batches ≡ some b
      → find_warehouse b.warehouse_id t.staged.warehouses ≡ w
      → PaysBy (then_row (refund_in env sale_id date debit w) t)
  refund_in-PaysBy b none owed found in_warehouse = tt
  refund_in-PaysBy b (some w) owed found in_warehouse =
      go (record_cash_movement env a t).0 (record_cash_movement env a t).1
        (record_cash_movement-Then env a t)
    where
      a : CashDraft
      a = refund_draft w.currency sale_id date debit

      go :
          (r : Result CashMovement) (s' : Session)
          → CashThen env a t r s'
          → PaysBy (let (q, u) = resume r (λ _. pure tt) s' in resume q (λ _. pure op) u)
      go (err x) s' h = tt
      go (ok m) s' h = (
        refl,
        ap (λ db. db.operations) h.0 ∙ goods,
        inr (record {
          movement = m;
          batch = b;
          warehouse = w;
          batch_id = batch_id;
          of_batch = (own, ap (λ db. find_batch batch_id db.batches) h.0 ∙ found);
          of_warehouse = ap (λ db. find_warehouse b.warehouse_id db.warehouses) h.0 ∙ in_warehouse;
          on_top = ap (λ db. db.cash_movements) h.0 ∙ ap (λ l. m ∷ l) till;
          amount = h.1;
          currency = h.2;
          category = h.3;
          same_day = h.5 ∙ sym dated;
          owed = owed;
          of_sale = h.4 ∙ sym linked;
        }),
      )

  pub refund-PaysBy : PaysBy (then_row (refund env sale_id batch_id date debit) t)
  refund-PaysBy =
      if-cases (λ (m : Action ⊤). PaysBy (then_row m t)) (debit ==ℤ pos 0) _ _
        (λ nothing. (refl, goods, inl (zero_of debit nothing, till)))
        (λ owed. go (not_zero debit owed) (find_batch batch_id t.staged.batches) refl)
    where
      go :
          debit ≢ pos 0
          → (o : Option Batch) → find_batch batch_id t.staged.batches ≡ o
          → PaysBy (then_row (refund_in env sale_id date debit (batch_warehouse t.staged o)) t)
      go owed none missing = tt
      go owed (some b) found = refund_in-PaysBy b _ owed found refl
