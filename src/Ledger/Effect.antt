-- ===== src/Ledger/Effect.antt =====
-- `record_operation`: what it writes when it returns, and why it raises when it does.
use myorishop.Prelude.{
  ◌+◌, Bool, true, false, Option, none, some, List, [], ◌∷◌, ℤ, pos, ◌+ℤ◌, ◌≡◌, refl, sym, ap, ◌∙◌,
  ◌⊎◌, inl, inr, map, map_option, any, Bool-cases, if◌then◌else◌, +ℤ-zero,
}
use myorishop.Text.{Text, eq_text, is_text, eq_text_sound}
use myorishop.Models.{Product, Batch, Operation}
use myorishop.Db.{Db, find_product, find_batch, bump_product, bump_batch, is_seq_taken, is_sale_id}
use myorishop.Session.{Env, Session, Result, ok, err, commit_if}
use myorishop.Ledger.{Draft, check_operation, record_operation, operation_row, post, next_seq}
use myorishop.Ledger.Moves.{delta_for}
use myorishop.Ledger.Posts.{held, check-cases}
use myorishop.Ledger.Record.{next_seq_fresh, record_operation-posts, record_operation-refuses}

-- The cached quantity of the product of an id, if there is one.
pub stocked : Text → Db → Option ℤ
stocked id db = map_option (λ p. p.quantity) (find_product id db.products)

-- What a row of one batch, or of none, adds to a batch.
abbrev pub batch_delta : Text → Option Text → ℤ → ℤ
batch_delta id own d = if is_text id own then d else pos 0

plus_zero : (q : Option ℤ) → q ≡ map_option (λ n. n +ℤ pos 0) q
plus_zero none = refl
plus_zero (some n) = ap some (sym (+ℤ-zero n))

stocked-post :
    (id now : Text) (o : Operation) (db : Db)
    → stocked id (post now o db)
      ≡ map_option (λ q. q +ℤ delta_for id o.product_id o.qty_delta) (stocked id db)
unfolding stocked
stocked-post id now o db = go db.products
  where
    go :
        (ps : List Product)
        → map_option
            (λ p. p.quantity)
            (find_product id (map (bump_product now o.product_id o.qty_delta) ps))
          ≡ map_option
              (λ q. q +ℤ delta_for id o.product_id o.qty_delta)
              (map_option (λ p. p.quantity) (find_product id ps))
    go [] = refl
    go (p ∷ ps) =
        let rest = go ps in
        elim (Bool-cases (eq_text p.id id)) [
          | inl same ↦ elim (Bool-cases (eq_text p.id o.product_id)) [
            | inl hit ↦
                rw
                  (
                    hit,
                    same,
                    ap (λ x. eq_text x o.product_id) (sym (eq_text_sound p.id id same)) ∙ hit,
                  )
                  refl
            | inr miss ↦
                rw
                  (
                    miss,
                    same,
                    ap (λ x. eq_text x o.product_id) (sym (eq_text_sound p.id id same)) ∙ miss,
                  )
                  (plus_zero (some p.quantity))
          ]
          | inr other ↦ elim (Bool-cases (eq_text p.id o.product_id)) [
            | inl hit ↦ rw (hit, other) rest
            | inr miss ↦ rw (miss, other) rest
          ]
        ]

held-post_any :
    (id now : Text) (o : Operation) (db : Db)
    → held id (post now o db)
      ≡ map_option (λ q. q +ℤ batch_delta id o.batch_id o.qty_delta) (held id db)
unfolding held
held-post_any id now o db = go db.batches
  where
    go :
        (bs : List Batch)
        → map_option
            (λ b. b.quantity)
            (find_batch id (map (bump_batch now o.batch_id o.qty_delta) bs))
          ≡ map_option
              (λ q. q +ℤ batch_delta id o.batch_id o.qty_delta)
              (map_option (λ b. b.quantity) (find_batch id bs))
    go [] = refl
    go (b ∷ bs) =
        let rest = go bs in
        elim (Bool-cases (eq_text b.id id)) [
          | inl same ↦ elim (Bool-cases (is_text b.id o.batch_id)) [
            | inl hit ↦
                rw
                  (
                    hit,
                    same,
                    ap (λ x. is_text x o.batch_id) (sym (eq_text_sound b.id id same)) ∙ hit,
                  )
                  refl
            | inr miss ↦
                rw
                  (
                    miss,
                    same,
                    ap (λ x. is_text x o.batch_id) (sym (eq_text_sound b.id id same)) ∙ miss,
                  )
                  (plus_zero (some b.quantity))
          ]
          | inr other ↦ elim (Bool-cases (is_text b.id o.batch_id)) [
            | inl hit ↦ rw (hit, other) rest
            | inr miss ↦ rw (miss, other) rest
          ]
        ]

-- The row has the draft's content and a number that its device has not used; it is on top of the
-- ledger, and the cached quantities moved by the draft's delta: of its product, of its batch, and of
-- nothing else.
pub record Recorded (env : Env) (a : Draft) (op : Operation) (before after : Db) : Type 0 where
  pub on_top : after.operations ≡ op ∷ before.operations
  pub subject :
      (op.type ≡ a.type)
      × (op.product_id ≡ a.product_id)
      × (op.batch_id ≡ a.batch_id)
      × (op.sale_id ≡ a.sale_id)
      × (op.payload ≡ a.payload)
  pub figures :
      (op.qty_delta ≡ a.qty_delta)
      × (op.unit_cost_cents ≡ a.unit_cost_cents)
      × (op.unit_price_cents ≡ a.unit_price_cents)
  pub numbered :
      (op.device_id ≡ env.device_id) × (is_seq_taken env.device_id op.seq before.operations ≡ false)
  pub products_moved :
      (id : Text)
      → stocked id after
        ≡ map_option (λ q. q +ℤ delta_for id a.product_id a.qty_delta) (stocked id before)
  pub batches_moved :
      (id : Text)
      → held id after
        ≡ map_option (λ q. q +ℤ batch_delta id a.batch_id a.qty_delta) (held id before)

-- How a call ends.
abbrev pub RecordedBy : Env → Draft → Session → Result Operation → Session → Type 0
RecordedBy env a s (ok op) s' =
    Recorded env a op s.staged s'.staged
    × (s'.committed ≡ (if a.commit then s'.staged else s.committed))
RecordedBy env a s (err e) s' =
    (s'.staged ≡ s.staged)
    × (s'.committed ≡ s.committed)
    × ((check_operation env a s.staged ≡ err e)
        ⊎ (any (λ x. eq_text x.id (env.uuid s.drawn)) s.staged.operations ≡ true)
        ⊎ (is_sale_id a.sale_id s.staged.sales ≡ false))

record_operation-clashes :
    (env : Env) (a : Draft) (s : Session)
    → check_operation env a s.staged ≡ ok tt
    → (any (λ x. eq_text x.id (env.uuid s.drawn)) s.staged.operations ≡ true)
      ⊎ (is_sale_id a.sale_id s.staged.sales ≡ false)
    → RecordedBy env a s (record_operation env a s).0 (record_operation env a s).1
unfolding record_operation
record_operation-clashes env a s e (inl taken) = rw (e, taken) (refl, refl, inr (inl taken))
record_operation-clashes env a s e (inr unknown) =
    elim (Bool-cases (any (λ x. eq_text x.id (env.uuid s.drawn)) s.staged.operations)) [
      | inl taken ↦ rw (e, taken) (refl, refl, inr (inl taken))
      | inr fresh ↦
          rw (e, fresh, unknown, next_seq_fresh env.device_id s.staged)
            (refl, refl, inr (inr unknown))
    ]

posted_row :
    (env : Env) (a : Draft) (s : Session)
    → let op = operation_row env a (env.uuid s.drawn) (next_seq env.device_id s.staged) in
      let s' =
        (commit_if a.commit
          (record s { drawn = s.drawn + 1; staged = post env.now op s.staged })).1 in
      RecordedBy env a s (ok op) s'
posted_row env a s = go a.commit
  where
    op : Operation
    op = operation_row env a (env.uuid s.drawn) (next_seq env.device_id s.staged)

    row : Recorded env a op s.staged (post env.now op s.staged)
    row = record {
      on_top = refl;
      subject = (refl, refl, refl, refl, refl);
      figures = (refl, refl, refl);
      numbered = (refl, next_seq_fresh env.device_id s.staged);
      products_moved = λ id. stocked-post id env.now op s.staged;
      batches_moved = λ id. held-post_any id env.now op s.staged;
    }

    go :
        (b : Bool)
        → let s' =
            (commit_if b (record s { drawn = s.drawn + 1; staged = post env.now op s.staged })).1 in
          Recorded env a op s.staged s'.staged
          × (s'.committed ≡ (if b then s'.staged else s.committed))
    go true = (row, refl)
    go false = (row, refl)

-- Of a call that returns: its row is on top of the ledger, has the content of the draft and a number
-- that the device has not used, and the cached quantities moved by the draft's delta: that of its
-- product, that of its batch, and no other; it is committed if the draft says so, and otherwise
-- nothing is. A call that raises has written nothing, and it raises only for a guard, an id that is
-- taken or a sale that is not there, never for UNIQUE(device_id, seq).
pub record_operation-RecordedBy :
    (env : Env) (a : Draft) (s : Session)
    → RecordedBy env a s (record_operation env a s).0 (record_operation env a s).1
record_operation-RecordedBy env a s = elim (check-cases (check_operation env a s.staged)) [
  | inr (x, e) ↦ rw (record_operation-refuses env a s x e) (refl, refl, inl e)
  | inl e ↦ elim (Bool-cases (any (λ x. eq_text x.id (env.uuid s.drawn)) s.staged.operations)) [
    | inl taken ↦ record_operation-clashes env a s e (inl taken)
    | inr fresh ↦ elim (Bool-cases (is_sale_id a.sale_id s.staged.sales)) [
      | inr unknown ↦ record_operation-clashes env a s e (inr unknown)
      | inl known ↦ rw (record_operation-posts env a s e fresh known) (posted_row env a s)
    ]
  ]
]
