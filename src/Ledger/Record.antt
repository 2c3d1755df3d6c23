-- ===== src/Ledger/Record.antt =====
-- `record_operation`: what its guards establish, that it keeps the invariant, its sequence numbers,
-- and its effect.
use myorishop.Prelude.{
  ◌+◌, true, false, Option, none, some, List, [], ◌∷◌, ℤ, pos, ◌≡◌, refl, arith, Option-cases, inl,
  inr, ap, first-map, map_option, ◌∙◌, Bool-cases, any, ltb_ℤ, ◌≤ℤ◌, +ℤ_parts, int_laws, ◌+ℤ◌,
}
use myorishop.Text.{Text, eq_text, eq_text_sound}
use myorishop.Models.{Batch, Operation}
use myorishop.Db.{Db, find_batch, operation_conflict, is_seq_taken, is_sale_id}
use myorishop.Session.{Env, Session, Error, ok, err, commit_if, pure, ◌>>◌}
use myorishop.Session.Keeps.{
  Keeps, Both, Keeps-query, Keeps-bind, Keeps-insert_at, Keeps-commit_if, Keeps-pure,
}
use myorishop.Ledger.{
  Draft, check_operation, is_stock_affecting, record_operation, operation_row, post, max_seq,
  max_with, after_seq, next_seq,
}
use myorishop.Ledger.Projection.{lot, lots, find_lot, IsConsistent}
use myorishop.Ledger.Append.{Fits, post-IsConsistent}

pub find_lot-lots :
    (id : Text) (bs : List Batch) (b : Batch)
    → find_batch id bs ≡ some b
    → find_lot id (lots bs) ≡ some (lot b)
find_lot-lots id bs b e = first-map lot (λ l. eq_text l.id id) bs ∙ ap (map_option lot) e

-- The drafts that the services make: an audit row moves no stock.
abbrev pub IsAuditNeutral : Draft → Type 0
IsAuditNeutral a = is_stock_affecting a.type ≡ false → a.qty_delta ≡ pos 0

-- A draft that passes the guards fits the ledger.
pub check_operation-Fits :
    (env : Env) (a : Draft) (id : Text) (seq : ℤ) (db : Db)
    → IsAuditNeutral a
    → check_operation env a db ≡ ok tt
    → Fits db.batches (operation_row env a id seq) a.batch_id
unfolding check_operation
check_operation-Fits env a id seq db neutral e = go a.batch_id refl
  where
    go :
        (batch : Option Text)
        → a.batch_id ≡ batch
        → Fits db.batches (operation_row env a id seq) batch
    go none none_given = ground arith
    go (some b) given = elim (Option-cases (find_batch b db.batches)) [
      | inl missing ↦ ground arith
      | inr (batch, found) ↦ (
        lot batch,
        find_lot-lots b db.batches batch found,
        eq_text_sound batch.product_id a.product_id (ground arith),
      )
    ]

pub Keeps-record_operation :
    (env : Env) (a : Draft) → IsAuditNeutral a → Keeps (Both IsConsistent) (record_operation env a)
unfolding record_operation
Keeps-record_operation env a neutral = Keeps-query (check_operation env a) _ λ s _ h e.
    let op = operation_row env a (env.uuid s.drawn) (next_seq env.device_id s.staged) in
    Keeps-insert_at {B = Operation} (operation_conflict op) (post env.now op)
      (λ _. commit_if a.commit >> pure op) (record s { drawn = s.drawn + 1 })
      (record { committed = h.committed; staged = h.staged })
      (post-IsConsistent env.now op s.staged h.staged
        (check_operation-Fits env a op.id op.seq s.staged neutral e))
      (Keeps-bind (commit_if a.commit) (λ _. pure op) (Keeps-commit_if a.commit)
        (λ _. Keeps-pure op))

-- Whether it posts or refuses, and with or without `commit`, `record_operation` keeps every cached
-- quantity equal to what the ledger gives, if an audit draft moves no stock.
pub record_operation-IsConsistent :
    (env : Env) (a : Draft) (s : Session)
    → IsAuditNeutral a
    → IsConsistent s.committed
    → IsConsistent s.staged
    → Both IsConsistent (record_operation env a s).1
record_operation-IsConsistent env a s neutral committed staged =
    (Keeps-record_operation env a neutral).at s (record { committed = committed; staged = staged })

-- Every sequence number below the bound, if there is one.
abbrev Above : Option ℤ → ℤ → Type 0
Above none n = Unit
Above (some m) n = m +ℤ pos 1 ≤ℤ n

-- A bound on `max_with` bounds both.
Above-both : (a : ℤ) (m : Option ℤ) (n : ℤ) → Above (max_with a m) n → (a +ℤ pos 1 ≤ℤ n) × Above m n
Above-both a none n h = (h, tt)
Above-both a (some b) n h = elim (Bool-cases (ltb_ℤ a b)) [
  | inl e ↦ ground (arith, +ℤ_parts a (pos 1), +ℤ_parts b (pos 1))
  | inr e ↦ ground (arith, +ℤ_parts a (pos 1), +ℤ_parts b (pos 1))
]

not_taken-Above :
    (device : Text) (n : ℤ) (ops : List Operation)
    → Above (max_seq device ops) n
    → is_seq_taken device n ops ≡ false
unfolding max_seq
not_taken-Above device n [] h = refl
not_taken-Above device n (o ∷ ops) h = elim (Bool-cases (eq_text o.device_id device)) [
  | inl same ↦
      let both = Above-both o.seq (max_seq device ops) n (rw (same, max_seq) at h) in
      ground (arith, both, not_taken-Above device n ops both.1, +ℤ_parts o.seq (pos 1))
  | inr different ↦ ground (arith, not_taken-Above device n ops (rw (different, max_seq) at h))
]

-- The number that `next_seq` gives is not yet taken.
pub next_seq_fresh :
    (device : Text) (db : Db) → is_seq_taken device (next_seq device db) db.operations ≡ false
unfolding next_seq
next_seq_fresh device db =
    not_taken-Above device _ db.operations (go (max_seq device db.operations))
  where
    go : (m : Option ℤ) → Above m (after_seq m)
    go none = tt
    go (some m) = omega int_laws

-- A draft that passes the guards, under a fresh id and for a known sale, is posted: its row, with
-- the next number of the device, goes on top of the ledger and both projections take its delta.
-- UNIQUE(device_id, seq) never refuses it.
pub record_operation-posts :
    (env : Env) (a : Draft) (s : Session)
    → check_operation env a s.staged ≡ ok tt
    → any (λ x. eq_text x.id (env.uuid s.drawn)) s.staged.operations ≡ false
    → is_sale_id a.sale_id s.staged.sales ≡ true
    → let op = operation_row env a (env.uuid s.drawn) (next_seq env.device_id s.staged) in
      record_operation env a s ≡ (
        ok op,
        (commit_if a.commit
            (record s { drawn = s.drawn + 1; staged = post env.now op s.staged })).1,
      )
unfolding record_operation
record_operation-posts env a s checked fresh known =
    rw (checked, fresh, known, next_seq_fresh env.device_id s.staged)
      (elim (Bool-cases a.commit) [ inl e ↦ rw e | inr e ↦ rw e ])

-- A draft that the guards refuse raises and changes nothing, and draws no id.
pub record_operation-refuses :
    (env : Env) (a : Draft) (s : Session) (e : Error)
    → check_operation env a s.staged ≡ err e
    → record_operation env a s ≡ (err e, s)
unfolding record_operation
record_operation-refuses env a s e refused = rw refused
