-- ===== src/Ledger/Posts.antt =====
-- What `record_operation` has done when it returns, and what a batch holds after it.
use myorishop.Prelude.{
  ◌+◌, true, false, not, Option, some, List, [], ◌∷◌, ℤ, ◌+ℤ◌, ◌≡◌, refl, ap, map, map_option,
  Bool-cases, inl, inr, ◌⊎◌, arith, Bool, sym, ◌∙◌,
}
use mathlib.Core.Option.{some-injective}
use myorishop.Text.{Text, eq_text, eq_text_sound, eq_text_sym}
use myorishop.Models.{Batch, Operation}
use myorishop.Db.{Db, find_batch, bump_batch, operation_conflict}
use myorishop.Session.{
  Env, Session, Error, Result, ok, err, ⊤, commit_if, pure, insert_if, insert, Action, resume,
  ◌>>=◌, ◌>>◌,
}
use myorishop.Ledger.{Draft, check_operation, record_operation, operation_row, post, next_seq}

-- The quantity of the batch of an id, if there is one.
unfoldable pub held : Text → Db → Option ℤ
held id db = map_option (λ b. b.quantity) (find_batch id db.batches)

-- Of a return: the row has the draft's content, and it was posted to what the transaction saw.
abbrev pub Posts : Env → Draft → Session → Result Operation → Session → Type 0
Posts env a s (ok op) s' =
    (s'.staged ≡ post env.now op s.staged)
    × (op.batch_id ≡ a.batch_id)
    × (op.qty_delta ≡ a.qty_delta)
    × (check_operation env a s.staged ≡ ok tt)
    × (op ≡ operation_row env a op.id op.seq)
Posts env a s (err e) s' = Unit

pub check-cases : (r : Result ⊤) → (r ≡ ok tt) ⊎ ((x : Error) × (r ≡ err x))
check-cases (ok u) = inl refl
check-cases (err x) = inr (x, refl)

posted :
    (env : Env) (a : Draft) (s : Session) (op : Operation) (t : Session) (b : Bool)
    → t.staged ≡ post env.now op s.staged
    → op.batch_id ≡ a.batch_id
    → op.qty_delta ≡ a.qty_delta
    → check_operation env a s.staged ≡ ok tt
    → op ≡ operation_row env a op.id op.seq
    → Posts env a s ((commit_if b >> pure op) t).0 ((commit_if b >> pure op) t).1
posted env a s op t true h batch delta e row = (h, batch, delta, e, row)
posted env a s op t false h batch delta e row = (h, batch, delta, e, row)

-- A draft that `record_operation` returns for was posted.
pub record_operation-Posts :
    (env : Env) (a : Draft) (s : Session)
    → Posts env a s (record_operation env a s).0 (record_operation env a s).1
unfolding record_operation
record_operation-Posts env a s =
    let op = operation_row env a (env.uuid s.drawn) (next_seq env.device_id s.staged) in
    elim (check-cases (check_operation env a s.staged)) [
      | inr (x, e) ↦ rw e tt
      | inl e ↦ elim (Bool-cases (operation_conflict op s.staged)) [
        | inl clash ↦ rw (e, clash) tt
        | inr free ↦
            rw (e, free)
              (posted env a s op
                (record s { drawn = s.drawn + 1; staged = post env.now op s.staged }) a.commit refl
                refl refl e refl)
      ]
    ]

-- The batch of the row takes its delta.
pub held-post :
    (now id : Text) (o : Operation) (db : Db)
    → o.batch_id ≡ some id
    → held id (post now o db) ≡ map_option (λ q. q +ℤ o.qty_delta) (held id db)
unfolding held
held-post now id o db given = rw given (go db.batches)
  where
    go :
        (bs : List Batch)
        → map_option
            (λ b. b.quantity)
            (find_batch id (map (bump_batch now (some id) o.qty_delta) bs))
          ≡ map_option (λ q. q +ℤ o.qty_delta) (map_option (λ b. b.quantity) (find_batch id bs))
    go [] = refl
    go (b ∷ bs) = elim (Bool-cases (eq_text b.id id)) [
      | inl same ↦ rw (eq_text_sym id b.id ∙ same, same) refl
      | inr other ↦ rw (eq_text_sym id b.id ∙ other, other) (go bs)
    ]

-- No other batch does.
pub held-post_other :
    (now id other : Text) (o : Operation) (db : Db)
    → o.batch_id ≡ some other
    → eq_text id other ≡ false
    → held id (post now o db) ≡ held id db
unfolding held
held-post_other now id other o db given different = rw given (go db.batches)
  where
    kept :
        (b : Batch) (bs : List Batch) (t : Bool)
        → eq_text other b.id ≡ t
        → map_option
            (λ x. x.quantity)
            (find_batch id (map (bump_batch now (some other) o.qty_delta) bs))
          ≡ map_option (λ x. x.quantity) (find_batch id bs)
        → map_option
            (λ x. x.quantity)
            (find_batch id (map (bump_batch now (some other) o.qty_delta) (b ∷ bs)))
          ≡ map_option (λ x. x.quantity) (find_batch id (b ∷ bs))
    kept b bs true e h =
        let other_id =
          eq_text_sym b.id id ∙ ap (eq_text id) (sym (eq_text_sound other b.id e)) ∙ different in
        rw (e, other_id) h
    kept b bs false e h = elim (Bool-cases (eq_text b.id id)) [
      | inl same ↦ rw (e, same) refl
      | inr other_id ↦ rw (e, other_id) h
    ]

    go :
        (bs : List Batch)
        → map_option
            (λ b. b.quantity)
            (find_batch id (map (bump_batch now (some other) o.qty_delta) bs))
          ≡ map_option (λ b. b.quantity) (find_batch id bs)
    go [] = refl
    go (b ∷ bs) = kept b bs (eq_text other b.id) refl (go bs)

pub find_batch-id :
    (id : Text) (bs : List Batch) (b : Batch) → find_batch id bs ≡ some b → b.id ≡ id
find_batch-id id [] b e = ground arith
find_batch-id id (x ∷ bs) b e = elim (Bool-cases (eq_text x.id id)) [
  | inl same ↦ ap (λ y. y.id) (sym (some-injective x b (rw same at e))) ∙ eq_text_sound x.id id same
  | inr other ↦ find_batch-id id bs b (rw other at e)
]

-- What a single committed row has done to its batch and to the ledger.
pub record TookRow (id : Text) (q d : ℤ) (op : Operation) (before after : Db) : Type 0 where
  pub was : held id before ≡ some q
  pub now_is : held id after ≡ some (q +ℤ d)
  pub appended : after.operations ≡ op ∷ before.operations
  pub delta : op.qty_delta ≡ d

pub TookRow-record_operation :
    (env : Env) (a : Draft) (s : Session) (op : Operation) (s' : Session) (id : Text) (b : Batch)
    → find_batch id s.staged.batches ≡ some b
    → a.batch_id ≡ some b.id
    → Posts env a s (ok op) s'
    → s'.staged ≡ s'.committed
    → TookRow id b.quantity a.qty_delta op s.staged s'.committed
unfolding held
TookRow-record_operation env a s op s' id b found given posts same =
    let own = posts.1 ∙ given ∙ ap some (find_batch-id id s.staged.batches b found) in
    let was = ap (map_option (λ x. x.quantity)) found in
    let all = sym same ∙ posts.0 in
    record {
      was = was;
      now_is =
          ap (held id) all
          ∙ held-post env.now id op s.staged own
          ∙ ap (map_option (λ n. n +ℤ op.qty_delta)) was
          ∙ ap (λ d. some (b.quantity +ℤ d)) posts.2;
      appended = ap (λ db. db.operations) all;
      delta = posts.2;
    }

-- To show of a block that it ends so: of its rest, after an INSERT that no constraint refused, and
-- after a row that was posted.
module _ {B : Type 0} (Q : Result B → Session → Type 0)
    (Q-err : (x : Error) (s : Session) → Q (err x) s) where
  pub after-insert :
      (conflict : Db → Bool) (f : Db → Db) (k : ⊤ → Action B) (s : Session)
      → (conflict s.staged ≡ false
          → Q
              (k tt (record s { staged = f s.staged })).0
              (k tt (record s { staged = f s.staged })).1)
      → Q ((insert conflict f >>= k) s).0 ((insert conflict f >>= k) s).1
  after-insert conflict f k s h = go (conflict s.staged) refl
    where
      go :
          (t : Bool)
          → conflict s.staged ≡ t
          → Q ((insert_if (not t) f >>= k) s).0 ((insert_if (not t) f >>= k) s).1
      go true e = Q-err _ s
      go false e = h e

  pub after-record_operation :
      (env : Env) (a : Draft) (k : Operation → Action B) (s : Session)
      → ((op : Operation) (s' : Session) → Posts env a s (ok op) s' → Q (k op s').0 (k op s').1)
      → Q ((record_operation env a >>= k) s).0 ((record_operation env a >>= k) s).1
  after-record_operation env a k s h =
      go (record_operation env a s).0 (record_operation env a s).1 (record_operation-Posts env a s)
    where
      go :
          (r : Result Operation) (s' : Session)
          → Posts env a s r s'
          → Q (resume r k s').0 (resume r k s').1
      go (ok op) s' p = h op s' p
      go (err x) s' p = Q-err x s'
