-- ===== src/Merge/Present.antt =====
-- After a merge that returns, the database holds the id of every record.
use myorishop.Prelude.{
  Bool, true, false, not, List, [], ◌∷◌, All, ◌≡◌, ap, subst, Bool-cases, inl, inr, length,
}
use myorishop.Text.{Text, contains}
use myorishop.Db.{Db}
use myorishop.Session.{Session, ⊤, ok, insert, insert_if, pure, resume, Result, err}
use myorishop.Session.Ensures.{Then, Ensures, Ensures-bind, Ensures-and, Ensures-weaken}
use myorishop.Merge.OnlyAdds.{Relates-insert_all}
use myorishop.Merge.Tables.{Table, ids_of, partition_new, insert_all, insert_new}
use myorishop.Merge.Partition.{new_rows_of, partition_new-eq}
use myorishop.Merge.Appended.{Appended}

abbrev pub Holds : {R : Type 0} → Table R → Text → Db → Type 0
Holds T id db = contains (ids_of T db) id ≡ true

abbrev pub Present : {R : Type 0} → Table R → List R → Db → Type 0
Present T rs db = All (λ r. Holds T (T.key r) db) rs

-- A table whose INSERT adds the row and which never loses one.
pub record IsLasting {R : Type 0} (T : Table R) : Type 0 where
  pub added : (r : R) (db : Db) → Holds T (T.key r) (T.add r db)
  pub lasts : (a b : Db) (id : Text) → Appended a b → Holds T id a → Holds T id b
  pub adds : (r : R) (db : Db) → Appended db (T.add r db)

module _ {R : Type 0} (T : Table R) (L : IsLasting T) where
  pub Present-lasts : (rs : List R) (a b : Db) → Appended a b → Present T rs a → Present T rs b
  Present-lasts [] a b h k = tt
  Present-lasts (r ∷ rs) a b h k = (L.lasts a b (T.key r) h k.0, Present-lasts rs a b h k.1)

  Ensures-insert :
      (r : R) → Ensures (λ _. Unit) (insert (T.conflict r) (T.add r)) (Holds T (T.key r))
  Ensures-insert r = record { at = λ s h. go s (not (T.conflict r s.staged)) }
    where
      go :
          (s : Session) (b : Bool)
          → Then (Holds T (T.key r)) (insert_if b (T.add r) s).0 (insert_if b (T.add r) s).1
      go s true = L.added r s.staged
      go s false = tt

  pub Ensures-insert_all : (rs : List R) → Ensures (λ _. Unit) (insert_all T rs) (Present T rs)
  unfolding insert_all
  Ensures-insert_all [] = record { at = λ s h. tt }
  Ensures-insert_all (r ∷ rs) =
      Ensures-bind (λ _. Unit) (Holds T (T.key r)) (Present T (r ∷ rs))
        (insert (T.conflict r) (T.add r)) (λ _. insert_all T rs) (Ensures-insert r)
        (λ _.
          Ensures-and Appended (Holds T (T.key r)) (Present T rs) (insert_all T rs)
            (λ a b h. L.lasts a b (T.key r) h) (Relates-insert_all T L.adds rs)
            (Ensures-weaken (Holds T (T.key r)) (Present T rs) (insert_all T rs)
              (Ensures-insert_all rs)))

  -- Of the incoming rows the new ones were inserted, and the others were there.
  pub all-Present :
      (before after : Db) (rs : List R)
      → Appended before after
      → Present T (new_rows_of T rs before) after
      → Present T rs after
  all-Present before after [] h k = tt
  all-Present before after (r ∷ rs) h k = elim (Bool-cases (contains (ids_of T before) (T.key r))) [
    | inl held ↦
        (L.lasts before after (T.key r) h held, all-Present before after rs h (rw held at k))
    | inr new ↦ let k' = rw new at k in (k'.0, all-Present before after rs h k'.1)
  ]

  finish :
      {B : Type 0} (before : Db) (rs : List R) (b : B) (r : Result ⊤) (s : Session)
      → Appended before s.staged
      → Then (Present T (new_rows_of T rs before)) r s
      → Then (Present T rs) (resume r (λ _. pure b) s).0 (resume r (λ _. pure b) s).1
  finish before rs b (ok u) s h k = all-Present before s.staged rs h k
  finish before rs b (err e) s h k = tt

  pub Ensures-insert_new : (rs : List R) → Ensures (λ _. Unit) (insert_new T rs) (Present T rs)
  unfolding insert_new
  Ensures-insert_new [] = record { at = λ s h. tt }
  Ensures-insert_new (r ∷ rs) = record {
    at = λ s h.
        let split = partition_new T (r ∷ rs) s.staged in
        let m = insert_all T split.0 in
        finish s.staged (r ∷ rs) (length split.0, split.1) (m s).0 (m s).1
          ((Relates-insert_all T L.adds split.0).at s)
          (subst (λ (new_rows : List R). Then (Present T new_rows) (m s).0 (m s).1)
            (ap (λ x. x.0) (partition_new-eq T (r ∷ rs) s.staged))
            ((Ensures-insert_all split.0).at s tt));
  }
