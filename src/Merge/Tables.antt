-- ===== src/Merge/Tables.antt =====
-- app/services/merge.py: `_partition_new` and `_insert_new`, for any table with a text primary key.
use myorishop.Prelude.{
  ℕ, zero, suc, ◌-◌, Bool, not, List, [], ◌∷◌, ◌++◌, map, select, take, drop, length,
}
use myorishop.Text.{Text, contains}
use myorishop.Db.{Db}
use myorishop.Session.{Action, ⊤, gets, insert, pure, ◌>>=◌, ◌>>◌}

-- A table of the database: its rows, what refuses an INSERT, and the INSERT.
pub record Table (R : Type 0) : Type 0 where
  pub key : R → Text
  pub rows : Db → List R
  pub conflict : R → Db → Bool
  pub add : R → Db → Db

-- `_IN_CHUNK`
abbrev in_chunk : ℕ
in_chunk = 500

-- The ids of the table that are among the incoming ones, probed by `WHERE id IN (...)` a chunk at a
-- time; the fuel bounds the number of chunks.
unfoldable pub existing_ids : ℕ → List Text → List Text → List Text
unfolding contains
existing_ids zero ids incoming = []
existing_ids (suc fuel) ids [] = []
existing_ids (suc fuel) ids (i ∷ is) =
    select (contains (take in_chunk (i ∷ is))) ids ++ existing_ids fuel ids (drop in_chunk (i ∷ is))

module _ {R : Type 0} (T : Table R) where
  abbrev pub ids_of : Db → List Text
  ids_of db = map T.key (T.rows db)

  -- `_partition_new`: the rows with a new id, and how many have none.
  unfoldable pub partition_new : List R → Db → List R × ℕ
  unfolding existing_ids
  partition_new rows db =
      let incoming = map T.key rows in
      let existing = existing_ids (length incoming) (ids_of db) incoming in
      let new_rows = select (λ r. not (contains existing (T.key r))) rows in
      (new_rows, length rows - length new_rows)

  -- `session.execute(insert(model), rows)`: one row after the other.
  unfoldable pub insert_all : List R → Action ⊤
  insert_all [] = pure tt
  insert_all (r ∷ rs) = insert (T.conflict r) (T.add r) >> insert_all rs

  -- `_insert_new`, and `_upsert_reference` of a table without codes.
  unfoldable pub insert_new : List R → Action (ℕ × ℕ)
  unfolding partition_new insert_all
  insert_new [] = pure (0, 0)
  insert_new (r ∷ rs) = do
    split ← gets (partition_new (r ∷ rs))
    insert_all split.0
    pure (length split.0, split.1)
