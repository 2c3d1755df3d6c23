-- ===== src/Warehouses/Reachable.antt =====
-- The warehouses that requests reach: each one's currency is one of the list.
use myorishop.Prelude.{
  ltb_ℤ, pos, Bool, true, Option, none, some, List, [], ◌∷◌, map, ◌≡◌, refl, All, if-both,
  Bool-cases, inl, inr, is_empty, is_some, arith, subst,
}
use mathlib.Core.Option.{some-injective}
use myorishop.Text.{Text, eq_text, strip, upper, contains}
use myorishop.Models.{Warehouse, currencies, default_currency}
use myorishop.Db.{Db, find_warehouse, warehouse_conflict}
use myorishop.Session.{Env, Session, modify, insert, commit, pure, new_id, ◌>>◌}
use myorishop.Session.Keeps.{
  Keeps, Both, Keeps-bind, Keeps-pure, Keeps-insert, Keeps-modify, Keeps-commit, Keeps-new_id,
}
use myorishop.Warehouses.{
  WarehouseError, DeleteAnswer, saved, deleted, is_last, warehouse_stock, needs_confirm,
  clean_currency, listed_currency, edited_currency, new_warehouse, add_row, add_checked,
  add_warehouse, at_id, change_row, with_form, update_checked, update_of, update_warehouse, marked,
  mark, restore_of, restore_warehouse, delete_of, soft_delete_warehouse,
}

-- One request about a warehouse, however it ends.
pub data Step (env : Env) : Session → Session → Type 0 where
  adds :
      (name address currency : Text) (s : Session)
      → Step env s (add_warehouse env name address currency s).1
  updates :
      (id name address currency : Text) (s : Session)
      → Step env s (update_warehouse env id name address currency s).1
  restores : (id : Text) (s : Session) → Step env s (restore_warehouse env id s).1
  deletes :
      (id : Text) (confirm : Bool) (s : Session)
      → Step env s (soft_delete_warehouse env id confirm s).1

-- A sequence of requests.
pub data Steps (env : Env) : Session → Session → Type 0 where
  stay : (s : Session) → Steps env s s
  more : (s t u : Session) → Steps env s t → Step env t u → Steps env s u

abbrev pub IsListed : Warehouse → Type 0
IsListed w = contains currencies w.currency ≡ true

abbrev pub HasCurrencies : Db → Type 0
HasCurrencies db = All IsListed db.warehouses

listed_currency-IsListed :
    (t code : Text) → listed_currency t ≡ some code → contains currencies code ≡ true
unfolding contains eq_text
listed_currency-IsListed [] code h =
    subst (λ c. contains currencies c ≡ true) (some-injective default_currency code h) refl
listed_currency-IsListed (c ∷ cs) code h = elim (Bool-cases (contains currencies (c ∷ cs))) [
  | inl listed ↦
      subst (λ d. contains currencies d ≡ true) (some-injective (c ∷ cs) code (rw listed at h))
        listed
  | inr other ↦ ground arith
]

clean_currency-IsListed :
    (raw code : Text) → clean_currency raw ≡ some code → contains currencies code ≡ true
unfolding clean_currency
clean_currency-IsListed raw code h = listed_currency-IsListed (upper (strip raw)) code h

edited_currency-IsListed :
    (raw current code : Text)
    → contains currencies current ≡ true
    → edited_currency raw current ≡ some code
    → contains currencies code ≡ true
unfolding edited_currency
edited_currency-IsListed raw current code old h = elim (Bool-cases (is_empty (strip raw))) [
  | inl omitted ↦
      subst (λ c. contains currencies c ≡ true) (some-injective current code (rw omitted at h)) old
  | inr given ↦ clean_currency-IsListed raw code (rw given at h)
]

at_id-IsListed :
    (id : Text) (change : Warehouse → Warehouse) (ws : List Warehouse)
    → ((w : Warehouse) → IsListed w → IsListed (change w))
    → All IsListed ws
    → All IsListed (map (at_id id change) ws)
at_id-IsListed id change [] keep h = tt
at_id-IsListed id change (w ∷ ws) keep h = (
  if-both IsListed (eq_text w.id id) (change w) w (keep w h.0) h.0,
  at_id-IsListed id change ws keep h.1,
)

module _ (env : Env) where
  Keeps-mark : (id : Text) (at : Option Text) → Keeps (Both HasCurrencies) (mark env id at)
  Keeps-mark id at =
      Keeps-bind (modify (change_row id (marked env at))) (λ _. commit)
        (Keeps-modify (change_row id (marked env at))
          (λ db h. at_id-IsListed id (marked env at) db.warehouses (λ w k. k) h))
        (λ _. Keeps-commit)

  Keeps-add_checked :
      (name address : Text) (code : Option Text) (es : List WarehouseError)
      → ((c : Text) → code ≡ some c → contains currencies c ≡ true)
      → Keeps (Both HasCurrencies) (add_checked env name address code es)
  Keeps-add_checked name address code (e ∷ es) listed = Keeps-pure _
  Keeps-add_checked name address none [] listed = Keeps-pure _
  Keeps-add_checked name address (some code) [] listed =
      Keeps-bind (new_id env) _ (Keeps-new_id env) λ id.
        let w = new_warehouse env name address code id in
        Keeps-bind (insert (warehouse_conflict w) (add_row w)) _
          (Keeps-insert (warehouse_conflict w) (add_row w) (λ db h free. (listed code refl, h)))
          (λ _. Keeps-bind commit (λ _. pure (saved w)) Keeps-commit (λ _. Keeps-pure (saved w)))

  Keeps-update_checked :
      (name address : Text) (code : Option Text) (w : Warehouse) (es : List WarehouseError)
      → ((c : Text) → code ≡ some c → contains currencies c ≡ true)
      → Keeps (Both HasCurrencies) (update_checked env name address code w es)
  Keeps-update_checked name address code w (e ∷ es) listed = Keeps-pure _
  Keeps-update_checked name address none w [] listed = Keeps-pure _
  Keeps-update_checked name address (some code) w [] listed =
      let change = with_form env name address code in
      Keeps-bind (modify (change_row w.id change) >> commit) _
        (Keeps-bind (modify (change_row w.id change)) (λ _. commit)
          (Keeps-modify (change_row w.id change)
            (λ db h. at_id-IsListed w.id change db.warehouses (λ x k. listed code refl) h))
          (λ _. Keeps-commit))
        (λ _. Keeps-pure (saved (with_form env name address code w)))

  found-IsListed :
      (id : Text) (ws : List Warehouse) (w : Warehouse)
      → find_warehouse id ws ≡ some w
      → All IsListed ws
      → IsListed w
  found-IsListed id [] w e h = cc
  found-IsListed id (x ∷ ws) w e h = elim (Bool-cases (eq_text x.id id)) [
    | inl same ↦ subst IsListed (some-injective x w (rw same at e)) h.0
    | inr other ↦ found-IsListed id ws w (rw other at e) h.1
  ]

  update_of-kept :
      (id name address currency : Text) (s : Session) (o : Option Warehouse)
      → find_warehouse id s.staged.warehouses ≡ o
      → Both HasCurrencies s
      → Both HasCurrencies (update_of env name address currency o s).1
  update_of-kept id name address currency s none e h = h
  update_of-kept id name address currency s (some w) e h =
      let old = found-IsListed id s.staged.warehouses w e h.staged in
      (if-both (Keeps (Both HasCurrencies)) (is_some w.deleted_at) _ _ (Keeps-pure _) (
          Keeps-update_checked name address (edited_currency currency w.currency) w _
            (λ c k. edited_currency-IsListed currency w.currency c old k))).at
        s h

  Keeps-restore_of : (o : Option Warehouse) → Keeps (Both HasCurrencies) (restore_of env o)
  Keeps-restore_of none = Keeps-pure tt
  Keeps-restore_of (some w) =
      if-both (Keeps (Both HasCurrencies)) (is_some w.deleted_at) _ _ (Keeps-mark w.id none)
        (Keeps-pure tt)

  Keeps-delete_of :
      (confirm : Bool) (db : Db) (o : Option Warehouse)
      → Keeps (Both HasCurrencies) (delete_of env confirm db o)
  Keeps-delete_of confirm db none = Keeps-pure _
  Keeps-delete_of confirm db (some w) =
      let Q = Keeps {A = DeleteAnswer} (Both HasCurrencies) in
      if-both Q (is_some w.deleted_at) _ _ (Keeps-pure _) (
        if-both Q (ltb_ℤ (pos 0) (warehouse_stock w.id db.batches)) _ _ (Keeps-pure _) (
          if-both Q (needs_confirm confirm db.warehouses) _ _ (Keeps-pure (is_last w)) (
            Keeps-bind (mark env w.id (some env.now)) (λ _. pure deleted)
              (Keeps-mark w.id (some env.now)) (λ _. Keeps-pure deleted))))

  Step-kept : {s t : Session} → Step env s t → Both HasCurrencies s → Both HasCurrencies t
  unfolding add_warehouse update_warehouse restore_warehouse soft_delete_warehouse
  Step-kept (adds name address currency s) h =
      (Keeps-add_checked name address (clean_currency currency) _
          (λ c k. clean_currency-IsListed currency c k)).at
        s h
  Step-kept (updates id name address currency s) h =
      update_of-kept id name address currency s (find_warehouse id s.staged.warehouses) refl h
  Step-kept (restores id s) h = (Keeps-restore_of (find_warehouse id s.staged.warehouses)).at s h
  Step-kept (deletes id confirm s) h =
      (Keeps-delete_of confirm s.staged (find_warehouse id s.staged.warehouses)).at s h

-- Whatever requests to add, edit, restore and delete warehouses are made, in whatever order and
-- however each ends, the currency of every warehouse stays one of the list, in the committed tables
-- and in what is staged, if it was at the start.
pub Steps-HasCurrencies :
    (env : Env) {s t : Session} → Steps env s t → Both HasCurrencies s → Both HasCurrencies t
Steps-HasCurrencies env (stay s) h = h
Steps-HasCurrencies env (more s u t before last) h =
    Step-kept env last (Steps-HasCurrencies env before h)
