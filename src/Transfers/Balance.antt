-- ===== src/Transfers/Balance.antt =====
-- `register_transfer`: what a move has done to its two batches and to the stock.
use myorishop.Prelude.{
  Bool, true, false, some, List, [], ◌∷◌, ℤ, ℕ, pos, neg, ◌+ℤ◌, ◌≡◌, refl, inl, inr, arith,
  int_laws, Bool-cases, if◌then◌else◌, ◌∙◌, subst, sym, ap, any, map_option, zero-+ℤ, +ℤ-zero,
}
use myorishop.Text.{Text, eq_text, eq_text_refl, eq_text_sym, eq_text_sound}
use myorishop.Models.{Product, Batch}
use myorishop.Db.{find_batch, batch_conflict}
use myorishop.Session.{Env, Session, Result, ok, err, ⊤, insert, pure, ◌>>=◌}
use myorishop.Session.Measure.{Adds, Adds-then, Adds-bind, Adds-first, Adds-insert, Adds-pure}
use myorishop.Ledger.{record_operation}
use myorishop.Ledger.Moves.{stock_of, delta_for, Adds-record_operation}
use myorishop.Ledger.Posts.{held, held-post, held-post_other, after-insert, after-record_operation}
use myorishop.Batches.{add_batch}
use myorishop.Transfers.{leg, stage_transfer}

-- A new batch is not one that was found.
new_other :
    (new id : Text) (bs : List Batch) (b : Batch)
    → any (λ x. eq_text x.id new) bs ≡ false
    → find_batch id bs ≡ some b
    → eq_text new id ≡ false
new_other new id [] b free found = ground arith
new_other new id (x ∷ bs) b free found = elim (Bool-cases (eq_text x.id id)) [
  | inl same ↦
      let e = eq_text_sound x.id id same in
      ap (eq_text new) (sym e) ∙ eq_text_sym new x.id ∙ ground arith
  | inr other ↦ new_other new id bs b (ground arith) (rw other at found)
]

module _ (source : Text) (b : Batch) (dest : Batch) (qty : ℕ) where
  -- The source batch has given the units, and the new one holds them.
  abbrev pub Shifted : Result ⊤ → Session → Type 0
  Shifted (ok u) s' =
      (held source s'.staged ≡ some (b.quantity +ℤ neg (pos qty)))
      × (held dest.id s'.staged ≡ some (pos qty))
  Shifted (err x) s' = Unit

  pub stage_transfer-Shifted :
      (env : Env) (p : Product) (date : Text) (s : Session)
      → dest.quantity ≡ pos 0
      → find_batch source s.staged.batches ≡ some b
      → Shifted
          (stage_transfer env p source dest date qty s).0
          (stage_transfer env p source dest date qty s).1
  unfolding held
  stage_transfer-Shifted env p date s empty found =
      after-insert Shifted (λ x t. tt) (batch_conflict dest) (add_batch dest) _ s
        λ free.
          let other = new_other dest.id source s.staged.batches b (ground arith) found in
          let db1 = add_batch dest s.staged in
          let source1 : held source db1 ≡ some b.quantity = rw (other, found) refl in
          let dest1 : held dest.id db1 ≡ some (pos 0) = rw (eq_text_refl dest.id, empty) refl in
          after-record_operation Shifted (λ x t. tt) env (leg p source date (neg (pos qty))) _ _
            λ op s2 h.
              let source2 =
                ap (held source) h.0
                ∙ held-post env.now source op db1 h.1
                ∙ ap (map_option (λ n. n +ℤ op.qty_delta)) source1
                ∙ ap (λ d. some (b.quantity +ℤ d)) h.2 in
              let dest2 =
                ap (held dest.id) h.0
                ∙ held-post_other env.now dest.id source op db1 h.1 other
                ∙ dest1 in
              after-record_operation Shifted (λ x t. tt) env (leg p dest.id date (pos qty)) _ s2
                λ op' s3 h'. (
                  ap (held source) h'.0
                      ∙ held-post_other env.now source dest.id op' s2.staged h'.1
                          (eq_text_sym source dest.id ∙ other)
                      ∙ source2,
                  ap (held dest.id) h'.0
                      ∙ held-post env.now dest.id op' s2.staged h'.1
                      ∙ ap (map_option (λ n. n +ℤ op'.qty_delta)) dest2
                      ∙ ap (λ d. some (pos 0 +ℤ d)) h'.2
                      ∙ ap some (zero-+ℤ (pos qty)),
                )

-- The two rows cancel in the stock of every product.
pub Adds-stage_transfer :
    (product : Text) (env : Env) (p : Product) (source : Text) (dest : Batch) (date : Text)
    (qty : ℕ)
    → Adds (stock_of product) (pos 0) (stage_transfer env p source dest date qty)
Adds-stage_transfer product env p source dest date qty =
    let out = leg p source date (neg (pos qty)) in
    let into = leg p dest.id date (pos qty) in
    let given = delta_for product p.id (neg (pos qty)) in
    let got = delta_for product p.id (pos qty) in
    Adds-then (pos 0) (insert (batch_conflict dest) (add_batch dest)) _
      (Adds-insert (pos 0) (batch_conflict dest) (add_batch dest)
        (λ db. sym (+ℤ-zero (stock_of product db))))
      λ _.
        subst
          (λ d.
            Adds (stock_of product) d
              (record_operation env out >>= λ _. record_operation env into >>= λ _. pure tt))
          (cancel (eq_text product p.id) (pos qty))
          (Adds-bind given got (record_operation env out) _ (Adds-record_operation product env out)
            (λ _.
              Adds-first got (record_operation env into) (λ _. pure tt)
                (Adds-record_operation product env into) (λ _. Adds-pure tt)))
  where
    cancel : (t : Bool) (d : ℤ) → (if t then neg d else pos 0) +ℤ (if t then d else pos 0) ≡ pos 0
    cancel true d = omega int_laws
    cancel false d = omega int_laws
