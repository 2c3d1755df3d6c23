-- ===== src/Returns/Refunded.antt =====
-- `register_return`: the goods and the refund of a written return.
use myorishop.Prelude.{
  true, ◌&&◌, Option, none, some, ℤ, pos, ℕ, ◌-ℤ◌, ltb_ℤ, leb_ℤ, ◌==◌, ◌≡◌, refl, sym, subst, ◌⊎◌,
  inl, inr, if-cases, if-both, arith,
}
use myorishop.Text.{Text, parse_qty}
use myorishop.Models.{Operation}
use myorishop.Db.{Db, find_operation, find_product}
use myorishop.Session.{
  Env, Session, Result, ok, err, value_error, warehouse_access, integrity_error, Action, gets,
  commit, recover, resume, ◌>>◌, local_today_iso,
}
use myorishop.Ledger.{OpDate, accepted, refused, parse_op_date, date_or}
use myorishop.Returns.{
  ReturnForm, ReturnResult, returned, is_returned, refused_return, is_sale, returnable_qty,
  origin_allowed, stage_return, return_failed, write_return, return_dated, return_capped,
  return_from, return_of, register_return,
}
use myorishop.Returns.Register.{register_return-AllOrNothing}
use myorishop.Returns.Refund.{Refunded}
use myorishop.Returns.Staged.{StagedBy, stage_return-StagedBy}

-- The origin is a sale's row, and its goods and its money came back together.
pub record Booked (f : ReturnForm) (op : Operation) (before after : Db) : Type 0 where
  pub origin : Operation
  pub found : find_operation f.origin_op_id before.operations ≡ some origin
  pub sold : is_sale origin.type ≡ true
  pub refunded : Refunded origin (parse_qty f.qty_raw) op before after

module _ (env : Env) (f : ReturnForm) (s : Session) where
  abbrev BookedBy : Result ReturnResult × Session → Type 0
  BookedBy (ok (returned p op n), s') = Booked f op s.staged s'.committed
  BookedBy _ = Unit

  module _ (origin : Operation) (sale_id : Text)
      (found : find_operation f.origin_op_id s.staged.operations ≡ some origin)
      (sold : is_sale origin.type ≡ true) (linked : origin.sale_id ≡ some sale_id)
      (remaining : ℤ) where
    write_return-Booked :
        (date : Text)
        → BookedBy (write_return env origin sale_id date (parse_qty f.qty_raw) remaining s)
    write_return-Booked date =
        go (m s).0 (m s).1
          (stage_return-StagedBy env origin sale_id date qty linked s.staged s (refl, refl))
      where
        qty : ℕ
        qty = parse_qty f.qty_raw

        m : Action Operation
        m = stage_return env origin sale_id date qty

        finish : Result Operation → Session → Result ReturnResult × Session
        finish r s' =
            let (q, t) =
              resume r
                (λ op.
                  commit
                  >> gets (λ db.
                    returned (find_product origin.product_id db.products) op
                      (remaining -ℤ pos qty)))
                s' in
            recover q return_failed t

        go :
            (r : Result Operation) (s' : Session)
            → StagedBy env origin sale_id date qty linked s.staged r s'
            → BookedBy (finish r s')
        go (ok op) s' h = record { origin = origin; found = found; sold = sold; refunded = h }
        go (err integrity_error) s' h = tt
        go (err value_error) s' h = tt
        go (err warehouse_access) s' h = tt

    return_dated-Booked :
        (d : OpDate)
        → BookedBy (return_dated env origin sale_id (parse_qty f.qty_raw) remaining d s)
    return_dated-Booked (refused e) = tt
    return_dated-Booked (accepted d) = write_return-Booked (date_or d (local_today_iso env))

    return_capped-Booked : BookedBy (return_capped env f origin sale_id remaining s)
    return_capped-Booked =
        let Q = λ (m : Action ReturnResult). BookedBy (m s) in
        if-both Q (parse_qty f.qty_raw == 0) _ _ tt (
          if-both Q (leb_ℤ remaining (pos 0)) _ _ tt (
            if-both Q (ltb_ℤ remaining (pos (parse_qty f.qty_raw))) _ _ tt
              (return_dated-Booked (parse_op_date env f.op_date))))

  return_from-Booked :
      (origin : Operation) (sale_id : Option Text)
      → find_operation f.origin_op_id s.staged.operations ≡ some origin
      → origin.sale_id ≡ sale_id
      → BookedBy (return_from env f s.staged origin sale_id s)
  return_from-Booked origin none found linked = tt
  return_from-Booked origin (some id) found linked =
      if-cases (λ (m : Action ReturnResult). BookedBy (m s))
        (is_sale origin.type && origin_allowed env s.staged origin) _ _
        (λ open_sale.
          return_capped-Booked origin id found (ground arith) linked
            (returnable_qty s.staged.operations id origin.product_id))
        (λ other. tt)

  return_of-Booked :
      (o : Option Operation)
      → find_operation f.origin_op_id s.staged.operations ≡ o
      → BookedBy (return_of env f s.staged o s)
  return_of-Booked none found = tt
  return_of-Booked (some origin) found = return_from-Booked origin origin.sale_id found refl

  -- How a return is answered.
  abbrev pub AnsweredBy : Result ReturnResult → Session → Type 0
  AnsweredBy (ok (returned p op n)) s' =
      (s'.staged ≡ s'.committed) × Booked f op s.staged s'.committed
  AnsweredBy (ok (refused_return e)) s' = (s'.staged ≡ s'.committed) × (s'.committed ≡ s.committed)
  AnsweredBy (err e) s' = ⊥

  answered :
      (a : ReturnResult) (s' : Session)
      → s'.staged ≡ s'.committed
      → (is_returned a ≡ true) ⊎ (s'.committed ≡ s.committed)
      → BookedBy (ok a, s')
      → AnsweredBy (ok a) s'
  answered (returned p op n) s' clean nothing h = (clean, h)
  answered (refused_return e) s' clean (inl d) h = absurd (cc)
  answered (refused_return e) s' clean (inr same) h = (clean, same)

register_return-Booked :
    (env : Env) (f : ReturnForm) (s : Session) → BookedBy env f s (register_return env f s)
unfolding register_return
register_return-Booked env f s =
    return_of-Booked env f s (find_operation f.origin_op_id s.staged.operations) refl

-- From a session with nothing uncommitted a return raises nothing and leaves nothing uncommitted. A
-- written one has committed the goods and the money together: the origin is a sale's row; one new row
-- of its product and sale, at its price and cost, brings back the form's quantity; and one new cash
-- movement of that sale and that day takes quantity times price out of the currency of the warehouse
-- of the row's batch, unless that is 0, when there is none. A refused one has left the committed
-- tables as they were.
pub register_return-AnsweredBy :
    (env : Env) (f : ReturnForm) (s : Session)
    → s.staged ≡ s.committed
    → AnsweredBy env f s (register_return env f s).0 (register_return env f s).1
register_return-AnsweredBy env f s clean =
    let h = register_return-AllOrNothing env f s clean in
    let m = register_return env f s in
    subst (λ r. AnsweredBy env f s r m.1) (sym h.answers)
      (answered env f s h.answer m.1 h.clean h.nothing
        (subst (λ r. BookedBy env f s (r, m.1)) h.answers (register_return-Booked env f s)))
