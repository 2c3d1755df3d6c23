-- ===== src/Returns/Capped.antt =====
-- `register_return`: no more comes back than was sold.
use myorishop.Prelude.{
  Bool, true, false, ◌&&◌, Option, none, some, ℤ, pos, neg, ℕ, ◌+ℤ◌, ◌-ℤ◌, ◌≤ℤ◌, ltb_ℤ, leb_ℤ, ◌==◌,
  ◌≡◌, refl, sym, ◌∙◌, subst, arith, int_laws, if◌then◌else◌,
}
use myorishop.Text.{Text, parse_qty}
use myorishop.Models.{Product, Operation}
use myorishop.Db.{Db, find_operation, find_product}
use myorishop.Session.{
  Env, Session, Result, ok, err, value_error, warehouse_access, integrity_error, Action, gets,
  commit, pure, recover, resume, ◌>>◌, local_today_iso,
}
use myorishop.Session.Measure.{Moved}
use myorishop.Ledger.{OpDate, accepted, refused, parse_op_date, date_or}
use myorishop.Returns.{
  ReturnForm, ReturnResult, returned, qty_error, fully_returned, over_cap, origin_not_found,
  refused_return, is_sale, returnable_qty, origin_allowed, stage_return, return_failed,
  write_return, return_dated, return_capped, return_from, return_of, register_return,
}
use myorishop.Returns.Left.{left_of, Adds-stage_return}

-- The origin is a sale's row; what was left of its product covers the quantity, which is not zero,
-- and what is left now is the difference, which the answer reports.
pub record Capped (f : ReturnForm) (n : ℤ) (before after : Db) : Type 0 where
  pub origin : Operation
  pub sale_id : Text
  pub found : find_operation f.origin_op_id before.operations ≡ some origin
  pub sold : (is_sale origin.type ≡ true) × (origin.sale_id ≡ some sale_id)
  pub some_back : (parse_qty f.qty_raw == 0) ≡ false
  pub left : left_of sale_id origin.product_id after ≡ n
  pub lowered : n ≡ left_of sale_id origin.product_id before +ℤ neg (pos (parse_qty f.qty_raw))
  pub covered : pos (parse_qty f.qty_raw) ≤ℤ left_of sale_id origin.product_id before
  pub not_below : pos 0 ≤ℤ n

module _ (env : Env) (f : ReturnForm) (s : Session) where
  abbrev CappedBy : Result ReturnResult × Session → Type 0
  CappedBy (ok (returned p op n), s') = Capped f n s.staged s'.committed
  CappedBy _ = Unit

  module _ (origin : Operation) (sale_id : Text)
      (found : find_operation f.origin_op_id s.staged.operations ≡ some origin)
      (sold : (is_sale origin.type ≡ true) × (origin.sale_id ≡ some sale_id)) where
    remaining : ℤ
    remaining = returnable_qty s.staged.operations sale_id origin.product_id

    write_return-Capped :
        (date : Text)
        → (parse_qty f.qty_raw == 0) ≡ false
        → ltb_ℤ remaining (pos (parse_qty f.qty_raw)) ≡ false
        → CappedBy (write_return env origin sale_id date (parse_qty f.qty_raw) remaining s)
    unfolding remaining
    write_return-Capped date some_back covered =
        go (m s).0 (m s).1 ((Adds-stage_return env origin sale_id date qty).at s)
      where
        qty : ℕ
        qty = parse_qty f.qty_raw

        m : Action Operation
        m = stage_return env origin sale_id date qty

        finish : Result Operation → Session → Result ReturnResult × Session
        finish r s' =
            let (q, t) =
              resume r
                (λ op.
                  commit
                  >> gets (λ db.
                    returned (find_product origin.product_id db.products) op
                      (remaining -ℤ pos qty)))
                s' in
            recover q return_failed t

        no_less : (a b : ℤ) → b ≤ℤ a → pos 0 ≤ℤ a -ℤ b
        no_less a b h = omega int_laws

        minus : (a b : ℤ) → a -ℤ b ≡ a +ℤ neg b
        minus a b = omega int_laws

        go :
            (r : Result Operation) (s' : Session)
            → Moved (left_of sale_id origin.product_id) remaining (neg (pos qty)) r s'
            → CappedBy (finish r s')
        go (ok op) s' moved = record {
          origin = origin;
          sale_id = sale_id;
          found = found;
          sold = sold;
          some_back = some_back;
          left = moved ∙ sym (minus remaining (pos qty));
          lowered = minus remaining (pos qty);
          covered = ground arith;
          not_below = no_less remaining (pos qty) (ground arith);
        }
        go (err integrity_error) s' moved = tt
        go (err value_error) s' moved = tt
        go (err warehouse_access) s' moved = tt

    return_dated-Capped :
        (d : OpDate)
        → (parse_qty f.qty_raw == 0) ≡ false
        → ltb_ℤ remaining (pos (parse_qty f.qty_raw)) ≡ false
        → CappedBy (return_dated env origin sale_id (parse_qty f.qty_raw) remaining d s)
    return_dated-Capped (refused e) some_back covered = tt
    return_dated-Capped (accepted d) some_back covered =
        write_return-Capped (date_or d (local_today_iso env)) some_back covered

    return_capped-Capped : CappedBy (return_capped env f origin sale_id remaining s)
    return_capped-Capped =
        go (parse_qty f.qty_raw == 0) (leb_ℤ remaining (pos 0))
          (ltb_ℤ remaining (pos (parse_qty f.qty_raw))) refl refl
      where
        go :
            (empty full over : Bool)
            → (parse_qty f.qty_raw == 0) ≡ empty
            → ltb_ℤ remaining (pos (parse_qty f.qty_raw)) ≡ over
            → CappedBy (
                (if empty
                    then pure (refused_return qty_error)
                    else if full
                    then pure (refused_return fully_returned)
                    else if over
                    then pure (refused_return (over_cap remaining))
                    else return_dated env origin sale_id
                        (parse_qty f.qty_raw)
                        remaining
                        (parse_op_date env f.op_date))
                  s)
        go true full over e h = tt
        go false true over e h = tt
        go false false true e h = tt
        go false false false e h = return_dated-Capped (parse_op_date env f.op_date) e h

  return_from-Capped :
      (origin : Operation) (sale_id : Option Text)
      → find_operation f.origin_op_id s.staged.operations ≡ some origin
      → origin.sale_id ≡ sale_id
      → CappedBy (return_from env f s.staged origin sale_id s)
  unfolding remaining
  return_from-Capped origin none found linked = tt
  return_from-Capped origin (some id) found linked =
      go (is_sale origin.type) (origin_allowed env s.staged origin) refl
    where
      go :
          (t allowed : Bool)
          → is_sale origin.type ≡ t
          → CappedBy (
              (if t && allowed
                  then return_capped env f origin id
                      (returnable_qty s.staged.operations id origin.product_id)
                  else pure (refused_return origin_not_found))
                s)
      go false allowed e = tt
      go true false e = tt
      go true true e = return_capped-Capped origin id found (e, linked)

  return_of-Capped :
      (o : Option Operation)
      → find_operation f.origin_op_id s.staged.operations ≡ o
      → CappedBy (return_of env f s.staged o s)
  return_of-Capped none found = tt
  return_of-Capped (some origin) found = return_from-Capped origin origin.sale_id found refl

-- A written return is of a sale's own row, and takes back at least one unit and no more than what was
-- left to return of that sale and product. What is left in the committed ledger is that less the
-- quantity, which is zero or more, as the answer reports.
pub register_return-Capped :
    (env : Env) (f : ReturnForm) (s : Session) (p : Option Product) (op : Operation) (n : ℤ)
    → (register_return env f s).0 ≡ ok (returned p op n)
    → Capped f n s.staged (register_return env f s).1.committed
unfolding register_return
register_return-Capped env f s p op n e =
    subst (λ r. CappedBy env f s (r, (register_return env f s).1)) e
      (return_of-Capped env f s (find_operation f.origin_op_id s.staged.operations) refl)
