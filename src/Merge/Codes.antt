-- ===== src/Merge/Codes.antt =====
-- app/services/merge.py: `_suffix_code` and `_resolve_code_collisions`.
use myorishop.Prelude.{
  ℕ, zero, suc, ◌+◌, ◌-◌, ◌==◌, not, Option, none, some, List, [], ◌∷◌, ◌++◌, map, select, take,
  length, min, is_some, first, if◌then◌else◌,
}
use myorishop.Text.{Text, eq_text, contains}
use myorishop.Sort.{sort_by}
use myorishop.Models.{Product}
use myorishop.Db.{active_product}

-- `_CODE_MAX_LEN` and `_CODE_SUFFIX_HEX_LEN`
abbrev pub code_max_len : ℕ
code_max_len = 20

abbrev pub code_suffix_hex_len : ℕ
code_suffix_hex_len = 8

-- `row_id.replace("-", "")`
abbrev pub hex_of : Text → Text
hex_of row_id = select (λ c. not (c == b'-')) row_id

abbrev pub max_hex_of : Text → ℕ
max_hex_of row_id = min (length (hex_of row_id)) (code_max_len - 1)

-- `base + marker` with a marker of that many digits.
abbrev pub candidate : Text → Text → ℕ → Text
candidate code row_id hex_len =
    let marker = b'~' ∷ take hex_len (hex_of row_id) in
    take (code_max_len - length marker) code ++ marker

-- The loop from a width on, over the widths that are left; the last candidate if all are taken.
unfoldable pub suffix_from : Text → Text → List Text → ℕ → ℕ → Text → Text
unfolding contains
suffix_from code row_id taken zero hex_len last = last
suffix_from code row_id taken (suc more) hex_len last =
    let c = candidate code row_id hex_len in
    let rest = suffix_from code row_id taken more (hex_len + 1) c in
    if contains taken c then rest else c

-- `_suffix_code(code, row_id, taken)`
unfoldable pub suffix_code : Text → Text → List Text → Text
unfolding suffix_from
suffix_code code row_id taken =
    suffix_from code row_id taken (max_hex_of row_id + 1 - code_suffix_hex_len) code_suffix_hex_len
      []

-- A resolved collision.
pub record Conflict : Type 0 where
  pub product_id : Text
  pub original_code : Text
  pub resolved_code : Text
  pub incumbent_id : Text

-- The loop's state: who has claimed a code, and what was resolved; a conflict is also the renaming.
pub record Claims : Type 0 where
  pub claimed_by : List (Text × Text)
  pub conflicts : List Conflict

abbrev claimant : Text → List (Text × Text) → Option Text
claimant code [] = none
claimant code ((c, id) ∷ rest) = if eq_text c code then some id else claimant code rest

-- `db_incumbent[code] or claimed_by.get(code)`
abbrev incumbent_of : List Product → Claims → Text → Option Text
incumbent_of products s code = elim (active_product code products) [
  | none ↦ claimant code s.claimed_by
  | some p ↦ some p.id
]

abbrev claim : Text → Text → Claims → Option Text → Claims
claim code id s none = record s { claimed_by = (code, id) ∷ s.claimed_by }
claim code id s (some incumbent) =
    let resolved = suffix_code code id (map (λ e. e.0) s.claimed_by) in
    record {
      claimed_by = (resolved, id) ∷ s.claimed_by;
      conflicts =
          s.conflicts
          ++ (record {
            product_id = id;
            original_code = code;
            resolved_code = resolved;
            incumbent_id = incumbent;
          }
              ∷ []);
    }

-- One row; a deleted one, and one with no code, is passed over.
abbrev claim_row : List Product → Product → Option Text → Claims → Claims
claim_row products p none s = s
claim_row products p (some []) s = s
claim_row products p (some (c ∷ cs)) s =
    if is_some p.deleted_at then s else claim (c ∷ cs) p.id s (incumbent_of products s (c ∷ cs))

unfoldable pub claim_rows : List Product → List Product → Claims → Claims
unfolding eq_text suffix_code
claim_rows products [] s = s
claim_rows products (p ∷ ps) s = claim_rows products ps (claim_row products p p.code s)

-- The code after the loop: the row's own conflict, if it has one, says. Ids are distinct, which
-- `parse_exchange` sees to.
abbrev pub renamed : List Conflict → Product → Product
renamed conflicts p = elim (first (λ c. eq_text c.product_id p.id) conflicts) [
  | none ↦ p
  | some c ↦ record p { code = some c.resolved_code }
]

-- `_resolve_code_collisions`: the rows, in their order, and the conflicts.
unfoldable pub resolve_code_collisions : List Product → List Product → List Product × List Conflict
unfolding claim_rows sort_by eq_text
resolve_code_collisions products rows =
    let s =
      claim_rows products (sort_by (λ p. p.id) rows) (record { claimed_by = []; conflicts = [] }) in
    (map (renamed s.conflicts) rows, s.conflicts)
