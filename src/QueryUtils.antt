-- ===== src/QueryUtils.antt =====
-- app/database/repository/query_utils/query_helpers.go over app/pkg/util/paging/page.go. A query of
-- bun is a record of what has been asked of it; what its server then does is an argument, and so is
-- mapstructure: a struct is here what `Decode` makes of it, fields with their values in the order in
-- which Go ranges over the map, or an error. `is_sequence` says if a value is an array or a slice.
pub mod Finds
pub mod Updates
use Prim.Native.String.{String, ◌++◌ as append}
use service_platform.Prelude.{
  ℕ, zero, suc, Bool, true, false, Option, none, some, List, [], ◌∷◌, ◌++◌, map, Assoc, str_eq,
  if◌then◌else◌,
}
use service_platform.Prelude.Outcome.{
  Err, no_rows, text, is_no_rows, Result, ok, err, ℤ, pos, negsuc,
}
use service_platform.Validator.{join}

pub record Page : Type 0 where
  pub limit : ℤ
  pub offset : ℤ
  pub sort_by : String
  pub order_by : String

abbrev or_hundred : ℤ → ℤ
or_hundred (pos zero) = pos 100
or_hundred (pos (suc n)) = pos (suc n)
or_hundred (negsuc n) = negsuc n

abbrev or_else : String → String → String
or_else s d = if str_eq s "" then d else s

unfoldable pub load_default : Page → Page
load_default p = record {
  limit = or_hundred p.limit;
  offset = p.offset;
  sort_by = or_else p.sort_by "ASC";
  order_by = or_else p.order_by "id";
}

-- What stands for a placeholder: a value, `bun.In` of one, or `bun.Ident` of a name.
pub data Arg (V : Type 0) : Type 0 where
  value : V → Arg V
  in_list : V → Arg V
  ident : String → Arg V
  direction : String → Arg V

-- A text with placeholders, and what stands for them.
pub record Expr (V : Type 0) : Type 0 where
  pub query : String
  pub args : List (Arg V)

pub record SelectQuery (V : Type 0) : Type 0 where
  pub wheres : List (Expr V)
  pub columns : List String
  pub relations : List String
  pub offset : ℤ
  pub limit : ℤ
  pub orders : List (Expr V)

abbrev pub no_conditions : {V : Type 0} → SelectQuery V
no_conditions = record {
  wheres = [];
  columns = [];
  relations = [];
  offset = pos 0;
  limit = pos 0;
  orders = [];
}

pub record UpdateQuery (V : Type 0) : Type 0 where
  pub sets : List (Expr V)
  pub wheres : List (Expr V)

-- `SkipNotFound`
unfoldable pub skip_not_found : Err → Option Err
unfolding is_no_rows
skip_not_found e = if is_no_rows e then none else some e

module _ {V : Type 0} (is_sequence : V → Bool) where
  abbrev pub cond : String → String × V → String
  cond alias e =
      if is_sequence e.1
      then append alias (append e.0 " IN (?)")
      else append alias (append e.0 " = ?")

  abbrev pub arg : String × V → Arg V
  arg e = if is_sequence e.1 then in_list e.1 else value e.1

  -- The loop over the map; both lists grow at their ends.
  unfoldable pub queries_of :
      String → Assoc V → List String → List (Arg V) → List String × List (Arg V)
  queries_of alias [] conds args = (conds, args)
  queries_of alias (e ∷ es) conds args =
      queries_of alias es (conds ++ cond alias e ∷ []) (args ++ arg e ∷ [])

  abbrev pub dotted : String → String
  dotted alias = if str_eq alias "" then "" else append alias "."

  unfoldable pub struct_to_queries : Result (Assoc V) → String → Result (List String × List (Arg V))
  unfolding queries_of
  struct_to_queries (err e) alias = err e
  struct_to_queries (ok fields) alias = ok (queries_of (dotted alias) fields [] [])

  abbrev conjoined : List String × List (Arg V) → Expr V
  conjoined ([], args) = record { query = ""; args = [] }
  conjoined (c ∷ cs, args) = record { query = join " AND " (c ∷ cs); args = args }

  unfoldable pub struct_to_conditions : Result (Assoc V) → String → Result (Expr V)
  unfolding struct_to_queries join
  struct_to_conditions input alias = elim (struct_to_queries input alias) [
    | err e ↦ err e
    | ok q ↦ ok (conjoined q)
  ]

  -- `if len(args) > 0 { query = query.Where(condition, args...) }`
  abbrev pub where_given : Expr V → List (Expr V)
  where_given c = elim c.args [ [] ↦ [] | ◌∷◌ a (more → rest) ↦ c ∷ [] ]

  -- The alias is that of the entity if there are relations.
  abbrev alias_for : String → List String → String
  alias_for alias [] = ""
  alias_for alias (r ∷ rs) = alias

  -- An order is asked for if there is a column for it, which there is after `LoadDefault`.
  abbrev ordered : String → Expr V → List (Expr V)
  ordered column e = if str_eq column "" then [] else e ∷ []

  unfoldable pub build_query_conditions :
      String → Result (Assoc V) → List String → Page → List String → Result (SelectQuery V)
  unfolding struct_to_conditions load_default
  build_query_conditions alias filter selectors page relations =
      let p = load_default page in
      elim (struct_to_conditions filter (alias_for alias relations)) [
        | err e ↦ err e
        | ok c ↦ ok (record {
          wheres = where_given c;
          columns = selectors;
          relations = relations;
          offset = p.offset;
          limit = p.limit;
          orders =
              ordered p.order_by
                (record { query = append "? " p.sort_by; args = ident p.order_by ∷ [] });
        })
      ]

  unfoldable pub model_query : Result (Assoc V) → List String → Page → Result (SelectQuery V)
  unfolding struct_to_conditions load_default
  model_query filter selectors page =
      let p = load_default page in
      elim (struct_to_conditions filter "") [
        | err e ↦ err e
        | ok c ↦ ok (record {
          wheres = c ∷ [];
          columns = selectors;
          relations = [];
          offset = p.offset;
          limit = p.limit;
          orders =
              ordered p.order_by
                (record { query = "? ?"; args = ident p.order_by ∷ direction p.sort_by ∷ [] });
        })
      ]
