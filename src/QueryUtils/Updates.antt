-- ===== src/QueryUtils/Updates.antt =====
-- The updates of app/database/repository/query_utils/query_helpers.go. A loop that reads a list by
-- the places of another one panics if that is shorter.
pub mod Assigns
use Prim.Native.String.{String}
use service_platform.Prelude.{
  ◌≡◌, refl, Bool, str_eq, if◌then◌else◌, Option, none, some, List, [], ◌∷◌, ◌++◌, map, Assoc, ap,
  ◌∙◌,
}
use service_platform.Prelude.Outcome.{Err, text, Result, ok, err}
use service_platform.Validator.{join}
use mathlib.Core.List.{append-nil, append_assoc}
use service_platform.Sqs.Listener.{Attempt, returns, fails, panics}
use service_platform.QueryUtils.{
  Arg, ident, Expr, UpdateQuery, cond, arg, queries_of, struct_to_queries, struct_to_conditions,
  where_given,
}

module _ {V : Type 0} where
  abbrev pub one_more : Expr V → Option (List (Expr V)) → Option (List (Expr V))
  one_more e none = none
  one_more e (some es) = some (e ∷ es)

  -- `for i, setq := range setQueries { query = query.Set(setq, args[i]) }`
  unfoldable pub sets_of : List String → List (Arg V) → Option (List (Expr V))
  sets_of [] args = some []
  sets_of (c ∷ cs) [] = none
  sets_of (c ∷ cs) (a ∷ args) = one_more (record { query = c; args = a ∷ [] }) (sets_of cs args)

  module _ (is_sequence : V → Bool) where
    abbrev pub attempted :
        Option (List (Expr V)) → Result (List (Expr V)) → Attempt (Option (UpdateQuery V))
    attempted none wheres = panics
    attempted (some sets) (err e) = fails e
    attempted (some sets) (ok wheres) = returns (some (record { sets = sets; wheres = wheres }))

    abbrev pub wheres_of : Result (Expr V) → Result (List (Expr V))
    wheres_of (err e) = err e
    wheres_of (ok c) = ok (where_given is_sequence c)

    abbrev pub sets_given :
        List String × List (Arg V) → Result (List (Expr V)) → Attempt (Option (UpdateQuery V))
    sets_given ([], args) wheres = returns none
    sets_given (c ∷ cs, args) wheres = attempted (sets_of (c ∷ cs) args) wheres

    -- The query of `UpdateBy`; nothing is asked of the server if there is no field.
    unfoldable pub update_by_query :
        Result (Assoc V) → Result (Assoc V) → Attempt (Option (UpdateQuery V))
    unfolding struct_to_queries struct_to_conditions sets_of
    update_by_query filter data_ = elim (struct_to_queries is_sequence data_ "") [
      | err e ↦ fails e
      | ok q ↦ sets_given q (wheres_of (struct_to_conditions is_sequence filter ""))
    ]

    abbrev pub executed :
        {S : Type 0}
        → (UpdateQuery V → S → S × Option Err)
        → Attempt (Option (UpdateQuery V))
        → S
        → S × Attempt (Option Err)
    executed exec (fails e) s = (s, returns (some e))
    executed exec panics s = (s, panics)
    executed exec (returns none) s = (s, returns none)
    executed exec (returns (some q)) s = let r = exec q s in (r.0, returns r.1)

    unfoldable pub update_by :
        {S : Type 0}
        → (UpdateQuery V → S → S × Option Err)
        → Result (Assoc V)
        → Result (Assoc V)
        → S
        → S × Attempt (Option Err)
    unfolding update_by_query
    update_by exec filter data_ s = executed exec (update_by_query filter data_) s

    -- `condition != ""`
    abbrev condition_given : Expr V → List (Expr V)
    condition_given c = if str_eq c.query "" then [] else c ∷ []

    abbrev conditions_of : Result (Expr V) → Result (List (Expr V))
    conditions_of (err e) = err e
    conditions_of (ok c) = ok (condition_given c)

    abbrev sets_needed :
        List String × List (Arg V) → Result (List (Expr V)) → Attempt (Option (UpdateQuery V))
    sets_needed ([], args) wheres = fails (text "no fields to update")
    sets_needed (c ∷ cs, args) wheres = attempted (sets_of (c ∷ cs) args) wheres

    unfoldable pub build_update_query :
        Result (Assoc V) → Result (Assoc V) → String → Attempt (Option (UpdateQuery V))
    unfolding struct_to_queries struct_to_conditions sets_of
    build_update_query data_ filter alias = elim (struct_to_queries is_sequence data_ alias) [
      | err e ↦ fails e
      | ok q ↦ sets_needed q (conditions_of (struct_to_conditions is_sequence filter alias))
    ]

-- The rows of `VALUES` that the update is joined with, and the update.
pub record MatchQuery (U V : Type 0) : Type 0 where
  pub rows : List U
  pub update : UpdateQuery V

module _ {U V : Type 0} (decode : U → Result (Assoc V)) where
  abbrev matched_set : String × V → Expr V
  matched_set e = record { query = "? = _data.?"; args = ident e.0 ∷ ident e.0 ∷ [] }

  abbrev matched_where : String → String → Expr V
  matched_where alias field = record {
    query = "?.? = _data.?";
    args = ident alias ∷ ident field ∷ ident field ∷ [];
  }

  -- The query of `MatchAndUpdate`: the columns are those of the first row.
  unfoldable pub match_and_update_query :
      List U → List String → String → Result (Option (MatchQuery U V))
  match_and_update_query [] filter_fields alias = ok none
  match_and_update_query (u ∷ us) filter_fields alias = elim (decode u) [
    | err e ↦ err e
    | ok fields ↦ ok (
        some (record {
          rows = u ∷ us;
          update = record {
            sets = map matched_set fields;
            wheres = map (matched_where alias) filter_fields;
          };
        }))
  ]

  abbrev executed_match :
      {S : Type 0}
      → (MatchQuery U V → S → S × Option Err)
      → Result (Option (MatchQuery U V))
      → S
      → S × Option Err
  executed_match exec (err e) s = (s, some e)
  executed_match exec (ok none) s = (s, none)
  executed_match exec (ok (some q)) s = exec q s

  unfoldable pub match_and_update :
      {S : Type 0}
      → (MatchQuery U V → S → S × Option Err)
      → List U
      → List String
      → String
      → S
      → S × Option Err
  unfolding match_and_update_query
  match_and_update exec rows filter_fields alias s =
      executed_match exec (match_and_update_query rows filter_fields alias) s
