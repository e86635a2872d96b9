-- ===== src/QueryUtils/Finds.antt =====
-- The queries of app/database/repository/query_utils/query_helpers.go that read. What a server
-- answers to a query is an argument.
use Prim.Native.String.{String}
use service_platform.Prelude.{Bool, Option, none, some, List, [], ◌∷◌, Assoc}
use service_platform.Prelude.Outcome.{Err, no_rows, Result, ok, err, ℤ, pos}
use service_platform.QueryUtils.{
  Page, SelectQuery, no_conditions, skip_not_found, struct_to_conditions, build_query_conditions,
  model_query,
}

abbrev skipped {ℓ} : {A : Type ℓ} → A → Option Err → Result A
skipped a none = ok a
skipped a (some e) = err e

-- The rows that a SELECT has found.
abbrev found {ℓ} : {A : Type ℓ} → Result (List A) → Result (List A)
found (ok es) = ok es
found (err e) = skipped [] (skip_not_found e)

abbrev first_or_failed {ℓ} : {A : Type ℓ} → Result (List A) → Result A
first_or_failed (err e) = err e
first_or_failed (ok []) = err no_rows
first_or_failed (ok (e ∷ es)) = ok e

module _ {V : Type 0} (is_sequence : V → Bool) where
  -- What the server answers to a SELECT, with entities `E`.
  module _ {E : Type 0} (select : SelectQuery V → Result (List E)) where
    abbrev scanned : Result (SelectQuery V) → Result (List E)
    scanned (err e) = err e
    scanned (ok q) = found (select q)

    unfoldable pub find_many_entity :
        String → Result (Assoc V) → List String → Page → List String → Result (List E)
    unfolding build_query_conditions skip_not_found
    find_many_entity alias filter selectors page relations =
        scanned (build_query_conditions is_sequence alias filter selectors page relations)

    unfoldable pub find_many_model : Result (Assoc V) → Page → List String → Result (List E)
    unfolding model_query skip_not_found
    find_many_model filter page selectors = scanned (model_query is_sequence filter selectors page)

    -- `pagingUtil.Page{Limit: 1}`
    abbrev one_row : Page
    one_row = record { limit = pos 1; offset = pos 0; sort_by = ""; order_by = "" }

    unfoldable pub find_one_entity_or_failed :
        String → Result (Assoc V) → List String → List String → Result E
    unfolding find_many_entity
    find_one_entity_or_failed alias filter selectors relations =
        first_or_failed (find_many_entity alias filter selectors one_row relations)

    unfoldable pub find_one_model_or_failed : Result (Assoc V) → List String → Result E
    unfolding find_many_model
    find_one_model_or_failed filter selectors =
        first_or_failed (find_many_model filter one_row selectors)

  unfoldable pub check_exist : (SelectQuery V → Result Bool) → Result (Assoc V) → Result Bool
  unfolding struct_to_conditions
  check_exist exists filter = elim (struct_to_conditions is_sequence filter "") [
    | err e ↦ err e
    | ok c ↦ exists (record no_conditions { wheres = c ∷ [] })
  ]

  abbrev counted {ℓ} : {A : Type ℓ} → Result (List A × ℤ) → Result (List A × ℤ)
  counted (ok es) = ok es
  counted (err e) = skipped ([], pos 0) (skip_not_found e)

  unfoldable pub find_many_entity_with_count :
      {E : Type 0}
      → (SelectQuery V → Result (List E × ℤ))
      → String
      → Result (Assoc V)
      → List String
      → Page
      → List String
      → Result (List E × ℤ)
  unfolding build_query_conditions skip_not_found
  find_many_entity_with_count scan_and_count alias filter selectors page relations =
      elim (build_query_conditions is_sequence alias filter selectors page relations) [
        | err e ↦ err e
        | ok q ↦ counted (scan_and_count q)
      ]
