-- ===== src/Tests/QueryTests.antt =====
-- The queries of app/database/repository/query_utils at concrete inputs. A value is a number, or
-- `none` for a slice.
use service_platform.Prelude.{
  ℕ, String, ◌≡◌, refl, Bool, true, false, Option, none, some, List, [], ◌∷◌, ◌++◌, map, Assoc,
}
use service_platform.Prelude.Outcome.{Err, ok}
use service_platform.Sqs.Listener.{returns}
use service_platform.QueryUtils.{UpdateQuery}
use service_platform.QueryUtils.Updates.{executed, update_by}
use service_platform.QueryUtils.Updates.Assigns.{statement, update_by-statement}

abbrev is_slice : Option ℕ → Bool
is_slice none = true
is_slice (some n) = false

-- A server that writes down what is asked of it.
abbrev noted :
    UpdateQuery (Option ℕ)
    → List (UpdateQuery (Option ℕ))
    → List (UpdateQuery (Option ℕ)) × Option Err
noted q s = (q ∷ s, none)

abbrev columns : Assoc (Option ℕ)
columns = ("status", some 3) ∷ ("attempts", some 1) ∷ []

abbrev conditions : Assoc (Option ℕ)
conditions = ("id", some 7) ∷ ("tags", none) ∷ []

update_by-statement_example :
    update_by is_slice noted (ok conditions) (ok columns) []
    ≡ executed is_slice noted (returns (statement is_slice conditions columns)) []
update_by-statement_example =
    update_by-statement is_slice noted conditions columns [] (refl, (refl, tt))

-- The texts of that update.
abbrev texts : Option (UpdateQuery (Option ℕ)) → List String
texts none = []
texts (some q) = map (λ e. e.query) q.sets ++ map (λ e. e.query) q.wheres

update_texts :
    texts (statement is_slice conditions columns)
    ≡ ("status = ?" ∷ "attempts = ?" ∷ "id = ? AND tags IN (?)" ∷ [])
unfolding service_platform.Validator.join
update_texts = refl
