-- ===== src/QueryUtils/Updates/Assigns.antt =====
-- What an update of app/database/repository/query_utils/query_helpers.go sets, and where.
use Prim.Native.String.{String, ◌++◌ as append}
use service_platform.Prelude.{
  All, All-map, Bool-cases, inl, inr, false, if◌then◌else◌, ◌≡◌, refl, Bool, Option, none, some,
  List, [], ◌∷◌, ◌++◌, map, Assoc, ap, ◌∙◌,
}
use service_platform.Prelude.Outcome.{Err, ok}
use service_platform.Validator.{join}
use mathlib.Core.List.{append-nil, append_assoc}
use service_platform.Sqs.Listener.{returns}
use text.Mathlib.TextLemmas.{nil-append}
use service_platform.QueryUtils.{
  value, in_list, Arg, Expr, UpdateQuery, cond, arg, queries_of, struct_to_queries,
  struct_to_conditions,
}
use service_platform.QueryUtils.Updates.{
  one_more, sets_of, attempted, wheres_of, executed, update_by_query, update_by,
}

module _ {V : Type 0} where
  module _ (is_sequence : V → Bool) where
    abbrev assigned : String → String × V → Expr V
    assigned alias e = record { query = cond is_sequence alias e; args = arg is_sequence e ∷ [] }

    queries_of_lem :
        (alias : String) (es : Assoc V) (conds : List String) (args : List (Arg V))
        → queries_of is_sequence alias es conds args
          ≡ (conds ++ map (cond is_sequence alias) es, args ++ map (arg is_sequence) es)
    unfolding queries_of
    queries_of_lem alias [] conds args = rw (append-nil conds, append-nil args) refl
    queries_of_lem alias (e ∷ es) conds args =
        queries_of_lem alias es (conds ++ cond is_sequence alias e ∷ [])
          (args ++ arg is_sequence e ∷ [])
        ∙ rw
            (
              append_assoc conds (cond is_sequence alias e ∷ []) (map (cond is_sequence alias) es),
              append_assoc args (arg is_sequence e ∷ []) (map (arg is_sequence) es),
            )
            refl

    sets_of_lem :
        (alias : String) (es : Assoc V)
        → sets_of (map (cond is_sequence alias) es) (map (arg is_sequence) es)
          ≡ some (map (assigned alias) es)
    unfolding sets_of
    sets_of_lem alias [] = refl
    sets_of_lem alias (e ∷ es) = ap (one_more (assigned alias e)) (sets_of_lem alias es)

    queries_of_all :
        (alias : String) (es : Assoc V)
        → queries_of is_sequence alias es [] []
          ≡ (map (cond is_sequence alias) es, map (arg is_sequence) es)
    queries_of_all alias es = queries_of_lem alias es [] []

    abbrev conjunction : Assoc V → List (Expr V)
    conjunction [] = []
    conjunction (e ∷ es) =
        record {
          query = join " AND " (map (cond is_sequence "") (e ∷ es));
          args = map (arg is_sequence) (e ∷ es);
        }
        ∷ []

    abbrev assignment : Assoc V → Assoc V → Option (UpdateQuery V)
    assignment fs [] = none
    assignment fs (e ∷ es) =
        some (record { sets = map (assigned "") (e ∷ es); wheres = conjunction fs })

    wheres_of_lem :
        (fs : Assoc V)
        → wheres_of is_sequence (struct_to_conditions is_sequence (ok fs) "") ≡ ok (conjunction fs)
    unfolding struct_to_conditions struct_to_queries
    wheres_of_lem [] = refl
    wheres_of_lem (e ∷ es) = rw (queries_of_all "" (e ∷ es)) refl

    update_by_query-assignment :
        (fs es : Assoc V) → update_by_query is_sequence (ok fs) (ok es) ≡ returns (assignment fs es)
    unfolding update_by_query struct_to_queries
    update_by_query-assignment fs [] = refl
    update_by_query-assignment fs (e ∷ es) =
        rw (update_by_query, queries_of_all "" (e ∷ es), sets_of_lem "" (e ∷ es))
          (ap (attempted is_sequence (some (map (assigned "") (e ∷ es)))) (wheres_of_lem fs))

    -- A column that is set to a value, and one that a filter looks at: it is the value, or one of them.
    abbrev pub sets_column : String × V → Expr V
    sets_column e = record { query = append e.0 " = ?"; args = value e.1 ∷ [] }

    abbrev pub condition : String × V → String
    condition e = append e.0 (if is_sequence e.1 then " IN (?)" else " = ?")

    abbrev pub bound : String × V → Arg V
    bound e = if is_sequence e.1 then in_list e.1 else value e.1

    abbrev pub restriction : Assoc V → List (Expr V)
    restriction [] = []
    restriction (e ∷ es) =
        record { query = join " AND " (map condition (e ∷ es)); args = map bound (e ∷ es) } ∷ []

    abbrev pub IsPlain : String × V → Type 0
    IsPlain e = is_sequence e.1 ≡ false

    -- What bun is asked for, if anything.
    abbrev pub statement : Assoc V → Assoc V → Option (UpdateQuery V)
    statement fs [] = none
    statement fs (e ∷ es) =
        some (record { sets = map sets_column (e ∷ es); wheres = restriction fs })

    cond-condition : (e : String × V) → cond is_sequence "" e ≡ condition e
    cond-condition e = elim (Bool-cases (is_sequence e.1)) [
      | inl many ↦ rw many (nil-append (append e.0 " IN (?)"))
      | inr one ↦ rw one (nil-append (append e.0 " = ?"))
    ]

    assigned-sets_column : (e : String × V) → IsPlain e → assigned "" e ≡ sets_column e
    assigned-sets_column e plain = rw (cond-condition e, plain) refl

    map-equal :
        {A B : Type 0} (f g : A → B) (xs : List A) → All (λ x. f x ≡ g x) xs → map f xs ≡ map g xs
    map-equal f g [] h = refl
    map-equal f g (x ∷ xs) h = rw (h.0, map-equal f g xs h.1) refl

    each : {A : Type 0} (P : A → Type 0) → ((x : A) → P x) → (xs : List A) → All P xs
    each P h [] = tt
    each P h (x ∷ xs) = (h x, each P h xs)

    conjunction-restriction : (fs : Assoc V) → conjunction fs ≡ restriction fs
    conjunction-restriction [] = refl
    conjunction-restriction (e ∷ es) =
        ap (λ texts. record { query = join " AND " texts; args = map bound (e ∷ es) } ∷ [])
          (map-equal (cond is_sequence "") condition (e ∷ es) (each _ cond-condition (e ∷ es)))

    assignment-statement : (fs es : Assoc V) → All IsPlain es → assignment fs es ≡ statement fs es
    assignment-statement fs [] plain = refl
    assignment-statement fs (e ∷ es) plain =
        ap (λ sets. some (record { sets = sets; wheres = conjunction fs }))
          (map-equal (assigned "") sets_column (e ∷ es)
            (All-map IsPlain _ (e ∷ es) assigned-sets_column plain))
        ∙ ap (λ wheres. some (record { sets = map sets_column (e ∷ es); wheres = wheres }))
            (conjunction-restriction fs)

    -- Where no field to set is an array or a slice: an update asks nothing of bun if there is no field
    -- to set; else it asks for one statement, which sets each column to its own value and has one
    -- condition, that each column of the filter is its value or one of its values, or no condition
    -- if the filter has no field. It reads no list out of its range.
    pub update_by-statement :
        {S : Type 0} (exec : UpdateQuery V → S → S × Option Err) (fs es : Assoc V) (s : S)
        → All IsPlain es
        → update_by is_sequence exec (ok fs) (ok es) s
          ≡ executed is_sequence exec (returns (statement fs es)) s
    unfolding update_by
    update_by-statement exec fs es s plain =
        ap (λ q. executed is_sequence exec q s)
          (update_by_query-assignment fs es
            ∙ ap (λ q. returns q) (assignment-statement fs es plain))
