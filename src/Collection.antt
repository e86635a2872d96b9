-- ===== src/Collection.antt =====
-- app/pkg/util/collection/collection.go: the loops over a slice; a pointer to a copy of an element is
-- the element, `nil` is `none`.
use service_platform.Prelude.{
  ◌≡◌, refl, Bool, true, false, Option, none, some, List, [], ◌∷◌, ◌++◌, if◌then◌else◌, Bool-cases,
  inl, inr,
}

module _ {ℓ} {T : Type ℓ} where
  -- The loops of `Map` and `Filter` append to the slice that they return.
  unfoldable pub map_onto {ℓ'} : {U : Type ℓ'} → List U → List T → (T → U) → List U
  map_onto r [] f = r
  map_onto r (e ∷ es) f = map_onto (r ++ f e ∷ []) es f

  unfoldable pub map {ℓ'} : {U : Type ℓ'} → List T → (T → U) → List U
  unfolding map_onto
  map data_ f = map_onto [] data_ f

  unfoldable pub filter_onto : List T → List T → (T → Bool) → List T
  filter_onto r [] f = r
  filter_onto r (e ∷ es) f = filter_onto (if f e then r ++ e ∷ [] else r) es f

  unfoldable pub filter : List T → (T → Bool) → List T
  unfolding filter_onto
  filter data_ f = filter_onto [] data_ f

  unfoldable pub find_one : List T → (T → Bool) → Option T
  find_one [] f = none
  find_one (e ∷ es) f = let rest = find_one es f in if f e then some e else rest

  unfoldable pub contains : List T → (T → Bool) → Bool
  contains [] f = false
  contains (e ∷ es) f = let rest = contains es f in if f e then true else rest

  abbrev is_some : Option T → Bool
  is_some none = false
  is_some (some e) = true

  -- `Contains` says just if `FindOne` finds something.
  contains-find_one : (es : List T) (f : T → Bool) → contains es f ≡ is_some (find_one es f)
  unfolding contains find_one
  contains-find_one [] f = refl
  contains-find_one (e ∷ es) f = elim (Bool-cases (f e)) [
    | inl found ↦ rw (found, contains, find_one) refl
    | inr other ↦ rw (other, contains, find_one) (contains-find_one es f)
  ]
