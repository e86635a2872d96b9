-- ===== src/Validator/Domains.antt =====
-- `IsDomainAllowed` of app/pkg/util/validator/validator.go. `strings.ToLower`, and the host name that
-- `url.Parse` finds, are arguments.
pub mod Permits
use Prim.Native.Char.{Char, code}
use Prim.Native.String.{◌++◌ as append}
use service_platform.Prelude.{
  ℕ, String, Bool, true, false, not, ◌&&◌, ◌||◌, Option, none, some, List, [], ◌∷◌, leb, str_eq,
  if◌then◌else◌,
}
use service_platform.Prelude.Strings.{cut_prefix, trim_space}

-- The text before the first occurrence of another one, if there is one: `s[:strings.Index(s, sep)]`.
abbrev put_before : Char → Option String → Option String
put_before c none = none
put_before c (some s) = some (String.◌∷◌ c s)

unfoldable pub before_first : String → String → Option String
unfolding cut_prefix
before_first sep String.[] = elim (cut_prefix sep "") [ none ↦ none | some rest ↦ some "" ]
before_first sep (String.◌∷◌ c s) =
    let later = put_before c (before_first sep s) in
    elim (cut_prefix sep (String.◌∷◌ c s)) [ none ↦ later | some rest ↦ some "" ]

abbrev is_letter : ℕ → Bool
is_letter c = (leb 97 c && leb c 122) || (leb 65 c && leb c 90)

unfoldable pub all_letters : String → Bool
all_letters String.[] = true
all_letters (String.◌∷◌ c s) = is_letter (code c) && all_letters s

unfoldable pub has_scheme : String → Bool
unfolding before_first all_letters
has_scheme s = elim (before_first "://" s) [
  | none ↦ false
  | some scheme ↦ not (str_eq scheme "") && all_letters scheme
]

-- `strings.HasSuffix`
unfoldable pub has_suffix : String → String → Bool
has_suffix String.[] suffix = str_eq "" suffix
has_suffix (String.◌∷◌ c s) suffix =
    let rest = has_suffix s suffix in if str_eq (String.◌∷◌ c s) suffix then true else rest

-- A domain is the suffix, or under it.
unfoldable pub is_under : String → String → Bool
unfolding has_suffix
is_under d suffix = str_eq d suffix || has_suffix d (append "." suffix)

unfoldable pub is_matched : String → String → Bool
unfolding is_under cut_prefix
is_matched d a = elim (cut_prefix "*." a) [
  | some suffix ↦ is_under d suffix
  | none ↦ elim (cut_prefix "." a) [ some suffix ↦ is_under d suffix | none ↦ str_eq d a ]
]

module _ (to_lower : String → String) (hostname : String → Option String) where
  -- An entry that is a URL stands for its host.
  abbrev pub host_of : String → String
  host_of a = if has_scheme a then (elim (hostname a) [ none ↦ a | some host ↦ host ]) else a

  -- One round of the loop: whether the entry lets the domain in.
  unfoldable pub is_matched_by : String → String → Bool
  unfolding is_matched has_scheme trim_space
  is_matched_by d raw =
      let a = trim_space raw in if str_eq a "" then false else is_matched d (to_lower (host_of a))

  unfoldable pub is_matched_by_any : String → List String → Bool
  unfolding is_matched_by
  is_matched_by_any d [] = false
  is_matched_by_any d (raw ∷ allowed) =
      let rest = is_matched_by_any d allowed in if is_matched_by d raw then true else rest

  unfoldable pub is_domain_allowed : String → List String → Bool
  unfolding is_matched_by_any
  is_domain_allowed domain allowed =
      if str_eq domain "" then false else is_matched_by_any (to_lower (trim_space domain)) allowed
