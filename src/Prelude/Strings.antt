-- ===== src/Prelude/Strings.antt =====
-- Go's `strings` on texts as sequences of characters.
use Prim.Native.Char.{Char, code}
use Prim.Native.Nat.{ℕ, ◌+◌}
use Prim.Native.String.{String}
use mathlib.Core.Bool.{Bool, true, false, ◌&&◌, ◌||◌}
use mathlib.Core.List.{List, [], ◌∷◌}
use mathlib.Core.Option.{Option, none, some}
use service_platform.Prelude.Tests.{if◌then◌else◌, leb, ◌==◌}

abbrev put_front : Char → Option (String × String) → Option (String × String)
put_front c none = none
put_front c (some (a, b)) = some (String.◌∷◌ c a, b)

-- `strings.SplitN(s, sep, 2)` for a separator of one character, given by its code: what is before
-- the first one and what is behind it, or nothing if there is none.
unfoldable pub split_two : ℕ → String → Option (String × String)
split_two sep String.[] = none
split_two sep (String.◌∷◌ c s) =
    let rest = split_two sep s in if code c == sep then some ("", s) else put_front c rest

abbrev put_first : Char → List String → List String
put_first c [] = String.◌∷◌ c "" ∷ []
put_first c (s ∷ rest) = String.◌∷◌ c s ∷ rest

-- `strings.Split(s, sep)` for a separator of one character, given by its code.
unfoldable pub split_on : ℕ → String → List String
split_on sep String.[] = "" ∷ []
split_on sep (String.◌∷◌ c s) =
    let rest = split_on sep s in if code c == sep then "" ∷ rest else put_first c rest

-- The lower case of a character's code, as far as it matters for a comparison with ASCII words:
-- two letters outside ASCII have an ASCII letter as their lower case.
abbrev lower : ℕ → ℕ
lower c =
    if leb 65 c && leb c 90 then c + 32 else if c == 304 then 105 else if c == 8490 then 107 else c

-- `strings.ToLower(s) == w`, for a word in small ASCII letters.
unfoldable pub lower_eq : String → String → Bool
lower_eq String.[] String.[] = true
lower_eq String.[] (String.◌∷◌ d w) = false
lower_eq (String.◌∷◌ c s) String.[] = false
lower_eq (String.◌∷◌ c s) (String.◌∷◌ d w) = (lower (code c) == code d) && lower_eq s w

-- `unicode.IsSpace`
unfoldable pub is_space : ℕ → Bool
is_space c =
    (leb 9 c && leb c 13)
    || (c == 32)
    || (c == 133)
    || (c == 160)
    || (c == 5760)
    || (leb 8192 c && leb c 8202)
    || (c == 8232)
    || (c == 8233)
    || (c == 8239)
    || (c == 8287)
    || (c == 12288)

unfoldable pub trim_left : String → String
trim_left String.[] = ""
trim_left (String.◌∷◌ c s) =
    let rest = trim_left s in if is_space (code c) then rest else String.◌∷◌ c s

abbrev pub put_unless_blank : Char → String → String
put_unless_blank c String.[] = if is_space (code c) then "" else String.◌∷◌ c ""
put_unless_blank c (String.◌∷◌ d s) = String.◌∷◌ c (String.◌∷◌ d s)

unfoldable pub trim_right : String → String
trim_right String.[] = ""
trim_right (String.◌∷◌ c s) = put_unless_blank c (trim_right s)

-- `strings.TrimSpace`
unfoldable pub trim_space : String → String
trim_space s = trim_left (trim_right s)

-- `strings.CutPrefix`
unfoldable pub cut_prefix : String → String → Option String
cut_prefix String.[] s = some s
cut_prefix (String.◌∷◌ d p) String.[] = none
cut_prefix (String.◌∷◌ d p) (String.◌∷◌ c s) =
    let rest = cut_prefix p s in if code c == code d then rest else none

-- `strings.HasPrefix(strings.ToLower(s), p)`, for a prefix in small ASCII letters.
unfoldable pub lower_prefix : String → String → Bool
lower_prefix String.[] s = true
lower_prefix (String.◌∷◌ d p) String.[] = false
lower_prefix (String.◌∷◌ d p) (String.◌∷◌ c s) = (lower (code c) == code d) && lower_prefix p s

-- `strings.Replace(s, p, "", 1)`: without the first occurrence of `p`, which is not empty.
unfoldable pub remove_first : String → String → String
unfolding cut_prefix
remove_first p String.[] = ""
remove_first p (String.◌∷◌ c s) =
    let rest = remove_first p s in
    elim (cut_prefix p (String.◌∷◌ c s)) [ some t ↦ t | none ↦ String.◌∷◌ c rest ]
