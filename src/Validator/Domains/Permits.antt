-- ===== src/Validator/Domains/Permits.antt =====
-- What it takes for a domain to be allowed.
use Prim.Native.String.{◌++◌ as append}
use text.Mathlib.TextLemmas.{nil-append, cons-append}
use service_platform.Prelude.{
  String, ◌≡◌, ◌≢◌, ◌⊎◌, ◌↔◌, refl, sym, ap, ◌∙◌, arith, Bool, true, Option, none, some, List, [],
  ◌∷◌, ◌||◌, str_eq, eq_iff, eq_refl, inl, inr, Bool-cases, if◌then◌else◌,
}
use service_platform.Prelude.Strings.{cut_prefix, trim_space}
use service_platform.Validator.Domains.{
  host_of, has_suffix, is_under, is_matched, is_matched_by, is_matched_by_any, is_domain_allowed,
}

-- What an entry lets in: one domain, or a domain and all under it.
pub data Rule : Type 0 where
  exact : String → Rule
  under : String → Rule

abbrev pub Permits : String → Rule → Type 0
Permits d (exact a) = d ≡ a
Permits d (under suffix) =
    (d ≡ suffix) ⊎ ((label : String) × (d ≡ append label (append "." suffix)))

-- An entry that begins with "*." or with "." stands for what is under the rest of it.
abbrev pub rule_of : String → Rule
rule_of a = elim (cut_prefix "*." a) [
  | some suffix ↦ under suffix
  | none ↦ elim (cut_prefix "." a) [ some suffix ↦ under suffix | none ↦ exact a ]
]

either_first : (a b : Bool) → ((if a then true else b) ≡ true) ↔ ((a ≡ true) ⊎ (b ≡ true))
either_first a b = ground arith

either : (a b : Bool) → ((a || b) ≡ true) ↔ ((a ≡ true) ⊎ (b ≡ true))
either a b = ground arith

has_suffix_self : (t : String) → has_suffix t t ≡ true
unfolding has_suffix
has_suffix_self String.[] = refl
has_suffix_self (String.◌∷◌ c t) =
    (either_first (str_eq (String.◌∷◌ c t) (String.◌∷◌ c t)) (has_suffix t (String.◌∷◌ c t))).1
      (inl (eq_refl (String.◌∷◌ c t)))

has_suffix-append : (label t : String) → has_suffix (append label t) t ≡ true
unfolding has_suffix
has_suffix-append String.[] t = ap (λ s. has_suffix s t) (nil-append t) ∙ has_suffix_self t
has_suffix-append (String.◌∷◌ c label) t =
    ap (λ s. has_suffix s t) (cons-append c label t)
    ∙ (either_first (str_eq (String.◌∷◌ c (append label t)) t) (has_suffix (append label t) t)).1
        (inr (has_suffix-append label t))

has_suffix_split : (s t : String) → has_suffix s t ≡ true → (label : String) × (s ≡ append label t)
unfolding has_suffix
has_suffix_split String.[] t h = ("", (eq_iff "" t).0 h ∙ sym (nil-append t))
has_suffix_split (String.◌∷◌ c s) t h = elim (Bool-cases (str_eq (String.◌∷◌ c s) t)) [
  | inl same ↦ ("", (eq_iff (String.◌∷◌ c s) t).0 same ∙ sym (nil-append t))
  | inr longer ↦
      let (label, rest) = has_suffix_split s t (rw longer at h) in
      (String.◌∷◌ c label, ap (λ x. String.◌∷◌ c x) rest ∙ sym (cons-append c label t))
]

is_under_iff : (d suffix : String) → (is_under d suffix ≡ true) ↔ Permits d (under suffix)
unfolding is_under
is_under_iff d suffix = (
  λ h. elim ((either (str_eq d suffix) (has_suffix d (append "." suffix))).0 h) [
    | inl same ↦ inl ((eq_iff d suffix).0 same)
    | inr ends ↦ inr (has_suffix_split d (append "." suffix) ends)
  ],
  λ p. (either (str_eq d suffix) (has_suffix d (append "." suffix))).1 (elim p [
    | inl same ↦ inl ((eq_iff d suffix).1 same)
    | inr (label, split) ↦ inr (
        ap (λ s. has_suffix s (append "." suffix)) split
        ∙ has_suffix-append label (append "." suffix))
  ]),
)

is_matched_iff : (d a : String) → (is_matched d a ≡ true) ↔ Permits d (rule_of a)
unfolding is_matched
is_matched_iff d a = by_prefix (cut_prefix "*." a) (cut_prefix "." a)
  where
    by_prefix :
        (star dot : Option String)
        → ((elim star [
          | some suffix ↦ is_under d suffix
          | none ↦ elim dot [ some suffix ↦ is_under d suffix | none ↦ str_eq d a ]
        ])
            ≡ true)
          ↔ Permits d (elim star [
            | some suffix ↦ under suffix
            | none ↦ elim dot [ some suffix ↦ under suffix | none ↦ exact a ]
          ])
    by_prefix (some suffix) dot = is_under_iff d suffix
    by_prefix none (some suffix) = is_under_iff d suffix
    by_prefix none none = eq_iff d a

abbrev pub Some : (String → Type 0) → List String → Type 0
Some P [] = ⊥
Some P (x ∷ xs) = P x ⊎ Some P xs

module _ (to_lower : String → String) (hostname : String → Option String) where
  -- An entry that is not blank, and whose host permits the domain.
  abbrev pub LetsIn : String → String → Type 0
  LetsIn d raw =
      (trim_space raw ≢ "")
      × Permits d (rule_of (to_lower (host_of to_lower hostname (trim_space raw))))

  is_matched_by_iff :
      (d raw : String) → (is_matched_by to_lower hostname d raw ≡ true) ↔ LetsIn d raw
  unfolding is_matched_by
  is_matched_by_iff d raw =
      let a = trim_space raw in
      let inner = is_matched_iff d (to_lower (host_of to_lower hostname a)) in
      elim (Bool-cases (str_eq a "")) [
        | inl blank ↦ (λ h. absurd (cc (rw blank at h)), λ p. absurd (p.0 ((eq_iff a "").0 blank)))
        | inr given ↦ (
          λ h. ((λ same. cc (given, (eq_iff a "").1 same)), inner.0 (rw given at h)),
          λ p. rw (given, is_matched_by) (inner.1 p.1),
        )
      ]

  is_matched_by_any_iff :
      (d : String) (allowed : List String)
      → (is_matched_by_any to_lower hostname d allowed ≡ true) ↔ Some (LetsIn d) allowed
  unfolding is_matched_by_any
  is_matched_by_any_iff d [] = ((λ h. absurd (cc (h))), λ p. absurd p)
  is_matched_by_any_iff d (raw ∷ allowed) =
      let first = is_matched_by_iff d raw in
      let rest = is_matched_by_any_iff d allowed in
      let split =
        either_first (is_matched_by to_lower hostname d raw)
          (is_matched_by_any to_lower hostname d allowed) in
      (
        λ h. elim (split.0 h) [ inl now ↦ inl (first.0 now) | inr later ↦ inr (rest.0 later) ],
        λ p. split.1 (elim p [ inl now ↦ inl (first.1 now) | inr later ↦ inr (rest.1 later) ]),
      )

  -- A domain is allowed just if it is not empty and some entry lets it in, in small letters and
  -- without blanks around it.
  pub is_domain_allowed_iff :
      (domain : String) (allowed : List String)
      → (is_domain_allowed to_lower hostname domain allowed ≡ true)
        ↔ ((domain ≢ "") × Some (LetsIn (to_lower (trim_space domain))) allowed)
  unfolding is_domain_allowed
  is_domain_allowed_iff domain allowed =
      let inner = is_matched_by_any_iff (to_lower (trim_space domain)) allowed in
      elim (Bool-cases (str_eq domain "")) [
        | inl empty ↦
            (λ h. absurd (cc (rw empty at h)), λ p. absurd (p.0 ((eq_iff domain "").0 empty)))
        | inr given ↦ (
          λ h. ((λ same. cc (given, (eq_iff domain "").1 same)), inner.0 (rw given at h)),
          λ p. rw (given, is_domain_allowed) (inner.1 p.1),
        )
      ]
