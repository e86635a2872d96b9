-- ===== src/Currency/Known.antt =====
-- Which codes the table of currencies knows, and what the lookups say of the others.
use service_platform.Prelude.{
  String, ◌≡◌, ◌⊎◌, refl, Bool, true, false, not, Option, some, [], ◌∷◌, any, Assoc, lookup, str_eq,
  eq_iff, inl, inr, Bool-cases, ◌∙◌, ap, sym,
}
use service_platform.Prelude.Outcome.{Option-cases}
use service_platform.Currency.{
  Currency, currency_map, or_zero, get_currency, get_currency_by_string, is_valid_currency,
}

-- An entry whose currency has another code than its key.
abbrev is_misnamed : String × Currency → Bool
is_misnamed e = not (str_eq e.1.code e.0)

lookup_named :
    (key : String) (es : Assoc Currency) (c : Currency)
    → any is_misnamed es ≡ false
    → lookup key es ≡ some c
    → c.code ≡ key
unfolding lookup
lookup_named key [] c named h = absurd (cc h)
lookup_named key ((first, d) ∷ es) c named h = elim (Bool-cases (str_eq d.code first)) [
  | inr other ↦ absurd (cc (rw other at named))
  | inl own ↦ elim (Bool-cases (str_eq first key)) [
    | inr later ↦ lookup_named key es c (rw own at named) (rw later at h)
    | inl same ↦
        let one : d ≡ c = some-injective (rw same at h) in
        ap (λ (x : Currency). x.code) (sym one)
        ∙ (eq_iff d.code first).0 own
        ∙ (eq_iff first key).0 same
  ]
]
  where
    some-injective : {a b : Currency} → ◌≡◌ {A = Option Currency} (some a) (some b) → a ≡ b
    some-injective e = cc e

-- A code that is valid has a currency of just that code. For any other one a currency with an empty
-- code is handed out, and said to have been found.
pub get_currency_by_string-cases :
    (code : String)
    → ((is_valid_currency code ≡ true) × ((get_currency_by_string code).0.code ≡ code))
      ⊎ ((is_valid_currency code ≡ false)
          × (get_currency_by_string code ≡ (record { code = ""; symbol = "" }, true)))
unfolding is_valid_currency get_currency_by_string
get_currency_by_string-cases code = elim (Option-cases (lookup code currency_map)) [
  | inl absent ↦ inr (rw (absent, is_valid_currency) refl, rw (absent, get_currency) refl)
  | inr (c, there) ↦ inl (
    rw (there, is_valid_currency) refl,
    ap (λ o. (or_zero o).code) there ∙ lookup_named code currency_map c refl there,
  )
]
