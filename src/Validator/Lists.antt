-- ===== src/Validator/Lists.antt =====
-- The fixed lists of the validators, one within the other.
use service_platform.Prelude.{
  String, ◌≡◌, refl, Bool, true, false, none, List, [], ◌∷◌, str_eq, eq_iff, inl, inr,
  if◌then◌else◌, ◌∙◌, ap, Bool-cases,
}
use service_platform.Validator.{
  is_one_of, checked_field, valid_job_types, valid_engine_sizes, supported_gpu_engine_sizes,
  supported_gpu_job_types, validate_job_type, validate_engine_size, validate_gpu_engine_size,
  validate_gpu_job_type,
}

checked_field-none :
    (good : Bool) (field msg : String) → checked_field good field msg ≡ none → good ≡ true
checked_field-none true field msg h = refl
checked_field-none false field msg h = absurd (cc h)

checked_field-good :
    (good : Bool) (field msg : String) → good ≡ true → checked_field good field msg ≡ none
checked_field-good good field msg h = rw h refl

-- A list that another one holds, as a test that runs.
abbrev holds_all : List String → List String → Bool
holds_all valid [] = true
holds_all valid (v ∷ vs) =
    let rest = holds_all valid vs in if is_one_of valid v then rest else false

is_one_of-holds_all :
    (valid few : List String) (s : String)
    → holds_all valid few ≡ true
    → is_one_of few s ≡ true
    → is_one_of valid s ≡ true
is_one_of-holds_all valid [] s held h = absurd (cc h)
is_one_of-holds_all valid (v ∷ vs) s held h = elim (Bool-cases (is_one_of valid v)) [
  | inr missing ↦ absurd (cc (rw missing at held))
  | inl found ↦ elim (Bool-cases (str_eq s v)) [
    | inl same ↦ ap (is_one_of valid) ((eq_iff s v).0 same) ∙ found
    | inr other ↦ is_one_of-holds_all valid vs s (rw found at held) (rw other at h)
  ]
]

-- What is supported with a GPU is valid without one: a type of job, and a size of engine.
pub gpu_is_valid :
    (s : String)
    → (validate_gpu_job_type s ≡ none → validate_job_type s ≡ none)
      × (validate_gpu_engine_size s ≡ none → validate_engine_size s ≡ none)
unfolding validate_gpu_job_type validate_job_type validate_gpu_engine_size validate_engine_size
gpu_is_valid s = (
  λ h.
      let all =
        is_one_of-holds_all valid_job_types supported_gpu_job_types s refl
          (checked_field-none _ _ _ h) in
      checked_field-good _ _ _ all,
  λ h.
      let all =
        is_one_of-holds_all valid_engine_sizes supported_gpu_engine_sizes s refl
          (checked_field-none _ _ _ h) in
      checked_field-good _ _ _ all,
)
