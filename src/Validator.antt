-- ===== src/Validator.antt =====
-- app/pkg/util/validator/validator.go over the constants of app/pkg/util/constants/constants.go.
pub mod Domains
pub mod Lists
use Prim.Native.String.{◌++◌ as append}
use service_platform.Prelude.{
  ℕ, String, Bool, true, false, ◌&&◌, ◌||◌, Option, none, some, List, [], ◌∷◌, any, Assoc, lookup,
  str_eq, if◌then◌else◌, leb,
}
use service_platform.Prelude.Outcome.{ℤ, pos, negsuc}
use service_platform.Prelude.Strings.{trim_space}

pub record ValidationError : Type 0 where
  pub field : String
  pub message : String

-- `ValidationError.Error`
unfoldable pub error_text : ValidationError → String
error_text e = append "validation error for field '" (append e.field (append "': " e.message))

-- `strings.Join`
unfoldable pub join : String → List String → String
join sep [] = ""
join sep (s ∷ []) = s
join sep (s ∷ t ∷ rest) = append s (append sep (join sep (t ∷ rest)))

unfoldable pub error_texts : List ValidationError → List String
unfolding error_text
error_texts [] = []
error_texts (e ∷ es) = error_text e ∷ error_texts es

-- `ValidationErrors.Error`
unfoldable pub errors_text : List ValidationError → String
unfolding error_texts join
errors_text es = join "; " (error_texts es)

abbrev pub engine_type_unspecified : String
engine_type_unspecified = "UNSPECIFIED"

abbrev pub engine_type_custom : String
engine_type_custom = "CUSTOM"

abbrev pub engine_type_mpi : String
engine_type_mpi = "MPI"

abbrev pub engine_type_spark : String
engine_type_spark = "SPARK"

abbrev pub engine_type_mesa : String
engine_type_mesa = "MESA"

abbrev pub engine_type_athena : String
engine_type_athena = "ATHENA"

abbrev pub engine_type_llm : String
engine_type_llm = "LLM"

abbrev pub engine_type_eso : String
engine_type_eso = "ESO"

abbrev pub engine_type_changa : String
engine_type_changa = "CHANGA"

abbrev pub engine_type_nextflow : String
engine_type_nextflow = "NEXTFLOW"

abbrev pub engine_type_stash_transfer : String
engine_type_stash_transfer = "STASH_TRANSFER"

abbrev pub engine_type_gromacs : String
engine_type_gromacs = "GROMACS"

abbrev pub engine_type_lammps : String
engine_type_lammps = "LAMMPS"

abbrev pub engine_type_openfoam : String
engine_type_openfoam = "OPENFOAM"

abbrev pub engine_size_unspecified : String
engine_size_unspecified = "UNSPECIFIED"

abbrev pub engine_size_xmicro : String
engine_size_xmicro = "XMICRO"

abbrev pub engine_size_micro : String
engine_size_micro = "MICRO"

abbrev pub engine_size_xxsmall : String
engine_size_xxsmall = "XXSMALL"

abbrev pub engine_size_xsmall : String
engine_size_xsmall = "XSMALL"

abbrev pub engine_size_small : String
engine_size_small = "SMALL"

abbrev pub engine_size_medium : String
engine_size_medium = "MEDIUM"

abbrev pub engine_size_large : String
engine_size_large = "LARGE"

abbrev pub engine_size_xlarge : String
engine_size_xlarge = "XLARGE"

abbrev pub engine_size_xxlarge : String
engine_size_xxlarge = "XXLARGE"

abbrev pub valid_job_types : List String
valid_job_types =
    engine_type_unspecified ∷ engine_type_custom ∷ engine_type_mpi ∷ engine_type_spark
    ∷ engine_type_mesa ∷ engine_type_athena ∷ engine_type_llm ∷ engine_type_eso ∷ engine_type_changa
    ∷ engine_type_nextflow ∷ engine_type_stash_transfer ∷ engine_type_gromacs ∷ engine_type_lammps
    ∷ engine_type_openfoam ∷ []

abbrev pub valid_engine_sizes : List String
valid_engine_sizes =
    engine_size_unspecified ∷ engine_size_xmicro ∷ engine_size_micro ∷ engine_size_xxsmall
    ∷ engine_size_xsmall ∷ engine_size_small ∷ engine_size_medium ∷ engine_size_large
    ∷ engine_size_xlarge ∷ engine_size_xxlarge ∷ []

abbrev pub supported_gpu_engine_sizes : List String
supported_gpu_engine_sizes =
    engine_size_xsmall ∷ engine_size_medium ∷ engine_size_large ∷ engine_size_xlarge
    ∷ engine_size_xxlarge ∷ []

abbrev pub supported_gpu_job_types : List String
supported_gpu_job_types =
    engine_type_lammps ∷ engine_type_gromacs ∷ engine_type_mpi ∷ engine_type_athena
    ∷ engine_type_llm ∷ []

-- The loop over a fixed list.
abbrev pub is_one_of : List String → String → Bool
is_one_of valid s = any (λ v. str_eq s v) valid

-- No error, or the error of a field.
abbrev pub checked_field : Bool → String → String → Option ValidationError
checked_field good field msg = if good then none else some (record { field = field; message = msg })

unfoldable pub validate_job_type : String → Option ValidationError
unfolding join
validate_job_type job_type =
    checked_field (is_one_of valid_job_types job_type) "job_type"
      (append "must be one of: " (join ", " valid_job_types))

unfoldable pub validate_engine_size : String → Option ValidationError
unfolding join
validate_engine_size engine_size =
    checked_field (is_one_of valid_engine_sizes engine_size) "engine_size"
      (append "must be one of: " (join ", " valid_engine_sizes))

unfoldable pub validate_num_engines : ℤ → Option ValidationError
validate_num_engines (pos n) = checked_field (leb 1 n) "num_engines" "must be at least 1"
validate_num_engines (negsuc n) = checked_field false "num_engines" "must be at least 1"

unfoldable pub validate_gpu_engine_size : String → Option ValidationError
unfolding join
validate_gpu_engine_size engine_size =
    checked_field (is_one_of supported_gpu_engine_sizes engine_size) "engine_size" (
      append "unsupported GPU worker type, must be one of: " (join ", " supported_gpu_engine_sizes))

unfoldable pub validate_gpu_job_type : String → Option ValidationError
validate_gpu_job_type job_type =
    checked_field (is_one_of supported_gpu_job_types job_type) "job_type"
      (append "job type " (append job_type " is not supported with GPU"))

unfoldable pub validate_required_string : String → String → Option ValidationError
validate_required_string value field_name =
    if str_eq (trim_space value) ""
    then some (record { field = field_name; message = "is required" })
    else none

-- `p == nil || *p == ""`
abbrev pub is_missing : Option String → Bool
is_missing none = true
is_missing (some s) = str_eq s ""

unfoldable pub validate_engine_size_set : Option String → Option String → Option ValidationError
validate_engine_size_set worker_type engine_size =
    if is_missing worker_type && is_missing engine_size
    then some (record { field = "engine_size"; message = "engine_size must be set" })
    else if is_missing engine_size
    then some (record {
      field = "engine_size";
      message =
          "engine_size must be set, you might be on an older client, please restart your notebook server by relogging";
    })
    else none

abbrev pub supported_job_configs : Assoc (List String)
supported_job_configs = (engine_type_mesa, "r24.03.1" ∷ "r23.05.1" ∷ []) ∷ []

abbrev supported_versions : String → List String
supported_versions job_type = elim (lookup job_type supported_job_configs) [
  | none ↦ []
  | some vs ↦ vs
]

abbrev version_in : String → List String → String → Option ValidationError
version_in job_type [] tag = none
version_in job_type (v ∷ vs) tag =
    checked_field (is_one_of (v ∷ vs) tag) "image_tag"
      (append "unsupported version for job type " job_type)

-- A job type with no list of versions takes any.
unfoldable pub validate_supported_version : String → Option String → Option ValidationError
validate_supported_version job_type none = none
validate_supported_version job_type (some tag) =
    if str_eq tag "" then none else version_in job_type (supported_versions job_type) tag
