-- ===== src/Bcrypt.antt =====
-- app/pkg/bcrypt/bcrypt.go over golang.org/x/crypto/bcrypt, which is an argument.
use service_platform.Prelude.{ℕ, String, Bool, true, false, ◌||◌, ltb, str_eq, if◌then◌else◌}
use service_platform.Prelude.Outcome.{Err, text, wrap, Result, ok, err, ℤ, pos, negsuc}

-- What the comparison of a password with a hash finds.
pub data Comparison : Type 0 where
  matches : Comparison
  mismatched : Comparison
  broken : Err → Comparison

pub record Library : Type 0 where
  pub min_cost : ℕ
  pub max_cost : ℕ
  pub default_cost : ℕ
  pub generate_from_password : String → ℕ → Result String
  pub compare_hash_and_password : String → String → Comparison

module _ (library : Library) where
  -- `NewBcrypt`
  unfoldable pub new_bcrypt : ℤ → ℕ
  new_bcrypt (negsuc n) = library.default_cost
  new_bcrypt (pos n) =
      if ltb n library.min_cost || ltb library.max_cost n then library.default_cost else n

  hashed : Result String → Result String
  hashed (ok h) = ok h
  hashed (err e) = err (wrap "failed to hash password: " e)

  unfoldable pub hash_password : ℕ → String → Result String
  unfolding hashed
  hash_password cost password =
      if str_eq password ""
      then err (text "password cannot be empty")
      else hashed (library.generate_from_password password cost)

  compared : Comparison → Result Bool
  compared matches = ok true
  compared mismatched = ok false
  compared (broken e) = err (wrap "failed to check password: " e)

  unfoldable pub check_password : String → String → Result Bool
  unfolding compared
  check_password password hash =
      if str_eq password ""
      then err (text "password cannot be empty")
      else if str_eq hash ""
      then err (text "hash cannot be empty")
      else compared (library.compare_hash_and_password hash password)
