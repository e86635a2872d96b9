-- ===== src/Prelude/Outcome.antt =====
-- Go errors as values, and what a call of a server outside the program may do.
use Prim.Native.String.{String, ◌++◌ as append}
use mathlib.Core.Bool.{Bool, true, false}
use mathlib.Core.Option.{Option, none, some}
use mathlib.Core.Path.{◌≡◌, refl}
use mathlib.Core.Logic.{◌⊎◌, inl, inr}
use Prim.Native.Nat.{ℕ, zero, suc}
use service_platform.Prelude.Tests.{◌==◌, ltb}
use package.text.Mathlib.Text.{◌==◌ as str_eq}

-- `no_rows` is `sql.ErrNoRows`, `unique_violation` a server error with code 23505, `sentinel` one of
-- the errors that the program or a library of it declares, which have different texts, `text` any
-- other error with no cause, `wrap` the result of `fmt.Errorf("prefix%w", err)`.
pub data Err : Type 0 where
  no_rows : Err
  unique_violation : Err
  sentinel : String → Err
  text : String → Err
  wrap : String → Err → Err

-- `err.Error()`. The text of a server's error is the server's: it is what `text` holds, but for
-- `unique_violation`, which stands for all texts with its code.
unfoldable pub message : Err → String
message no_rows = "sql: no rows in result set"
message unique_violation = "ERROR: unique_violation (SQLSTATE=23505)"
message (sentinel s) = s
message (text s) = s
message (wrap s e) = append s (message e)

-- `errors.Is(err, sql.ErrNoRows)`
unfoldable pub is_no_rows : Err → Bool
is_no_rows no_rows = true
is_no_rows unique_violation = false
is_no_rows (sentinel s) = false
is_no_rows (text s) = false
is_no_rows (wrap s e) = is_no_rows e

-- `errors.Is(err, target)` for a declared error, given by its text.
unfoldable pub is_sentinel : String → Err → Bool
is_sentinel name no_rows = false
is_sentinel name unique_violation = false
is_sentinel name (sentinel s) = str_eq s name
is_sentinel name (text s) = false
is_sentinel name (wrap s e) = is_sentinel name e

-- A call of a server: it is done; or refused, with an error; or it is done and the reply is lost,
-- so that the program sees an error all the same.
pub data Outcome : Type 0 where
  done : Outcome
  refused : Err → Outcome
  lost : Err → Outcome

-- What the call does to the server's state.
abbrev pub effect {ℓ} : {S : Type ℓ} → Outcome → (S → S) → S → S
effect done f s = f s
effect (refused e) f s = s
effect (lost e) f s = f s

-- The error that the program sees.
abbrev pub failure : Outcome → Option Err
failure done = none
failure (refused e) = some e
failure (lost e) = some e

-- One call, with the clock's reading when the program makes it.
pub record Call : Type 0 where
  pub outcome : Outcome
  pub at : ℕ

-- A Go pair of a value and an error.
pub data Result {ℓ} (A : Type ℓ) : Type ℓ where
  ok : A → Result A
  err : Err → Result A

-- To split on an option or a result and keep the equation.
pub Option-cases {ℓ} : {A : Type ℓ} (o : Option A) → (o ≡ none) ⊎ ((a : A) × (o ≡ some a))
Option-cases none = inl refl
Option-cases (some a) = inr (a, refl)

pub Result-cases {ℓ} :
    {A : Type ℓ} (r : Result A) → ((e : Err) × (r ≡ err e)) ⊎ ((a : A) × (r ≡ ok a))
Result-cases (ok a) = inr (a, refl)
Result-cases (err e) = inl (e, refl)

abbrev pub is_ok {ℓ} : {A : Type ℓ} → Result A → Bool
is_ok (ok a) = true
is_ok (err e) = false

-- The answer of a call that only reads.
abbrev pub reading {ℓ} : {A : Type ℓ} → Outcome → A → Result A
reading done a = ok a
reading (refused e) a = err e
reading (lost e) a = err e

-- The answer of a SELECT that scans one row.
abbrev pub scan {ℓ} : {A : Type ℓ} → Outcome → Option A → Result A
scan done (some a) = ok a
scan done none = err no_rows
scan (refused e) row = err e
scan (lost e) row = err e

-- A Go `int`; `negsuc n` is -(n + 1).
pub data ℤ : Type 0 where
  pos : ℕ → ℤ
  negsuc : ℕ → ℤ

-- `a == b` and `a < b`
abbrev pub int_eq : ℤ → ℤ → Bool
int_eq (pos m) (pos n) = m == n
int_eq (pos m) (negsuc n) = false
int_eq (negsuc m) (pos n) = false
int_eq (negsuc m) (negsuc n) = m == n

abbrev pub int_lt : ℤ → ℤ → Bool
int_lt (pos m) (pos n) = ltb m n
int_lt (pos m) (negsuc n) = false
int_lt (negsuc m) (pos n) = true
int_lt (negsuc m) (negsuc n) = ltb n m

-- `if n <= 0 { n = d }`
abbrev pub or_default : ℕ → ℤ → ℕ
or_default d (pos zero) = d
or_default d (pos (suc n)) = suc n
or_default d (negsuc n) = d
