-- ===== src/AuthManager/Refuses.antt =====
-- The answers that login, refresh and registration give when they refuse.
use service_platform.Prelude.{
  ℕ, String, Bool, true, false, Option, none, some, List, [], ◌∷◌, ◌++◌, ◌≡◌, refl, any, inl, inr,
  Bool-cases, str_eq, ap,
}
use service_platform.Prelude.Outcome.{
  Err, sentinel, is_no_rows, Outcome, done, refused, lost, failure, effect, Result, ok, err,
  Result-cases,
}
use service_platform.Entity.{Session, User}
use service_platform.Bcrypt.{Library, hash_password}
use service_platform.Jwt.{Signer, JwtConfig}
use service_platform.SessionRepository.{find_by_token}
use service_platform.SessionRepository.Steps.{Reach, find_by_token-IsClosed}
use service_platform.UserRepository.{find_by_email, find_by_username, collides, insert}
use service_platform.AuthManager.{
  Read, refresh_token_revoked, is_before, validate_session, session_checked, email_already_exists,
  username_already_existed,
}
use service_platform.AuthManager.Register.{
  RegisterCalls, new_user, register, register_checked, register_hashed, absent_or,
}

abbrev says_revoked : Result Session → Bool
says_revoked (err (sentinel s)) = str_eq s "refresh token has been revoked"
says_revoked _ = false

not_revoked : {r : Result Session} → r ≡ err refresh_token_revoked → says_revoked r ≡ false → ⊥
not_revoked h other = cc (ap says_revoked h, other)

module _ (hash : String → String) (signer : Signer) (config : JwtConfig) where
  -- The answer that a session has been revoked is never given, where the replica has a table that
  -- the repository's operations make.
  pub validate_session_never_revoked :
      (r : Read Session) (now : ℕ) (token : String)
      → Reach r.replica
      → validate_session hash signer config r now token ≡ err refresh_token_revoked
      → ⊥
  unfolding validate_session session_checked
  validate_session_never_revoked r now token reached h =
      elim (Result-cases (find_by_token r.outcome token r.replica)) [
        | inl (e, missing) ↦ elim (Bool-cases (is_no_rows e)) [
          | inl absent ↦ not_revoked (rw (missing, absent) at h) refl
          | inr failed ↦ not_revoked (rw (missing, failed) at h) refl
        ]
        | inr (s, found) ↦
            let open_row = find_by_token-IsClosed reached r.outcome token found in
            elim (Bool-cases (is_before s.expires_at now)) [
              | inl over ↦ not_revoked (rw (found, open_row, over) at h) refl
              | inr valid ↦ not_revoked (rw (found, open_row, valid) at h) refl
            ]
      ]

-- A lookup that has been answered, with no row.
abbrev pub IsAbsent : Result User → Type 0
IsAbsent r = (e : Err) × (r ≡ err e) × (is_no_rows e ≡ true)

absent_or-none : (taken : Err) (r : Result User) → absent_or taken r ≡ none → IsAbsent r
unfolding absent_or
absent_or-none taken (ok v) h = absurd (cc h)
absent_or-none taken (err e) h = elim (Bool-cases (is_no_rows e)) [
  | inl absent ↦ (e, refl, absent)
  | inr failed ↦ absurd (cc (rw failed at h))
]

insert-appended :
    (o : Outcome) (u : User) (users : List User)
    → (insert o u users).1 ≡ none
    → (insert o u users).0 ≡ users ++ u ∷ []
unfolding insert
insert-appended o u users h = elim (Bool-cases (any (collides u) users)) [
  | inl taken ↦ absurd (cc (rw taken at h))
  | inr free ↦ rw free (by_outcome o (rw free at h))
]
  where
    by_outcome :
        (o : Outcome) → failure o ≡ none → effect o (λ us. us ++ u ∷ []) users ≡ users ++ u ∷ []
    by_outcome done h = refl
    by_outcome (refused e) h = absurd (cc h)
    by_outcome (lost e) h = absurd (cc h)

register_checked-none :
    (c : RegisterCalls) (email : String) (hashed : Result String) (a b : Option Err)
    (users : List User)
    → (register_checked c email hashed a b users).1 ≡ none
    → (a ≡ none)
      × (b ≡ none)
      × ((h : String) × (hashed ≡ ok h)
          × ((register_checked c email hashed a b users).0 ≡ users ++ new_user c email h ∷ []))
unfolding register_checked register_hashed
register_checked-none c email hashed (some e) b users h = absurd (cc h)
register_checked-none c email hashed none (some e) users h = absurd (cc h)
register_checked-none c email (err e) none none users h = absurd (cc h)
register_checked-none c email (ok digest) none none users h =
    (refl, refl, (digest, refl, insert-appended c.insert (new_user c email digest) users h))

-- What a registration that reports success has done: the password's hash is stored, with the email
-- as the name, in a row at the end of the table.
pub record Registered (library : Library) (cost : ℕ) (c : RegisterCalls) (email password : String)
    (users users' : List User) : Type 0 where
  pub hashed : String
  pub hash : hash_password library cost password ≡ ok hashed
  pub appended : users' ≡ users ++ new_user c email hashed ∷ []

-- A registration reports success only if both lookups of the email, as an email and as a name, have
-- been answered with no row, neither with a user nor with another error, and the new user was stored,
-- with the hash of the password, at the end of the table.
pub register-Registered :
    (library : Library) (cost : ℕ) (c : RegisterCalls) (email password : String) (users : List User)
    → (register library cost c email password users).1 ≡ none
    → IsAbsent (find_by_email c.by_email.outcome email c.by_email.replica)
      × IsAbsent (find_by_username c.by_username.outcome email c.by_username.replica)
      × Registered library cost c email password users
          (register library cost c email password users).0
unfolding register
register-Registered library cost c email password users h =
    let made = register_checked-none c email (hash_password library cost password) _ _ users h in
    (
      absent_or-none email_already_exists _ made.0,
      absent_or-none username_already_existed _ made.1,
      record { hashed = made.2.0; hash = made.2.1; appended = made.2.2 },
    )
