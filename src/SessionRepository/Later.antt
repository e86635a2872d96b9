-- ===== src/SessionRepository/Later.antt =====
-- The table of sessions of app/database/repository/session_repository.go after further operations,
-- seen from one token.
use service_platform.Prelude.{
  String, Bool, false, none, List, [], ◌∷◌, ◌++◌, ◌≡◌, ◌||◌, refl, any, find, update_rows, str_eq,
  inl, inr, Bool-cases, arith,
}
use service_platform.Prelude.Outcome.{no_rows, Outcome, done, refused, lost, effect, Call, err}
use service_platform.Entity.{Session}
use service_platform.SessionRepository.{
  has_session_id, has_token, is_live_token, is_live_of, revoke, revoke_by_token, revoke_by_user_id,
  delete_by_user_id, find_by_token, InsertCalls, insert_row, filled, insert,
}

-- What the operations make of a table, where no session with the given token is inserted: the
-- tokens of sessions are random.
pub data Later (token : String) (rows : List Session) : List Session → Type 0 where
  unchanged : Later token rows rows
  inserts :
      {t : List Session}
      → Later token rows t
      → (c : InsertCalls) (s : Session) → str_eq s.token token ≡ false
      → Later token rows (insert c s t).0
  revokes_token :
      {t : List Session}
      → Later token rows t
      → (c : Call) (other : String) → Later token rows (revoke_by_token c other t).0
  revokes_user :
      {t : List Session}
      → Later token rows t
      → (c : Call) (user : String) → Later token rows (revoke_by_user_id c user t).0
  deletes_user :
      {t : List Session}
      → Later token rows t
      → (c : Call) (user : String) → Later token rows (delete_by_user_id c user t).0

-- No live row has the token.
abbrev pub IsGone : String → List Session → Type 0
IsGone token rows = any (is_live_token token) rows ≡ false

IsGone-update_rows :
    (token : String) (p : Session → Bool) (f : Session → Session)
    → ((s : Session) → is_live_token token (f s) ≡ false)
    → (rows : List Session) → IsGone token rows
    → IsGone token (update_rows p f rows)
unfolding update_rows
IsGone-update_rows token p f closes [] h = refl
IsGone-update_rows token p f closes (s ∷ rows) h =
    let closed = closes s in
    elim (Bool-cases (is_live_token token s)) [
      | inl live ↦ absurd (cc (rw live at h))
      | inr gone ↦
          let rest = IsGone-update_rows token p f closes rows (rw gone at h) in
          elim (Bool-cases (p s)) [
            | inl hit ↦ rw (hit, closed) rest
            | inr miss ↦ rw (miss, gone) rest
          ]
    ]

IsGone-effect :
    (token : String) (o : Outcome) (f : List Session → List Session) (rows : List Session)
    → IsGone token (f rows)
    → IsGone token rows
    → IsGone token (effect o f rows)
IsGone-effect token done f rows changed h = changed
IsGone-effect token (refused e) f rows changed h = h
IsGone-effect token (lost e) f rows changed h = changed

IsGone-revoke_by_token :
    (token other : String) (c : Call) (rows : List Session)
    → IsGone token rows
    → IsGone token (revoke_by_token c other rows).0
unfolding revoke_by_token
IsGone-revoke_by_token token other c rows h =
    IsGone-effect token c.outcome _ rows
      (IsGone-update_rows token (is_live_token other) (revoke c.at) (λ s. ground arith) rows h) h

IsGone-revoke_by_user_id :
    (token user : String) (c : Call) (rows : List Session)
    → IsGone token rows
    → IsGone token (revoke_by_user_id c user rows).0
unfolding revoke_by_user_id
IsGone-revoke_by_user_id token user c rows h =
    IsGone-effect token c.outcome _ rows
      (IsGone-update_rows token (is_live_of user) (revoke c.at) (λ s. ground arith) rows h) h

IsGone-delete_by_user_id :
    (token user : String) (c : Call) (rows : List Session)
    → IsGone token rows
    → IsGone token (delete_by_user_id c user rows).0
unfolding delete_by_user_id
IsGone-delete_by_user_id token user c rows h =
    IsGone-effect token c.outcome _ rows
      (IsGone-update_rows token (is_live_of user) _ (λ s. ground arith) rows h) h

IsGone-append :
    (token : String) (s : Session) (rows : List Session)
    → has_token token s ≡ false
    → IsGone token rows
    → IsGone token (rows ++ s ∷ [])
IsGone-append token s [] other h = rw other refl
IsGone-append token s (r ∷ rows) other h = elim (Bool-cases (is_live_token token r)) [
  | inl live ↦ absurd (cc (rw live at h))
  | inr gone ↦ rw gone (IsGone-append token s rows other (rw gone at h))
]

IsGone-insert :
    (token : String) (c : InsertCalls) (s : Session) (rows : List Session)
    → str_eq s.token token ≡ false
    → IsGone token rows
    → IsGone token (insert c s rows).0
unfolding insert insert_row
IsGone-insert token c s rows other h =
    let before = (revoke_by_token c.by_token s.token rows).0 in
    let revoked = (revoke_by_user_id c.by_user s.user_id before).0 in
    let kept =
      IsGone-revoke_by_user_id token s.user_id c.by_user before
        (IsGone-revoke_by_token token s.token c.by_token rows h) in
    elim (Bool-cases (any (has_token s.token) revoked || any (has_session_id c.id) revoked)) [
      | inl taken ↦ rw taken kept
      | inr free ↦ rw free (
          IsGone-effect token c.insert _ revoked
            (IsGone-append token (filled c s) revoked other kept) kept)
    ]

Later-IsGone :
    {token : String} {rows later : List Session}
    → Later token rows later
    → IsGone token rows
    → IsGone token later
Later-IsGone unchanged h = h
Later-IsGone {token = token} (inserts l c s other) h =
    IsGone-insert token c s _ other (Later-IsGone l h)
Later-IsGone {token = token} (revokes_token l c other) h =
    IsGone-revoke_by_token token other c _ (Later-IsGone l h)
Later-IsGone {token = token} (revokes_user l c user) h =
    IsGone-revoke_by_user_id token user c _ (Later-IsGone l h)
Later-IsGone {token = token} (deletes_user l c user) h =
    IsGone-delete_by_user_id token user c _ (Later-IsGone l h)

find-IsGone :
    (token : String) (rows : List Session)
    → IsGone token rows
    → find (is_live_token token) rows ≡ none
find-IsGone token [] h = refl
find-IsGone token (s ∷ rows) h = elim (Bool-cases (is_live_token token s)) [
  | inl live ↦ absurd (cc (rw live at h))
  | inr gone ↦ rw gone (find-IsGone token rows (rw gone at h))
]

-- A token that no live row has is not found in any later table.
pub Later-find_by_token :
    (token : String) (rows later : List Session)
    → IsGone token rows
    → Later token rows later
    → find_by_token done token later ≡ err no_rows
unfolding find_by_token
Later-find_by_token token rows later gone l =
    rw (find-IsGone token later (Later-IsGone l gone)) refl

IsGone-update_live :
    (token : String) (f : Session → Session)
    → ((s : Session) → is_live_token token (f s) ≡ false)
    → (rows : List Session) → IsGone token (update_rows (is_live_token token) f rows)
unfolding update_rows
IsGone-update_live token f closes [] = refl
IsGone-update_live token f closes (s ∷ rows) =
    let closed = closes s in
    elim (Bool-cases (is_live_token token s)) [
      | inl live ↦ rw (live, closed) (IsGone-update_live token f closes rows)
      | inr gone ↦ rw (gone, gone) (IsGone-update_live token f closes rows)
    ]

-- A token that the server has revoked is gone.
pub revoke_by_token-IsGone :
    (c : Call) (token : String) (rows : List Session)
    → c.outcome ≡ done
    → IsGone token (revoke_by_token c token rows).0
unfolding revoke_by_token
revoke_by_token-IsGone c token rows answered =
    rw answered (IsGone-update_live token (revoke c.at) (λ s. ground arith) rows)
