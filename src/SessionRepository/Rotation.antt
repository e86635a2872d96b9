-- ===== src/SessionRepository/Rotation.antt =====
-- What revocation and insertion leave of the live sessions.
use service_platform.Prelude.{
  ℕ, String, Bool, true, false, none, some, List, [], ◌∷◌, ◌++◌, ◌≡◌, refl, any, find, filter,
  update_rows, eq_refl, inl, inr, Bool-cases, arith, ◌∙◌,
}
use service_platform.Prelude.Outcome.{
  no_rows, unique_violation, Outcome, done, refused, lost, effect, Call, ok, err,
}
use service_platform.Entity.{Session}
use service_platform.SessionRepository.{
  has_session_id, has_token, is_live_token, is_live_of, revoke, revoke_by_token, revoke_by_user_id,
  find_by_token, InsertCalls, insert_row, filled, insert,
}

-- A test that only live rows pass.
abbrev NeedsLive : (Session → Bool) → Type 0
NeedsLive p = (t : ℕ) (s : Session) → p (revoke t s) ≡ false

is_live_of-NeedsLive : (user : String) → NeedsLive (is_live_of user)
is_live_of-NeedsLive user t s = ground arith

is_live_token-NeedsLive : (token : String) → NeedsLive (is_live_token token)
is_live_token-NeedsLive token t s = ground arith

filter-revoke :
    (p : Session → Bool)
    → NeedsLive p
    → (t : ℕ) (rows : List Session) → filter p (update_rows p (revoke t) rows) ≡ []
unfolding update_rows
filter-revoke p needs t [] = refl
filter-revoke p needs t (s ∷ rows) = elim (Bool-cases (p s)) [
  | inl hit ↦ rw (hit, needs t s) (filter-revoke p needs t rows)
  | inr miss ↦ rw (miss, miss) (filter-revoke p needs t rows)
]

find-revoke :
    (p : Session → Bool)
    → NeedsLive p
    → (t : ℕ) (rows : List Session) → find p (update_rows p (revoke t) rows) ≡ none
unfolding update_rows
find-revoke p needs t [] = refl
find-revoke p needs t (s ∷ rows) = elim (Bool-cases (p s)) [
  | inl hit ↦ rw (hit, needs t s) (find-revoke p needs t rows)
  | inr miss ↦ rw (miss, miss) (find-revoke p needs t rows)
]

-- A token that the server has revoked is found no more.
pub find_by_token-revoke_by_token :
    (c : Call) (token : String) (rows : List Session)
    → c.outcome ≡ done
    → find_by_token done token (revoke_by_token c token rows).0 ≡ err no_rows
unfolding find_by_token revoke_by_token
find_by_token-revoke_by_token c token rows answered =
    rw (answered, find-revoke (is_live_token token) (is_live_token-NeedsLive token) c.at rows) refl

filter-snoc :
    (p : Session → Bool) (rows : List Session) (s : Session)
    → p s ≡ true
    → filter p rows ≡ []
    → filter p (rows ++ s ∷ []) ≡ s ∷ []
filter-snoc p [] s hit none_before = rw hit refl
filter-snoc p (r ∷ rows) s hit none_before = elim (Bool-cases (p r)) [
  | inl first ↦ absurd (cc (rw first at none_before))
  | inr miss ↦ rw miss (filter-snoc p rows s hit (rw miss at none_before))
]

find-snoc :
    (p : Session → Bool) (rows : List Session) (s : Session)
    → p s ≡ true
    → find p rows ≡ none
    → find p (rows ++ s ∷ []) ≡ some s
find-snoc p [] s hit none_before = rw hit refl
find-snoc p (r ∷ rows) s hit none_before = elim (Bool-cases (p r)) [
  | inl first ↦ absurd (cc (rw first at none_before))
  | inr miss ↦ rw miss (find-snoc p rows s hit (rw miss at none_before))
]

absent-find_none :
    (token : String) (rows : List Session)
    → any (has_token token) rows ≡ false
    → find (is_live_token token) rows ≡ none
absent-find_none token [] absent = refl
absent-find_none token (r ∷ rows) absent = elim (Bool-cases (has_token token r)) [
  | inl hit ↦ absurd (cc (rw hit at absent))
  | inr miss ↦ rw miss (absent-find_none token rows (rw miss at absent))
]

any-update_revoke :
    (token : String) (p : Session → Bool) (t : ℕ) (rows : List Session)
    → any (has_token token) (update_rows p (revoke t) rows) ≡ any (has_token token) rows
unfolding update_rows
any-update_revoke token p t [] = refl
any-update_revoke token p t (s ∷ rows) = ground (arith, any-update_revoke token p t rows)

-- What a successful insertion has done.
record Appended (s s' : Session) (rows rows' : List Session) : Type 0 where
  same : s' ≡ s
  appended : rows' ≡ rows ++ s ∷ []
  new_token : any (has_token s.token) rows ≡ false

insert_row-Appended :
    (o : Outcome) (s s' : Session) (rows : List Session)
    → (insert_row o s rows).1 ≡ ok s'
    → Appended s s' rows (insert_row o s rows).0
unfolding insert_row
insert_row-Appended o s s' rows h = elim (Bool-cases (any (has_token s.token) rows)) [
  | inl taken ↦ absurd (cc (rw taken at h))
  | inr new ↦ elim (Bool-cases (any (has_session_id s.id) rows)) [
    | inl taken ↦ absurd (cc (rw (new, taken) at h))
    | inr free ↦ rw (new, free) (by_outcome o new (rw (new, free) at h))
  ]
]
  where
    by_outcome :
        (o : Outcome)
        → any (has_token s.token) rows ≡ false
        → service_platform.SessionRepository.inserted o s ≡ ok s'
        → Appended s s' rows (effect o (λ rs. rs ++ s ∷ []) rows)
    by_outcome done new given = record { same = cc given; appended = refl; new_token = new }
    by_outcome (refused e) new given = absurd (cc given)
    by_outcome (lost e) new given = absurd (cc given)

is_live_of_self : (s : Session) → s.deleted_at ≡ none → is_live_of s.user_id s ≡ true
is_live_of_self s live = rw (live, eq_refl s.user_id) refl

is_live_token_self : (s : Session) → s.deleted_at ≡ none → is_live_token s.token s ≡ true
is_live_token_self s live = rw (live, eq_refl s.token) refl

Appended-OnlyLive :
    (s s' : Session) (rows rows' : List Session)
    → Appended s s' rows rows'
    → s.deleted_at ≡ none
    → filter (is_live_of s.user_id) rows ≡ []
    → filter (is_live_of s.user_id) rows' ≡ s' ∷ []
Appended-OnlyLive s s' rows rows' made live none_live =
    rw (made.appended, made.same)
      (filter-snoc (is_live_of s.user_id) rows s (is_live_of_self s live) none_live)

revoked-NoneLive :
    (c : Call) (user : String) (rows : List Session)
    → c.outcome ≡ done
    → filter (is_live_of user) (revoke_by_user_id c user rows).0 ≡ []
unfolding revoke_by_user_id
revoked-NoneLive c user rows answered =
    rw answered (filter-revoke (is_live_of user) (is_live_of-NeedsLive user) c.at rows)

-- After a session was inserted, where the server has answered the revocation of the user's
-- sessions, the new one is the only live session of its user.
pub insert-OnlyLive :
    (c : InsertCalls) (s s' : Session) (rows : List Session)
    → c.by_user.outcome ≡ done
    → s.deleted_at ≡ none
    → (insert c s rows).1 ≡ ok s'
    → filter (is_live_of s.user_id) (insert c s rows).0 ≡ s' ∷ []
unfolding insert
insert-OnlyLive c s s' rows answered live given =
    let before = (revoke_by_token c.by_token s.token rows).0 in
    let revoked = (revoke_by_user_id c.by_user s.user_id before).0 in
    Appended-OnlyLive (filled c s) s' revoked _
      (insert_row-Appended c.insert (filled c s) s' revoked given) live
      (revoked-NoneLive c.by_user s.user_id before answered)

-- The row that an insertion returns is the given one, with the server's identifier and time.
pub insert-filled :
    (c : InsertCalls) (s s' : Session) (rows : List Session)
    → (insert c s rows).1 ≡ ok s'
    → s' ≡ filled c s
unfolding insert
insert-filled c s s' rows given = (insert_row-Appended c.insert (filled c s) s' _ given).same

-- A session that was inserted is found by its token, where the replica has caught up.
pub find_by_token-insert :
    (c : InsertCalls) (s s' : Session) (rows : List Session)
    → s.deleted_at ≡ none
    → (insert c s rows).1 ≡ ok s'
    → find_by_token done s.token (insert c s rows).0 ≡ ok s'
unfolding insert find_by_token
find_by_token-insert c s s' rows live given =
    let before = (revoke_by_token c.by_token s.token rows).0 in
    let revoked = (revoke_by_user_id c.by_user s.user_id before).0 in
    let made = insert_row-Appended c.insert (filled c s) s' revoked given in
    let found =
      find-snoc (is_live_token s.token) revoked (filled c s) (is_live_token_self (filled c s) live)
        (absent-find_none s.token revoked made.new_token) in
    rw (made.appended, found, made.same) refl

any-effect_revoke :
    (o : Outcome) (token : String) (p : Session → Bool) (t : ℕ) (rows : List Session)
    → any (has_token token) (effect o (update_rows p (revoke t)) rows) ≡ any (has_token token) rows
any-effect_revoke done token p t rows = any-update_revoke token p t rows
any-effect_revoke (refused e) token p t rows = refl
any-effect_revoke (lost e) token p t rows = any-update_revoke token p t rows

-- A session whose token is in the table, in a row that is live or not, is refused, although the
-- insertion revokes that row first.
pub insert_duplicate :
    (c : InsertCalls) (s : Session) (rows : List Session)
    → any (has_token s.token) rows ≡ true
    → (insert c s rows).1 ≡ err unique_violation
unfolding insert insert_row revoke_by_token revoke_by_user_id
insert_duplicate c s rows taken =
    let by_token =
      any-effect_revoke c.by_token.outcome s.token (is_live_token s.token) c.by_token.at rows in
    let by_user =
      any-effect_revoke c.by_user.outcome s.token (is_live_of s.user_id) c.by_user.at
        (revoke_by_token c.by_token s.token rows).0 in
    rw (by_user ∙ by_token ∙ taken) refl
