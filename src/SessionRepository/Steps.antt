-- ===== src/SessionRepository/Steps.antt =====
-- All that the program does to the table of sessions, as steps.
use service_platform.Prelude.{
  String, Bool, true, false, Option, none, some, List, [], ◌∷◌, ◌≡◌, refl, any, All, All-snoc, find,
  update_rows, inl, inr, Bool-cases, ◌||◌, ◌&&◌,
}
use service_platform.Prelude.Outcome.{Outcome, done, refused, lost, effect, Call, ok, scan}
use service_platform.Entity.{Session}
use service_platform.JobRepository.{is_null}
use service_platform.SessionRepository.{
  has_session_id, has_token, is_live_token, is_live_of, revoke, revoke_by_token, revoke_by_user_id,
  delete_by_user_id, find_by_token, InsertCalls, insert_row, filled, insert,
}

-- One operation of the repository; a session is inserted as `createSession` builds it, not revoked.
pub data Step : List Session → List Session → Type 0 where
  inserts :
      {rows : List Session} (c : InsertCalls) (s : Session)
      → s.revoked ≡ false
      → Step rows (insert c s rows).0
  revokes_token :
      {rows : List Session} (c : Call) (token : String) → Step rows (revoke_by_token c token rows).0
  revokes_user :
      {rows : List Session} (c : Call) (user : String) → Step rows (revoke_by_user_id c user rows).0
  deletes_user :
      {rows : List Session} (c : Call) (user : String) → Step rows (delete_by_user_id c user rows).0

pub data Reach : List Session → Type 0 where
  start : Reach []
  next : {rows rows' : List Session} → Reach rows → Step rows rows' → Reach rows'

-- A revoked session is deleted.
abbrev pub IsClosed : Session → Type 0
IsClosed s = is_null s.deleted_at ≡ true → s.revoked ≡ false

update_rows-IsClosed :
    (p : Session → Bool) (f : Session → Session)
    → ((s : Session) → IsClosed s → IsClosed (f s))
    → (rows : List Session) → All IsClosed rows
    → All IsClosed (update_rows p f rows)
unfolding update_rows
update_rows-IsClosed p f keeps [] h = tt
update_rows-IsClosed p f keeps (s ∷ rows) h = elim (Bool-cases (p s)) [
  | inl hit ↦ rw hit ((keeps s h.0, update_rows-IsClosed p f keeps rows h.1))
  | inr miss ↦ rw miss ((h.0, update_rows-IsClosed p f keeps rows h.1))
]

effect-IsClosed :
    (o : Outcome) (f : List Session → List Session) (rows : List Session)
    → All IsClosed (f rows)
    → All IsClosed rows
    → All IsClosed (effect o f rows)
effect-IsClosed done f rows changed h = changed
effect-IsClosed (refused e) f rows changed h = h
effect-IsClosed (lost e) f rows changed h = changed

revoke_by_token-IsClosed :
    (c : Call) (token : String) (rows : List Session)
    → All IsClosed rows
    → All IsClosed (revoke_by_token c token rows).0
unfolding revoke_by_token
revoke_by_token-IsClosed c token rows h =
    effect-IsClosed c.outcome _ rows
      (update_rows-IsClosed (is_live_token token) (revoke c.at) (λ s closed live. cc live) rows h) h

revoke_by_user_id-IsClosed :
    (c : Call) (user : String) (rows : List Session)
    → All IsClosed rows
    → All IsClosed (revoke_by_user_id c user rows).0
unfolding revoke_by_user_id
revoke_by_user_id-IsClosed c user rows h =
    effect-IsClosed c.outcome _ rows
      (update_rows-IsClosed (is_live_of user) (revoke c.at) (λ s closed live. cc live) rows h) h

delete_by_user_id-IsClosed :
    (c : Call) (user : String) (rows : List Session)
    → All IsClosed rows
    → All IsClosed (delete_by_user_id c user rows).0
unfolding delete_by_user_id
delete_by_user_id-IsClosed c user rows h =
    effect-IsClosed c.outcome _ rows
      (update_rows-IsClosed (is_live_of user) (λ s. record s { deleted_at = some c.at })
        (λ s closed live. cc live) rows h)
      h

insert_row-IsClosed :
    (o : Outcome) (s : Session) (rows : List Session)
    → s.revoked ≡ false
    → All IsClosed rows
    → All IsClosed (insert_row o s rows).0
unfolding insert_row
insert_row-IsClosed o s rows fresh h =
    elim (Bool-cases (any (has_token s.token) rows || any (has_session_id s.id) rows)) [
      | inl taken ↦ rw taken h
      | inr free ↦ rw free (effect-IsClosed o _ rows (All-snoc IsClosed rows s h (λ live. fresh)) h)
    ]

insert-IsClosed :
    (c : InsertCalls) (s : Session) (rows : List Session)
    → s.revoked ≡ false
    → All IsClosed rows
    → All IsClosed (insert c s rows).0
unfolding insert
insert-IsClosed c s rows fresh h = insert_row-IsClosed c.insert (filled c s) _ fresh (
    revoke_by_user_id-IsClosed c.by_user s.user_id _
      (revoke_by_token-IsClosed c.by_token s.token rows h))

-- In every table that the operations make from an empty one a revoked session is deleted.
pub Reach-IsClosed : {rows : List Session} → Reach rows → All IsClosed rows
Reach-IsClosed start = tt
Reach-IsClosed (next r (inserts c s fresh)) = insert-IsClosed c s _ fresh (Reach-IsClosed r)
Reach-IsClosed (next r (revokes_token c token)) =
    revoke_by_token-IsClosed c token _ (Reach-IsClosed r)
Reach-IsClosed (next r (revokes_user c user)) =
    revoke_by_user_id-IsClosed c user _ (Reach-IsClosed r)
Reach-IsClosed (next r (deletes_user c user)) =
    delete_by_user_id-IsClosed c user _ (Reach-IsClosed r)

and-right : (a b : Bool) → a && b ≡ true → b ≡ true
and-right true b h = h
and-right false b h = cc h

find-IsClosed :
    (token : String) (rows : List Session) {s : Session}
    → All IsClosed rows
    → find (is_live_token token) rows ≡ some s
    → s.revoked ≡ false
find-IsClosed token [] h found = cc found
find-IsClosed token (r ∷ rows) {s} h found = elim (Bool-cases (is_live_token token r)) [
  | inl hit ↦
      let live : is_null r.deleted_at ≡ true = and-right (has_token token r) _ hit in
      let open_row : r.revoked ≡ false = h.0 live in
      let same : some r ≡ some s = rw hit at found in cc (open_row, same)
  | inr miss ↦ find-IsClosed token rows h.1 (rw miss at found)
]

-- Where the replica has a table that the operations make, no session that is found is revoked.
pub find_by_token-IsClosed :
    {replica : List Session}
    → Reach replica
    → (o : Outcome) (token : String) {s : Session} → find_by_token o token replica ≡ ok s
    → s.revoked ≡ false
unfolding find_by_token
find_by_token-IsClosed {replica} r o token {s} h = from_scan o _ refl h
  where
    from_scan :
        (o : Outcome) (row : Option Session)
        → find (is_live_token token) replica ≡ row
        → scan o row ≡ ok s
        → s.revoked ≡ false
    from_scan done none found h = cc h
    from_scan done (some row) found h =
        let same : ok row ≡ ok s = h in
        let open_row : row.revoked ≡ false = find-IsClosed token replica (Reach-IsClosed r) found in
        cc (open_row, same)
    from_scan (refused e) row found h = cc h
    from_scan (lost e) row found h = cc h
