-- ===== src/Sessions.antt =====
-- backend/src/auth.rs, backend/src/api/account.rs and backend/src/outbox.rs: the sessions in Valkey,
-- a hash `vussa:session:{id}` for each and a set `vussa:user_sessions:{user}` of their identifiers.
-- A call to Valkey may report an error and have taken effect; the calls of one request see one time,
-- in seconds, but for the write of `update_account`. The sets hold only identifiers that the code
-- wrote.
pub mod Owned
pub mod Revocation
pub mod Indexed
pub mod Steps
pub mod Kept
pub mod Renamed
pub mod Ended
pub mod Csrf
pub mod Lifetime
pub mod Invalidation
use vussa.Base.{
  ℕ, ◌+◌, ◌*◌, ◌==◌, String, str_eq, Bool, true, false, not, ◌&&◌, Option, none, some, List, [],
  ◌∷◌, map, keep, find, any, if◌then◌else◌,
}
use vussa.Models.{Uuid, Json, Fields, AuthUser, Session}
use vussa.Error.{Result, ok, err, unauthorized, bad_request, from_redis_error}
use vussa.Database.Tables.{update}
use vussa.RateLimit.{is_expired}
use vussa.Rooms.{Answer, succeeded, took_effect}

-- `serde_json` on users, and the texts of identifiers.
pub record Codec : Type 0 where
  pub encode : AuthUser → String
  pub decode : String → Option AuthUser
  pub uuid_text : Uuid → String
  pub parse_uuid : String → Option Uuid

pub record StoredSession : Type 0 where
  pub id : Uuid
  pub csrf : Option String
  pub user : Option String
  pub expires : Option ℕ

pub record IndexEntry : Type 0 where
  pub user_id : Uuid
  pub session_id : Uuid

pub record Store : Type 0 where
  pub sessions : List StoredSession
  pub user_sessions : List IndexEntry

abbrev pub session_ttl_seconds : ℕ
session_ttl_seconds = 60 * 60 * 24 * 14

abbrev pub has_session_id : Uuid → StoredSession → Bool
has_session_id id k = k.id == id

abbrev pub is_entry : Uuid → Uuid → IndexEntry → Bool
is_entry user session e = e.user_id == user && e.session_id == session

-- What a call does to the store: a call that reports an error may have taken effect.
abbrev pub effect {ℓ} : {A : Type ℓ} → Answer → (A → A) → A → A
effect a f s = if took_effect a then f s else s

-- `DEL session_key(id)`.
abbrev pub delete_session : Uuid → Store → Store
delete_session id s = record s { sessions = keep (λ k. not (has_session_id id k)) s.sessions }

-- `DEL` with several keys.
abbrev pub delete_sessions : List Uuid → Store → Store
delete_sessions ids s = record s {
  sessions = keep (λ k. not (any (λ id. has_session_id id k) ids)) s.sessions;
}

-- `SREM vussa:user_sessions:{user} id`.
abbrev pub remove_entry : Uuid → Uuid → Store → Store
remove_entry user id s = record s {
  user_sessions = keep (λ e. not (is_entry user id e)) s.user_sessions;
}

-- `DEL vussa:user_sessions:{user}`.
abbrev pub delete_entries : Uuid → Store → Store
delete_entries user s = record s {
  user_sessions = keep (λ e. not (e.user_id == user)) s.user_sessions;
}

-- `SADD vussa:user_sessions:{user} id`.
abbrev pub add_entry : Uuid → Uuid → List IndexEntry → List IndexEntry
add_entry user id index =
    if any (is_entry user id) index
    then index
    else record { user_id = user; session_id = id } ∷ index

-- `smembersERS vussa:user_sessions:{user}`.
abbrev pub session_ids : Uuid → Store → List Uuid
session_ids user s = map (λ e. e.session_id) (keep (λ e. e.user_id == user) s.user_sessions)

-- `EXPIRE session_key(id) SESSION_TTL_SECONDS`, which does nothing where the key is not there.
abbrev pub expire_session : ℕ → Uuid → Store → Store
expire_session now id s = record s {
  sessions =
      update (λ k. has_session_id id k && not (is_expired now k.expires))
        (λ k. record k { expires = some (now + session_ttl_seconds) }) s.sessions;
}

-- The hash of a session that has not expired.
unfoldable pub get_session : ℕ → Uuid → Store → Option StoredSession
get_session now id s = find (λ k. has_session_id id k && not (is_expired now k.expires)) s.sessions

module _ (c : Codec) where
  abbrev pub decoded_user : Option String → Option AuthUser
  decoded_user none = none
  decoded_user (some text) = c.decode text

  abbrev pub session_of_fields : Uuid → Option String → Option AuthUser → Option Session
  session_of_fields id none user = none
  session_of_fields id (some csrf) none = none
  session_of_fields id (some csrf) (some user) = some (record { id = id; csrf = csrf; user = user })

  -- What `HMGET session_key(id) csrf user` has of a session.
  abbrev pub stored_session : Uuid → Option StoredSession → Option Session
  stored_session id none = none
  stored_session id (some k) = session_of_fields id k.csrf (decoded_user k.user)

  unfoldable pub read_session : ℕ → Uuid → Store → Option Session
  read_session now id s = stored_session id (get_session now id s)

  abbrev pub refreshed : Answer → ℕ → Uuid → Store → Option Session → Result Session × Store
  refreshed expire now id s none = (err (unauthorized "session expired"), s)
  refreshed expire now id s (some session) = (
    (if succeeded expire then ok session else err from_redis_error),
    effect expire (expire_session now id) s,
  )

  abbrev pub load_by_id : Answer → Answer → ℕ → Option Uuid → Store → Result Session × Store
  load_by_id hmget expire now none s = (err (unauthorized "authentication required"), s)
  load_by_id hmget expire now (some id) s =
      if succeeded hmget
      then refreshed expire now id s (read_session now id s)
      else (err from_redis_error, s)

  abbrev pub parsed : Option String → Option Uuid
  parsed none = none
  parsed (some raw) = c.parse_uuid raw

  -- `cookie` is the cookie `vussa_session` of the request.
  unfoldable pub load_session : Answer → Answer → ℕ → Option String → Store → Result Session × Store
  load_session hmget expire now cookie s = load_by_id hmget expire now (parsed cookie) s

  abbrev pub new_session : ℕ → Uuid → String → AuthUser → StoredSession
  new_session now id csrf user = record {
    id = id;
    csrf = some csrf;
    user = some (c.encode user);
    expires = some (now + session_ttl_seconds);
  }

  -- `HSET`, `EXPIRE` and `SADD` in one transaction.
  abbrev pub put_session : ℕ → Uuid → String → AuthUser → Store → Store
  put_session now id csrf user s = record {
    sessions = new_session now id csrf user ∷ (delete_session id s).sessions;
    user_sessions = add_entry user.id id s.user_sessions;
  }

  -- The new identifier and the random token are given.
  unfoldable pub create_session :
      Answer → ℕ → Uuid → String → AuthUser → Store → Result (Uuid × String) × Store
  create_session a now id csrf user s = (
    (if succeeded a then ok (id, csrf) else err from_redis_error),
    effect a (put_session now id csrf user) s,
  )

  abbrev pub as_user_id : Json → Option Uuid
  as_user_id (Json.text value) = c.parse_uuid value
  as_user_id other = none

  abbrev pub field_of : String → Fields → Option Uuid
  field_of name Fields.end = none
  field_of name (Fields.field key value rest) =
      if str_eq key name then as_user_id value else field_of name rest

  -- `payload.get(name)`, as a text, as an identifier.
  abbrev pub payload_id : String → Json → Option Uuid
  payload_id name (Json.object fields) = field_of name fields
  payload_id name other = none

-- `DEL` of one call, then what follows.
abbrev pub called :
    Answer
    → (Store → Store)
    → (Store → Result (Unit {0}) × Store)
    → Store
    → Result (Unit {0}) × Store
called a f next s = if succeeded a then next (f s) else (err from_redis_error, effect a f s)

-- No call is made for an empty set.
abbrev pub delete_listed :
    Answer → List Uuid → (Store → Result (Unit {0}) × Store) → Store → Result (Unit {0}) × Store
delete_listed a [] next s = next s
delete_listed a (id ∷ ids) next s = called a (delete_sessions (id ∷ ids)) next s

-- What Valkey answers to the calls of `handle_auth_invalidate`, in their order.
pub record InvalidateAnswers : Type 0 where
  pub smembers : Answer
  pub del : Answer
  pub del_set : Answer
  pub publish : Answer

-- `PUBLISH auth.invalidate`.
abbrev pub end_published : Answer → Store → Result (Unit {0}) × Store
end_published a s = ((if succeeded a then ok tt else err from_redis_error), s)

abbrev pub invalidate : InvalidateAnswers → Option Uuid → Store → Result (Unit {0}) × Store
invalidate a none s = (err (bad_request "invalid auth invalidation payload"), s)
invalidate a (some user) s =
    if succeeded a.smembers
    then delete_listed a.del (session_ids user s)
        (called a.del_set (delete_entries user) (end_published a.publish)) s
    else (err from_redis_error, s)

unfoldable pub handle_auth_invalidate :
    Codec → InvalidateAnswers → Json → Store → Result (Unit {0}) × Store
handle_auth_invalidate c a payload s = invalidate a (payload_id c "user_id" payload) s

-- `Ok(…)` after the last call.
abbrev pub all_done : Store → Result (Unit {0}) × Store
all_done s = (ok tt, s)

-- `logout` and `revoke_session` once the request is authenticated: both delete a session and take it
-- out of the set of the caller.
abbrev pub end_session : Answer → Answer → Uuid → Uuid → Store → Result (Unit {0}) × Store
end_session del srem caller id s =
    called del (delete_session id) (called srem (remove_entry caller id) all_done) s

unfoldable pub logout : Answer → Answer → Session → Store → Result (Unit {0}) × Store
logout del srem session s = end_session del srem session.user.id session.id s

unfoldable pub revoke_session : Answer → Answer → Session → Uuid → Store → Result (Unit {0}) × Store
revoke_session del srem session id s =
    if id == session.id
    then (err (bad_request "use logout to revoke the current session"), s)
    else end_session del srem session.user.id id s

-- The loop of `change_password` over the other sessions of the user.
abbrev pub end_others :
    (Uuid → Answer) → (Uuid → Answer) → Session → List Uuid → Store → Result (Unit {0}) × Store
end_others del srem session [] s = (ok tt, s)
end_others del srem session (id ∷ ids) s =
    if id == session.id
    then end_others del srem session ids s
    else called (del id) (delete_session id)
        (called (srem id) (remove_entry session.user.id id) (end_others del srem session ids)) s

unfoldable pub end_other_sessions :
    Answer → (Uuid → Answer) → (Uuid → Answer) → Session → Store → Result (Unit {0}) × Store
end_other_sessions smembers del srem session s =
    if succeeded smembers
    then end_others del srem session (session_ids session.user.id s) s
    else (err from_redis_error, s)

abbrev pub set_user : Uuid → String → Bool → Store → Store
set_user id text true s = record s {
  sessions = update (has_session_id id) (λ k. record k { user = some text }) s.sessions;
}
set_user id text false s = record s {
  sessions =
      record { id = id; csrf = none; user = some text; expires = none }
      ∷ (delete_session id s).sessions;
}

-- `HSET session_key(id) user …`, which makes a new key where there is none.
unfoldable pub hset_user : ℕ → Uuid → String → Store → Store
hset_user now id text s =
    set_user id text (any (λ k. has_session_id id k && not (is_expired now k.expires)) s.sessions) s

-- `update_account`. `answer` is what `require_csrf`, `validate_username` and `update_username`, which
-- is a statement of the database, answer to the session. The user is written under the key of the
-- session at a later time than the one at which it was read.
module _ (c : Codec) (hset : Answer) (later : ℕ) (username : String) where
  abbrev pub with_username : AuthUser → AuthUser
  with_username user = record user { username = username }

  abbrev pub rename_user : Session → Store → Store
  rename_user session = hset_user later session.id (c.encode (with_username session.user))

  abbrev pub rename_checked : Session → Result (Unit {0}) → Store → Result AuthUser × Store
  rename_checked session (err e) s = (err e, s)
  rename_checked session (ok done) s = (
    (if succeeded hset then ok (with_username session.user) else err from_redis_error),
    effect hset (rename_user session) s,
  )

  abbrev pub rename_loaded :
      (Session → Result (Unit {0})) → Result Session × Store → Result AuthUser × Store
  rename_loaded answer (err e, s) = (err e, s)
  rename_loaded answer (ok session, s) = rename_checked session (answer session) s

  unfoldable pub update_account :
      (Session → Result (Unit {0}))
      → Answer
      → Answer
      → ℕ
      → Option String
      → Store
      → Result AuthUser × Store
  update_account answer hmget expire now cookie s =
      rename_loaded answer (load_session c hmget expire now cookie s)
