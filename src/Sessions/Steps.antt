-- ===== src/Sessions/Steps.antt =====
-- The requests of all users on one store, in any order, and what Valkey drops.
use vussa.Base.{ℕ, ◌≡◌, refl, String, Bool, true, Option, some, [], keep, all}
use vussa.Models.{Uuid, Json, AuthUser, Session}
use vussa.Error.{Result, ok, err}
use vussa.Rooms.{Answer}
use vussa.Sessions.{
  Codec, StoredSession, Store, InvalidateAnswers, handle_auth_invalidate, payload_id,
  end_other_sessions, logout, revoke_session, create_session, put_session, load_session, hset_user,
  update_account,
}
use vussa.Sessions.Owned.{IsIndexed, is_not_of, load_session-HasNone}
use vussa.Sessions.Revocation.{IsRevoked, handle_auth_invalidate-IsRevoked}
use vussa.Sessions.Ended.{handle_auth_invalidate-IsIndexed}
use vussa.Sessions.Kept.{load-IsIndexed, put_session-IsIndexed, effect-IsIndexed}
use vussa.Sessions.Renamed.{is_own, KeepsId, rename-IsIndexed, update_account-IsIndexed}
use vussa.Sessions.Indexed.{
  deleted-IsIndexed, logout-IsIndexed, revoke_session-IsIndexed, end_other_sessions-IsIndexed,
}

abbrev pub empty_store : Store
empty_store = record { sessions = []; user_sessions = [] }

module _ (c : Codec) where
  -- One request, or the loss of sessions that have expired. A session is created for a user who reads
  -- back from what is written. A user is renamed in one step, or the new name is written late, when
  -- the session may have ended: an identifier is not used for a session of another user, so a hash of
  -- the identifier that has a token is of the user who is written.
  pub data Step (s : Store) : Store → Type 0 where
    create :
        (a : Answer) (now : ℕ) (id : Uuid) (csrf : String) (user : AuthUser)
        → c.decode (c.encode user) ≡ some user
        → Step s (create_session c a now id csrf user s).1
    load :
        (hmget expire : Answer) (now : ℕ) (cookie : Option String)
        → Step s (load_session c hmget expire now cookie s).1
    sign_out : (del srem : Answer) (session : Session) → Step s (logout del srem session s).1
    revoke :
        (del srem : Answer) (session : Session) (id : Uuid)
        → Step s (revoke_session del srem session id s).1
    sign_out_others :
        (smembers : Answer) (del srem : Uuid → Answer) (session : Session)
        → Step s (end_other_sessions smembers del srem session s).1
    auth_invalidate :
        (a : InvalidateAnswers) (payload : Json) → Step s (handle_auth_invalidate c a payload s).1
    update :
        (hset hmget expire : Answer) (now later : ℕ) (username : String)
        (answer : Session → Result (Unit {0})) (cookie : Option String)
        → KeepsId c
        → Step s (update_account c hset later username answer hmget expire now cookie s).1
    rename :
        (now : ℕ) (id : Uuid) (text : String) (user : AuthUser)
        → c.decode text ≡ some user
        → all (is_own c id user.id) s.sessions ≡ true
        → Step s (hset_user now id text s)
    drop : (p : StoredSession → Bool) → Step s (record s { sessions = keep p s.sessions })

  pub data Steps (s : Store) : Store → Type 0 where
    here : Steps s s
    more : {t u : Store} → Steps s t → Step t u → Steps s u

  Step-IsIndexed : {s t : Store} → Step s t → IsIndexed c s → IsIndexed c t
  unfolding create_session
  Step-IsIndexed {s} (create a now id csrf user decodes) h =
      effect-IsIndexed c a (put_session c now id csrf user) s h
        (put_session-IsIndexed c now id csrf user s decodes h)
  Step-IsIndexed {s} (load hmget expire now cookie) h = load-IsIndexed c hmget expire now cookie s h
  Step-IsIndexed {s} (sign_out del srem session) h = logout-IsIndexed c del srem session s h
  Step-IsIndexed {s} (revoke del srem session id) h =
      revoke_session-IsIndexed c del srem session id s h
  Step-IsIndexed {s} (sign_out_others smembers del srem session) h =
      end_other_sessions-IsIndexed c smembers del srem session s h
  Step-IsIndexed {s} (auth_invalidate a payload) h =
      handle_auth_invalidate-IsIndexed c a payload s h
  Step-IsIndexed {s} (update hset hmget expire now later username answer cookie keeps) h =
      update_account-IsIndexed c hset later username answer hmget expire now cookie s keeps h
  Step-IsIndexed {s} (rename now id text user decodes own) h =
      rename-IsIndexed c now id text user s decodes own h
  Step-IsIndexed {s} (drop p) h = deleted-IsIndexed c s p h

  -- Whatever steps have run on the store, and whatever Valkey answered to them, every session is in
  -- the set of its user, if it was so before. The steps are the requests that create, load, rename or
  -- end sessions, each run as a whole, the late write of a new name, where no hash of the identifier
  -- that has a token is of another user, the handling of an invalidation and the loss of sessions. A
  -- user for whom a session is created reads back, and one that is renamed keeps the identifier.
  pub Steps-IsIndexed : {s t : Store} → Steps s t → IsIndexed c s → IsIndexed c t
  Steps-IsIndexed here h = h
  Steps-IsIndexed (more steps step) h = Step-IsIndexed step (Steps-IsIndexed steps h)

  -- If it was handled with success, the store lets nobody in as the user.
  abbrev pub IsShutOut :
      Answer → Answer → ℕ → Option String → Uuid → Result (Unit {0}) × Store → Type 0
  IsShutOut hmget expire now cookie user (ok a, s) =
      is_not_of c user (load_session c hmget expire now cookie s).0 ≡ true
  IsShutOut hmget expire now cookie user (err e, s) = Unit

  shut_out :
      (hmget expire : Answer) (now : ℕ) (cookie : Option String) (user : Uuid)
      (o : Result (Unit {0}) × Store)
      → IsRevoked c user o
      → IsShutOut hmget expire now cookie user o
  shut_out hmget expire now cookie user (ok a, s) h =
      load_session-HasNone c hmget expire user now cookie s h
  shut_out hmget expire now cookie user (err e, s) h = tt

  -- Whatever requests have run since the store was empty: once an event that names a user has been
  -- handled with success, no cookie is let in as this user.
  pub handle_auth_invalidate-IsShutOut :
      {s : Store} (a : InvalidateAnswers) (hmget expire : Answer) (payload : Json) (user : Uuid)
      (now : ℕ) (cookie : Option String)
      → Steps empty_store s
      → payload_id c "user_id" payload ≡ some user
      → IsShutOut hmget expire now cookie user (handle_auth_invalidate c a payload s)
  handle_auth_invalidate-IsShutOut {s} a hmget expire payload user now cookie steps named =
      shut_out hmget expire now cookie user (handle_auth_invalidate c a payload s)
        (handle_auth_invalidate-IsRevoked c a payload user s named (Steps-IsIndexed steps refl))
