-- ===== src/Presence.antt =====
-- backend/src/websocket/presence.rs: who is in a channel, in a set of identifiers and a key for each of
-- them that expires. A call to Valkey may report an error and have taken effect; the calls of one
-- request see one time, in seconds. What is stored for a participant reads back.
pub mod Online
pub mod Shown
use vussa.Base.{
  ℕ, ◌+◌, ◌==◌, ltb, String, Bool, true, false, not, ◌&&◌, Option, none, some, List, [], ◌∷◌, keep,
  find, any, sort_by, if◌then◌else◌,
}
use vussa.Models.{Uuid, Participant}
use vussa.Error.{Result, ok, err, from_redis_error}
use vussa.Rooms.{Answer, succeeded, took_effect}
use vussa.Sessions.{effect}

abbrev pub presence_ttl_seconds : ℕ
presence_ttl_seconds = 45

-- `chat:presence:{channel}:{user}`.
pub record PresenceKey : Type 0 where
  pub user_id : Uuid
  pub participant : Participant
  pub expires : ℕ

-- What Valkey has of one channel.
pub record Present : Type 0 where
  pub users : List Uuid
  pub keys : List PresenceKey

abbrev pub without : Uuid → List PresenceKey → List PresenceKey
without user keys = keep (λ k. not (k.user_id == user)) keys

-- `SADD` and `SETEX` in one transaction.
abbrev pub put_presence : ℕ → Participant → Present → Present
put_presence now p s = record {
  users = if any (λ id. id == p.user_id) s.users then s.users else p.user_id ∷ s.users;
  keys =
      record { user_id = p.user_id; participant = p; expires = now + presence_ttl_seconds }
      ∷ without p.user_id s.keys;
}

-- `SREM` and `DEL` in one transaction.
abbrev pub drop_presence : Uuid → Present → Present
drop_presence user s = record {
  users = keep (λ id. not (id == user)) s.users;
  keys = without user s.keys;
}

abbrev pub answer : Answer → Result (Unit {0})
answer a = if succeeded a then ok tt else err from_redis_error

unfoldable pub refresh_presence : Answer → ℕ → Participant → Present → Result (Unit {0}) × Present
refresh_presence a now p s = (answer a, effect a (put_presence now p) s)

unfoldable pub remove_presence : Answer → Uuid → Present → Result (Unit {0}) × Present
remove_presence a user s = (answer a, effect a (drop_presence user) s)

abbrev pub is_live_key : ℕ → Uuid → PresenceKey → Bool
is_live_key now user k = k.user_id == user && ltb now k.expires

-- What `MGET` answers for a user.
unfoldable pub get_key : ℕ → List PresenceKey → Uuid → Option PresenceKey
get_key now keys user = find (is_live_key now user) keys

abbrev pub pushed : Option PresenceKey → List Participant → List Participant
pushed none rest = rest
pushed (some k) rest = k.participant ∷ rest

abbrev pub collect : ℕ → List PresenceKey → List Uuid → List Participant
collect now keys [] = []
collect now keys (id ∷ ids) = pushed (get_key now keys id) (collect now keys ids)

abbrev pub is_none : Option PresenceKey → Bool
is_none none = true
is_none (some k) = false

-- `SREM` of the identifiers without a key.
abbrev pub drop_stale : ℕ → Present → Present
drop_stale now s = record s { users = keep (λ id. not (is_none (get_key now s.keys id))) s.users }

-- `collates` is the order of texts, as `a.username.cmp(&b.username)` is not `Greater`.
module _ (collates : String → String → Bool) where
  abbrev pub listed : ℕ → Present → List Participant
  listed now s = sort_by (λ a b. collates a.username b.username) (collect now s.keys s.users)

  -- The set is left alone where no identifier is stale.
  abbrev pub removed : Answer → ℕ → Present → Result (List Participant) × Present
  removed srem now s =
      if any (λ id. is_none (get_key now s.keys id)) s.users
      then (
        (if succeeded srem then ok (listed now s) else err from_redis_error),
        effect srem (drop_stale now) s,
      )
      else (ok (listed now s), s)

  abbrev pub fetch_presences :
      Answer → Answer → ℕ → Present → List Uuid → Result (List Participant) × Present
  fetch_presences mget srem now s [] = (ok [], s)
  fetch_presences mget srem now s (id ∷ ids) =
      if succeeded mget then removed srem now s else (err from_redis_error, s)

  unfoldable pub list_presence :
      Answer → Answer → Answer → ℕ → Present → Result (List Participant) × Present
  list_presence smembers mget srem now s =
      if succeeded smembers
      then fetch_presences mget srem now s s.users
      else (err from_redis_error, s)
