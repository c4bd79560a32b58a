-- ===== src/Sessions/Kept.antt =====
-- Creating and loading a session keep every session in the set of its user.
use vussa.Base.{
  ℕ, ◌+◌, ◌≡◌, refl, String, true, not, ◌&&◌, Option, none, some, List, [], ◌∷◌, any, all, arith,
  Bool-cases, Option-cases, inl, inr, ==_refl,
}
use vussa.Models.{Uuid, AuthUser, Session}
use vussa.Database.Tables.{update}
use vussa.RateLimit.{is_expired}
use vussa.Rooms.{Answer, succeeded}
use vussa.Sessions.{
  Codec, StoredSession, IndexEntry, Store, stored_session, has_session_id, is_entry, delete_session,
  add_entry, put_session, load_session, expire_session, effect, session_ttl_seconds, parsed,
  refreshed, read_session,
}
use vussa.Sessions.Owned.{IsIndexed, is_listed}
use vussa.Sessions.Indexed.{indexed, deleted-IsIndexed}

module _ (c : Codec) where
  listed-cons :
      (e : IndexEntry) (index : List IndexEntry) (id : Uuid) (found : Option Session)
      → is_listed c index id found ≡ true
      → is_listed c (e ∷ index) id found ≡ true
  listed-cons e index id none h = refl
  listed-cons e index id (some session) h = ground arith

  indexed-cons :
      (e : IndexEntry) (index : List IndexEntry) (ks : List StoredSession)
      → all (indexed c index) ks ≡ true
      → all (indexed c (e ∷ index)) ks ≡ true
  indexed-cons e index [] h = refl
  indexed-cons e index (k ∷ ks) h =
      ground
        (arith, listed-cons e index k.id (stored_session c k.id (some k)), indexed-cons e index ks)

  add-indexed :
      (user id : Uuid) (index : List IndexEntry) (ks : List StoredSession)
      → all (indexed c index) ks ≡ true
      → all (indexed c (add_entry user id index)) ks ≡ true
  add-indexed user id index ks h = elim (Bool-cases (any (is_entry user id) index)) [
    | inl there ↦ rw there h
    | inr absent ↦ rw absent (indexed-cons (record { user_id = user; session_id = id }) index ks h)
  ]

  add-there :
      (user id : Uuid) (index : List IndexEntry)
      → any (is_entry user id) (add_entry user id index) ≡ true
  add-there user id index = elim (Bool-cases (any (is_entry user id) index)) [
    | inl there ↦ rw (there, there) refl
    | inr absent ↦ rw (absent, ==_refl user, ==_refl id) refl
  ]

  pub effect-IsIndexed :
      (a : Answer) (f : Store → Store) (s : Store)
      → IsIndexed c s
      → IsIndexed c (f s)
      → IsIndexed c (effect a f s)
  effect-IsIndexed Answer.done f s h k = k
  effect-IsIndexed Answer.refused f s h k = h
  effect-IsIndexed Answer.failed_late f s h k = k

  expire-indexed :
      (index : List IndexEntry) (now : ℕ) (id : Uuid) (ks : List StoredSession)
      → all (indexed c index) ks ≡ true
      → all (indexed c index) (
          update
            (λ k. has_session_id id k && not (is_expired now k.expires))
            (λ k. record k { expires = some (now + session_ttl_seconds) })
            ks)
        ≡ true
  unfolding update
  expire-indexed index now id [] h = refl
  expire-indexed index now id (k ∷ ks) h =
      elim (Bool-cases (has_session_id id k && not (is_expired now k.expires))) [
        | inl hit ↦ rw hit (ground (arith, expire-indexed index now id ks))
        | inr miss ↦ rw miss (ground (arith, expire-indexed index now id ks))
      ]

  refreshed-IsIndexed :
      (expire : Answer) (now : ℕ) (id : Uuid) (s : Store) (found : Option Session)
      → IsIndexed c s
      → IsIndexed c (refreshed c expire now id s found).1
  refreshed-IsIndexed expire now id s none h = h
  refreshed-IsIndexed expire now id s (some session) h =
      effect-IsIndexed expire (expire_session now id) s h
        (expire-indexed s.user_sessions now id s.sessions h)

  pub load-IsIndexed :
      (hmget expire : Answer) (now : ℕ) (cookie : Option String) (s : Store)
      → IsIndexed c s
      → IsIndexed c (load_session c hmget expire now cookie s).1
  unfolding load_session
  load-IsIndexed hmget expire now cookie s h = elim (Option-cases (parsed c cookie)) [
    | inl e ↦ rw e h
    | inr (id, e) ↦ rw e (elim (Bool-cases (succeeded hmget)) [
      | inl read ↦ rw read (refreshed-IsIndexed expire now id s (read_session c now id s) h)
      | inr unread ↦ rw unread h
    ])
  ]

  pub put_session-IsIndexed :
      (now : ℕ) (id : Uuid) (csrf : String) (user : AuthUser) (s : Store)
      → c.decode (c.encode user) ≡ some user
      → IsIndexed c s
      → IsIndexed c (put_session c now id csrf user s)
  put_session-IsIndexed now id csrf user s decodes h =
      rw (decodes, add-there user.id id s.user_sessions)
        (add-indexed user.id id s.user_sessions (delete_session id s).sessions
          (deleted-IsIndexed c s (λ k. not (has_session_id id k)) h))
