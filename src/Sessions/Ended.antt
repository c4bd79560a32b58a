-- ===== src/Sessions/Ended.antt =====
-- The handling of an invalidation keeps every session in the set of its user.
use vussa.Base.{
  ◌==◌, ◌≡◌, refl, true, false, not, Option, none, some, List, [], ◌∷◌, keep, any, all, arith,
  Bool-cases, inl, inr,
}
use vussa.Models.{Uuid, Json, Session}
use vussa.Rooms.{Answer, succeeded}
use vussa.Sessions.{
  Codec, StoredSession, IndexEntry, Store, stored_session, has_session_id, is_entry, session_ids,
  InvalidateAnswers, invalidate, handle_auth_invalidate, delete_sessions, delete_listed, called,
  payload_id, delete_entries, end_published,
}
use vussa.Sessions.Owned.{IsIndexed, is_listed, HasNone, owned_by, owns}
use vussa.Sessions.Revocation.{delete_sessions-HasNone}
use vussa.Sessions.Indexed.{indexed, called-IsIndexed, deleted-IsIndexed}

module _ (c : Codec) where
  entry-delete :
      (user other id : Uuid) (index : List IndexEntry)
      → any (is_entry other id) index ≡ true
      → (other == user) ≡ false
      → any (is_entry other id) (keep (λ e. not (e.user_id == user)) index) ≡ true
  unfolding keep
  entry-delete user other id [] h d = h
  entry-delete user other id (e ∷ index) h d = ground (arith, entry-delete user other id index)

  listed-delete :
      (user id : Uuid) (index : List IndexEntry) (found : Option Session)
      → is_listed c index id found ≡ true
      → owns c user found ≡ false
      → is_listed c (keep (λ e. not (e.user_id == user)) index) id found ≡ true
  listed-delete user id index none h d = refl
  listed-delete user id index (some session) h d = entry-delete user session.user.id id index h d

  -- The set of a user without sessions can go.
  delete_entries-indexed :
      (user : Uuid) (index : List IndexEntry) (ks : List StoredSession)
      → all (indexed c index) ks ≡ true
      → any (owned_by c user) ks ≡ false
      → all (indexed c (keep (λ e. not (e.user_id == user)) index)) ks ≡ true
  delete_entries-indexed user index [] h d = refl
  delete_entries-indexed user index (k ∷ ks) h d = ground (
    arith,
    listed-delete user k.id index (stored_session c k.id (some k)),
    delete_entries-indexed user index ks,
  )

  keep_all-HasNone :
      (user : Uuid) (ks : List StoredSession)
      → any (owned_by c user) (keep (λ k. true) ks) ≡ false
      → any (owned_by c user) ks ≡ false
  unfolding keep
  keep_all-HasNone user [] h = refl
  keep_all-HasNone user (k ∷ ks) h = ground (arith, keep_all-HasNone user ks)

  end_published-IsIndexed :
      (a : Answer) (s : Store) → IsIndexed c s → IsIndexed c (end_published a s).1
  end_published-IsIndexed a s h = h

  delete_set-IsIndexed :
      (del_set publish : Answer) (user : Uuid) (s : Store)
      → IsIndexed c s
      → HasNone c user s
      → IsIndexed c (called del_set (delete_entries user) (end_published publish) s).1
  delete_set-IsIndexed del_set publish user s h none_left =
      let deleted = delete_entries-indexed user s.user_sessions s.sessions h none_left in
      called-IsIndexed c del_set (delete_entries user) (end_published publish) s h deleted
        (end_published-IsIndexed publish (delete_entries user s) deleted)

  delete_listed-IsIndexed :
      (a : InvalidateAnswers) (user : Uuid) (s : Store) (ids : List Uuid)
      → IsIndexed c s
      → HasNone c user (delete_sessions ids s)
      → IsIndexed c
          (delete_listed a.del ids
            (called a.del_set (delete_entries user) (end_published a.publish))
            s).1
  delete_listed-IsIndexed a user s [] h none_left =
      delete_set-IsIndexed a.del_set a.publish user s h (keep_all-HasNone user s.sessions none_left)
  delete_listed-IsIndexed a user s (id ∷ ids) h none_left =
      let deleted = deleted-IsIndexed c s (λ k. not (any (λ x. has_session_id x k) (id ∷ ids))) h in
      called-IsIndexed c a.del (delete_sessions (id ∷ ids))
        (called a.del_set (delete_entries user) (end_published a.publish)) s h deleted
        (delete_set-IsIndexed a.del_set a.publish user (delete_sessions (id ∷ ids) s) deleted
          none_left)

  invalidate-IsIndexed :
      (a : InvalidateAnswers) (user : Option Uuid) (s : Store)
      → IsIndexed c s
      → IsIndexed c (invalidate a user s).1
  invalidate-IsIndexed a none s h = h
  invalidate-IsIndexed a (some user) s h = elim (Bool-cases (succeeded a.smembers)) [
    | inl read ↦ rw read (
        delete_listed-IsIndexed a user s (session_ids user s) h
          (delete_sessions-HasNone c user s h))
    | inr unread ↦ rw unread h
  ]

  pub handle_auth_invalidate-IsIndexed :
      (a : InvalidateAnswers) (payload : Json) (s : Store)
      → IsIndexed c s
      → IsIndexed c (handle_auth_invalidate c a payload s).1
  unfolding handle_auth_invalidate
  handle_auth_invalidate-IsIndexed a payload s h =
      invalidate-IsIndexed a (payload_id c "user_id" payload) s h
