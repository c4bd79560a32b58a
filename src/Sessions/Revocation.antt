-- ===== src/Sessions/Revocation.antt =====
-- What ends sessions ends them.
use vussa.Base.{
  ◌==◌, ◌≡◌, refl, true, false, not, Option, none, some, List, [], ◌∷◌, map, keep, any, all, arith,
  Bool-cases, inl, inr, ==_iff,
}
use vussa.Models.{Uuid, Json, Session}
use vussa.Error.{Result, ok, err}
use vussa.Rooms.{Answer, succeeded}
use vussa.Sessions.{
  Codec, StoredSession, IndexEntry, Store, stored_session, has_session_id, is_entry, session_ids,
  InvalidateAnswers, handle_auth_invalidate, delete_sessions, delete_listed, called, payload_id,
  delete_entries, end_published,
}
use vussa.Sessions.Owned.{owns, owned_by, HasNone, IsIndexed, is_listed}

module _ (c : Codec) where
  session_ids-entry :
      (user id : Uuid) (index : List IndexEntry)
      → any (is_entry user id) index ≡ true
      → any (λ x. id == x) (map (λ e. e.session_id) (keep (λ e. e.user_id == user) index)) ≡ true
  unfolding keep
  session_ids-entry user id [] h = ground arith
  session_ids-entry user id (e ∷ index) h = ground (arith, session_ids-entry user id index)

  listed-owned :
      (user id : Uuid) (index : List IndexEntry) (found : Option Session)
      → is_listed c index id found ≡ true
      → owns c user found ≡ true
      → any (is_entry user id) index ≡ true
  listed-owned user id index none h k = ground arith
  listed-owned user id index (some session) h k =
      let e = (==_iff session.user.id user).0 k in rw e at h

  keep-HasNone :
      (user : Uuid) (index : List IndexEntry) (ids : List Uuid) (ks : List StoredSession)
      → ((id : Uuid) → any (is_entry user id) index ≡ true → any (λ x. id == x) ids ≡ true)
      → all (λ k. is_listed c index k.id (stored_session c k.id (some k))) ks ≡ true
      → any (owned_by c user) (keep (λ k. not (any (λ id. has_session_id id k) ids)) ks) ≡ false
  unfolding keep
  keep-HasNone user index ids [] covered h = refl
  keep-HasNone user index ids (k ∷ ks) covered h = ground (
    arith,
    covered k.id,
    listed-owned user k.id index (stored_session c k.id (some k)),
    keep-HasNone user index ids ks covered,
  )

  -- What is left once the members of the set of a user are deleted.
  pub delete_sessions-HasNone :
      (user : Uuid) (s : Store)
      → IsIndexed c s
      → HasNone c user (delete_sessions (session_ids user s) s)
  delete_sessions-HasNone user s h =
      keep-HasNone user s.user_sessions (session_ids user s) s.sessions
        (λ id. session_ids-entry user id s.user_sessions) h

  -- If the answer is a success, the store has no session of the user.
  abbrev pub IsRevoked : Uuid → Result (Unit {0}) × Store → Type 0
  IsRevoked user (ok a, s) = HasNone c user s
  IsRevoked user (err e, s) = Unit

  called-IsRevoked :
      (user : Uuid) (a : Answer) (f : Store → Store) (next : Store → Result (Unit {0}) × Store)
      (s : Store)
      → IsRevoked user (next (f s))
      → IsRevoked user (called a f next s)
  called-IsRevoked user Answer.done f next s h = h
  called-IsRevoked user Answer.refused f next s h = tt
  called-IsRevoked user Answer.failed_late f next s h = tt

  keep_nothing :
      (user : Uuid) (ks : List StoredSession)
      → any (owned_by c user) (keep (λ k. true) ks) ≡ false
      → any (owned_by c user) ks ≡ false
  unfolding keep
  keep_nothing user [] h = refl
  keep_nothing user (k ∷ ks) h = ground (arith, keep_nothing user ks)

  delete_listed-IsRevoked :
      (user : Uuid) (a : Answer) (next : Store → Result (Unit {0}) × Store) (s : Store)
      → ((t : Store) → HasNone c user t → IsRevoked user (next t))
      → (ids : List Uuid) → HasNone c user (delete_sessions ids s)
      → IsRevoked user (delete_listed a ids next s)
  delete_listed-IsRevoked user a next s h [] none_left =
      h s (keep_nothing user s.sessions none_left)
  delete_listed-IsRevoked user a next s h (id ∷ ids) none_left =
      called-IsRevoked user a (delete_sessions (id ∷ ids)) next s (h _ none_left)

  end_published-IsRevoked :
      (user : Uuid) (a : Answer) (s : Store) → HasNone c user s → IsRevoked user (end_published a s)
  end_published-IsRevoked user Answer.done s h = h
  end_published-IsRevoked user Answer.refused s h = tt
  end_published-IsRevoked user Answer.failed_late s h = tt

  -- If every session is in the set of its user, and the event names this user: once it is handled
  -- with success, the store has no session of the user, whatever Valkey answered to the calls.
  pub handle_auth_invalidate-IsRevoked :
      (a : InvalidateAnswers) (payload : Json) (user : Uuid) (s : Store)
      → payload_id c "user_id" payload ≡ some user
      → IsIndexed c s
      → IsRevoked user (handle_auth_invalidate c a payload s)
  unfolding handle_auth_invalidate
  handle_auth_invalidate-IsRevoked a payload user s named indexed =
      rw named (elim (Bool-cases (succeeded a.smembers)) [
        | inl read ↦ rw read (
            delete_listed-IsRevoked user a.del _ s
              (λ t none_left.
                called-IsRevoked user a.del_set (delete_entries user) (end_published a.publish) t
                  (end_published-IsRevoked user a.publish (delete_entries user t) none_left))
              (session_ids user s) (delete_sessions-HasNone user s indexed))
        | inr unread ↦ rw unread tt
      ])
