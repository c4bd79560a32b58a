-- ===== src/Sessions/Indexed.antt =====
-- Every operation keeps every session in the set of its user.
use vussa.Base.{
  ◌==◌, ◌≡◌, refl, Bool, true, false, not, Option, none, some, List, [], ◌∷◌, keep, any, all, arith,
  Bool-cases, inl, inr, all-keep,
}
use vussa.Models.{Uuid, Session}
use vussa.Error.{Result}
use vussa.Rooms.{Answer}
use vussa.Sessions.{
  Codec, StoredSession, IndexEntry, Store, stored_session, has_session_id, is_entry, session_ids,
  called, delete_session, remove_entry, end_others, end_other_sessions, logout, revoke_session,
  all_done,
}
use vussa.Sessions.Owned.{IsIndexed, is_listed}

module _ (c : Codec) where
  abbrev pub indexed : List IndexEntry → StoredSession → Bool
  indexed index k = is_listed c index k.id (stored_session c k.id (some k))

  pub deleted-IsIndexed :
      (s : Store) (p : StoredSession → Bool)
      → IsIndexed c s
      → IsIndexed c (record s { sessions = keep p s.sessions })
  deleted-IsIndexed s p h = all-keep (indexed s.user_sessions) p s.sessions h

  entry-remove :
      (caller id user other : Uuid) (index : List IndexEntry)
      → any (is_entry user other) index ≡ true
      → (other == id) ≡ false
      → any (is_entry user other) (keep (λ e. not (is_entry caller id e)) index) ≡ true
  unfolding keep
  entry-remove caller id user other [] h d = h
  entry-remove caller id user other (e ∷ index) h d =
      ground (arith, entry-remove caller id user other index)

  listed-remove :
      (caller id other : Uuid) (index : List IndexEntry) (found : Option Session)
      → is_listed c index other found ≡ true
      → (other == id) ≡ false
      → is_listed c (keep (λ e. not (is_entry caller id e)) index) other found ≡ true
  listed-remove caller id other index none h d = refl
  listed-remove caller id other index (some session) h d =
      entry-remove caller id session.user.id other index h d

  -- No session of this identifier is left, so an entry for it is not missed.
  removed-IsIndexed :
      (caller id : Uuid) (index : List IndexEntry) (ks : List StoredSession)
      → all (indexed index) ks ≡ true
      → any (has_session_id id) ks ≡ false
      → all (indexed (keep (λ e. not (is_entry caller id e)) index)) ks ≡ true
  removed-IsIndexed caller id index [] h gone = refl
  removed-IsIndexed caller id index (k ∷ ks) h gone = ground (
    arith,
    listed-remove caller id k.id index (stored_session c k.id (some k)),
    removed-IsIndexed caller id index ks,
  )

  delete-gone :
      (id : Uuid) (ks : List StoredSession)
      → any (has_session_id id) (keep (λ k. not (has_session_id id k)) ks) ≡ false
  unfolding keep
  delete-gone id [] = refl
  delete-gone id (k ∷ ks) = ground (arith, delete-gone id ks)

  pub called-IsIndexed :
      (a : Answer) (f : Store → Store) (next : Store → Result (Unit {0}) × Store) (s : Store)
      → IsIndexed c s
      → IsIndexed c (f s)
      → IsIndexed c (next (f s)).1
      → IsIndexed c (called a f next s).1
  called-IsIndexed Answer.done f next s h h' k = k
  called-IsIndexed Answer.refused f next s h h' k = h
  called-IsIndexed Answer.failed_late f next s h h' k = h'

  both-IsIndexed :
      (del srem : Answer) (caller id : Uuid) (next : Store → Result (Unit {0}) × Store) (s : Store)
      → IsIndexed c s
      → ((t : Store) → IsIndexed c t → IsIndexed c (next t).1)
      → IsIndexed c (called del (delete_session id) (called srem (remove_entry caller id) next) s).1
  both-IsIndexed del srem caller id next s h k =
      let deleted = deleted-IsIndexed s (λ x. not (has_session_id id x)) h in
      let removed =
        removed-IsIndexed caller id s.user_sessions (delete_session id s).sessions deleted
          (delete-gone id s.sessions) in
      called-IsIndexed del (delete_session id) (called srem (remove_entry caller id) next) s h
        deleted
        (called-IsIndexed srem (remove_entry caller id) next (delete_session id s) deleted removed
          (k (remove_entry caller id (delete_session id s)) removed))

  pub logout-IsIndexed :
      (del srem : Answer) (session : Session) (s : Store)
      → IsIndexed c s
      → IsIndexed c (logout del srem session s).1
  unfolding logout
  logout-IsIndexed del srem session s h =
      both-IsIndexed del srem session.user.id session.id all_done s h (λ t k. k)

  pub revoke_session-IsIndexed :
      (del srem : Answer) (session : Session) (id : Uuid) (s : Store)
      → IsIndexed c s
      → IsIndexed c (revoke_session del srem session id s).1
  unfolding revoke_session
  revoke_session-IsIndexed del srem session id s h = elim (Bool-cases (id == session.id)) [
    | inl own ↦ rw own h
    | inr other ↦ rw other (both-IsIndexed del srem session.user.id id all_done s h (λ t k. k))
  ]

  pub end_others-IsIndexed :
      (del srem : Uuid → Answer) (session : Session) (ids : List Uuid) (s : Store)
      → IsIndexed c s
      → IsIndexed c (end_others del srem session ids s).1
  end_others-IsIndexed del srem session [] s h = h
  end_others-IsIndexed del srem session (id ∷ ids) s h = elim (Bool-cases (id == session.id)) [
    | inl own ↦ rw own (end_others-IsIndexed del srem session ids s h)
    | inr other ↦ rw other (
        both-IsIndexed (del id) (srem id) session.user.id id (end_others del srem session ids) s h
          (end_others-IsIndexed del srem session ids))
  ]

  pub end_other_sessions-IsIndexed :
      (smembers : Answer) (del srem : Uuid → Answer) (session : Session) (s : Store)
      → IsIndexed c s
      → IsIndexed c (end_other_sessions smembers del srem session s).1
  unfolding end_other_sessions
  end_other_sessions-IsIndexed Answer.done del srem session s h =
      end_others-IsIndexed del srem session (session_ids session.user.id s) s h
  end_other_sessions-IsIndexed Answer.refused del srem session s h = h
  end_other_sessions-IsIndexed Answer.failed_late del srem session s h = h
