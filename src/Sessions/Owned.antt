-- ===== src/Sessions/Owned.antt =====
-- Whose sessions the store has, and that the sets of the users list them all.
use vussa.Base.{
  ℕ, ◌==◌, ◌≡◌, refl, String, Bool, true, false, not, Option, none, some, List, any, all, arith,
  find_avoids, Option-cases, ◌∙◌, Bool-cases, inl, inr,
}
use vussa.Models.{Uuid, AuthUser, Session}
use vussa.Error.{Result, ok, err}
use vussa.Rooms.{Answer, succeeded}
use vussa.Sessions.{
  Codec, StoredSession, IndexEntry, Store, stored_session, decoded_user, load_session, read_session,
  get_session, parsed, refreshed, is_entry, session_of_fields,
}

module _ (c : Codec) where
  abbrev pub owns : Uuid → Option Session → Bool
  owns user none = false
  owns user (some session) = session.user.id == user

  abbrev pub owned_by : Uuid → StoredSession → Bool
  owned_by user k = owns user (stored_session c k.id (some k))

  -- The store has no session of the user, expired or not.
  abbrev pub HasNone : Uuid → Store → Type 0
  HasNone user s = any (owned_by user) s.sessions ≡ false

  abbrev pub is_listed : List IndexEntry → Uuid → Option Session → Bool
  is_listed index id none = true
  is_listed index id (some session) = any (is_entry session.user.id id) index

  -- Every session is in the set of its user.
  abbrev pub IsIndexed : Store → Type 0
  IsIndexed s =
      all (λ k. is_listed s.user_sessions k.id (stored_session c k.id (some k))) s.sessions ≡ true

  abbrev pub is_not_of : Uuid → Result Session → Bool
  is_not_of user (ok session) = not (session.user.id == user)
  is_not_of user (err e) = true

  owns-stored :
      (user id : Uuid) (k : StoredSession)
      → owns user (stored_session c id (some k)) ≡ owned_by user k
  owns-stored user id k = own k.csrf (decoded_user c k.user)
    where
      own :
          (csrf : Option String) (u : Option AuthUser)
          → owns user (session_of_fields c id csrf u) ≡ owns user (session_of_fields c k.id csrf u)
      own none u = refl
      own (some csrf) none = refl
      own (some csrf) (some u) = refl

  read_session-HasNone :
      (user : Uuid) (now : ℕ) (id : Uuid) (s : Store)
      → HasNone user s
      → owns user (read_session c now id s) ≡ false
  unfolding read_session get_session
  read_session-HasNone user now id s h = elim (Option-cases (get_session now id s)) [
    | inl e ↦ rw e refl
    | inr (k, e) ↦ rw e (owns-stored user id k ∙ find_avoids _ (owned_by user) s.sessions k h e)
  ]

  refreshed-HasNone :
      (expire : Answer) (user : Uuid) (now : ℕ) (id : Uuid) (s : Store) (found : Option Session)
      → owns user found ≡ false
      → is_not_of user (refreshed c expire now id s found).0 ≡ true
  refreshed-HasNone expire user now id s none h = refl
  refreshed-HasNone expire user now id s (some session) h = ground arith

  -- Whoever presents whatever cookie, the store lets nobody in as a user of whom it has no session.
  pub load_session-HasNone :
      (hmget expire : Answer) (user : Uuid) (now : ℕ) (cookie : Option String) (s : Store)
      → HasNone user s
      → is_not_of user (load_session c hmget expire now cookie s).0 ≡ true
  unfolding load_session
  load_session-HasNone hmget expire user now cookie s h = elim (Option-cases (parsed c cookie)) [
    | inl e ↦ rw e refl
    | inr (id, e) ↦ rw e (elim (Bool-cases (succeeded hmget)) [
      | inl yes' ↦ rw yes' (
          refreshed-HasNone expire user now id s (read_session c now id s)
            (read_session-HasNone user now id s h))
      | inr no' ↦ rw no' refl
    ])
  ]
