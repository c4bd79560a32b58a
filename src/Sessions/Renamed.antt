-- ===== src/Sessions/Renamed.antt =====
-- Writing a user anew under the key of a session keeps every session in the set of its user.
use vussa.Base.{
  ℕ, ◌≡◌, refl, sym, subst, and_left, and_right, String, Bool, true, not, ◌&&◌, ◌||◌, Option, none,
  some, List, [], ◌∷◌, any, all, all-find, find-some, arith, Bool-cases, Option-cases, inl, inr,
  ==_iff,
}
use vussa.Models.{Uuid, AuthUser, Session}
use vussa.Error.{Result, ok, err}
use vussa.Database.Tables.{is_null, update}
use vussa.RateLimit.{is_expired}
use vussa.Rooms.{Answer, succeeded}
use vussa.Sessions.{
  Codec, StoredSession, IndexEntry, Store, decoded_user, has_session_id, is_entry, hset_user,
  load_session, session_of_fields, parsed, refreshed, read_session, get_session, update_account,
  rename_checked, rename_loaded, with_username,
}
use vussa.Sessions.Owned.{IsIndexed, is_listed, owns, owned_by}
use vussa.Sessions.Indexed.{indexed, deleted-IsIndexed}
use vussa.Sessions.Kept.{load-IsIndexed, effect-IsIndexed}

module _ (c : Codec) where
  -- What a text reads as has the identifier in the set of its user, if it reads at all.
  abbrev IsListedAs : String → Uuid → List IndexEntry → Type 0
  IsListedAs text id index =
      (user : AuthUser) → c.decode text ≡ some user → any (is_entry user.id id) index ≡ true

  listed_text :
      (text : String) (id : Uuid) (index : List IndexEntry) (csrf : Option String)
      → IsListedAs text id index
      → is_listed c index id (session_of_fields c id csrf (c.decode text)) ≡ true
  listed_text text id index none there = refl
  listed_text text id index (some csrf) there = elim (Option-cases (c.decode text)) [
    | inl e ↦ rw e refl
    | inr (user, e) ↦ rw e (there user e)
  ]

  renamed-indexed :
      (id : Uuid) (text : String) (index : List IndexEntry) (ks : List StoredSession)
      → IsListedAs text id index
      → all (indexed c index) ks ≡ true
      → all (indexed c index) (update (has_session_id id) (λ k. record k { user = some text }) ks)
        ≡ true
  unfolding update
  renamed-indexed id text index [] there h = refl
  renamed-indexed id text index (k ∷ ks) there h =
      let rest = renamed-indexed id text index ks there (and_right _ _ h) in
      elim (Bool-cases (has_session_id id k)) [
        | inl hit ↦
            let e : k.id ≡ id = (==_iff k.id id).0 hit in
            rw
              (
                hit,
                listed_text text k.id index k.csrf
                    (subst (λ x. IsListedAs text x index) (sym e) there),
              )
              rest
        | inr miss ↦ rw (miss, and_left (indexed c index k) _ h) rest
      ]

  -- If there is a live hash, the text must read as a user whose set has the session.
  hset_user-IsIndexed :
      (now : ℕ) (id : Uuid) (text : String) (s : Store)
      → (any (λ k. has_session_id id k && not (is_expired now k.expires)) s.sessions ≡ true
          → all
              (indexed c s.user_sessions)
              (update (has_session_id id) (λ k. record k { user = some text }) s.sessions)
            ≡ true)
      → IsIndexed c s
      → IsIndexed c (hset_user now id text s)
  unfolding hset_user
  hset_user-IsIndexed now id text s renamed h =
      elim (Bool-cases
        (any (λ k. has_session_id id k && not (is_expired now k.expires)) s.sessions)) [
          | inl found ↦ rw found (renamed found)
          | inr absent ↦ rw absent (deleted-IsIndexed c s (λ k. not (has_session_id id k)) h)
        ]

  -- No hash of the identifier with a token is of another user.
  abbrev pub is_own : Uuid → Uuid → StoredSession → Bool
  is_own id user k = not (has_session_id id k) || (is_null k.csrf || owned_by c user k)

  own-listed :
      (user : AuthUser) (id : Uuid) (text : String) (index : List IndexEntry) (csrf : Option String)
      (old : Option AuthUser)
      → c.decode text ≡ some user
      → (is_null csrf || owns c user.id (session_of_fields c id csrf old)) ≡ true
      → is_listed c index id (session_of_fields c id csrf old) ≡ true
      → is_listed c index id (session_of_fields c id csrf (c.decode text)) ≡ true
  own-listed user id text index none old decodes own h = refl
  own-listed user id text index (some csrf) none decodes own h = absurd (cc own)
  own-listed user id text index (some csrf) (some before) decodes own h =
      rw decodes
        (subst (λ x. any (is_entry x id) index ≡ true) ((==_iff before.id user.id).0 own) h)

  own-renamed :
      (id : Uuid) (text : String) (user : AuthUser) (index : List IndexEntry)
      (ks : List StoredSession)
      → c.decode text ≡ some user
      → all (is_own id user.id) ks ≡ true
      → all (indexed c index) ks ≡ true
      → all (indexed c index) (update (has_session_id id) (λ k. record k { user = some text }) ks)
        ≡ true
  unfolding update
  own-renamed id text user index [] decodes own h = refl
  own-renamed id text user index (k ∷ ks) decodes own h = elim (Bool-cases (has_session_id id k)) [
    | inl hit ↦
        rw
          (
            hit,
            own-listed user k.id text index k.csrf (decoded_user c k.user) decodes
                (ground (arith, hit, own)) (and_left (indexed c index k) _ h),
          )
          (own-renamed id text user index ks decodes (and_right _ _ own) (and_right _ _ h))
    | inr miss ↦
        rw (miss, and_left (indexed c index k) _ h)
          (own-renamed id text user index ks decodes (and_right _ _ own) (and_right _ _ h))
  ]

  -- A late write of a user under the identifier of a session of this user, which may be gone.
  pub rename-IsIndexed :
      (now : ℕ) (id : Uuid) (text : String) (user : AuthUser) (s : Store)
      → c.decode text ≡ some user
      → all (is_own id user.id) s.sessions ≡ true
      → IsIndexed c s
      → IsIndexed c (hset_user now id text s)
  rename-IsIndexed now id text user s decodes own h =
      hset_user-IsIndexed now id text s
        (λ _. own-renamed id text user s.user_sessions s.sessions decodes own h) h

  -- What is written of a user reads, if it reads, as one with the same identifier.
  abbrev pub KeepsId : Type 0
  KeepsId = (user read : AuthUser) → c.decode (c.encode user) ≡ some read → read.id ≡ user.id

  -- The set of its user has a session that was read.
  abbrev IsMember : List IndexEntry → Option Session → Type 0
  IsMember index none = Unit
  IsMember index (some session) = any (is_entry session.user.id session.id) index ≡ true

  stored-IsMember :
      (index : List IndexEntry) (id : Uuid) (csrf : Option String) (user : Option AuthUser)
      → is_listed c index id (session_of_fields c id csrf user) ≡ true
      → IsMember index (session_of_fields c id csrf user)
  stored-IsMember index id none user h = tt
  stored-IsMember index id (some csrf) none h = tt
  stored-IsMember index id (some csrf) (some user) h = h

  read_session-IsMember :
      (now : ℕ) (id : Uuid) (s : Store)
      → IsIndexed c s
      → IsMember s.user_sessions (read_session c now id s)
  unfolding read_session get_session
  read_session-IsMember now id s h = elim (Option-cases (get_session now id s)) [
    | inl e ↦ rw e tt
    | inr (k, e) ↦
        let live = λ (k : StoredSession). has_session_id id k && not (is_expired now k.expires) in
        let same : k.id ≡ id = (==_iff k.id id).0 (and_left _ _ (find-some live s.sessions k e)) in
        rw e (
          stored-IsMember s.user_sessions id k.csrf (decoded_user c k.user) (
            subst
              (λ i.
                is_listed c s.user_sessions i (session_of_fields c i k.csrf (decoded_user c k.user))
                ≡ true)
              same (all-find (indexed c s.user_sessions) live s.sessions k h e)))
  ]

  abbrev IsLoaded : Result Session × Store → Type 0
  IsLoaded (ok session, s) = any (is_entry session.user.id session.id) s.user_sessions ≡ true
  IsLoaded (err e, s) = Unit

  refreshed-IsLoaded :
      (expire : Answer) (now : ℕ) (id : Uuid) (s : Store) (found : Option Session)
      → IsMember s.user_sessions found
      → IsLoaded (refreshed c expire now id s found)
  refreshed-IsLoaded expire now id s none h = tt
  refreshed-IsLoaded Answer.done now id s (some session) h = h
  refreshed-IsLoaded Answer.refused now id s (some session) h = tt
  refreshed-IsLoaded Answer.failed_late now id s (some session) h = tt

  load_session-IsLoaded :
      (hmget expire : Answer) (now : ℕ) (cookie : Option String) (s : Store)
      → IsIndexed c s
      → IsLoaded (load_session c hmget expire now cookie s)
  unfolding load_session
  load_session-IsLoaded hmget expire now cookie s h = elim (Option-cases (parsed c cookie)) [
    | inl e ↦ rw e tt
    | inr (id, e) ↦ rw e (elim (Bool-cases (succeeded hmget)) [
      | inl read ↦ rw read (
          refreshed-IsLoaded expire now id s (read_session c now id s)
            (read_session-IsMember now id s h))
      | inr unread ↦ rw unread tt
    ])
  ]

  module _ (hset : Answer) (later : ℕ) (username : String)
      (answer : Session → Result (Unit {0})) where
    renamed-IsIndexed :
        (session : Session) (r : Result (Unit {0})) (s : Store)
        → KeepsId
        → any (is_entry session.user.id session.id) s.user_sessions ≡ true
        → IsIndexed c s
        → IsIndexed c (rename_checked c hset later username session r s).1
    renamed-IsIndexed session (err e) s keeps there h = h
    renamed-IsIndexed session (ok done) s keeps there h =
        let text = c.encode (with_username c hset later username session.user) in
        effect-IsIndexed c hset (hset_user later session.id text) s h (
          hset_user-IsIndexed later session.id text s
            (λ _.
              renamed-indexed session.id text s.user_sessions s.sessions
                (λ read reads.
                  subst (λ u. any (is_entry u session.id) s.user_sessions ≡ true)
                    (sym (keeps (with_username c hset later username session.user) read reads))
                    there)
                h)
            h)

    loaded-IsIndexed :
        (o : Result Session × Store)
        → KeepsId
        → IsLoaded o
        → IsIndexed c o.1
        → IsIndexed c (rename_loaded c hset later username answer o).1
    loaded-IsIndexed (err e, s) keeps there h = h
    loaded-IsIndexed (ok session, s) keeps there h =
        renamed-IsIndexed session (answer session) s keeps there h

    pub update_account-IsIndexed :
        (hmget expire : Answer) (now : ℕ) (cookie : Option String) (s : Store)
        → KeepsId
        → IsIndexed c s
        → IsIndexed c (update_account c hset later username answer hmget expire now cookie s).1
    unfolding update_account
    update_account-IsIndexed hmget expire now cookie s keeps h =
        loaded-IsIndexed (load_session c hmget expire now cookie s) keeps
          (load_session-IsLoaded hmget expire now cookie s h)
          (load-IsIndexed c hmget expire now cookie s h)
