-- ===== src/Sessions/Lifetime.antt =====
-- How long a session lives.
use vussa.Base.{
  ℕ, ◌+◌, ◌≤◌, ◌≡◌, refl, ltb, leb, String, Bool, true, false, not, ◌&&◌, Option, none, some, List,
  [], ◌∷◌, keep, find, arith, if◌then◌else◌, Bool-cases, inl, inr, ==_refl, leb→le, All, and_left,
  and_right,
}
use vussa.Models.{Uuid, AuthUser, Session}
use vussa.Error.{Result, ok, err, unauthorized}
use vussa.Database.Tables.{update}
use vussa.RateLimit.{is_expired}
use vussa.Rooms.{Answer}
use vussa.Sessions.{
  Codec, StoredSession, Store, stored_session, has_session_id, get_session, create_session,
  put_session, load_session, read_session, expire_session, session_ttl_seconds, refreshed,
  new_session,
}

find_deleted :
    (now : ℕ) (id : Uuid) (ks : List StoredSession)
    → find
        (λ k. has_session_id id k && not (is_expired now k.expires))
        (keep (λ k. not (has_session_id id k)) ks)
      ≡ none
unfolding find keep
find_deleted now id [] = refl
find_deleted now id (k ∷ ks) = ground (arith, find_deleted now id ks)

not_expired : (now deadline : ℕ) → leb deadline now ≡ not (ltb now deadline)
not_expired now deadline = ground arith

abbrev pub extended : ℕ → StoredSession → StoredSession
extended ttl k = record k { expires = some ttl }

is_expired_later :
    (now later : ℕ) (e : Option ℕ)
    → now ≤ later
    → is_expired now e ≡ true
    → is_expired later e ≡ true
is_expired_later now later none h e = e
is_expired_later now later (some t) h e = ground arith

missed :
    (now later : ℕ) (id : Uuid) (k : StoredSession)
    → now ≤ later
    → (has_session_id id k && not (is_expired now k.expires)) ≡ false
    → (has_session_id id k && not (is_expired later k.expires)) ≡ false
missed now later id k le h = ground (arith, is_expired_later now later k.expires le)

find-extended :
    (now later deadline : ℕ) (id : Uuid) (ks : List StoredSession) (k : StoredSession)
    → now ≤ later
    → ltb later deadline ≡ true
    → find (λ k. has_session_id id k && not (is_expired now k.expires)) ks ≡ some k
    → find
        (λ k. has_session_id id k && not (is_expired later k.expires))
        (update (λ k. has_session_id id k && not (is_expired now k.expires)) (extended deadline) ks)
      ≡ some (extended deadline k)
unfolding find update
find-extended now later deadline id [] k le lt h = absurd (cc h)
find-extended now later deadline id (x ∷ ks) k le lt h =
    elim (Bool-cases (has_session_id id x && not (is_expired now x.expires))) [
      | inl hit ↦
          let found : some x ≡ some k = rw hit at h in
          rw (hit, and_left (has_session_id id x) _ hit, not_expired later deadline, lt) (cc found)
      | inr miss ↦
          rw (miss, missed now later id x le miss)
            (find-extended now later deadline id ks k le lt (rw miss at h))
    ]

module _ (c : Codec) (id : Uuid) (csrf : String) (user : AuthUser)
    (c_decode : c.decode (c.encode user) ≡ some user)
    (c_parse : c.parse_uuid (c.uuid_text id) ≡ some id) where
  abbrev pub created : Session
  created = record { id = id; csrf = csrf; user = user }

  put_session-get_session :
      (start now : ℕ) (s : Store)
      → get_session now id (put_session c start id csrf user s) ≡ (
          if ltb now (start + session_ttl_seconds)
          then some (new_session c start id csrf user)
          else none)
  unfolding get_session find
  put_session-get_session start now s =
      rw (==_refl id, not_expired now (start + session_ttl_seconds))
        (elim (Bool-cases (ltb now (start + session_ttl_seconds))) [
          | inl live ↦ rw live refl
          | inr gone ↦ rw gone (find_deleted now id s.sessions)
        ])

  -- What a request gets that carries the cookie of the session, where Valkey answers.
  abbrev pub visit : ℕ → Store → Result Session × Store
  visit now s = load_session c Answer.done Answer.done now (some (c.uuid_text id)) s

  visit-found :
      (now : ℕ) (s : Store) (found : Option StoredSession)
      → get_session now id s ≡ found
      → visit now s ≡ refreshed c Answer.done now id s (stored_session c id found)
  unfolding load_session read_session
  visit-found now s found h = rw (c_parse, h) refl

  -- A session that has been created is loaded, with its token and its user, by a request that comes
  -- with its cookie within fourteen days, and by none that comes later. Valkey answers, and the user
  -- and the identifier read back from what is written for them.
  pub create_session-load :
      (start now : ℕ) (s : Store)
      → (visit now (create_session c Answer.done start id csrf user s).1).0 ≡ (
          if ltb now (start + session_ttl_seconds)
          then ok created
          else err (unauthorized "session expired"))
  unfolding create_session
  create_session-load start now s = elim (Bool-cases (ltb now (start + session_ttl_seconds))) [
    | inl live ↦
        rw
          (
            live,
            visit-found now (put_session c start id csrf user s)
                (some (new_session c start id csrf user))
                (rw live at (put_session-get_session start now s)),
            c_decode,
          )
          refl
    | inr gone ↦
        rw
          (
            gone,
            visit-found now (put_session c start id csrf user s) none
                (rw gone at (put_session-get_session start now s)),
          )
          refl
  ]

  -- Each visit comes after the one before, and less than fourteen days after it.
  abbrev pub is_regular : ℕ → List ℕ → Bool
  is_regular last [] = true
  is_regular last (now ∷ times) =
      leb last now && ltb now (last + session_ttl_seconds) && is_regular now times

  abbrev pub visits : List ℕ → Store → List (Result Session)
  visits [] s = []
  visits (now ∷ times) s = let (r, s') = visit now s in r ∷ visits times s'

  -- From this time on, for fourteen days, the store answers with the session.
  abbrev IsAlive : ℕ → Session → Store → Type 0
  IsAlive last session s =
      (now : ℕ)
      → last ≤ now
      → ltb now (last + session_ttl_seconds) ≡ true
      → (k : StoredSession) × (get_session now id s ≡ some k)
        × (stored_session c id (some k) ≡ some session)

  refresh-IsAlive :
      (now : ℕ) (session : Session) (s : Store) (k : StoredSession)
      → get_session now id s ≡ some k
      → stored_session c id (some k) ≡ some session
      → IsAlive now session (expire_session now id s)
  unfolding get_session
  refresh-IsAlive now session s k found stored later le lt = (
    extended (now + session_ttl_seconds) k,
    find-extended now later (now + session_ttl_seconds) id s.sessions k le lt found,
    stored,
  )

  create-IsAlive :
      (start : ℕ) (s : Store) → IsAlive start created (put_session c start id csrf user s)
  create-IsAlive start s now le lt = (
    new_session c start id csrf user,
    rw lt at (put_session-get_session start now s),
    rw (c_decode) refl,
  )

  visits-alive :
      (last : ℕ) (session : Session) (times : List ℕ) (s : Store)
      → IsAlive last session s
      → is_regular last times ≡ true
      → All (λ r. r ≡ ok session) (visits times s)
  visits-alive last session [] s alive regular = tt
  visits-alive last session (now ∷ times) s alive regular =
      let le = leb→le last now (and_left _ _ (and_left _ _ regular)) in
      let lt = and_right (leb last now) _ (and_left _ _ regular) in
      let (k, found, stored) = alive now le lt in
      rw (visit-found now s (some k) found, stored)
        (
          refl,
          visits-alive now session times (expire_session now id s)
              (refresh-IsAlive now session s k found stored) (and_right _ _ regular),
        )

  -- A session in use does not expire: every request gets it that comes with its cookie, where each
  -- comes less than fourteen days after the one before it, the first after the creation. Valkey
  -- answers, and the user and the identifier read back from what is written for
  -- them.
  pub create_session-visits :
      (start : ℕ) (times : List ℕ) (s : Store)
      → is_regular start times ≡ true
      → All
          (λ r. r ≡ ok created)
          (visits times (create_session c Answer.done start id csrf user s).1)
  unfolding create_session
  create_session-visits start times s regular =
      visits-alive start created times (put_session c start id csrf user s) (create-IsAlive start s)
        regular
