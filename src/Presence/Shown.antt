-- ===== src/Presence/Shown.antt =====
-- The list of who is present.
use vussa.Base.{
  ℕ, ◌≡◌, refl, subst, sym, ◌∙◌, ◌==◌, String, Bool, true, false, not, ◌&&◌, ◌||◌, Option, none,
  some, List, [], ◌∷◌, find, any, all, all-keep, arith, Bool-cases, inl, inr, any-sort_by, ==_iff,
  ==_refl,
}
use vussa.Models.{Uuid, Participant}
use vussa.Error.{Result, ok, err}
use vussa.Rooms.{Answer}
use vussa.Presence.Online.{
  Op, History, online, is_ordered, replay, perform, has_key, replay-has_key, none_live,
}
use vussa.Presence.{
  PresenceKey, Present, refresh_presence, remove_presence, list_presence, get_key, is_live_key,
  collect, is_none, pushed, listed, fetch_presences,
}

abbrev pub is_present : Uuid → Result (List Participant) → Bool
is_present user (ok ps) = any (λ p. p.user_id == user) ps
is_present user (err e) = false

-- Every key is that of its participant.
abbrev is_own_key : PresenceKey → Bool
is_own_key k = k.participant.user_id == k.user_id

abbrev AreOwn : Present → Type 0
AreOwn s = all is_own_key s.keys ≡ true

module _ (collates : String → String → Bool) where
  show-AreOwn :
      (t : ℕ) (s : Present)
      → AreOwn s
      → AreOwn (list_presence collates Answer.done Answer.done Answer.done t s).1
  unfolding list_presence
  show-AreOwn t s own = fetched_own s.users
    where
      fetched_own :
          (ids : List Uuid) → AreOwn (fetch_presences collates Answer.done Answer.done t s ids).1
      fetched_own [] = own
      fetched_own (id ∷ ids) =
          elim (Bool-cases (any (λ id. is_none (get_key t s.keys id)) s.users)) [
            | inl stale ↦ rw stale own
            | inr fresh ↦ rw fresh own
          ]

  replay-AreOwn : (h : History) → AreOwn (replay collates h)
  unfolding replay perform refresh_presence remove_presence
  replay-AreOwn [] = refl
  replay-AreOwn ((t, Op.refresh p) ∷ h) = rw (==_refl p.user_id) (
      all-keep is_own_key (λ k. not (k.user_id == p.user_id)) (replay collates h).keys
        (replay-AreOwn h))
  replay-AreOwn ((t, Op.leave who) ∷ h) =
      all-keep is_own_key (λ k. not (k.user_id == who)) (replay collates h).keys (replay-AreOwn h)
  replay-AreOwn ((t, Op.show) ∷ h) = show-AreOwn t (replay collates h) (replay-AreOwn h)

module _ (user now : ℕ) (keys : List PresenceKey) (own : all is_own_key keys ≡ true) where
  own_key :
      (k : PresenceKey) (ks : List PresenceKey) (id : Uuid)
      → all is_own_key ks ≡ true
      → find (is_live_key now id) ks ≡ some k
      → k.participant.user_id ≡ id
  unfolding find
  own_key k [] id h found = absurd (cc found)
  own_key k (x ∷ ks) id h found = ground (arith, own_key k ks id)

  pushed-any :
      (id : Uuid) (rest : List Participant) (found : Option PresenceKey)
      → get_key now keys id ≡ found
      → any (λ p. p.user_id == user) (pushed found rest)
        ≡ (((id == user) && not (is_none found)) || any (λ p. p.user_id == user) rest)
  unfolding get_key
  pushed-any id rest none e = ground arith
  pushed-any id rest (some k) e = ground (arith, own_key k keys id own e)

  -- A user is collected who is in the set and has a live key.
  collect-any :
      (ids : List Uuid)
      → any (λ p. p.user_id == user) (collect now keys ids)
        ≡ (any (λ id. id == user) ids && any (is_live_key now user) keys)
  collect-any [] = refl
  collect-any (id ∷ ids) = elim (Bool-cases (id == user)) [
    | inl same ↦ ground (
      arith,
      same,
      pushed-any id (collect now keys ids) (get_key now keys id) refl,
      subst (λ x. is_none (get_key now keys x) ≡ not (any (is_live_key now user) keys))
          (sym ((==_iff id user).0 same)) (none_live user now keys user),
      collect-any ids,
    )
    | inr other ↦ ground (
      arith,
      other,
      pushed-any id (collect now keys ids) (get_key now keys id) refl,
      collect-any ids,
    )
  ]

-- After operations in the order of time, with Valkey answering: the list of who is present has exactly
-- the users who refreshed less than 45 seconds ago and have not left since, whatever lists were asked
-- for before and dropped stale identifiers.
pub list_presence-online :
    (collates : String → String → Bool) (user now : ℕ) (h : History)
    → is_ordered now h ≡ true
    → is_present user
        (list_presence collates Answer.done Answer.done Answer.done now (replay collates h)).0
      ≡ online user now h
unfolding list_presence
list_presence-online collates user now h ordered =
    shown (replay collates h).users refl ∙ replay-has_key user collates now h ordered
  where
    s : Present
    s = replay collates h

    sorted : any (λ p. p.user_id == user) (listed collates now s) ≡ has_key user now s
    sorted =
        any-sort_by (λ a b. collates a.username b.username) (λ p. p.user_id == user)
          (collect now s.keys s.users)
        ∙ collect-any user now s.keys (replay-AreOwn collates h) s.users

    shown :
        (ids : List Uuid)
        → ids ≡ s.users
        → is_present user (fetch_presences collates Answer.done Answer.done now s ids).0
          ≡ has_key user now s
    shown [] e =
        subst (λ users. false ≡ (any (λ id. id == user) users && any (is_live_key now user) s.keys))
          e refl
    shown (id ∷ ids) e = elim (Bool-cases (any (λ id. is_none (get_key now s.keys id)) s.users)) [
      | inl stale ↦ rw stale sorted
      | inr fresh ↦ rw fresh sorted
    ]
