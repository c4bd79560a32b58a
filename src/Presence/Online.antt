-- ===== src/Presence/Online.antt =====
-- Who is present: those who refreshed in the last 45 seconds and have not left since.
use vussa.Base.{
  ℕ, ◌+◌, ◌≤◌, ◌≡◌, refl, ap, subst, sym, ◌∙◌, ◌==◌, ltb, leb, String, Bool, true, false, not, ◌&&◌,
  ◌||◌, List, [], ◌∷◌, keep, find, any, arith, if◌then◌else◌, Bool-cases, inl, inr, ==_iff, ==_refl,
  and_left, leb→le,
}
use vussa.Models.{Uuid, Participant}
use vussa.Rooms.{Answer}
use vussa.Presence.{
  PresenceKey, Present, put_presence, drop_presence, refresh_presence, remove_presence,
  list_presence, get_key, is_live_key, without, drop_stale, is_none, fetch_presences,
  presence_ttl_seconds,
}

-- What sockets ask of the presence of a channel, where Valkey answers.
pub data Op : Type 0 where
  refresh : Participant → Op
  leave : Uuid → Op
  show : Op

-- The latest operation comes first.
abbrev pub History : Type 0
History = List (ℕ × Op)

-- The user refreshed less than 45 seconds ago, and has not left since.
abbrev pub online : Uuid → ℕ → History → Bool
online user now [] = false
online user now ((t, Op.refresh p) ∷ h) =
    if p.user_id == user then ltb now (t + presence_ttl_seconds) else online user now h
online user now ((t, Op.leave who) ∷ h) = if who == user then false else online user now h
online user now ((t, Op.show) ∷ h) = online user now h

-- No operation comes after this time, or before an earlier one.
abbrev pub is_ordered : ℕ → History → Bool
is_ordered now [] = true
is_ordered now ((t, op) ∷ h) = leb t now && is_ordered t h

module _ (collates : String → String → Bool) where
  unfoldable pub perform : ℕ → Op → Present → Present
  perform now (Op.refresh p) s = (refresh_presence Answer.done now p s).1
  perform now (Op.leave user) s = (remove_presence Answer.done user s).1
  perform now Op.show s = (list_presence collates Answer.done Answer.done Answer.done now s).1

  unfoldable pub replay : History → Present
  replay [] = record { users = []; keys = [] }
  replay ((t, op) ∷ h) = perform t op (replay h)

-- The user is in the set and has a key.
abbrev pub has_key : Uuid → ℕ → Present → Bool
has_key user now s = any (λ id. id == user) s.users && any (is_live_key now user) s.keys

module _ (user : Uuid) where
  pub none_live :
      (now : ℕ) (keys : List PresenceKey) (id : Uuid)
      → is_none (get_key now keys id) ≡ not (any (is_live_key now id) keys)
  unfolding get_key find
  none_live now [] id = refl
  none_live now (k ∷ keys) id = ground (arith, none_live now keys id)

  live_before :
      (t now : ℕ) (keys : List PresenceKey)
      → t ≤ now
      → any (is_live_key now user) keys ≡ true
      → any (is_live_key t user) keys ≡ true
  live_before t now [] le h = h
  live_before t now (k ∷ keys) le h = ground (arith, live_before t now keys le)

  without_own :
      (now : ℕ) (keys : List PresenceKey) → any (is_live_key now user) (without user keys) ≡ false
  unfolding keep
  without_own now [] = refl
  without_own now (k ∷ keys) = ground (arith, without_own now keys)

  without_other :
      (now : ℕ) (other : Uuid) (keys : List PresenceKey)
      → (other == user) ≡ false
      → any (is_live_key now user) (without other keys) ≡ any (is_live_key now user) keys
  unfolding keep
  without_other now other [] h = refl
  without_other now other (k ∷ keys) h = ground (arith, without_other now other keys h)

  drop_own :
      (users : List Uuid) → any (λ id. id == user) (keep (λ id. not (id == user)) users) ≡ false
  unfolding keep
  drop_own [] = refl
  drop_own (id ∷ users) = ground (arith, drop_own users)

  drop_other :
      (other : Uuid) (users : List Uuid)
      → (other == user) ≡ false
      → any (λ id. id == user) (keep (λ id. not (id == other)) users) ≡ any (λ id. id == user) users
  unfolding keep
  drop_other other [] h = refl
  drop_other other (id ∷ users) h = ground (arith, drop_other other users h)

  -- An identifier that is taken out for being stale has no live key.
  stale_dropped :
      (now : ℕ) (keys : List PresenceKey) (users : List Uuid)
      → any (λ id. id == user) (keep (λ id. not (is_none (get_key now keys id))) users)
        ≡ (any (λ id. id == user) users && any (is_live_key now user) keys)
  unfolding keep
  stale_dropped now keys [] = refl
  stale_dropped now keys (id ∷ users) = elim (Bool-cases (id == user)) [
    | inl own ↦
        let e = (==_iff id user).0 own in
        rw (e, none_live now keys user) (ground (arith, ==_refl user, stale_dropped now keys users))
    | inr other ↦ ground (arith, other, stale_dropped now keys users)
  ]

  key_kept :
      (t now : ℕ) (s : Present) → t ≤ now → has_key user now (drop_stale t s) ≡ has_key user now s
  key_kept t now s le = ground (arith, stale_dropped t s.keys s.users, live_before t now s.keys le)

  added :
      (p : Participant) (users : List Uuid)
      → any
          (λ id. id == user)
          (if any (λ id. id == p.user_id) users then users else p.user_id ∷ users)
        ≡ ((p.user_id == user) || any (λ id. id == user) users)
  added p users = elim (Bool-cases (any (λ id. id == p.user_id) users)) [
    | inl there ↦ rw there (elim (Bool-cases (p.user_id == user)) [
      | inl own ↦
          rw own
            (subst (λ x. any (λ id. id == x) users ≡ true) ((==_iff p.user_id user).0 own) there)
      | inr other ↦ rw other refl
    ])
    | inr absent ↦ rw absent refl
  ]

  put-has_key :
      (t now : ℕ) (p : Participant) (s : Present)
      → has_key user now (put_presence t p s)
        ≡ (if p.user_id == user then ltb now (t + presence_ttl_seconds) else has_key user now s)
  put-has_key t now p s = elim (Bool-cases (p.user_id == user)) [
    | inl own ↦
        let e : p.user_id ≡ user = (==_iff p.user_id user).0 own in
        let gone =
          subst (λ x. any (is_live_key now user) (without x s.keys) ≡ false) (sym e)
            (without_own now s.keys) in
        ground (arith, own, added p s.users, gone)
    | inr other ↦ ground (arith, other, added p s.users, without_other now p.user_id s.keys other)
  ]

  drop-has_key :
      (now : ℕ) (who : Uuid) (s : Present)
      → has_key user now (drop_presence who s) ≡ (if who == user then false else has_key user now s)
  drop-has_key now who s = elim (Bool-cases (who == user)) [
    | inl own ↦ rw (own, (==_iff who user).0 own, drop_own s.users) refl
    | inr other ↦ rw (other, drop_other who s.users other, without_other now who s.keys other) refl
  ]

  module _ (collates : String → String → Bool) where
    show-has_key :
        (t now : ℕ) (s : Present)
        → t ≤ now
        → has_key user now (list_presence collates Answer.done Answer.done Answer.done t s).1
          ≡ has_key user now s
    unfolding list_presence
    show-has_key t now s le = fetched_key s.users
      where
        fetched_key :
            (ids : List Uuid)
            → has_key user now (fetch_presences collates Answer.done Answer.done t s ids).1
              ≡ has_key user now s
        fetched_key [] = refl
        fetched_key (id ∷ ids) =
            elim (Bool-cases (any (λ id. is_none (get_key t s.keys id)) s.users)) [
              | inl stale ↦ rw stale (key_kept t now s le)
              | inr fresh ↦ rw fresh refl
            ]

    later_ordered :
        (t now : ℕ) (h : History) → (leb t now && is_ordered t h) ≡ true → is_ordered now h ≡ true
    later_ordered t now [] ordered = refl
    later_ordered t now ((t', op) ∷ h) ordered = ground arith

    pub replay-has_key :
        (now : ℕ) (h : History)
        → is_ordered now h ≡ true
        → has_key user now (replay collates h) ≡ online user now h
    unfolding replay perform refresh_presence remove_presence
    replay-has_key now [] ordered = refl
    replay-has_key now ((t, Op.refresh p) ∷ h) ordered =
        let rest = replay-has_key now h (later_ordered t now h ordered) in
        put-has_key t now p (replay collates h)
        ∙ ap (λ b. if p.user_id == user then ltb now (t + presence_ttl_seconds) else b) rest
    replay-has_key now ((t, Op.leave who) ∷ h) ordered =
        let rest = replay-has_key now h (later_ordered t now h ordered) in
        drop-has_key now who (replay collates h) ∙ ap (λ b. if who == user then false else b) rest
    replay-has_key now ((t, Op.show) ∷ h) ordered =
        show-has_key t now (replay collates h) (leb→le t now (and_left _ _ ordered))
        ∙ replay-has_key now h (later_ordered t now h ordered)
