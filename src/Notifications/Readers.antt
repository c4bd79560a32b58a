-- ===== src/Notifications/Readers.antt =====
-- That only those are told of a message who may read it.
use vussa.Base.{
  ℕ, ◌==◌, ◌≡◌, refl, String, Bool, true, not, ◌&&◌, ◌||◌, Option, some, List, [], ◌∷◌, any, all,
  find, arith, all-weaken, and_left, and_right, ==_refl, Bool-cases, Option-cases, inl, inr,
}
use vussa.Models.{Uuid, AuthUser, ChatMessage}
use vussa.Accounts.{Account}
use vussa.Access.{can_access}
use vussa.Database.{Db, ChannelRow, is_public}
use vussa.Database.Tables.{is_null, is_live, has_member, is_banned}
use vussa.Text.{Unicode}
use vussa.Notifications.Recipients.{
  NotifyTables, Recipient, Mentions, PreferencesRow, mentions_in, select_recipients,
  recipients_among, recipient, is_recipient, is_concerned, preferences_of,
}
use vussa.Notifications.Creation.{recipients_at}

-- The tables by which the services decide on access.
abbrev pub as_db : NotifyTables → Db
as_db t = record {
  channels = t.channels;
  members = t.members;
  users = [];
  bans = t.bans;
  messages = [];
  audit_events = [];
  invite_links = [];
}

-- Another user, neither disabled nor deleted.
abbrev pub is_other_active : List Account → Uuid → Uuid → Bool
is_other_active users actor user =
    not (user == actor)
    && any (λ a. a.id == user && is_null a.disabled_at && is_null a.deleted_at) users

any-find :
    (p q r : ChannelRow → Bool) (c : ChannelRow) (cs : List ChannelRow)
    → find p cs ≡ some c
    → (q c && r c) ≡ true
    → any (λ c. p c && q c && r c) cs ≡ true
unfolding find
any-find p q r c [] e h = cc
any-find p q r c (d ∷ cs) e h = elim (Bool-cases (p d)) [
  | inl hit ↦
      let found : some d ≡ some c = rw hit at e in
      let same : q d ≡ true = cc (found, and_left (q c) (r c) h) in
      let same' : r d ≡ true = cc (found, and_right (q c) (r c) h) in
      ground (arith, hit, same, same')
  | inr miss ↦
      let later : find p cs ≡ some c = rw miss at e in ground (arith, any-find p q r c cs later h)
]

all-both :
    (p q : Recipient → Bool) (rs : List Recipient)
    → all p rs ≡ true
    → all q rs ≡ true
    → all (λ r. p r && q r) rs ≡ true
all-both p q [] h k = refl
all-both p q (r ∷ rs) h k = ground (arith, all-both p q rs)

concerned-reads :
    (lower : String → String) (m : Mentions) (c : ChannelRow) (joined : Bool) (p : PreferencesRow)
    (a : Account)
    → is_concerned lower m c joined p a ≡ true
    → (is_public c.kind || joined) ≡ true
unfolding is_concerned
concerned-reads lower m c joined p a h = ground arith

module _ (u : Unicode) (actor : AuthUser) (message : ChatMessage) (m : Mentions) (now : ℕ)
    (t : NotifyTables) where
  abbrev may_read : ChannelRow → Uuid → Bool
  may_read c user =
      (is_public c.kind || has_member t.members c.id user)
      && not (is_banned (as_db t) c.id user now)

  recipients_among-may_read :
      (c : ChannelRow) (users : List Account)
      → all (λ r. may_read c r.user_id) (recipients_among u actor message m now t c users) ≡ true
  unfolding recipients_among recipient is_recipient is_banned
  recipients_among-may_read c [] = refl
  recipients_among-may_read c (a ∷ users) = ground (
    arith,
    concerned-reads t.lower m c (has_member t.members c.id a.id) (preferences_of t.preferences a.id)
        a,
    recipients_among-may_read c users,
  )

  active-more :
      (a : Account) (users : List Account) (rs : List Recipient)
      → all (λ r. is_other_active users actor.id r.user_id) rs ≡ true
      → all (λ r. is_other_active (a ∷ users) actor.id r.user_id) rs ≡ true
  active-more a users rs h =
      all-weaken (λ r. is_other_active users actor.id r.user_id)
        (λ r. is_other_active (a ∷ users) actor.id r.user_id) (λ r k. ground arith) rs h

  recipients_among-active :
      (c : ChannelRow) (users : List Account)
      → all
          (λ r. is_other_active users actor.id r.user_id)
          (recipients_among u actor message m now t c users)
        ≡ true
  unfolding recipients_among recipient is_recipient
  recipients_among-active c [] = refl
  recipients_among-active c (a ∷ users) = ground (
    arith,
    ==_refl a.id,
    active-more a users (recipients_among u actor message m now t c users)
        (recipients_among-active c users),
  )

  found-can_access :
      (c : ChannelRow)
      → find (is_live message.channel) t.channels ≡ some c
      → (r : Recipient) → may_read c r.user_id ≡ true
      → can_access (as_db t) message.channel r.user_id now ≡ true
  unfolding can_access
  found-can_access c e r h =
      any-find (is_live message.channel)
        (λ c. is_public c.kind || has_member t.members c.id r.user_id)
        (λ c. not (is_banned (as_db t) c.id r.user_id now)) c t.channels e h

  select_recipients-can_access :
      all
        (λ r. can_access (as_db t) message.channel r.user_id now)
        (select_recipients u actor message m now t)
      ≡ true
  unfolding select_recipients
  select_recipients-can_access = elim (Option-cases (find (is_live message.channel) t.channels)) [
    | inl nowhere ↦ rw nowhere refl
    | inr (c, found) ↦ rw found (
        all-weaken (λ r. may_read c r.user_id)
          (λ r. can_access (as_db t) message.channel r.user_id now) (found-can_access c found)
          (recipients_among u actor message m now t c t.users)
          (recipients_among-may_read c t.users))
  ]

  select_recipients-active :
      all
        (λ r. is_other_active t.users actor.id r.user_id)
        (select_recipients u actor message m now t)
      ≡ true
  unfolding select_recipients
  select_recipients-active = elim (Option-cases (find (is_live message.channel) t.channels)) [
    | inl nowhere ↦ rw nowhere refl
    | inr (c, found) ↦ rw found (recipients_among-active c t.users)
  ]

-- Whoever is told of a message, whatever it mentions and whatever the preferences say, has access to
-- the channel at the time that the recipients are read, by the test of the services, and is another
-- user than the author, neither disabled nor deleted.
pub recipients_at-can_access :
    (parse_uuid : String → Option Uuid) (u : Unicode) (actor : AuthUser) (message : ChatMessage)
    (now : ℕ) (t : NotifyTables)
    → all
        (λ r.
          can_access (as_db t) message.channel r.user_id now
          && is_other_active t.users actor.id r.user_id)
        (recipients_at parse_uuid u actor message now t)
      ≡ true
unfolding recipients_at
recipients_at-can_access parse_uuid u actor message now t =
    let m = mentions_in parse_uuid u actor message in
    all-both _ _ (select_recipients u actor message m now t)
      (select_recipients-can_access u actor message m now t)
      (select_recipients-active u actor message m now t)
