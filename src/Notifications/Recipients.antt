-- ===== src/Notifications/Recipients.antt =====
-- backend/src/api/notifications.rs, `create_message_notifications_with_clock`: who is told of a
-- message. It answers an error where a statement fails, and leaves the tables as they were.
use vussa.Base.{
  ℕ, ◌==◌, String, str_eq, text_append, Bool, true, false, not, ◌&&◌, ◌||◌, Option, none, some,
  List, [], ◌∷◌, any, find, if◌then◌else◌,
}
use vussa.Models.{Uuid, Json, Items, Fields, AuthUser, ChatMessage}
use vussa.Database.{Kind, ChannelRow, MemberRow, BanRow, is_public, is_private, is_direct}
use vussa.Database.Tables.{is_null, is_live, has_member, covers}
use vussa.Accounts.{Account}
use vussa.Text.{Unicode}
use vussa.Notifications.{DeliveryRow}
use vussa.Notifications.Mentions.{MentionScope, extract_mentioned_usernames, mention_scope}

pub record PreferencesRow : Type 0 where
  pub user_id : Uuid
  pub mentions : Bool
  pub direct_messages : Bool
  pub channel_messages : Bool
  pub email_enabled : Bool
  pub browser_push_enabled : Bool

pub record NotificationRow : Type 0 where
  pub id : Uuid
  pub user_id : Uuid
  pub actor_user_id : Uuid
  pub kind : String
  pub message_id : Option Uuid
  pub channel_id : Uuid
  pub body : String
  pub created_at : ℕ
  pub read_at : Option ℕ

-- `lower` is the function of PostgreSQL, which goes by the locale of the database.
pub record NotifyTables : Type 0 where
  pub lower : String → String
  pub channels : List ChannelRow
  pub members : List MemberRow
  pub users : List Account
  pub bans : List BanRow
  pub preferences : List PreferencesRow
  pub notifications : List NotificationRow
  pub deliveries : List DeliveryRow

-- The columns of `np`, with the defaults that `COALESCE` gives.
abbrev pub preferences_of : List PreferencesRow → Uuid → PreferencesRow
preferences_of rows user = elim (find (λ p. p.user_id == user) rows) [
  | some p ↦ p
  | none ↦ record {
    user_id = user;
    mentions = true;
    direct_messages = true;
    channel_messages = false;
    email_enabled = false;
    browser_push_enabled = false;
  }
]

-- What the code takes from a message before it reads the tables.
pub record Mentions : Type 0 where
  pub usernames : List String
  pub scope : MentionScope
  pub here_ids : List Uuid

abbrev pub is_everyone : MentionScope → Bool
is_everyone MentionScope.everyone = true
is_everyone other = false

abbrev pub is_here : MentionScope → Bool
is_here MentionScope.here = true
is_here other = false

-- `metadata.get("online_user_ids")`, its texts that are identifiers. `parse_uuid` is a parameter.
module _ (parse_uuid : String → Option Uuid) where
  abbrev pub push_id : Option Uuid → List Uuid → List Uuid
  push_id none ids = ids
  push_id (some id) ids = id ∷ ids

  unfoldable pub ids_in : Items → List Uuid
  ids_in Items.nil = []
  ids_in (Items.cons (Json.text s) items) = push_id (parse_uuid s) (ids_in items)
  ids_in (Items.cons other items) = ids_in items

  abbrev pub ids_of : Json → List Uuid
  ids_of (Json.array items) = ids_in items
  ids_of other = []

  unfoldable pub online_field : Fields → List Uuid
  online_field Fields.end = []
  online_field (Fields.field name value fields) =
      let rest = online_field fields in if str_eq name "online_user_ids" then ids_of value else rest

  abbrev pub online_ids : Json → List Uuid
  online_ids (Json.object fields) = online_field fields
  online_ids other = []

  unfoldable pub mentions_in : Unicode → AuthUser → ChatMessage → Mentions
  mentions_in u actor message = record {
    usernames = extract_mentioned_usernames u message.text actor.username;
    scope = mention_scope u message.text;
    here_ids = online_ids message.metadata;
  }

-- The condition on `cm`, `np` and the mentions in the query.
unfoldable pub is_concerned :
    (String → String) → Mentions → ChannelRow → Bool → PreferencesRow → Account → Bool
is_concerned lower m c joined p user =
    ((any (str_eq (lower user.username)) m.usernames
        || is_everyone m.scope
        || any (λ id. user.id == id) m.here_ids)
      && p.mentions
      && (is_public c.kind || joined))
    || (is_direct c.kind && joined && p.direct_messages)
    || (is_private c.kind && joined && p.channel_messages)
    || (is_public c.kind && p.channel_messages)

-- The rows that the query finds in a channel.
unfoldable pub is_recipient : AuthUser → Mentions → ℕ → NotifyTables → ChannelRow → Account → Bool
is_recipient actor m now t c user =
    not (user.id == actor.id)
    && is_null user.disabled_at
    && is_null user.deleted_at
    && not (any (covers c.id user.id now) t.bans)
    && is_concerned t.lower m c (has_member t.members c.id user.id)
        (preferences_of t.preferences user.id) user

pub record Recipient : Type 0 where
  pub user_id : Uuid
  pub channel_id : Uuid
  pub email : String
  pub kind : String
  pub body : String
  pub email_enabled : Bool
  pub browser_enabled : Bool

unfoldable pub is_mention : Unicode → Mentions → PreferencesRow → Account → Bool
is_mention u m p user =
    p.mentions
    && (is_everyone m.scope
        || (is_here m.scope && any (λ id. user.id == id) m.here_ids)
        || any (λ name. str_eq name (u.to_lowercase user.username)) m.usernames)

abbrev pub kind_of : Bool → Kind → String
kind_of mention kind =
    if mention then "mention" else if is_direct kind then "direct_message" else "channel_message"

abbrev pub body_of : String → AuthUser → ChatMessage → String
body_of kind actor message =
    if str_eq kind "mention"
    then text_append actor.username (text_append " mentioned you in #" message.channel)
    else if str_eq kind "direct_message"
    then text_append actor.username " sent you a direct message"
    else text_append actor.username (text_append " posted in #" message.channel)

unfoldable pub recipient :
    Unicode
    → AuthUser
    → ChatMessage
    → Mentions
    → List PreferencesRow
    → ChannelRow
    → Account
    → Recipient
recipient u actor message m preferences c user =
    let p = preferences_of preferences user.id in
    let kind = kind_of (is_mention u m p user) c.kind in
    record {
      user_id = user.id;
      channel_id = c.id;
      email = user.email;
      kind = kind;
      body = body_of kind actor message;
      email_enabled = p.email_enabled;
      browser_enabled = p.browser_push_enabled;
    }

unfoldable pub recipients_among :
    Unicode
    → AuthUser
    → ChatMessage
    → Mentions
    → ℕ
    → NotifyTables
    → ChannelRow
    → List Account
    → List Recipient
recipients_among u actor message m now t c [] = []
recipients_among u actor message m now t c (user ∷ users) =
    let rest = recipients_among u actor message m now t c users in
    if is_recipient actor m now t c user
    then recipient u actor message m t.preferences c user ∷ rest
    else rest

abbrev pub in_channel : (ChannelRow → List Recipient) → Option ChannelRow → List Recipient
in_channel f none = []
in_channel f (some c) = f c

-- The names of channels are unique, so that the join finds one at most.
unfoldable pub select_recipients :
    Unicode → AuthUser → ChatMessage → Mentions → ℕ → NotifyTables → List Recipient
select_recipients u actor message m now t =
    in_channel (λ c. recipients_among u actor message m now t c t.users)
      (find (is_live message.channel) t.channels)
