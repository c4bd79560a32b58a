-- ===== src/Repository/Rows.antt =====
-- backend/src/repository/postgres.rs and backend/migrations: the tables of messages, and a row as the
-- queries select it.
use vussa.Base.{
  ℕ, ◌==◌, String, str_eq, Bool, false, not, Option, none, some, List, map, length, keep, find,
  if◌then◌else◌,
}
use vussa.Models.{Uuid, ChatMessage, Json}
use vussa.Error.{RepositoryError}
use vussa.Database.{ChannelRow}
use vussa.Database.Tables.{is_null, equals, has_id}

pub record MessageRow : Type 0 where
  pub id : Uuid
  pub channel_id : Uuid
  pub username : String
  pub text : String
  pub created_at : ℕ
  pub edited : Bool
  pub deleted_at : Option ℕ
  pub owner_session : Uuid
  pub owner_user_id : Option Uuid
  pub root_message_id : Option Uuid
  pub client_id : Option String
  pub metadata : Json
  pub mentions : List String

-- `message_files` pairs messages with files.
pub record Store : Type 0 where
  pub channels : List ChannelRow
  pub messages : List MessageRow
  pub files : List Uuid
  pub message_files : List (Uuid × Uuid)

pub data Outcome (A : Type 0) : Type 0 where
  done : A → Store → Outcome A
  failed : RepositoryError → Outcome A

abbrev pub live_name : Option ChannelRow → Option String
live_name none = none
live_name (some c) = if is_null c.deleted_at then some c.name else none

-- `JOIN channels c ON c.id=m.channel_id WHERE c.deleted_at IS NULL`.
unfoldable pub channel_name : List ChannelRow → Uuid → Option String
channel_name channels id = live_name (find (has_id id) channels)

abbrev pub is_text : Option String → String → Bool
is_text none s = false
is_text (some t) s = str_eq t s

-- `… AND c.name=$1`.
abbrev pub is_in : Store → String → MessageRow → Bool
is_in store channel m = is_text (channel_name store.channels m.channel_id) channel

abbrev pub is_message : Uuid → MessageRow → Bool
is_message id m = m.id == id

-- `SELECT COUNT(*) FROM messages replies WHERE replies.root_message_id=m.id`.
unfoldable pub reply_count : Store → Uuid → ℕ
reply_count store id = length (keep (λ r. equals r.root_message_id id) store.messages)

unfoldable pub file_ids_of : List (Uuid × Uuid) → Uuid → List Uuid
file_ids_of pairs id = map (λ p. p.1) (keep (λ p. p.0 == id) pairs)

-- The columns that the queries select, through `ChatMessage::try_from_row`.
abbrev pub row_message : Store → String → MessageRow → ChatMessage
row_message store channel m = record {
  id = m.id;
  channel = channel;
  username = m.username;
  text = if is_null m.deleted_at then m.text else "";
  created_at = m.created_at;
  edited = m.edited;
  deleted = not (is_null m.deleted_at);
  root_message_id = m.root_message_id;
  reply_count = reply_count store m.id;
  metadata = m.metadata;
  mentions = m.mentions;
  client_id = m.client_id;
  file_ids = file_ids_of store.message_files m.id;
}
