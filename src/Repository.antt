-- ===== src/Repository.antt =====
-- backend/src/repository/postgres.rs: messages in the database. An operation is what its statements
-- do in one transaction, which leaves the tables as they were if it fails; a call to the database that
-- is lost on the way is not modelled.
mod Rows
pub mod Messages
pub mod Retries
unfoldable pub use Rows.*
use vussa.Base.{
  ℕ, ◌+◌, ◌==◌, ltb, leb, String, str_eq, Bool, true, false, not, ◌&&◌, ◌||◌, Option, none, some,
  List, [], ◌∷◌, ◌++◌, map, length, take, reverse_onto, keep, any, all, find, sort_by,
  if◌then◌else◌,
}
use vussa.Models.{Uuid, ChatMessage, Json}
use vussa.Error.{RepositoryError, SqlxError}
use vussa.Database.{ChannelRow}
use vussa.Database.Tables.{is_null, equals, update, has_id, is_live}

abbrev pub Cursor : Type 0
Cursor = ℕ × Uuid

-- `$3::bigint IS NULL OR (m.created_at, m.id) < ($3, $4)`.
abbrev pub is_before : Option Cursor → MessageRow → Bool
is_before none m = true
is_before (some cursor) m =
    ltb m.created_at cursor.0 || m.created_at == cursor.0 && ltb m.id cursor.1

-- 90 days, in milliseconds.
abbrev pub shown_for : ℕ
shown_for = 7776000000

-- `ORDER BY m.created_at DESC, m.id DESC`.
abbrev pub newest_first : MessageRow → MessageRow → Bool
newest_first a b = ltb b.created_at a.created_at || b.created_at == a.created_at && leb b.id a.id

abbrev pub is_shown : Store → ℕ → String → Option Cursor → MessageRow → Bool
is_shown store now channel before m =
    is_in store channel m
    && (leb now (m.created_at + shown_for) && (is_null m.root_message_id && is_before before m))

unfoldable pub load_messages : Store → ℕ → String → Option Cursor → ℕ → List ChatMessage
load_messages store now channel before limit = map (row_message store channel) (
    reverse_onto
      (take limit (sort_by newest_first (keep (is_shown store now channel before) store.messages)))
      [])

abbrev pub set_text : String → MessageRow → MessageRow
set_text text m = record m { text = text; edited = true }

-- What `edit_message` answers.
abbrev pub edited_message : Store → String → String → MessageRow → ChatMessage
edited_message store channel text m = record {
  id = m.id;
  channel = channel;
  username = m.username;
  text = text;
  created_at = m.created_at;
  edited = true;
  deleted = false;
  root_message_id = m.root_message_id;
  reply_count = reply_count store m.id;
  metadata = m.metadata;
  mentions = m.mentions;
  client_id = m.client_id;
  file_ids = file_ids_of store.message_files m.id;
}

abbrev pub edit_found :
    String → Uuid → Uuid → String → Store → Option MessageRow → Outcome ChatMessage
edit_found channel id owner_session text store none = Outcome.failed RepositoryError.not_found
edit_found channel id owner_session text store (some m) =
    if not (m.owner_session == owner_session)
    then Outcome.failed RepositoryError.forbidden
    else Outcome.done (edited_message store channel text m)
        (record store { messages = update (is_message id) (set_text text) store.messages })

unfoldable pub edit_message : String → Uuid → Uuid → String → Store → Outcome ChatMessage
edit_message channel id owner_session text store =
    edit_found channel id owner_session text store
      (find (λ m. is_message id m && is_in store channel m) store.messages)

-- `COALESCE(deleted_at,$1)`.
abbrev pub coalesce : Option ℕ → ℕ → Option ℕ
coalesce none t = some t
coalesce (some s) t = some s

abbrev pub set_deleted : ℕ → MessageRow → MessageRow
set_deleted now m = record m { deleted_at = coalesce m.deleted_at now; edited = false }

-- What `delete_message` answers.
abbrev pub deleted_message : Store → String → MessageRow → ChatMessage
deleted_message store channel m = record {
  id = m.id;
  channel = channel;
  username = m.username;
  text = "";
  created_at = m.created_at;
  edited = false;
  deleted = true;
  root_message_id = m.root_message_id;
  reply_count = reply_count store m.id;
  metadata = m.metadata;
  mentions = m.mentions;
  client_id = m.client_id;
  file_ids = file_ids_of store.message_files m.id;
}

abbrev pub delete_found :
    ℕ → String → Uuid → Uuid → Bool → Store → Option MessageRow → Outcome ChatMessage
delete_found now channel id owner_session can_moderate store none =
    Outcome.failed RepositoryError.not_found
delete_found now channel id owner_session can_moderate store (some m) =
    if not can_moderate && not (m.owner_session == owner_session)
    then Outcome.failed RepositoryError.forbidden
    else Outcome.done (deleted_message store channel m)
        (record store { messages = update (is_message id) (set_deleted now) store.messages })

unfoldable pub delete_message : ℕ → String → Uuid → Uuid → Bool → Store → Outcome ChatMessage
delete_message now channel id owner_session can_moderate store =
    delete_found now channel id owner_session can_moderate store
      (find (λ m. is_message id m && is_in store channel m) store.messages)

-- `$9::uuid IS NULL OR EXISTS (…)`: the parent stands in the same channel.
abbrev pub has_parent : Store → Uuid → Option Uuid → Bool
has_parent store channel_id none = true
has_parent store channel_id (some root) =
    any (λ m. is_message root m && m.channel_id == channel_id) store.messages

-- The unique columns: `id`, and `(owner_session, client_id)` where there is a `client_id`.
abbrev pub is_retry : Uuid → Option String → MessageRow → Bool
is_retry owner_session none m = false
is_retry owner_session (some client_id) m =
    m.owner_session == owner_session && is_text m.client_id client_id

abbrev pub conflicts : ChatMessage → Uuid → MessageRow → Bool
conflicts message owner_session m =
    is_message message.id m || is_retry owner_session message.client_id m

abbrev pub new_row : Uuid → ChatMessage → Uuid → Uuid → MessageRow
new_row channel_id message owner_session owner_user = record {
  id = message.id;
  channel_id = channel_id;
  username = message.username;
  text = message.text;
  created_at = message.created_at;
  edited = message.edited;
  deleted_at = none;
  owner_session = owner_session;
  owner_user_id = some owner_user;
  root_message_id = message.root_message_id;
  client_id = message.client_id;
  metadata = message.metadata;
  mentions = message.mentions;
}

-- `INSERT INTO message_files … ON CONFLICT DO NOTHING`, file by file.
abbrev pub attach : Uuid → List Uuid → List (Uuid × Uuid) → List (Uuid × Uuid)
attach id [] pairs = pairs
attach id (file ∷ rest) pairs =
    attach id rest
      (if any (λ p. p.0 == id && p.1 == file) pairs then pairs else pairs ++ (id, file) ∷ [])

abbrev pub is_file : Store → Uuid → Bool
is_file store file = any (λ f. f == file) store.files

abbrev pub save_found : ChatMessage → Uuid → Uuid → Store → Option ChannelRow → Outcome (Unit {0})
save_found message owner_session owner_user store none = Outcome.failed RepositoryError.not_found
save_found message owner_session owner_user store (some c) =
    if not (has_parent store c.id message.root_message_id)
    then Outcome.failed RepositoryError.not_found
    else if any (conflicts message owner_session) store.messages
        || not (all (is_file store) message.file_ids)
    then Outcome.failed (RepositoryError.database SqlxError.reported)
    else Outcome.done tt (record store {
      messages = store.messages ++ new_row c.id message owner_session owner_user ∷ [];
      message_files = attach message.id message.file_ids store.message_files;
    })

unfoldable pub save_message : ChatMessage → Uuid → Uuid → Store → Outcome (Unit {0})
save_message message owner_session owner_user store =
    save_found message owner_session owner_user store
      (find (is_live message.channel) store.channels)

abbrev pub message_of : Store → MessageRow → Option String → Option ChatMessage
message_of store m none = none
message_of store m (some channel) = some (row_message store channel m)

abbrev pub message_at : Store → Option MessageRow → Option ChatMessage
message_at store none = none
message_at store (some m) = message_of store m (channel_name store.channels m.channel_id)

abbrev pub is_there : Option String → Bool
is_there none = false
is_there (some name) = true

unfoldable pub find_message_by_client_id : Uuid → String → Store → Option ChatMessage
find_message_by_client_id owner_session client_id store = message_at store (
    find
      (λ m.
        is_there (channel_name store.channels m.channel_id)
        && is_retry owner_session (some client_id) m)
      store.messages)
