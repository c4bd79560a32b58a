-- ===== src/History/Stored.antt =====
-- backend/src/models.rs, `impl StoredMessage`: a message as the hot cache keeps it.
use vussa.Base.{ℕ, String, Option, none, some, List}
use vussa.Models.{Uuid, ChatMessage, StoredMessage, Json, Fields}

-- `serde_json` and `bitcode`.
pub record Codec : Type 0 where
  pub to_string : Json → Option String
  pub from_str : String → Option Json
  pub encode : StoredMessage → List ℕ
  pub decode : List ℕ → Option StoredMessage

abbrev pub unwrap_or {ℓ} : {A : Type ℓ} → Option A → A → A
unwrap_or none a = a
unwrap_or (some b) a = b

module _ (codec : Codec) where
  unfoldable pub from_message : ChatMessage → Uuid → StoredMessage
  from_message message owner_session = record {
    id = message.id;
    channel = message.channel;
    username = message.username;
    text = message.text;
    created_at = message.created_at;
    edited = message.edited;
    deleted = message.deleted;
    root_message_id = message.root_message_id;
    reply_count = message.reply_count;
    metadata_json = unwrap_or (codec.to_string message.metadata) "{}";
    mentions = message.mentions;
    client_id = message.client_id;
    file_ids = message.file_ids;
    owner_session = owner_session;
  }

  unfoldable pub into_message : StoredMessage → ChatMessage
  into_message stored = record {
    id = stored.id;
    channel = stored.channel;
    username = stored.username;
    text = stored.text;
    created_at = stored.created_at;
    edited = stored.edited;
    deleted = stored.deleted;
    root_message_id = stored.root_message_id;
    reply_count = stored.reply_count;
    metadata = unwrap_or (codec.from_str stored.metadata_json) (Json.object Fields.end);
    mentions = stored.mentions;
    client_id = stored.client_id;
    file_ids = stored.file_ids;
  }
