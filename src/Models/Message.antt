-- ===== src/Models/Message.antt =====
-- backend/src/models.rs: a chat message, as it is sent and as the hot cache stores it.
use vussa.Base.{ℕ, String, Bool, Option, List}
use vussa.Models.Values.{Json}

abbrev pub Uuid : Type 0
Uuid = ℕ

-- `Uuid::nil()`.
abbrev pub nil_uuid : Uuid
nil_uuid = 0

pub record ChatMessage : Type 0 where
  pub id : Uuid
  pub channel : String
  pub username : String
  pub text : String
  pub created_at : ℕ
  pub edited : Bool
  pub deleted : Bool
  pub root_message_id : Option Uuid
  pub reply_count : ℕ
  pub metadata : Json
  pub mentions : List String
  pub client_id : Option String
  pub file_ids : List Uuid

pub record StoredMessage : Type 0 where
  pub id : Uuid
  pub channel : String
  pub username : String
  pub text : String
  pub created_at : ℕ
  pub edited : Bool
  pub deleted : Bool
  pub root_message_id : Option Uuid
  pub reply_count : ℕ
  pub metadata_json : String
  pub mentions : List String
  pub client_id : Option String
  pub file_ids : List Uuid
  pub owner_session : Uuid
