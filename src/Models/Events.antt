-- ===== src/Models/Events.antt =====
-- backend/src/models.rs: users, sessions, conversations, and the events of the WebSocket protocol.
use vussa.Base.{ℕ, String, Bool, Option, List}
use vussa.Models.Message.{Uuid, ChatMessage}

pub record AuthUser : Type 0 where
  pub id : Uuid
  pub email : String
  pub username : String
  pub roles : List String
  pub permissions : List String

pub record Session : Type 0 where
  pub id : Uuid
  pub csrf : String
  pub user : AuthUser

pub record ConversationSummary : Type 0 where
  pub id : Uuid
  pub name : String
  pub kind : String
  pub owner_user_id : Option Uuid
  pub display_name : String
  pub peer_user_id : Option Uuid
  pub peer_username : Option String
  pub last_message_at : Option ℕ

pub record ChannelMember : Type 0 where
  pub user_id : Uuid
  pub username : String
  pub membership_role : String

pub record ReactionSummary : Type 0 where
  pub message_id : Uuid
  pub emoji : String
  pub user_ids : List Uuid

pub record Participant : Type 0 where
  pub user_id : Uuid
  pub username : String
  pub display_name : String
  pub custom_status : String
  pub roles : List String
  pub online : Bool

pub data HistorySource : Type 0 where
  cache database : HistorySource

pub data ClientEvent : Type 0 where
  list_channels : ClientEvent
  create_channel : (name : String) → ClientEvent
  create_private_channel : (name : String) → ClientEvent
  open_direct : (user_id : Uuid) → ClientEvent
  invite_member : (channel : String) (user_id : Uuid) → ClientEvent
  remove_member : (channel : String) (user_id : Uuid) → ClientEvent
  join_channel : (name : String) → ClientEvent
  delete_channel : (name : String) → ClientEvent
  delete_message : (id : Uuid) → ClientEvent
  add_reaction : (message_id : Uuid) (emoji : String) → ClientEvent
  remove_reaction : (message_id : Uuid) (emoji : String) → ClientEvent
  typing : (typing : Bool) → ClientEvent
  mark_read : (message_id : Uuid) (created_at : ℕ) → ClientEvent
  send_message :
      (text : String) (root_message_id : Option Uuid) (client_id : Option String)
      (file_ids : List Uuid)
      → ClientEvent
  edit_message : (id : Uuid) (text : String) → ClientEvent
  load_history : (channel : String) (before_created_at : ℕ) (before_id : Uuid) → ClientEvent
  load_thread :
      (message_id : Uuid) (before_created_at : Option ℕ) (before_id : Option Uuid) → ClientEvent
  heartbeat : ClientEvent

pub data ServerEvent : Type 0 where
  welcome : (username : String) → ServerEvent
  channels : (channels : List String) → ServerEvent
  private_conversations : (conversations : List ConversationSummary) → ServerEvent
  members : (channel : String) (members : List ChannelMember) → ServerEvent
  channel_created : (name : String) → ServerEvent
  channel_deleted : (name : String) → ServerEvent
  joined : (name : String) → ServerEvent
  history :
      (channel : String) (messages : List ChatMessage) (source : HistorySource) (has_more : Bool)
      → ServerEvent
  history_page :
      (channel : String) (messages : List ChatMessage) (source : HistorySource) (has_more : Bool)
      → ServerEvent
  message : (message : ChatMessage) → ServerEvent
  message_updated : (message : ChatMessage) → ServerEvent
  thread_history :
      (root_message_id : Uuid) (messages : List ChatMessage) (has_more : Bool) → ServerEvent
  reaction_updated : (channel : String) (reaction : ReactionSummary) → ServerEvent
  typing : (channel : String) (user_id : Uuid) (username : String) (typing : Bool) → ServerEvent
  read_state_updated :
      (channel : String) (user_id : Uuid) (message_id : Uuid) (created_at : ℕ) → ServerEvent
  error : (message : String) → ServerEvent
  participants : (channel : String) (participants : List Participant) → ServerEvent
  participant_joined : (channel : String) (participant : Participant) → ServerEvent
  participant_left : (channel : String) (user_id : Uuid) → ServerEvent
  presence_sync : (channel : String) (participants : List Participant) → ServerEvent
