-- ===== src/Database/Rows.antt =====
-- backend/migrations: one record for the columns of a table that the code uses.
use vussa.Base.{ℕ, String, Bool, true, false, Option, List}
use vussa.Models.{Uuid, Json}

-- `channels.kind`, under its check constraint.
pub data Kind : Type 0 where
  public private direct : Kind

-- `channel_members.membership_role`, under its check constraint.
pub data Role : Type 0 where
  owner moderator member : Role

abbrev pub is_public : Kind → Bool
is_public Kind.public = true
is_public other = false

abbrev pub is_private : Kind → Bool
is_private Kind.private = true
is_private other = false

abbrev pub is_direct : Kind → Bool
is_direct Kind.direct = true
is_direct other = false

abbrev pub is_owner : Role → Bool
is_owner Role.owner = true
is_owner other = false

abbrev pub is_moderator : Role → Bool
is_moderator Role.moderator = true
is_moderator other = false

abbrev pub is_member : Role → Bool
is_member Role.member = true
is_member other = false

pub record ChannelRow : Type 0 where
  pub id : Uuid
  pub name : String
  pub kind : Kind
  pub owner_user_id : Option Uuid
  pub direct_key : Option String
  pub created_at : ℕ
  pub deleted_at : Option ℕ
  pub archived_at : Option ℕ
  pub posting_restricted : Bool
  pub description : String
  pub retention_days : ℕ

pub record MemberRow : Type 0 where
  pub channel_id : Uuid
  pub user_id : Uuid
  pub membership_role : Role
  pub invited_by : Option Uuid
  pub created_at : ℕ

pub record UserRow : Type 0 where
  pub id : Uuid
  pub username : String
  pub disabled_at : Option ℕ
  pub deleted_at : Option ℕ

pub record BanRow : Type 0 where
  pub id : Uuid
  pub user_id : Uuid
  pub channel_id : Option Uuid
  pub expires_at : Option ℕ
  pub revoked_at : Option ℕ
  pub reason : String
  pub created_by : Option Uuid
  pub created_at : ℕ

-- The columns of `messages` that a message of the server fills (`create_system_message`).
pub record SystemRow : Type 0 where
  pub id : Uuid
  pub channel_id : Uuid
  pub text : String
  pub created_at : ℕ

pub record AuditRow : Type 0 where
  pub id : Uuid
  pub actor : Option Uuid
  pub action : String
  pub target_type : String
  pub target_id : Uuid
  pub metadata : Json
  pub created_at : ℕ

pub record InviteRow : Type 0 where
  pub channel_id : Uuid
  pub token_hash : String
  pub created_by : Uuid
  pub expires_at : Option ℕ
  pub max_uses : ℕ
  pub uses : ℕ

pub record Db : Type 0 where
  pub channels : List ChannelRow
  pub members : List MemberRow
  pub users : List UserRow
  pub bans : List BanRow
  pub messages : List SystemRow
  pub audit_events : List AuditRow
  pub invite_links : List InviteRow
