-- ===== src/Services.antt =====
-- backend/src/services.rs: the operations on channels that the HTTP handlers and the WebSocket
-- share. The SQL statements stand in `Services/Statements.antt`.
pub mod Statements
pub mod Publishing
pub mod Invariants
pub mod Ownership
pub mod Main
pub mod Removal
pub mod Revival
use vussa.Base.{
  ℕ, ◌==◌, String, str_eq, text_append, Bool, true, false, not, Option, none, some, List, [], ◌∷◌,
  ltb, find, if◌then◌else◌,
}
use vussa.Models.{Uuid, AuthUser, ServerEvent, Json, Fields}
use vussa.Error.{bad_request, from_repository_error, RepositoryError, from_sqlx_error, SqlxError}
use vussa.Database.{Db, Role}
use vussa.Text.{normalize_channel_name, main_channel}
use vussa.Auth.{require_permission}
use vussa.Io.{
  Env, Io, pure, raise, reject, or_fail, lift, now, new_uuid, query, execute, transaction, ◌>>=◌,
  ◌>>◌,
}
use vussa.Access.{ensure_not_globally_banned, owned_private_channel}
use vussa.Broadcast.{broadcast_control}
use Statements.{
  upsert_channel, insert_private, insert_direct, select_direct, insert_member, delete_member,
  mark_deleted, enabled_username, username_of, user_exists,
}
use Publishing.{record_audit, publish_system_message, broadcast_members}

-- `serde_json::json!({"user_id": id})`.
abbrev pub user_metadata : Env → Uuid → Json
user_metadata env user =
    Json.object (Fields.field "user_id" (Json.text (env.uuid_text user)) Fields.end)

abbrev pub no_metadata : Json
no_metadata = Json.object Fields.end

public_rows : Env → AuthUser → String → ℕ → Io (Unit {0})
public_rows env actor name t = do
  id ← new_uuid env
  found ← execute env (upsert_channel id name t)
  channel_id ← or_fail (bad_request "channel already exists") found
  record_audit env (some actor.id) "channel.created" "channel" channel_id no_metadata t

pub create_public_channel : Env → AuthUser → String → Io String
unfolding public_rows
create_public_channel env actor raw_name = do
  lift (require_permission actor "chat:write")
  ensure_not_globally_banned env actor.id
  name ← lift (normalize_channel_name env.unicode raw_name)
  t ← now env
  transaction env (public_rows env actor name t)
  publish_system_message env name (text_append actor.username " created this channel")
  broadcast_control env (ServerEvent.channel_created name)
  pure name

pub private_rows : Env → AuthUser → Uuid → String → ℕ → Io (Unit {0})
private_rows env actor id name t = do
  inserted ← execute env (insert_private id name actor.id t)
  reject (not inserted) (bad_request "channel already exists")
  execute env (insert_member id actor.id Role.owner (some actor.id) t)
  record_audit env (some actor.id) "channel.private_created" "channel" id no_metadata t

pub create_private_conversation : Env → AuthUser → String → Io (Uuid × String)
unfolding private_rows
create_private_conversation env actor raw_name = do
  lift (require_permission actor "chat:write")
  ensure_not_globally_banned env actor.id
  name ← lift (normalize_channel_name env.unicode raw_name)
  id ← new_uuid env
  t ← now env
  transaction env (private_rows env actor id name t)
  publish_system_message env name (text_append actor.username " created this private channel")
  pure (id, name)

-- The channel that the statements settle on, and whether it is new.
found_or_created : Env → String → Option (Uuid × String) → Io (Uuid × String × Bool)
found_or_created env key (some (id, name)) = pure (id, name, true)
found_or_created env key none = do
  row ← query env (select_direct key)
  (id, name) ← or_fail (from_sqlx_error SqlxError.failed) row
  pure (id, name, false)

audit_if_created : Env → AuthUser → Uuid → Uuid → Bool → ℕ → Io (Unit {0})
audit_if_created env actor target id created t =
    if created
    then record_audit env (some actor.id) "channel.direct_created" "channel" id
        (user_metadata env target) t
    else pure tt

direct_rows : Env → AuthUser → Uuid → Uuid → Uuid → String → Uuid → String → ℕ → Io (Uuid × String)
unfolding found_or_created audit_if_created
direct_rows env actor target first second key proposed_id proposed_name t = do
  inserted ← execute env (insert_direct proposed_id proposed_name key t)
  row ← found_or_created env key inserted
  execute env (insert_member row.0 first Role.member (some actor.id) t)
  execute env (insert_member row.0 second Role.member (some actor.id) t)
  audit_if_created env actor target row.0 row.2 t
  pure (row.0, row.1)

-- `format!("{first}:{second}")`, the smaller identifier first.
pub direct_key : Env → Uuid → Uuid → String
direct_key env a b =
    if ltb a b
    then text_append (env.uuid_text a) (text_append ":" (env.uuid_text b))
    else text_append (env.uuid_text b) (text_append ":" (env.uuid_text a))

pub open_direct : Env → AuthUser → Uuid → Io (Uuid × String)
unfolding direct_rows direct_key
open_direct env actor target = do
  lift (require_permission actor "chat:write")
  ensure_not_globally_banned env actor.id
  reject (target == actor.id) (bad_request "you cannot message yourself")
  exists ← query env (λ db. user_exists target db)
  reject (not exists) (from_repository_error RepositoryError.not_found)
  t ← now env
  proposed_id ← new_uuid env
  transaction env (
      direct_rows env actor target (if ltb actor.id target then actor.id else target)
        (if ltb actor.id target then target else actor.id) (direct_key env actor.id target)
        proposed_id (text_append "dm_" (env.uuid_text proposed_id)) t)

audit_invite : Env → AuthUser → Uuid → Uuid → String → ℕ → Io (Option String)
audit_invite env actor channel_id user target t = do
  record_audit env (some actor.id) "channel.member_added" "channel" channel_id
      (user_metadata env user) t
  pure (some target)

-- The transaction of `invite_member`: the name of the new member, or `none` for an old one.
invite_rows : Env → AuthUser → Uuid → Uuid → ℕ → Io (Option String)
unfolding audit_invite
invite_rows env actor channel_id user t = do
  found ← query env (enabled_username user)
  target ← or_fail (from_repository_error RepositoryError.not_found) found
  inserted ← execute env (insert_member channel_id user Role.member (some actor.id) t)
  if inserted then audit_invite env actor channel_id user target t else pure none

announce_invite : Env → AuthUser → String → Option String → Io Bool
announce_invite env actor channel none = pure false
announce_invite env actor channel (some target) = do
  publish_system_message env channel (text_append actor.username (text_append " invited " target))
  broadcast_members env channel
  pure true

pub invite_member : Env → AuthUser → String → Uuid → Io Bool
unfolding invite_rows announce_invite
invite_member env actor channel user = do
  lift (require_permission actor "chat:write")
  channel_id ← owned_private_channel env channel actor.id
  t ← now env
  added ← transaction env (invite_rows env actor channel_id user t)
  announce_invite env actor channel added

abbrev or_a_member : Option String → String
or_a_member none = "a member"
or_a_member (some name) = name

remove_rows : Env → AuthUser → Uuid → Uuid → ℕ → Io String
remove_rows env actor channel_id user t = do
  removed ← execute env (delete_member channel_id user)
  reject (not removed) (from_repository_error RepositoryError.not_found)
  found ← query env (username_of user)
  record_audit env (some actor.id) "channel.member_removed" "channel" channel_id
      (user_metadata env user) t
  pure (or_a_member found)

pub remove_member : Env → AuthUser → String → Uuid → Io (Unit {0})
unfolding remove_rows
remove_member env actor channel user = do
  lift (require_permission actor "chat:write")
  channel_id ← owned_private_channel env channel actor.id
  t ← now env
  target ← transaction env (remove_rows env actor channel_id user t)
  publish_system_message env channel (text_append actor.username (text_append " removed " target))
  broadcast_members env channel
  pure tt

delete_rows : Env → AuthUser → String → ℕ → Io (Unit {0})
delete_rows env actor name t = do
  found ← execute env (mark_deleted name t)
  id ← or_fail (from_repository_error RepositoryError.not_found) found
  record_audit env (some actor.id) "channel.deleted" "channel" id no_metadata t

pub delete_channel_service : Env → AuthUser → String → Io String
unfolding delete_rows
delete_channel_service env actor raw_name = do
  lift (require_permission actor "chat:moderate")
  name ← lift (normalize_channel_name env.unicode raw_name)
  reject (str_eq name main_channel) (bad_request "the main channel cannot be removed")
  t ← now env
  transaction env (delete_rows env actor name t)
  broadcast_control env (ServerEvent.channel_deleted name)
  pure name
