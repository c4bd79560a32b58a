-- ===== src/Members.antt =====
-- backend/src/api/members.rs: leaving a channel, its moderators, and the transfer of ownership.
-- `login` is what `load_session` and `require_csrf` answered for the request.
pub mod Statements
pub mod Ownership
pub mod Main
use vussa.Base.{ℕ, ◌==◌, String, text_append, Bool, not, ◌||◌, Option, none, some}
use vussa.Models.{Uuid, Session, ServerEvent, Json, Fields}
use vussa.Error.{Result, bad_request, forbidden, from_repository_error, RepositoryError}
use vussa.Database.{is_public, is_owner}
use vussa.Database.Tables.{equals, has_member}
use vussa.Auth.{require_permission}
use vussa.Io.{
  Env, Io, pure, reject, or_fail, lift, ignore, now, query, execute, transaction, ◌>>=◌, ◌>>◌,
}
use vussa.Broadcast.{broadcast}
use vussa.Access.{channel_moderator_manager}
use vussa.Services.{user_metadata}
use vussa.Services.Publishing.{record_audit, publish_system_message, channel_members}
use Statements.{
  select_membership, select_owner, delete_membership, promote, demote, set_owner, set_moderator,
  set_owner_role,
}

-- `broadcast(…, Members { members: channel_members(…).await? })`, whose own error is dropped.
unfoldable pub announce_members : Env → String → Io (Unit {0})
announce_members env name = do
  members ← channel_members env name
  ignore (broadcast env name (ServerEvent.members name members))

-- What `leave_channel` does once the row is found.
leave_rest : Env → Session → String → Uuid → Io (Unit {0})
unfolding announce_members
leave_rest env session name channel_id = do
  publish_system_message env name (text_append session.user.username " left the conversation")
  announce_members env name
  t ← now env
  record_audit env (some session.user.id) "channel.member_left" "channel" channel_id
      (user_metadata env session.user.id) t

pub leave_channel : Env → Result Session → String → Io (Unit {0})
unfolding leave_rest
leave_channel env login name = do
  session ← lift login
  lift (require_permission session.user "chat:write")
  found ← query env (select_membership name session.user.id)
  row ← or_fail (from_repository_error RepositoryError.not_found) found
  reject (is_public row.0.kind) (bad_request "public channels do not require leaving")
  reject (equals row.0.owner_user_id session.user.id || is_owner row.1.membership_role)
      (bad_request "the channel owner must transfer ownership or delete the channel")
  execute env (delete_membership row.0.id session.user.id)
  leave_rest env session name row.0.id

pub promote_channel_moderator : Env → Result Session → String → Uuid → Io (Unit {0})
promote_channel_moderator env login name user = do
  session ← lift login
  channel_id ← channel_moderator_manager env name session.user
  changed ← execute env (promote channel_id user)
  reject (not changed) (from_repository_error RepositoryError.not_found)
  t ← now env
  record_audit env (some session.user.id) "channel.moderator_promoted" "channel" channel_id
      (user_metadata env user) t

pub demote_channel_moderator : Env → Result Session → String → Uuid → Io (Unit {0})
demote_channel_moderator env login name user = do
  session ← lift login
  channel_id ← channel_moderator_manager env name session.user
  changed ← execute env (demote channel_id user)
  reject (not changed) (from_repository_error RepositoryError.not_found)
  t ← now env
  record_audit env (some session.user.id) "channel.moderator_demoted" "channel" channel_id
      (user_metadata env user) t

transfer_rows : Env → Uuid → Uuid → Uuid → Io (Unit {0})
transfer_rows env channel_id old new = do
  execute env (set_owner channel_id new)
  execute env (set_moderator channel_id old)
  execute env (set_owner_role channel_id new)
  pure tt

-- `serde_json::json!({"old_owner": …, "new_owner": …})`.
transfer_metadata : Env → Uuid → Uuid → Json
transfer_metadata env old new = Json.object (
    Fields.field "old_owner" (Json.text (env.uuid_text old))
      (Fields.field "new_owner" (Json.text (env.uuid_text new)) Fields.end))

pub transfer_channel_ownership : Env → Result Session → String → Uuid → Io (Unit {0})
unfolding transfer_rows transfer_metadata announce_members
transfer_channel_ownership env login name target = do
  session ← lift login
  lift (require_permission session.user "chat:write")
  found ← query env (select_owner name)
  row ← or_fail (from_repository_error RepositoryError.not_found) found
  reject (not (equals row.1 session.user.id))
      (forbidden "only the channel owner can transfer ownership")
  reject (target == session.user.id) (bad_request "cannot transfer ownership to yourself")
  is_member ← query env (λ db. has_member db.members row.0 target)
  reject (not is_member) (bad_request "target user is not a member of the channel")
  transaction env (transfer_rows env row.0 session.user.id target)
  announce_members env name
  t ← now env
  record_audit env (some session.user.id) "channel.ownership_transferred" "channel" row.0
      (transfer_metadata env session.user.id target) t
