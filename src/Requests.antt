-- ===== src/Requests.antt =====
-- The operations on channels and members as the requests of users and administrators, one after another, each under
-- what the services answer to it.
pub mod Consistency
pub mod MainChannel
use vussa.Base.{String, List, [], ◌∷◌}
use vussa.Models.{Uuid, AuthUser, Session}
use vussa.Error.{Result}
use vussa.Io.{Env, World, Io, pure, ◌>>=◌, ◌>>◌}
use vussa.Services.{
  create_public_channel, create_private_conversation, open_direct, invite_member, remove_member,
  delete_channel_service,
}
use vussa.Members.{
  leave_channel, promote_channel_moderator, demote_channel_moderator, transfer_channel_ownership,
}
use vussa.Channels.{
  ChannelAdminRequest, admin_create_channel, admin_update_channel, admin_channel_state,
}

pub data Operation : Type 0 where
  create_public : AuthUser → String → Operation
  create_private : AuthUser → String → Operation
  direct : AuthUser → Uuid → Operation
  invite : AuthUser → String → Uuid → Operation
  remove : AuthUser → String → Uuid → Operation
  delete : AuthUser → String → Operation
  leave : Result Session → String → Operation
  promote : Result Session → String → Uuid → Operation
  demote : Result Session → String → Uuid → Operation
  transfer : Result Session → String → Uuid → Operation
  admin_create : Result Session → ChannelAdminRequest → Operation
  admin_update : Result Session → Uuid → ChannelAdminRequest → Operation
  admin_state : Result Session → Uuid → String → Operation

pub perform : Env → Operation → Io (Unit {0})
perform env (create_public actor name) = do create_public_channel env actor name; pure tt
perform env (create_private actor name) = do create_private_conversation env actor name; pure tt
perform env (direct actor user) = do open_direct env actor user; pure tt
perform env (invite actor channel user) = do invite_member env actor channel user; pure tt
perform env (remove actor channel user) = remove_member env actor channel user
perform env (delete actor name) = do delete_channel_service env actor name; pure tt
perform env (leave login name) = leave_channel env login name
perform env (promote login name user) = promote_channel_moderator env login name user
perform env (demote login name user) = demote_channel_moderator env login name user
perform env (transfer login name user) = transfer_channel_ownership env login name user
perform env (admin_create login request) = admin_create_channel env login request
perform env (admin_update login id request) = admin_update_channel env login id request
perform env (admin_state login id action) = admin_channel_state env login id action

-- An error ends its request only.
pub run : World → List (Env × Operation) → World
run w [] = w
run w ((env, op) ∷ rest) = run (perform env op w).1 rest
