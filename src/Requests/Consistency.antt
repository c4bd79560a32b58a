-- ===== src/Requests/Consistency.antt =====
-- Whatever users ask and whatever fails, the tables of channels and members stay consistent.
use vussa.Base.{List, [], ◌∷◌}
use vussa.Io.{Env, World}
use vussa.Io.Keeps.{Keeps, bind-Keeps, pure-Keeps}
use vussa.Services.Invariants.{
  create_public_channel-Keeps, create_private_conversation-Keeps, open_direct-Keeps,
  invite_member-Keeps, remove_member-Keeps, delete_channel_service-Keeps,
}
use vussa.Services.Ownership.{IsConsistent}
use vussa.Services.Ownership.Operations.{IsConsistent-StatementsKeep}
use vussa.Members.Ownership.Handlers.{
  leave_channel-Keeps, promote_channel_moderator-Keeps, demote_channel_moderator-Keeps,
}
use vussa.Members.Ownership.Transfer.{transfer_channel_ownership-Keeps}
use vussa.Channels.Consistency.{
  admin_create_channel-IsConsistent, admin_update_channel-IsConsistent,
  admin_channel_state-IsConsistent,
}
use vussa.Requests.{
  Operation, create_public, create_private, direct, invite, remove, delete, leave, promote, demote,
  transfer, admin_create, admin_update, admin_state, perform, run,
}

pub perform-IsConsistent : (env : Env) (op : Operation) → Keeps IsConsistent (perform env op)
unfolding perform
perform-IsConsistent env (create_public actor name) =
    bind-Keeps _ _ (create_public_channel-Keeps IsConsistent-StatementsKeep env actor name)
      λ _. pure-Keeps tt
perform-IsConsistent env (create_private actor name) =
    bind-Keeps _ _ (create_private_conversation-Keeps IsConsistent-StatementsKeep env actor name)
      λ _. pure-Keeps tt
perform-IsConsistent env (direct actor user) =
    bind-Keeps _ _ (open_direct-Keeps IsConsistent-StatementsKeep env actor user) λ _. pure-Keeps tt
perform-IsConsistent env (invite actor channel user) =
    bind-Keeps _ _ (invite_member-Keeps IsConsistent-StatementsKeep env actor channel user)
      λ _. pure-Keeps tt
perform-IsConsistent env (remove actor channel user) =
    remove_member-Keeps IsConsistent-StatementsKeep env actor channel user
perform-IsConsistent env (delete actor name) =
    bind-Keeps _ _ (delete_channel_service-Keeps IsConsistent-StatementsKeep env actor name)
      λ _. pure-Keeps tt
perform-IsConsistent env (leave login name) = leave_channel-Keeps env login name
perform-IsConsistent env (promote login name user) =
    promote_channel_moderator-Keeps env login name user
perform-IsConsistent env (demote login name user) =
    demote_channel_moderator-Keeps env login name user
perform-IsConsistent env (transfer login name user) =
    transfer_channel_ownership-Keeps env login name user
perform-IsConsistent env (admin_create login request) =
    admin_create_channel-IsConsistent env login request
perform-IsConsistent env (admin_update login id request) =
    admin_update_channel-IsConsistent env login id request
perform-IsConsistent env (admin_state login id action) =
    admin_channel_state-IsConsistent env login id action

-- From a consistent database, after any requests, whatever calls failed: channels have different
-- identifiers and different names, members are of channels that exist, and a member of a channel
-- has the role of an owner exactly if the channel names it as its owner.
pub run-IsConsistent :
    (w : World) (requests : List (Env × Operation))
    → IsConsistent w.db
    → IsConsistent (run w requests).db
unfolding run
run-IsConsistent w [] v = v
run-IsConsistent w ((env, op) ∷ rest) v =
    run-IsConsistent (perform env op w).1 rest ((perform-IsConsistent env op).at w v)
