-- ===== src/Requests/MainChannel.antt =====
-- Whatever users ask and whatever fails, the main channel stays.
use vussa.Base.{List, [], ◌∷◌}
use vussa.Io.{Env, World}
use vussa.Io.Keeps.{Keeps, bind-Keeps, pure-Keeps}
use vussa.Services.Invariants.{
  create_public_channel-Keeps, create_private_conversation-Keeps, open_direct-Keeps,
  invite_member-Keeps, remove_member-Keeps, delete_channel_service-Keeps,
}
use vussa.Services.Main.{HasMain, HasMain-StatementsKeep}
use vussa.Members.Main.{
  leave_channel-HasMain, promote_channel_moderator-HasMain, demote_channel_moderator-HasMain,
  transfer_channel_ownership-HasMain,
}
use vussa.Services.Ownership.{IsConsistent}
use vussa.Channels.Main.{
  HasOneMain, both-Keeps, admin_create_channel-HasOneMain, admin_update_channel-HasOneMain,
  admin_channel_state-HasOneMain,
}
use vussa.Requests.Consistency.{perform-IsConsistent}
use vussa.Requests.{
  Operation, create_public, create_private, direct, invite, remove, delete, leave, promote, demote,
  transfer, admin_create, admin_update, admin_state, perform, run,
}

perform-HasOneMain : (env : Env) (op : Operation) → Keeps HasOneMain (perform env op)
unfolding perform
perform-HasOneMain env (create_public actor name) =
    both-Keeps (perform-IsConsistent env (create_public actor name)) (
      bind-Keeps _ _ (create_public_channel-Keeps HasMain-StatementsKeep env actor name)
        λ _. pure-Keeps tt)
perform-HasOneMain env (create_private actor name) =
    both-Keeps (perform-IsConsistent env (create_private actor name)) (
      bind-Keeps _ _ (create_private_conversation-Keeps HasMain-StatementsKeep env actor name)
        λ _. pure-Keeps tt)
perform-HasOneMain env (direct actor user) =
    both-Keeps (perform-IsConsistent env (direct actor user))
      (bind-Keeps _ _ (open_direct-Keeps HasMain-StatementsKeep env actor user) λ _. pure-Keeps tt)
perform-HasOneMain env (invite actor channel user) =
    both-Keeps (perform-IsConsistent env (invite actor channel user)) (
      bind-Keeps _ _ (invite_member-Keeps HasMain-StatementsKeep env actor channel user)
        λ _. pure-Keeps tt)
perform-HasOneMain env (remove actor channel user) =
    both-Keeps (perform-IsConsistent env (remove actor channel user))
      (remove_member-Keeps HasMain-StatementsKeep env actor channel user)
perform-HasOneMain env (delete actor name) =
    both-Keeps (perform-IsConsistent env (delete actor name)) (
      bind-Keeps _ _ (delete_channel_service-Keeps HasMain-StatementsKeep env actor name)
        λ _. pure-Keeps tt)
perform-HasOneMain env (leave login name) =
    both-Keeps (perform-IsConsistent env (leave login name)) (leave_channel-HasMain env login name)
perform-HasOneMain env (promote login name user) =
    both-Keeps (perform-IsConsistent env (promote login name user))
      (promote_channel_moderator-HasMain env login name user)
perform-HasOneMain env (demote login name user) =
    both-Keeps (perform-IsConsistent env (demote login name user))
      (demote_channel_moderator-HasMain env login name user)
perform-HasOneMain env (transfer login name user) =
    both-Keeps (perform-IsConsistent env (transfer login name user))
      (transfer_channel_ownership-HasMain env login name user)
perform-HasOneMain env (admin_create login request) =
    admin_create_channel-HasOneMain env login request
perform-HasOneMain env (admin_update login id request) =
    admin_update_channel-HasOneMain env login id request
perform-HasOneMain env (admin_state login id action) =
    admin_channel_state-HasOneMain env login id action

run-HasOneMain :
    (w : World) (requests : List (Env × Operation))
    → HasOneMain w.db
    → HasOneMain (run w requests).db
unfolding run
run-HasOneMain w [] v = v
run-HasOneMain w ((env, op) ∷ rest) v =
    run-HasOneMain (perform env op w).1 rest ((perform-HasOneMain env op).at w v)

-- From a consistent database, whatever is asked, by users and administrators, in whatever order and
-- whichever calls fail: a main channel that is there and not deleted stays so.
pub run-HasMain :
    (w : World) (requests : List (Env × Operation))
    → IsConsistent w.db
    → HasMain w.db
    → HasMain (run w requests).db
run-HasMain w requests v live =
    (run-HasOneMain w requests (record { consistent = v; main = live })).main
