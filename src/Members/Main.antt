-- ===== src/Members/Main.antt =====
-- No handler of backend/src/api/members.rs takes the main channel away.
use vussa.Base.{◌≡◌, refl, String, List, [], ◌∷◌, any, arith}
use vussa.Models.{Uuid, Session, AuthUser}
use vussa.Error.{Result}
use vussa.Database.{ChannelRow}
use vussa.Database.Tables.{has_id, is_live, update}
use vussa.Text.{main_channel}
use vussa.Auth.{has_permission}
use vussa.Io.{Env}
use vussa.Io.Keeps.{
  Keeps, bind-Keeps, pure-Keeps, lift-Keeps, reject-Keeps, or_fail-Keeps, if-Keeps, ignore-Keeps,
  now-Keeps, query-Keeps, execute-Keeps, transaction-Keeps,
}
use vussa.Access.{channel_moderator_manager, live_channel}
use vussa.Services.Publishing.Logs.{
  record_audit-Keeps, publish_system_message-Keeps, channel_members-Keeps, broadcast-Keeps,
}
use vussa.Services.Invariants.{owned_private_channel-Keeps}
use vussa.Services.Main.{HasMain, HasMain-LogsApart}
use vussa.Members.Statements.{
  set_role, promote, demote, set_owner, set_moderator, set_owner_role, owned_by, delete_membership,
}
use vussa.Members.{
  announce_members, leave_rest, leave_channel, promote_channel_moderator, demote_channel_moderator,
  transfer_rows, transfer_channel_ownership,
}

set_owner-live :
    (id user : Uuid) (cs : List ChannelRow)
    → any (is_live main_channel) (update (has_id id) (owned_by user) cs)
      ≡ any (is_live main_channel) cs
unfolding update
set_owner-live id user [] = refl
set_owner-live id user (c ∷ cs) = ground (arith, set_owner-live id user cs)

module _ (env : Env) where
  announce_members-HasMain : (name : String) → Keeps HasMain (announce_members env name)
  unfolding announce_members
  announce_members-HasMain name =
      bind-Keeps _ _ (channel_members-Keeps env name)
        λ ms. ignore-Keeps (broadcast-Keeps env name _)

  pub leave_channel-HasMain :
      (login : Result Session) (name : String) → Keeps HasMain (leave_channel env login name)
  unfolding leave_channel leave_rest delete_membership
  leave_channel-HasMain login name = bind-Keeps _ _ (lift-Keeps login) λ session.
      bind-Keeps _ _ (lift-Keeps _) λ _. bind-Keeps _ _ (query-Keeps env _) λ found.
        bind-Keeps _ _ (or_fail-Keeps _ found) λ row. bind-Keeps _ _ (reject-Keeps _ _) λ _.
          bind-Keeps _ _ (reject-Keeps _ _) λ _.
            bind-Keeps _ _ (execute-Keeps env _ λ db v. record { live = v.live }) λ _.
              bind-Keeps _ _ (publish_system_message-Keeps HasMain-LogsApart env name _) λ _.
                bind-Keeps _ _ (announce_members-HasMain name) λ _.
                  bind-Keeps _ _ (now-Keeps env)
                    λ t. record_audit-Keeps HasMain-LogsApart env _ _ _ row.0.id _ t

  manager-HasMain :
      (name : String) (user : AuthUser) → Keeps HasMain (channel_moderator_manager env name user)
  unfolding channel_moderator_manager live_channel
  manager-HasMain name user =
      if-Keeps (has_permission user "chat:moderate") _ _
        (bind-Keeps _ _ (query-Keeps env _) λ found. or_fail-Keeps _ found)
        (owned_private_channel-Keeps env name user.id)

  pub promote_channel_moderator-HasMain :
      (login : Result Session) (name : String) (user : Uuid)
      → Keeps HasMain (promote_channel_moderator env login name user)
  unfolding promote_channel_moderator promote set_role
  promote_channel_moderator-HasMain login name user = bind-Keeps _ _ (lift-Keeps login) λ session.
      bind-Keeps _ _ (manager-HasMain name session.user) λ id.
        bind-Keeps _ _ (execute-Keeps env _ λ db v. record { live = v.live }) λ changed.
          bind-Keeps _ _ (reject-Keeps _ _) λ _.
            bind-Keeps _ _ (now-Keeps env)
              λ t. record_audit-Keeps HasMain-LogsApart env _ _ _ id _ t

  pub demote_channel_moderator-HasMain :
      (login : Result Session) (name : String) (user : Uuid)
      → Keeps HasMain (demote_channel_moderator env login name user)
  unfolding demote_channel_moderator demote set_role
  demote_channel_moderator-HasMain login name user = bind-Keeps _ _ (lift-Keeps login) λ session.
      bind-Keeps _ _ (manager-HasMain name session.user) λ id.
        bind-Keeps _ _ (execute-Keeps env _ λ db v. record { live = v.live }) λ changed.
          bind-Keeps _ _ (reject-Keeps _ _) λ _.
            bind-Keeps _ _ (now-Keeps env)
              λ t. record_audit-Keeps HasMain-LogsApart env _ _ _ id _ t

  transfer_rows-HasMain : (id old new : Uuid) → Keeps HasMain (transfer_rows env id old new)
  unfolding transfer_rows set_owner set_moderator set_owner_role set_role
  transfer_rows-HasMain id old new =
      bind-Keeps _ _
        (execute-Keeps env _
          λ db v. record { live = rw (set_owner-live id new db.channels) v.live })
        λ _. bind-Keeps _ _ (execute-Keeps env _ λ db v. record { live = v.live }) λ _.
          bind-Keeps _ _ (execute-Keeps env _ λ db v. record { live = v.live }) λ _. pure-Keeps tt

  pub transfer_channel_ownership-HasMain :
      (login : Result Session) (name : String) (target : Uuid)
      → Keeps HasMain (transfer_channel_ownership env login name target)
  unfolding transfer_channel_ownership
  transfer_channel_ownership-HasMain login name target =
      bind-Keeps _ _ (lift-Keeps login) λ session. bind-Keeps _ _ (lift-Keeps _) λ _.
        bind-Keeps _ _ (query-Keeps env _) λ found. bind-Keeps _ _ (or_fail-Keeps _ found) λ row.
          bind-Keeps _ _ (reject-Keeps _ _) λ _. bind-Keeps _ _ (reject-Keeps _ _) λ _.
            bind-Keeps _ _ (query-Keeps env _) λ is_member. bind-Keeps _ _ (reject-Keeps _ _) λ _.
              bind-Keeps _ _
                (transaction-Keeps env (transfer_rows-HasMain row.0 session.user.id target))
                λ _. bind-Keeps _ _ (announce_members-HasMain name) λ _.
                  bind-Keeps _ _ (now-Keeps env)
                    λ t. record_audit-Keeps HasMain-LogsApart env _ _ _ row.0 _ t
