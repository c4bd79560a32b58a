-- ===== src/Members/Ownership/Handlers.antt =====
-- `leave_channel`, `promote_channel_moderator` and `demote_channel_moderator` keep owners and their
-- rows in agreement.
use vussa.Base.{◌∙◌, String, arith}
use vussa.Models.{Uuid, Session, AuthUser}
use vussa.Error.{Result}
use vussa.Auth.{has_permission}
use vussa.Io.{Env}
use vussa.Io.Keeps.{
  Keeps, bind-Keeps, lift-Keeps, reject-Keeps, or_fail-Keeps, if-Keeps, ignore-Keeps, now-Keeps,
  query-Keeps, execute-Keeps,
}
use vussa.Io.Guards.{
  Leaves, bind-Leaves, lift-bind-Leaves, reject-bind-Leaves, or_fail-bind-Leaves, query-bind-Leaves,
  execute-Leaves,
}
use vussa.Access.{channel_moderator_manager}
use vussa.Services.Publishing.Logs.{
  record_audit-Keeps, publish_system_message-Keeps, channel_members-Keeps, broadcast-Keeps,
}
use vussa.Services.Invariants.{owned_private_channel-Keeps}
use vussa.Services.Ownership.{IsConsistent}
use vussa.Services.Ownership.Operations.{IsConsistent-LogsApart}
use vussa.Members.{
  announce_members, leave_rest, leave_channel, promote_channel_moderator, demote_channel_moderator,
}
use vussa.Members.Ownership.{
  promote-Writes, demote-Writes, delete_membership-Writes, select_membership-owner,
}

module _ (env : Env) where
  pub announce_members-Keeps : (name : String) → Keeps IsConsistent (announce_members env name)
  unfolding announce_members
  announce_members-Keeps name =
      bind-Keeps _ _ (channel_members-Keeps env name)
        λ ms. ignore-Keeps (broadcast-Keeps env name _)

  leave_rest-Keeps :
      (session : Session) (name : String) (id : Uuid)
      → Keeps IsConsistent (leave_rest env session name id)
  unfolding leave_rest
  leave_rest-Keeps session name id =
      bind-Keeps _ _ (publish_system_message-Keeps IsConsistent-LogsApart env name _) λ _.
        bind-Keeps _ _ (announce_members-Keeps name) λ _.
          bind-Keeps _ _ (now-Keeps env)
            λ t. record_audit-Keeps IsConsistent-LogsApart env _ _ _ id _ t

  leave_channel-Leaves :
      (login : Result Session) (name : String)
      → Leaves IsConsistent IsConsistent (leave_channel env login name)
  unfolding leave_channel
  leave_channel-Leaves login name =
      lift-bind-Leaves login _ (λ db v. v)
        λ session _.
          lift-bind-Leaves _ _ (λ db v. v)
            λ _ _.
              query-bind-Leaves env _ _ (λ db v. v)
                λ found.
                  or_fail-bind-Leaves _ found _ (λ db v. v.0)
                    λ row is_row.
                      reject-bind-Leaves _ _ _ (λ db v. v.0)
                        λ _.
                          reject-bind-Leaves _ _ _ (λ db v. v.0)
                            λ low.
                              bind-Leaves
                                (execute-Leaves env _ (λ db v. v.0)
                                  (λ db v.
                                    delete_membership-Writes row.0.id session.user.id db
                                      (select_membership-owner name session.user.id row db v.0
                                          (v.1 ∙ is_row)
                                        ∙ ground arith)
                                      v.0))
                                λ _. leave_rest-Keeps session name row.0.id

  pub leave_channel-Keeps :
      (login : Result Session) (name : String) → Keeps IsConsistent (leave_channel env login name)
  leave_channel-Keeps login name = record { at = (leave_channel-Leaves login name).at }

  channel_moderator_manager-Keeps :
      (name : String) (user : AuthUser)
      → Keeps IsConsistent (channel_moderator_manager env name user)
  unfolding channel_moderator_manager
  channel_moderator_manager-Keeps name user =
      if-Keeps (has_permission user "chat:moderate") _ _
        (bind-Keeps _ _ (query-Keeps env _) λ found. or_fail-Keeps _ found)
        (owned_private_channel-Keeps env name user.id)

  pub promote_channel_moderator-Keeps :
      (login : Result Session) (name : String) (user : Uuid)
      → Keeps IsConsistent (promote_channel_moderator env login name user)
  unfolding promote_channel_moderator
  promote_channel_moderator-Keeps login name user = bind-Keeps _ _ (lift-Keeps login) λ session.
      bind-Keeps _ _ (channel_moderator_manager-Keeps name session.user) λ id.
        bind-Keeps _ _ (execute-Keeps env _ (promote-Writes id user)) λ changed.
          bind-Keeps _ _ (reject-Keeps _ _) λ _.
            bind-Keeps _ _ (now-Keeps env)
              λ t. record_audit-Keeps IsConsistent-LogsApart env _ _ _ id _ t

  pub demote_channel_moderator-Keeps :
      (login : Result Session) (name : String) (user : Uuid)
      → Keeps IsConsistent (demote_channel_moderator env login name user)
  unfolding demote_channel_moderator
  demote_channel_moderator-Keeps login name user = bind-Keeps _ _ (lift-Keeps login) λ session.
      bind-Keeps _ _ (channel_moderator_manager-Keeps name session.user) λ id.
        bind-Keeps _ _ (execute-Keeps env _ (demote-Writes id user)) λ changed.
          bind-Keeps _ _ (reject-Keeps _ _) λ _.
            bind-Keeps _ _ (now-Keeps env)
              λ t. record_audit-Keeps IsConsistent-LogsApart env _ _ _ id _ t
