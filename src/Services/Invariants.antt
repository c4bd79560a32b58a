-- ===== src/Services/Invariants.antt =====
-- An invariant that the statements of backend/src/services.rs keep is kept by every operation of
-- that file, at every point where a call may fail.
use vussa.Base.{ℕ, ◌≡◌, String, str_eq, true, false, Option, none, some}
use vussa.Models.{Uuid, AuthUser}
use vussa.Database.{Db, Role}
use vussa.Text.{main_channel}
use vussa.Io.{Env, transaction}
use vussa.Io.Keeps.{
  Keeps, Writes, bind-Keeps, pure-Keeps, lift-Keeps, reject-Keeps, or_fail-Keeps, if-Keeps,
  now-Keeps, new_uuid-Keeps, query-Keeps, execute-Keeps, transaction-Keeps,
}
use vussa.Io.Guards.{Leaves, Keeps-Leaves, lift-bind-Leaves, reject-bind-Leaves}
use vussa.Access.{ensure_not_globally_banned, owned_private_channel}
use vussa.Services.{
  private_rows, public_rows, direct_rows, found_or_created, invite_rows, announce_invite,
  remove_rows, delete_rows, create_public_channel, create_private_conversation, open_direct,
  invite_member, remove_member, delete_channel_service,
}
use vussa.Services.Statements.{
  upsert_channel, insert_direct, insert_member, delete_member, mark_deleted,
}
use vussa.Services.Publishing.Logs.{
  LogsApart, record_audit-Keeps, publish_system_message-Keeps, broadcast_control-Keeps,
  broadcast_members-Keeps,
}

module _ {P : Db → Type 0} (env : Env) where
  pub ensure_not_globally_banned-Keeps :
      (user : Uuid) → Keeps P (ensure_not_globally_banned env user)
  unfolding ensure_not_globally_banned
  ensure_not_globally_banned-Keeps user =
      bind-Keeps _ _ (now-Keeps env)
        λ t. bind-Keeps _ _ (query-Keeps env _) λ banned. reject-Keeps banned _

  pub owned_private_channel-Keeps :
      (name : String) (user : Uuid) → Keeps P (owned_private_channel env name user)
  unfolding owned_private_channel
  owned_private_channel-Keeps name user =
      bind-Keeps _ _ (query-Keeps env _) λ found. or_fail-Keeps _ found

-- What the statements must keep. The rows of a private channel need only be consistent together.
pub record StatementsKeep (P : Db → Type 0) : Type 0 where
  pub apart : LogsApart P
  pub upsert :
      (id : Uuid) (name : String) (t : ℕ) (db : Db) → P db → Writes P (upsert_channel id name t db)
  pub private :
      (env : Env) (actor : AuthUser) (id : Uuid) (name : String) (t : ℕ)
      → Keeps P (transaction env (private_rows env actor id name t))
  pub direct :
      (id : Uuid) (name key : String) (t : ℕ) (db : Db)
      → P db
      → Writes P (insert_direct id name key t db)
  pub member :
      (channel user : Uuid) (inviter : Option Uuid) (t : ℕ) (db : Db)
      → P db
      → Writes P (insert_member channel user Role.member inviter t db)
  pub removal : (channel user : Uuid) (db : Db) → P db → Writes P (delete_member channel user db)
  pub deletion :
      (name : String) (t : ℕ) (db : Db)
      → str_eq name main_channel ≡ false
      → P db
      → Writes P (mark_deleted name t db)

module _ {P : Db → Type 0} (keep : StatementsKeep P) (env : Env) (actor : AuthUser) where
  public_rows-Keeps : (name : String) (t : ℕ) → Keeps P (public_rows env actor name t)
  unfolding public_rows
  public_rows-Keeps name t = bind-Keeps _ _ (new_uuid-Keeps env) λ id.
      bind-Keeps _ _ (execute-Keeps env _ (keep.upsert id name t)) λ found.
        bind-Keeps _ _ (or_fail-Keeps _ found)
          λ channel. record_audit-Keeps keep.apart env _ _ _ channel _ t

  pub create_public_channel-Keeps : (raw : String) → Keeps P (create_public_channel env actor raw)
  unfolding create_public_channel
  create_public_channel-Keeps raw = bind-Keeps _ _ (lift-Keeps _) λ _.
      bind-Keeps _ _ (ensure_not_globally_banned-Keeps env actor.id) λ _.
        bind-Keeps _ _ (lift-Keeps _) λ name. bind-Keeps _ _ (now-Keeps env) λ t.
          bind-Keeps _ _ (transaction-Keeps env (public_rows-Keeps name t)) λ _.
            bind-Keeps _ _ (publish_system_message-Keeps keep.apart env name _)
              λ _. bind-Keeps _ _ (broadcast_control-Keeps env _) λ _. pure-Keeps name

  pub create_private_conversation-Keeps :
      (raw : String) → Keeps P (create_private_conversation env actor raw)
  unfolding create_private_conversation
  create_private_conversation-Keeps raw = bind-Keeps _ _ (lift-Keeps _) λ _.
      bind-Keeps _ _ (ensure_not_globally_banned-Keeps env actor.id) λ _.
        bind-Keeps _ _ (lift-Keeps _) λ name. bind-Keeps _ _ (new_uuid-Keeps env) λ id.
          bind-Keeps _ _ (now-Keeps env) λ t. bind-Keeps _ _ (keep.private env actor id name t) λ _.
            bind-Keeps _ _ (publish_system_message-Keeps keep.apart env name _)
              λ _. pure-Keeps (id, name)

  found_or_created-Keeps :
      (key : String) (o : Option (Uuid × String)) → Keeps P (found_or_created env key o)
  unfolding found_or_created
  found_or_created-Keeps key none =
      bind-Keeps _ _ (query-Keeps env _)
        λ row. bind-Keeps _ _ (or_fail-Keeps _ row) λ r. pure-Keeps _
  found_or_created-Keeps key (some (id, name)) = pure-Keeps (id, name, true)

  direct_rows-Keeps :
      (target first second : Uuid) (key : String) (id : Uuid) (name : String) (t : ℕ)
      → Keeps P (direct_rows env actor target first second key id name t)
  unfolding direct_rows
  direct_rows-Keeps target first second key id name t =
      bind-Keeps _ _ (execute-Keeps env _ (keep.direct id name key t)) λ inserted.
        bind-Keeps _ _ (found_or_created-Keeps key inserted) λ row.
          bind-Keeps _ _ (execute-Keeps env _ (keep.member row.0 first _ t)) λ _.
            bind-Keeps _ _ (execute-Keeps env _ (keep.member row.0 second _ t)) λ _.
              bind-Keeps _ _
                (if-Keeps row.2 _ _ (record_audit-Keeps keep.apart env _ _ _ row.0 _ t)
                  (pure-Keeps tt))
                λ _. pure-Keeps (row.0, row.1)

  pub open_direct-Keeps : (target : Uuid) → Keeps P (open_direct env actor target)
  unfolding open_direct
  open_direct-Keeps target = bind-Keeps _ _ (lift-Keeps _) λ _.
      bind-Keeps _ _ (ensure_not_globally_banned-Keeps env actor.id) λ _.
        bind-Keeps _ _ (reject-Keeps _ _) λ _. bind-Keeps _ _ (query-Keeps env _) λ exists.
          bind-Keeps _ _ (reject-Keeps _ _) λ _. bind-Keeps _ _ (now-Keeps env) λ t.
            bind-Keeps _ _ (new_uuid-Keeps env)
              λ id. transaction-Keeps env (direct_rows-Keeps target _ _ _ id _ t)

  invite_rows-Keeps : (channel user : Uuid) (t : ℕ) → Keeps P (invite_rows env actor channel user t)
  unfolding invite_rows
  invite_rows-Keeps channel user t = bind-Keeps _ _ (query-Keeps env _) λ found.
      bind-Keeps _ _ (or_fail-Keeps _ found) λ target.
        bind-Keeps _ _ (execute-Keeps env _ (keep.member channel user _ t)) λ inserted.
          if-Keeps inserted _ _
            (bind-Keeps _ _ (record_audit-Keeps keep.apart env _ _ _ channel _ t) λ _. pure-Keeps _)
            (pure-Keeps none)

  announce_invite-Keeps :
      (channel : String) (o : Option String) → Keeps P (announce_invite env actor channel o)
  unfolding announce_invite
  announce_invite-Keeps channel none = pure-Keeps false
  announce_invite-Keeps channel (some target) =
      bind-Keeps _ _ (publish_system_message-Keeps keep.apart env channel _)
        λ _. bind-Keeps _ _ (broadcast_members-Keeps env channel) λ _. pure-Keeps true

  pub invite_member-Keeps :
      (channel : String) (user : Uuid) → Keeps P (invite_member env actor channel user)
  unfolding invite_member
  invite_member-Keeps channel user = bind-Keeps _ _ (lift-Keeps _) λ _.
      bind-Keeps _ _ (owned_private_channel-Keeps env channel actor.id) λ id.
        bind-Keeps _ _ (now-Keeps env) λ t.
          bind-Keeps _ _ (transaction-Keeps env (invite_rows-Keeps id user t))
            (announce_invite-Keeps channel)

  remove_rows-Keeps : (channel user : Uuid) (t : ℕ) → Keeps P (remove_rows env actor channel user t)
  unfolding remove_rows
  remove_rows-Keeps channel user t =
      bind-Keeps _ _ (execute-Keeps env _ (keep.removal channel user)) λ removed.
        bind-Keeps _ _ (reject-Keeps _ _) λ _. bind-Keeps _ _ (query-Keeps env _) λ found.
          bind-Keeps _ _ (record_audit-Keeps keep.apart env _ _ _ channel _ t) λ _. pure-Keeps _

  pub remove_member-Keeps :
      (channel : String) (user : Uuid) → Keeps P (remove_member env actor channel user)
  unfolding remove_member
  remove_member-Keeps channel user = bind-Keeps _ _ (lift-Keeps _) λ _.
      bind-Keeps _ _ (owned_private_channel-Keeps env channel actor.id) λ id.
        bind-Keeps _ _ (now-Keeps env) λ t.
          bind-Keeps _ _ (transaction-Keeps env (remove_rows-Keeps id user t)) λ target.
            bind-Keeps _ _ (publish_system_message-Keeps keep.apart env channel _)
              λ _. bind-Keeps _ _ (broadcast_members-Keeps env channel) λ _. pure-Keeps tt

  delete_rows-Keeps :
      (name : String) (t : ℕ)
      → str_eq name main_channel ≡ false
      → Keeps P (delete_rows env actor name t)
  unfolding delete_rows
  delete_rows-Keeps name t other =
      bind-Keeps _ _ (execute-Keeps env _ (λ db. keep.deletion name t db other)) λ found.
        bind-Keeps _ _ (or_fail-Keeps _ found) λ id. record_audit-Keeps keep.apart env _ _ _ id _ t

  -- After the check of the name.
  delete_channel_service-Leaves : (raw : String) → Leaves P P (delete_channel_service env actor raw)
  unfolding delete_channel_service
  delete_channel_service-Leaves raw =
      lift-bind-Leaves _ _ (λ db h. h)
        λ _ _.
          lift-bind-Leaves _ _ (λ db h. h)
            λ name _.
              reject-bind-Leaves _ _ _ (λ db h. h)
                λ other.
                  Keeps-Leaves (λ db h. h)
                    (bind-Keeps _ _ (now-Keeps env) λ t.
                      bind-Keeps _ _ (transaction-Keeps env (delete_rows-Keeps name t other))
                        λ _. bind-Keeps _ _ (broadcast_control-Keeps env _) λ _. pure-Keeps name)

  pub delete_channel_service-Keeps : (raw : String) → Keeps P (delete_channel_service env actor raw)
  delete_channel_service-Keeps raw = record { at = (delete_channel_service-Leaves raw).at }
