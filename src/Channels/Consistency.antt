-- ===== src/Channels/Consistency.antt =====
-- What an administrator does to a channel keeps the tables of channels and members consistent.
use vussa.Base.{
  ℕ, ◌≡◌, ◌≢◌, refl, sym, String, true, false, not, ◌&&◌, Option, none, some, List, [], ◌∷◌, any,
  find, Distinct, eq_iff, arith, Bool-cases, inl, inr,
}
use vussa.Models.{Uuid, Session}
use vussa.Error.{Result}
use vussa.Database.{Db, ChannelRow}
use vussa.Database.Tables.{has_id, has_name, update}
use vussa.Io.{Env}
use vussa.Io.Keeps.{
  Keeps, Writes, bind-Keeps, pure-Keeps, lift-Keeps, reject-Keeps, or_fail-Keeps, if-Keeps,
  now-Keeps, new_uuid-Keeps, query-Keeps, execute-Keeps, transaction-Keeps,
}
use vussa.Services.Statements.{upsert_channel}
use vussa.Services.Publishing.Logs.{LogsApart, record_audit-Keeps, publish_system_message-Keeps}
use vussa.Services.Ownership.{
  IsConsistent, same_id, same_name, owner_of, update-IsConsistent, update-ids, has_id-update,
}
use vussa.Services.Ownership.Statements.{upsert_channel-Writes}
use vussa.Services.Ownership.Operations.{IsConsistent-LogsApart}
use vussa.Channels.{
  ChannelAdminRequest, ChannelAction, set_details, create_channel, detail_named, rename,
  update_channel, update_rows, change_row, breaks_key, change_channel, state_rows, announce_state,
  admin_create_channel, admin_update_channel, admin_channel_state,
}

-- A new name that no other row has.
module _ (id : Uuid) (name : String) where
  rename-owner :
      (cs : List ChannelRow) (other : Uuid)
      → owner_of (update (has_id id) (rename name) cs) other ≡ owner_of cs other
  unfolding owner_of update find
  rename-owner [] other = refl
  rename-owner (c ∷ cs) other = ground (arith, rename-owner cs other)

  rename-none :
      (n : String) (cs : List ChannelRow)
      → any (has_id id) cs ≡ false
      → any (has_name n) (update (has_id id) (rename name) cs) ≡ any (has_name n) cs
  unfolding update
  rename-none n [] h = refl
  rename-none n (c ∷ cs) h = ground (arith, rename-none n cs)

  others-none :
      (cs : List ChannelRow)
      → any (has_id id) cs ≡ false
      → any (λ c. not (has_id id c) && has_name name c) cs ≡ any (has_name name) cs
  others-none [] h = refl
  others-none (c ∷ cs) h = ground (arith, others-none cs)

  rename-other :
      (n : String) (cs : List ChannelRow)
      → name ≢ n
      → any (has_name n) cs ≡ false
      → any (has_name n) (update (has_id id) (rename name) cs) ≡ false
  unfolding update
  rename-other n [] d h = refl
  rename-other n (c ∷ cs) d h = ground (arith, eq_iff name n, rename-other n cs d)

  same_row :
      (c : ChannelRow) (cs : List ChannelRow)
      → has_id id c ≡ true
      → any (same_id c) cs ≡ false
      → any (has_id id) cs ≡ false
  same_row c [] hit h = refl
  same_row c (d ∷ cs) hit h = ground (arith, same_row c cs)

  new_to : (c : ChannelRow) → has_name name c ≡ false → name ≢ c.name
  new_to c h e = ground (arith, eq_iff c.name name, sym e)

  rename-names :
      (cs : List ChannelRow)
      → any (λ c. not (has_id id c) && has_name name c) cs ≡ false
      → Distinct same_id cs
      → Distinct same_name cs
      → Distinct same_name (update (has_id id) (rename name) cs)
  unfolding update
  rename-names [] h ids names = tt
  rename-names (c ∷ cs) h ids names = elim (Bool-cases (has_id id c)) [
    | inl hit ↦
        let none_there : any (has_id id) cs ≡ false = same_row c cs hit ids.0 in
        rw hit (
          ground (
            arith,
            rename-none name cs none_there,
            others-none cs none_there,
            rename-names cs (ground arith) ids.1 names.1,
          ))
    | inr miss ↦ rw miss (
        ground (
          arith,
          rename-other c.name cs (new_to c (ground arith)) names.0,
          rename-names cs (ground arith) ids.1 names.1,
        ))
  ]

  rename-IsConsistent :
      (db : Db)
      → any (λ c. not (has_id id c) && has_name name c) db.channels ≡ false
      → IsConsistent db
      → IsConsistent (record db { channels = update (has_id id) (rename name) db.channels })
  rename-IsConsistent db new v = record {
    ids = update-ids (has_id id) (rename name) (λ c. refl) db.channels v.ids;
    names = rename-names db.channels new v.ids v.names;
    agree = λ c u. rw (rename-owner db.channels c) (v.agree c u);
    known = λ c u h.
        rw (has_id-update (has_id id) (rename name) (λ c. refl) db.channels c) (v.known c u h);
  }

-- The statements.
pub update_channel-Writes :
    (id : Uuid) (name : Option String) (request : ChannelAdminRequest) (retention : Option ℕ)
    (db : Db)
    → IsConsistent db
    → Writes IsConsistent (update_channel id name request retention db)
unfolding update_channel
update_channel-Writes id none request retention db v =
    update-IsConsistent (has_id id) (set_details request retention) (λ c. refl) (λ c. refl)
      (λ c. refl) db v
update_channel-Writes id (some name) request retention db v =
    elim (Bool-cases (any (λ c. not (has_id id c) && has_name name c) db.channels)) [
      | inl taken ↦ rw taken tt
      | inr free ↦ rw free (
          update-IsConsistent (has_id id) (set_details request retention) (λ c. refl) (λ c. refl)
            (λ c. refl) (record db { channels = update (has_id id) (rename name) db.channels })
            (rename-IsConsistent id name db free v))
    ]

change_row_id : (a : ChannelAction) (t : ℕ) (c : ChannelRow) → (change_row a t c).id ≡ c.id
change_row_id ChannelAction.archive t c = refl
change_row_id ChannelAction.restore t c = refl
change_row_id ChannelAction.delete t c = refl
change_row_id ChannelAction.undelete t c = refl

pub change_row_name :
    (a : ChannelAction) (t : ℕ) (c : ChannelRow) → (change_row a t c).name ≡ c.name
change_row_name ChannelAction.archive t c = refl
change_row_name ChannelAction.restore t c = refl
change_row_name ChannelAction.delete t c = refl
change_row_name ChannelAction.undelete t c = refl

change_row_owner :
    (a : ChannelAction) (t : ℕ) (c : ChannelRow)
    → (change_row a t c).owner_user_id ≡ c.owner_user_id
change_row_owner ChannelAction.archive t c = refl
change_row_owner ChannelAction.restore t c = refl
change_row_owner ChannelAction.delete t c = refl
change_row_owner ChannelAction.undelete t c = refl

pub change_channel-Writes :
    (id : Uuid) (action : ChannelAction) (t : ℕ) (db : Db)
    → IsConsistent db
    → Writes IsConsistent (change_channel id action t db)
unfolding change_channel
change_channel-Writes id action t db v =
    elim (Bool-cases (breaks_key action (find (has_id id) db.channels) db)) [
      | inl broken ↦ rw broken tt
      | inr free ↦ rw free (
          update-IsConsistent (has_id id) (change_row action t) (change_row_id action t)
            (change_row_name action t) (change_row_owner action t) db v)
    ]

pub detail_named-Writes :
    (name : String) (request : ChannelAdminRequest) (retention : Option ℕ) (db : Db)
    → IsConsistent db
    → Writes IsConsistent (detail_named name request retention db)
unfolding detail_named
detail_named-Writes name request retention db v =
    update-IsConsistent (has_name name) (set_details request retention) (λ c. refl) (λ c. refl)
      (λ c. refl) db v

-- What keeps an invariant of the statements keeps it in the creation of a channel.
module _ {P : Db → Type 0} (apart : LogsApart P)
    (upsert : (id : Uuid) (name : String) (t : ℕ) (db : Db)
      → P db
      → Writes P (upsert_channel id name t db))
    (detail : (name : String) (request : ChannelAdminRequest) (retention : Option ℕ) (db : Db)
      → P db
      → Writes P (detail_named name request retention db)) where
  pub admin_create_channel-Keeps :
      (env : Env) (login : Result Session) (request : ChannelAdminRequest)
      → Keeps P (admin_create_channel env login request)
  unfolding admin_create_channel create_channel
  admin_create_channel-Keeps env login request = bind-Keeps _ _ (lift-Keeps login) λ session.
      bind-Keeps _ _ (lift-Keeps _) λ _. bind-Keeps _ _ (lift-Keeps _) λ name.
        bind-Keeps _ _ (reject-Keeps _ _) λ _. bind-Keeps _ _ (lift-Keeps _) λ retention.
          bind-Keeps _ _
            (bind-Keeps _ _ (new_uuid-Keeps env) λ id.
              bind-Keeps _ _ (now-Keeps env)
                λ t. bind-Keeps _ _ (execute-Keeps env _ (upsert id name t)) λ found. pure-Keeps _)
            λ created. bind-Keeps _ _ (reject-Keeps _ _) λ _.
              bind-Keeps _ _ (execute-Keeps env _ (detail name request retention)) λ _.
                bind-Keeps _ _ (query-Keeps env _) λ found.
                  bind-Keeps _ _ (or_fail-Keeps _ found) λ id. bind-Keeps _ _ (now-Keeps env) λ t.
                    bind-Keeps _ _ (record_audit-Keeps apart env _ _ _ id _ t)
                      λ _. publish_system_message-Keeps apart env name _

-- The handlers.
module _ (env : Env) (login : Result Session) where
  pub admin_create_channel-IsConsistent :
      (request : ChannelAdminRequest) → Keeps IsConsistent (admin_create_channel env login request)
  admin_create_channel-IsConsistent request =
      admin_create_channel-Keeps IsConsistent-LogsApart upsert_channel-Writes detail_named-Writes
        env login request

  pub admin_update_channel-IsConsistent :
      (id : Uuid) (request : ChannelAdminRequest)
      → Keeps IsConsistent (admin_update_channel env login id request)
  unfolding admin_update_channel update_rows
  admin_update_channel-IsConsistent id request = bind-Keeps _ _ (lift-Keeps login) λ session.
      bind-Keeps _ _ (lift-Keeps _) λ _. transaction-Keeps env (
        bind-Keeps _ _ (query-Keeps env _) λ found.
          bind-Keeps _ _ (or_fail-Keeps _ found) λ current. bind-Keeps _ _ (lift-Keeps _) λ name.
            bind-Keeps _ _ (lift-Keeps _) λ retention.
              bind-Keeps _ _ (execute-Keeps env _ (update_channel-Writes id name request retention))
                λ _.
                  bind-Keeps _ _ (now-Keeps env)
                    λ t. record_audit-Keeps IsConsistent-LogsApart env _ _ _ id _ t)

  pub admin_channel_state-IsConsistent :
      (id : Uuid) (action : String) → Keeps IsConsistent (admin_channel_state env login id action)
  unfolding admin_channel_state state_rows announce_state
  admin_channel_state-IsConsistent id action = bind-Keeps _ _ (lift-Keeps login) λ session.
      bind-Keeps _ _ (lift-Keeps _) λ _.
        bind-Keeps _ _
          (transaction-Keeps env (
            bind-Keeps _ _ (query-Keeps env _) λ found.
              bind-Keeps _ _ (or_fail-Keeps _ found) λ name. bind-Keeps _ _ (reject-Keeps _ _) λ _.
                bind-Keeps _ _ (now-Keeps env) λ t. bind-Keeps _ _ (or_fail-Keeps _ _) λ change.
                  bind-Keeps _ _ (execute-Keeps env _ (change_channel-Writes id change t)) λ _.
                    bind-Keeps _ _ (record_audit-Keeps IsConsistent-LogsApart env _ _ _ id _ t)
                      λ _. pure-Keeps name))
          λ name.
            if-Keeps _ _ _ (publish_system_message-Keeps IsConsistent-LogsApart env name _)
              (pure-Keeps tt)
