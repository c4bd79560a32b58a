-- ===== src/Channels/Main.antt =====
-- What an administrator does to a channel leaves the main channel in place.
use vussa.Base.{
  ℕ, ◌≡◌, String, str_eq, false, not, ◌&&◌, Option, none, some, any, find, Bool-cases, inl, inr,
  ◌∙◌,
}
use vussa.Models.{Uuid, Session}
use vussa.Error.{Result, ok}
use vussa.Database.{Db}
use vussa.Database.Tables.{has_id, has_name, update}
use vussa.Text.{Unicode, main_channel}
use vussa.Io.{Env, Io}
use vussa.Io.Keeps.{
  Keeps, Writes, bind-Keeps, pure-Keeps, lift-Keeps, if-Keeps, now-Keeps, transaction-Keeps,
}
use vussa.Io.Guards.{
  Leaves, bind-Leaves, lift-bind-Leaves, or_fail-bind-Leaves, reject-bind-Leaves, query-bind-Leaves,
  now-bind-Leaves, execute-Leaves,
}
use vussa.Services.Publishing.Logs.{LogsApart, record_audit-Keeps, publish_system_message-Keeps}
use vussa.Services.Ownership.{IsConsistent}
use vussa.Services.Ownership.Operations.{IsConsistent-LogsApart}
use vussa.Services.Main.{HasMain, HasMain-LogsApart, HasMain-StatementsKeep}
use vussa.Channels.{
  ChannelAdminRequest, ChannelAction, detail_named, rename, update_channel, new_name, update_rows,
  is_live_id, row_name, change_row, breaks_key, change_channel, state_rows, announce_state,
  admin_create_channel, admin_update_channel, admin_channel_state,
}
use vussa.Channels.Consistency.{
  update_channel-Writes, change_channel-Writes, admin_create_channel-Keeps,
  admin_create_channel-IsConsistent,
}
use vussa.Channels.Live.{found-apart, apart-live, details-live, rename-live}

-- Consistent tables with the main channel.
pub record HasOneMain (db : Db) : Type 0 where
  pub consistent : IsConsistent db
  pub main : HasMain db

HasOneMain-LogsApart : LogsApart HasOneMain
HasOneMain-LogsApart = record {
  audits = λ db rows v. record {
    consistent = IsConsistent-LogsApart.audits db rows v.consistent;
    main = HasMain-LogsApart.audits db rows v.main;
  };
  messages = λ db rows v. record {
    consistent = IsConsistent-LogsApart.messages db rows v.consistent;
    main = HasMain-LogsApart.messages db rows v.main;
  };
}

both-Writes :
    {A : Type 0} (o : Option (A × Db))
    → Writes IsConsistent o
    → Writes HasMain o
    → Writes HasOneMain o
both-Writes none h k = tt
both-Writes (some (a, db)) h k = record { consistent = h; main = k }

pub both-Keeps :
    {A : Type 0} {m : Io A} → Keeps IsConsistent m → Keeps HasMain m → Keeps HasOneMain m
both-Keeps h k = record {
  at = λ w v. record { consistent = h.at w v.consistent; main = k.at w v.main };
}

update_channel-HasOneMain :
    (u : Unicode) (id : Uuid) (current : String) (raw name : Option String)
    (request : ChannelAdminRequest) (retention : Option ℕ) (db : Db)
    → HasOneMain db
    → row_name (find (is_live_id id) db.channels) ≡ some current
    → new_name u current raw ≡ ok name
    → Writes HasOneMain (update_channel id name request retention db)
unfolding update_channel
update_channel-HasOneMain u id current raw none request retention db v found checked =
    both-Writes (update_channel id none request retention db)
      (update_channel-Writes id none request retention db v.consistent)
      (record { live = rw (details-live (has_id id) request retention db.channels) v.main.live })
update_channel-HasOneMain u id current raw (some name) request retention db v found checked =
    both-Writes (update_channel id (some name) request retention db)
      (update_channel-Writes id (some name) request retention db v.consistent)
      (elim (Bool-cases (any (λ c. not (has_id id c) && has_name name c) db.channels)) [
        | inl taken ↦ rw taken tt
        | inr free ↦ rw free (record {
          live =
              rw
                (details-live (has_id id) request retention
                  (update (has_id id) (rename name) db.channels))
                (rename-live u id current raw name db.channels v.consistent.ids found checked
                  v.main.live);
        })
      ])

change_channel-HasOneMain :
    (id : Uuid) (name : String) (action : ChannelAction) (t : ℕ) (db : Db)
    → HasOneMain db
    → row_name (find (has_id id) db.channels) ≡ some name
    → str_eq name main_channel ≡ false
    → Writes HasOneMain (change_channel id action t db)
unfolding change_channel
change_channel-HasOneMain id name action t db v found other =
    both-Writes (change_channel id action t db) (change_channel-Writes id action t db v.consistent)
      (elim (Bool-cases (breaks_key action (find (has_id id) db.channels) db)) [
        | inl broken ↦ rw broken tt
        | inr free ↦ rw free (record {
          live =
              apart-live id (change_row action t) db.channels
                (found-apart id (has_id id) (λ c h. h) (λ c h k. h) name db.channels
                  v.consistent.ids found other)
                v.main.live;
        })
      ])

module _ (env : Env) (login : Result Session) where
  pub admin_create_channel-HasOneMain :
      (request : ChannelAdminRequest) → Keeps HasOneMain (admin_create_channel env login request)
  unfolding detail_named
  admin_create_channel-HasOneMain request =
      both-Keeps (admin_create_channel-IsConsistent env login request) (
        admin_create_channel-Keeps HasMain-LogsApart HasMain-StatementsKeep.upsert
          (λ name request retention db v. record {
            live = rw (details-live (has_name name) request retention db.channels) v.live;
          })
          env login request)

  update_rows-Leaves :
      (actor id : Uuid) (request : ChannelAdminRequest)
      → Leaves HasOneMain HasOneMain (update_rows env actor id request)
  unfolding update_rows
  update_rows-Leaves actor id request =
      query-bind-Leaves env _ _ (λ db h. h)
        λ found.
          or_fail-bind-Leaves _ found _ (λ db h. h.0)
            λ current is_found.
              lift-bind-Leaves _ _ (λ db h. h.0)
                λ name checked.
                  lift-bind-Leaves _ _ (λ db h. h.0)
                    λ retention valid.
                      bind-Leaves
                        (execute-Leaves env _ (λ db h. h.0)
                          λ db h.
                            update_channel-HasOneMain env.unicode id current request.name name
                              request retention db h.0 (h.1 ∙ is_found) checked)
                        λ _.
                          bind-Keeps _ _ (now-Keeps env)
                            λ t. record_audit-Keeps HasOneMain-LogsApart env _ _ _ id _ t

  pub admin_update_channel-HasOneMain :
      (id : Uuid) (request : ChannelAdminRequest)
      → Keeps HasOneMain (admin_update_channel env login id request)
  unfolding admin_update_channel
  admin_update_channel-HasOneMain id request = bind-Keeps _ _ (lift-Keeps login) λ session.
      bind-Keeps _ _ (lift-Keeps _) λ _.
        transaction-Keeps env (record { at = (update_rows-Leaves session.user.id id request).at })

  state_rows-Leaves :
      (actor id : Uuid) (action : String)
      → Leaves HasOneMain HasOneMain (state_rows env actor id action)
  unfolding state_rows
  state_rows-Leaves actor id action =
      query-bind-Leaves env _ _ (λ db h. h)
        λ found.
          or_fail-bind-Leaves _ found _ (λ db h. h.0)
            λ name is_found.
              reject-bind-Leaves _ _ _ (λ db h. h.0)
                λ other. now-bind-Leaves env _ λ t.
                  or_fail-bind-Leaves _ _ _ (λ db h. h.0)
                    λ change known.
                      bind-Leaves
                        (execute-Leaves env _ (λ db h. h.0)
                          λ db h.
                            change_channel-HasOneMain id name change t db h.0 (h.1 ∙ is_found)
                              other)
                        λ _.
                          bind-Keeps _ _ (record_audit-Keeps HasOneMain-LogsApart env _ _ _ id _ t)
                            λ _. pure-Keeps name

  pub admin_channel_state-HasOneMain :
      (id : Uuid) (action : String) → Keeps HasOneMain (admin_channel_state env login id action)
  unfolding admin_channel_state announce_state
  admin_channel_state-HasOneMain id action = bind-Keeps _ _ (lift-Keeps login) λ session.
      bind-Keeps _ _ (lift-Keeps _) λ _.
        bind-Keeps _ _
          (transaction-Keeps env (record { at = (state_rows-Leaves session.user.id id action).at }))
          λ name.
            if-Keeps _ _ _ (publish_system_message-Keeps HasOneMain-LogsApart env name _)
              (pure-Keeps tt)
