-- ===== src/Channels.antt =====
-- backend/src/api/admin.rs, what an administrator does to a channel: `admin_create_channel`,
-- `admin_update_channel`, `admin_channel_state`. `login` is what `load_session` and `require_csrf`
-- answered for the request.
pub mod Consistency
pub mod Live
pub mod Main
use vussa.Base.{
  ℕ, String, str_eq, text_append, Bool, true, false, not, ◌&&◌, ◌||◌, Option, none, some, any, find,
  leb, if◌then◌else◌,
}
use vussa.Models.{Uuid, Session}
use vussa.Error.{
  Result, ok, err, bad_request, from_repository_error, RepositoryError, from_sqlx_error, SqlxError,
}
use vussa.Database.{Db, ChannelRow}
use vussa.Database.Tables.{has_id, has_name, is_null, update}
use vussa.Text.{Unicode, normalize_channel_name, main_channel}
use vussa.Auth.{require_permission}
use vussa.Io.{
  Env, Io, pure, reject, or_fail, lift, now, new_uuid, query, execute, transaction, ◌>>=◌, ◌>>◌,
}
use vussa.Services.{no_metadata}
use vussa.Services.Statements.{upsert_channel, has_direct_twin}
use vussa.Services.Publishing.{record_audit, publish_system_message}

-- A number of days that is negative is refused as 0 is.
pub record ChannelAdminRequest : Type 0 where
  pub name : Option String
  pub description : Option String
  pub retention_days : Option ℕ
  pub posting_restricted : Option Bool

unfoldable pub validate_retention_days : Option ℕ → Result (Option ℕ)
validate_retention_days none = ok none
validate_retention_days (some days) =
    if leb 1 days && leb days 3650
    then ok (some days)
    else err (bad_request "retention must be between 1 and 3650 days")

-- `COALESCE($1, column)`.
abbrev pub or_column : {A : Type 0} → Option A → A → A
or_column none a = a
or_column (some b) a = b

abbrev pub set_details : ChannelAdminRequest → Option ℕ → ChannelRow → ChannelRow
set_details request retention c = record c {
  description = or_column request.description c.description;
  retention_days = or_column retention c.retention_days;
  posting_restricted = or_column request.posting_restricted c.posting_restricted;
}

abbrev pub is_some_row : {A : Type 0} → Option A → Bool
is_some_row none = false
is_some_row (some a) = true

abbrev pub text_or_empty : Option String → String
text_or_empty none = ""
text_or_empty (some s) = s

-- `repository.create_channel`: was a row affected?
unfoldable pub create_channel : Env → String → Io Bool
create_channel env name = do
  id ← new_uuid env
  t ← now env
  found ← execute env (upsert_channel id name t)
  pure (is_some_row found)

-- `UPDATE channels SET … WHERE name=$4`.
unfoldable pub detail_named : String → ChannelAdminRequest → Option ℕ → Db → Option (Unit {0} × Db)
detail_named name request retention db = some (
  tt,
  record db { channels = update (has_name name) (set_details request retention) db.channels },
)

abbrev pub row_id : Option ChannelRow → Option Uuid
row_id none = none
row_id (some c) = some c.id

abbrev pub row_name : Option ChannelRow → Option String
row_name none = none
row_name (some c) = some c.name

unfoldable pub admin_create_channel : Env → Result Session → ChannelAdminRequest → Io (Unit {0})
admin_create_channel env login request = do
  session ← lift login
  lift (require_permission session.user "channels:write")
  name ← lift (normalize_channel_name env.unicode (text_or_empty request.name))
  reject (str_eq name main_channel) (bad_request "main is reserved")
  retention ← lift (validate_retention_days request.retention_days)
  created ← create_channel env name
  reject (not created) (bad_request "channel already exists")
  execute env (detail_named name request retention)
  found ← query env (λ db. row_id (find (has_name name) db.channels))
  id ← or_fail (from_sqlx_error SqlxError.failed) found
  t ← now env
  record_audit env (some session.user.id) "channel.created" "channel" id no_metadata t
  publish_system_message env name (text_append session.user.username " created this channel")

abbrev pub rename : String → ChannelRow → ChannelRow
rename name c = record c { name = name }

-- `UPDATE channels SET name=COALESCE($1,name), … WHERE id=$5`: names are unique.
unfoldable pub update_channel :
    Uuid → Option String → ChannelAdminRequest → Option ℕ → Db → Option (Unit {0} × Db)
update_channel id none request retention db =
    some
      (tt, record db { channels = update (has_id id) (set_details request retention) db.channels })
update_channel id (some name) request retention db =
    if any (λ c. not (has_id id c) && has_name name c) db.channels
    then none
    else some (
      tt,
      record db {
        channels =
            update (has_id id) (set_details request retention)
              (update (has_id id) (rename name) db.channels);
      },
    )

-- `main` keeps its name.
abbrev pub checked_name : String → Result String → Result (Option String)
checked_name current (err e) = err e
checked_name current (ok name) =
    if str_eq current main_channel && not (str_eq name main_channel)
    then err (bad_request "main cannot be renamed")
    else ok (some name)

-- The new name, checked against the present one.
unfoldable pub new_name : Unicode → String → Option String → Result (Option String)
new_name u current none = ok none
new_name u current (some raw) = checked_name current (normalize_channel_name u raw)

-- `id=$1 AND deleted_at IS NULL`.
abbrev pub is_live_id : Uuid → ChannelRow → Bool
is_live_id id c = has_id id c && is_null c.deleted_at

unfoldable pub update_rows : Env → Uuid → Uuid → ChannelAdminRequest → Io (Unit {0})
update_rows env actor id request = do
  found ← query env (λ db. row_name (find (is_live_id id) db.channels))
  current ← or_fail (from_repository_error RepositoryError.not_found) found
  name ← lift (new_name env.unicode current request.name)
  retention ← lift (validate_retention_days request.retention_days)
  execute env (update_channel id name request retention)
  t ← now env
  record_audit env (some actor) "channel.updated" "channel" id no_metadata t

unfoldable pub admin_update_channel :
    Env → Result Session → Uuid → ChannelAdminRequest → Io (Unit {0})
admin_update_channel env login id request = do
  session ← lift login
  lift (require_permission session.user "channels:write")
  transaction env (update_rows env session.user.id id request)

pub data ChannelAction : Type 0 where
  archive restore delete undelete : ChannelAction

unfoldable pub action_of : String → Option ChannelAction
action_of action =
    if str_eq action "archive"
    then some ChannelAction.archive
    else if str_eq action "restore"
    then some ChannelAction.restore
    else if str_eq action "delete"
    then some ChannelAction.delete
    else if str_eq action "undelete"
    then some ChannelAction.undelete
    else none

-- `COALESCE(column, $1)`.
abbrev pub or_now : Option ℕ → ℕ → Option ℕ
or_now none t = some t
or_now (some s) t = some s

abbrev pub change_row : ChannelAction → ℕ → ChannelRow → ChannelRow
change_row ChannelAction.archive t c = record c { archived_at = or_now c.archived_at t }
change_row ChannelAction.restore t c = record c { archived_at = none }
change_row ChannelAction.delete t c = record c { deleted_at = or_now c.deleted_at t }
change_row ChannelAction.undelete t c = record c { deleted_at = none }

-- An undeleted direct channel may not have the key of another.
abbrev pub breaks_key : ChannelAction → Option ChannelRow → Db → Bool
breaks_key ChannelAction.undelete (some c) db = has_direct_twin c db
breaks_key other found db = false

unfoldable pub change_channel : Uuid → ChannelAction → ℕ → Db → Option (Unit {0} × Db)
change_channel id action t db =
    if breaks_key action (find (has_id id) db.channels) db
    then none
    else some (tt, record db { channels = update (has_id id) (change_row action t) db.channels })

unfoldable pub state_rows : Env → Uuid → Uuid → String → Io String
state_rows env actor id action = do
  found ← query env (λ db. row_name (find (has_id id) db.channels))
  name ← or_fail (from_repository_error RepositoryError.not_found) found
  reject (str_eq name main_channel) (bad_request "main cannot be changed")
  t ← now env
  change ← or_fail (bad_request "unknown channel action") (action_of action)
  execute env (change_channel id change t)
  record_audit env (some actor) (text_append "channel." action) "channel" id no_metadata t
  pure name

abbrev pub state_message : String → String
state_message action =
    if str_eq action "archive"
    then "This channel was archived and is now read-only"
    else "This channel was restored"

unfoldable pub announce_state : Env → String → String → Io (Unit {0})
announce_state env action name =
    if str_eq action "archive" || str_eq action "restore"
    then publish_system_message env name (state_message action)
    else pure tt

unfoldable pub admin_channel_state : Env → Result Session → Uuid → String → Io (Unit {0})
admin_channel_state env login id action = do
  session ← lift login
  lift (require_permission session.user "channels:write")
  name ← transaction env (state_rows env session.user.id id action)
  announce_state env action name
