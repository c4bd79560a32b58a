-- ===== src/Bans.antt =====
-- backend/src/api/admin.rs, `admin_create_ban`. `login` is what `load_session` and `require_csrf`
-- answered for the request.
pub mod Barring
use vussa.Base.{
  ℕ, ◌==◌, leb, ltb, len, String, Bool, true, false, not, ◌&&◌, ◌||◌, Option, none, some, List, [],
  ◌∷◌, ◌++◌, any, find, if◌then◌else◌,
}
use vussa.Models.{Uuid, Session, Json, Fields}
use vussa.Error.{Result, bad_request, from_repository_error, RepositoryError}
use vussa.Database.{Db, ChannelRow, BanRow}
use vussa.Database.Tables.{has_id, is_live, is_null}
use vussa.Text.{is_empty, trim}
use vussa.Auth.{require_permission}
use vussa.Io.{Env, Io, pure, reject, or_fail, lift, now, new_uuid, query, execute, ◌>>=◌, ◌>>◌}
use vussa.Services.Publishing.{record_audit}

pub record BanRequest : Type 0 where
  pub user_id : Uuid
  pub channel : Option String
  pub reason : String
  pub expires_at : Option ℕ

abbrev pub refers_to_channel : Option Uuid → Db → Bool
refers_to_channel none db = true
refers_to_channel (some id) db = any (has_id id) db.channels

-- `INSERT INTO user_bans`, under the keys of backend/migrations/0011_moderation_controls.sql.
unfoldable pub insert_ban : BanRow → Db → Option (Unit {0} × Db)
insert_ban b db =
    if not (any (λ c. c.id == b.id) db.bans)
      && any (λ u. u.id == b.user_id) db.users
      && refers_to_channel b.channel_id db
    then some (tt, record db { bans = db.bans ++ b ∷ [] })
    else none

unfoldable pub check_expiry : Env → Option ℕ → Io (Unit {0})
check_expiry env none = pure tt
check_expiry env (some expires_at) = do
  t ← now env
  reject (leb expires_at t) (bad_request "ban expiry must be in the future")

abbrev pub live_id : Option ChannelRow → Option Uuid
live_id none = none
live_id (some c) = some c.id

unfoldable pub ban_channel : Env → Option String → Io (Option Uuid)
ban_channel env none = pure none
ban_channel env (some name) = do
  found ← query env (λ db. live_id (find (is_live name) db.channels))
  id ← or_fail (from_repository_error RepositoryError.not_found) found
  pure (some id)

abbrev pub channel_json : Env → Option Uuid → Json
channel_json env none = Json.null
channel_json env (some id) = Json.text (env.uuid_text id)

abbrev pub ban_metadata : Env → String → Option Uuid → Json
ban_metadata env reason channel = Json.object (
    Fields.field "reason" (Json.text reason)
      (Fields.field "channel_id" (channel_json env channel) Fields.end))

abbrev pub new_ban : Uuid → BanRequest → Option Uuid → String → Uuid → ℕ → BanRow
new_ban id request channel reason actor t = record {
  id = id;
  user_id = request.user_id;
  channel_id = channel;
  expires_at = request.expires_at;
  revoked_at = none;
  reason = reason;
  created_by = some actor;
  created_at = t;
}

-- The row and its log, once the checks are passed.
unfoldable pub ban_rows : Env → Uuid → BanRequest → String → Option Uuid → Io Uuid
ban_rows env actor request reason channel = do
  id ← new_uuid env
  t ← now env
  execute env (insert_ban (new_ban id request channel reason actor t))
  record_audit env (some actor) "user.banned" "user" request.user_id
      (ban_metadata env reason channel) t
  pure id

unfoldable pub admin_create_ban : Env → Result Session → BanRequest → Io Uuid
admin_create_ban env login request = do
  session ← lift login
  lift (require_permission session.user "moderation:write")
  reject
      (is_empty (trim env.unicode request.reason)
        || ltb 500 (len (trim env.unicode request.reason)))
      (bad_request "ban reason must be 1–500 characters")
  check_expiry env request.expires_at
  exists ← query env (λ db. any (λ u. u.id == request.user_id && is_null u.deleted_at) db.users)
  reject (not exists) (from_repository_error RepositoryError.not_found)
  channel ← ban_channel env request.channel
  ban_rows env session.user.id request (trim env.unicode request.reason) channel
