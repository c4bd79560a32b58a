-- ===== src/Access.antt =====
-- backend/src/api/channels.rs: who may see a channel, post in it, and manage its members.
use vussa.Base.{
  ℕ, String, Bool, not, ◌&&◌, ◌||◌, List, any, find, Option, none, some, if◌then◌else◌, str_eq,
}
use vussa.Models.{Uuid, AuthUser}
use vussa.Error.{forbidden, from_repository_error, RepositoryError}
use vussa.Database.{Db, ChannelRow, is_public, is_private, is_owner, is_moderator}
use vussa.Database.Tables.{
  is_live, is_null, equals, is_membership, has_member, is_banned, is_globally_banned,
}
use vussa.Auth.{has_permission}
use vussa.Io.{Env, Io, pure, raise, reject, or_fail, now, query, ◌>>=◌}

-- The `EXISTS` of `ensure_channel_access`.
unfoldable pub can_access : Db → String → Uuid → ℕ → Bool
can_access db name user t =
    any
      (λ c.
        is_live name c
        && (is_public c.kind || has_member db.members c.id user)
        && not (is_banned db c.id user t))
      db.channels

unfoldable pub ensure_channel_access : Env → String → Uuid → Io (Unit {0})
ensure_channel_access env name user = do
  t ← now env
  allowed ← query env (λ db. can_access db name user t)
  reject (not allowed) (forbidden "conversation access denied")

unfoldable pub ensure_not_globally_banned : Env → Uuid → Io (Unit {0})
ensure_not_globally_banned env user = do
  t ← now env
  banned ← query env (λ db. is_globally_banned db user t)
  reject banned (forbidden "conversation access denied")

-- The `EXISTS` of `ensure_channel_posting_access`: no row need be live there.
unfoldable pub can_post : Db → String → Uuid → Bool
can_post db name user =
    any
      (λ c.
        str_eq c.name name
        && any
            (λ m.
              is_membership c.id user m
              && (is_owner m.membership_role || is_moderator m.membership_role))
            db.members)
      db.channels

-- What follows once the row of the channel is read.
unfoldable pub posting : Env → String → Uuid → Bool → ChannelRow → Io (Unit {0})
posting env name user moderator row =
    if not (is_null row.archived_at) && not moderator
    then raise (forbidden "archived channels are read-only")
    else if not row.posting_restricted || moderator
    then pure tt
    else do
      allowed ← query env (λ db. can_post db name user)
      reject (not allowed) (forbidden "posting is restricted in this channel")

unfoldable pub ensure_channel_posting_access : Env → String → Uuid → List String → Io (Unit {0})
unfolding posting
ensure_channel_posting_access env name user permissions = do
  found ← query env (λ db. find (is_live name) db.channels)
  row ← or_fail (from_repository_error RepositoryError.not_found) found
  posting env name user (any (λ permission. str_eq permission "chat:moderate") permissions) row

-- `name=$1 AND kind='private' AND owner_user_id=$2 AND deleted_at IS NULL`.
abbrev pub is_owned_private : String → Uuid → ChannelRow → Bool
is_owned_private name user c = is_live name c && is_private c.kind && equals c.owner_user_id user

abbrev pub id_of : Option ChannelRow → Option Uuid
id_of none = none
id_of (some c) = some c.id

unfoldable pub owned_private_channel : Env → String → Uuid → Io Uuid
owned_private_channel env name user = do
  found ← query env (λ db. id_of (find (is_owned_private name user) db.channels))
  or_fail (forbidden "only the private channel owner can manage members") found

unfoldable pub live_channel : Env → String → Io Uuid
live_channel env name = do
  found ← query env (λ db. id_of (find (is_live name) db.channels))
  or_fail (from_repository_error RepositoryError.not_found) found

unfoldable pub channel_moderator_manager : Env → String → AuthUser → Io Uuid
unfolding live_channel
channel_moderator_manager env name user =
    if has_permission user "chat:moderate"
    then live_channel env name
    else owned_private_channel env name user.id
