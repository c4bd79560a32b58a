-- ===== src/Services/Statements.antt =====
-- The SQL statements of backend/src/services.rs. A statement that writes answers `none` where it
-- would break a constraint of backend/migrations: `channels.id` and `channels.name` are unique, as is
-- `direct_key` among the live direct channels, and the members of a channel refer to rows of `channels` and `users`.
use vussa.Base.{
  ℕ, String, str_eq, Bool, true, false, not, ◌&&◌, ◌||◌, ◌==◌, Option, none, some, [], ◌∷◌, ◌++◌,
  any, find, keep, if◌then◌else◌,
}
use vussa.Models.{Uuid}
use vussa.Database.{Db, ChannelRow, MemberRow, UserRow, Kind, Role, is_direct, is_owner}
use vussa.Database.Tables.{
  has_name, has_id, is_live, is_null, is_membership, has_member, is_enabled, update,
}

abbrev pub new_channel : Uuid → String → Kind → Option Uuid → Option String → ℕ → ChannelRow
new_channel id name kind owner key t = record {
  id = id;
  name = name;
  kind = kind;
  owner_user_id = owner;
  direct_key = key;
  created_at = t;
  deleted_at = none;
  archived_at = none;
  posting_restricted = false;
  description = "";
  retention_days = 90;
}

-- `INSERT INTO channels`: the unique columns are checked.
unfoldable pub insert_channel : ChannelRow → Db → Option Db
insert_channel c db =
    if any (λ d. has_id c.id d || has_name c.name d) db.channels
    then none
    else some (record db { channels = db.channels ++ c ∷ [] })

abbrev pub returning : {A : Type 0} → A → Option Db → Option (A × Db)
returning a none = none
returning a (some db) = some (a, db)

abbrev key_equals : String → Option String → Bool
key_equals key none = false
key_equals key (some k) = str_eq k key

-- `direct_key=$1 AND kind='direct' AND deleted_at IS NULL`.
abbrev pub is_direct_key : String → ChannelRow → Bool
is_direct_key key c = key_equals key c.direct_key && is_direct c.kind && is_null c.deleted_at

abbrev other_direct : Uuid → Option String → Db → Bool
other_direct id none db = false
other_direct id (some key) db = any (λ d. not (has_id id d) && is_direct_key key d) db.channels

-- Another live direct channel has the key, under which `channels_direct_key_idx` allows one.
unfoldable pub has_direct_twin : ChannelRow → Db → Bool
has_direct_twin c db = is_direct c.kind && other_direct c.id c.direct_key db

-- `SET deleted_at = NULL`.
abbrev pub revive : ChannelRow → ChannelRow
revive c = record c { deleted_at = none }

unfoldable pub upsert_found : Uuid → String → ℕ → Option ChannelRow → Db → Option (Option Uuid × Db)
unfolding insert_channel has_direct_twin
upsert_found id name t none db =
    returning (some id) (insert_channel (new_channel id name Kind.public none none t) db)
upsert_found id name t (some c) db =
    if is_null c.deleted_at
    then some (none, db)
    else if has_direct_twin c db
    then none
    else some (some c.id, record db { channels = update (has_name name) revive db.channels })

-- `INSERT INTO channels (id, name, created_at) … ON CONFLICT (name) DO UPDATE SET deleted_at = NULL
-- WHERE channels.deleted_at IS NOT NULL RETURNING id`.
unfoldable pub upsert_channel : Uuid → String → ℕ → Db → Option (Option Uuid × Db)
unfolding upsert_found
upsert_channel id name t db = upsert_found id name t (find (has_name name) db.channels) db

-- `INSERT INTO channels (…, 'private', …) … ON CONFLICT (name) DO NOTHING`: was a row inserted?
unfoldable pub insert_private : Uuid → String → Uuid → ℕ → Db → Option (Bool × Db)
unfolding insert_channel
insert_private id name owner t db =
    if any (has_name name) db.channels
    then some (false, db)
    else returning true (insert_channel (new_channel id name Kind.private (some owner) none t) db)

abbrev id_and_name : Option ChannelRow → Option (Uuid × String)
id_and_name none = none
id_and_name (some c) = some (c.id, c.name)

unfoldable pub select_direct : String → Db → Option (Uuid × String)
select_direct key db = id_and_name (find (is_direct_key key) db.channels)

-- `INSERT INTO channels (…, 'direct', …) … ON CONFLICT (direct_key) WHERE kind='direct' AND
-- deleted_at IS NULL DO NOTHING RETURNING id,name`.
unfoldable pub insert_direct :
    Uuid → String → String → ℕ → Db → Option (Option (Uuid × String) × Db)
unfolding insert_channel
insert_direct id name key t db =
    if any (is_direct_key key) db.channels
    then some (none, db)
    else returning (some (id, name))
        (insert_channel (new_channel id name Kind.direct none (some key) t) db)

abbrev pub new_member : Uuid → Uuid → Role → Option Uuid → ℕ → MemberRow
new_member channel user role inviter t = record {
  channel_id = channel;
  user_id = user;
  membership_role = role;
  invited_by = inviter;
  created_at = t;
}

-- `INSERT INTO channel_members … ON CONFLICT DO NOTHING`: was a row inserted? The channel and the
-- user must be there.
unfoldable pub insert_member : Uuid → Uuid → Role → Option Uuid → ℕ → Db → Option (Bool × Db)
insert_member channel user role inviter t db =
    if has_member db.members channel user
    then some (false, db)
    else if any (has_id channel) db.channels && any (λ u. u.id == user) db.users
    then some
        (true, record db { members = db.members ++ new_member channel user role inviter t ∷ [] })
    else none

-- `channel_id=$1 AND user_id=$2 AND membership_role <> 'owner'`.
abbrev pub is_removable : Uuid → Uuid → MemberRow → Bool
is_removable channel user m = is_membership channel user m && not (is_owner m.membership_role)

-- `DELETE FROM channel_members WHERE …`: was a row deleted?
unfoldable pub delete_member : Uuid → Uuid → Db → Option (Bool × Db)
delete_member channel user db = some (
  any (is_removable channel user) db.members,
  record db { members = keep (λ m. not (is_removable channel user m)) db.members },
)

unfoldable pub mark : ℕ → ChannelRow → ChannelRow
mark t c = record c { deleted_at = some t }

abbrev pub deleted_id : Option ChannelRow → Option Uuid
deleted_id none = none
deleted_id (some c) = some c.id

-- `UPDATE channels SET deleted_at=$1 WHERE name=$2 AND deleted_at IS NULL RETURNING id`.
unfoldable pub mark_deleted : String → ℕ → Db → Option (Option Uuid × Db)
unfolding mark
mark_deleted name t db = some (
  deleted_id (find (is_live name) db.channels),
  record db { channels = update (is_live name) (mark t) db.channels },
)

abbrev username : Option UserRow → Option String
username none = none
username (some u) = some u.username

unfoldable pub enabled_username : Uuid → Db → Option String
enabled_username user db = username (find (is_enabled user) db.users)

unfoldable pub username_of : Uuid → Db → Option String
username_of user db = username (find (λ u. u.id == user) db.users)

unfoldable pub user_exists : Uuid → Db → Bool
user_exists user db = any (is_enabled user) db.users
