-- ===== src/Members/Statements.antt =====
-- The SQL statements of backend/src/api/members.rs.
use vussa.Base.{String, Bool, not, ◌&&◌, Option, none, some, List, any, find, keep}
use vussa.Models.{Uuid}
use vussa.Database.{Db, ChannelRow, MemberRow, Role, is_member, is_moderator}
use vussa.Database.Tables.{is_live, has_id, is_membership, update}

abbrev pub with_row : ChannelRow → Option MemberRow → Option (ChannelRow × MemberRow)
with_row c none = none
with_row c (some m) = some (c, m)

unfoldable pub membership :
    List MemberRow → Uuid → Option ChannelRow → Option (ChannelRow × MemberRow)
membership members user none = none
membership members user (some c) = with_row c (find (is_membership c.id user) members)

-- `channels c JOIN channel_members cm ON cm.channel_id=c.id AND cm.user_id=$1 WHERE c.name=$2 AND
-- c.deleted_at IS NULL`; names and memberships are unique.
unfoldable pub select_membership : String → Uuid → Db → Option (ChannelRow × MemberRow)
unfolding membership
select_membership name user db = membership db.members user (find (is_live name) db.channels)

abbrev pub id_and_owner : Option ChannelRow → Option (Uuid × Option Uuid)
id_and_owner none = none
id_and_owner (some c) = some (c.id, c.owner_user_id)

-- `SELECT id, owner_user_id FROM channels WHERE name=$1 AND deleted_at IS NULL`.
unfoldable pub select_owner : String → Db → Option (Uuid × Option Uuid)
select_owner name db = id_and_owner (find (is_live name) db.channels)

-- `DELETE FROM channel_members WHERE channel_id=$1 AND user_id=$2`.
unfoldable pub delete_membership : Uuid → Uuid → Db → Option (Unit {0} × Db)
delete_membership channel user db =
    some (tt, record db { members = keep (λ m. not (is_membership channel user m)) db.members })

abbrev pub with_role : Role → MemberRow → MemberRow
with_role role m = record m { membership_role = role }

-- `UPDATE channel_members SET membership_role=… WHERE …`: was a row changed?
unfoldable pub set_role : (MemberRow → Bool) → Role → Db → Option (Bool × Db)
set_role p role db =
    some (any p db.members, record db { members = update p (with_role role) db.members })

unfoldable pub promote : Uuid → Uuid → Db → Option (Bool × Db)
unfolding set_role
promote channel user =
    set_role (λ m. is_membership channel user m && is_member m.membership_role) Role.moderator

unfoldable pub demote : Uuid → Uuid → Db → Option (Bool × Db)
unfolding set_role
demote channel user =
    set_role (λ m. is_membership channel user m && is_moderator m.membership_role) Role.member

abbrev pub owned_by : Uuid → ChannelRow → ChannelRow
owned_by user c = record c { owner_user_id = some user }

-- `UPDATE channels SET owner_user_id=$1 WHERE id=$2`.
unfoldable pub set_owner : Uuid → Uuid → Db → Option (Unit {0} × Db)
set_owner channel user db =
    some (tt, record db { channels = update (has_id channel) (owned_by user) db.channels })

unfoldable pub set_moderator : Uuid → Uuid → Db → Option (Bool × Db)
unfolding set_role
set_moderator channel user = set_role (is_membership channel user) Role.moderator

unfoldable pub set_owner_role : Uuid → Uuid → Db → Option (Bool × Db)
unfolding set_role
set_owner_role channel user = set_role (is_membership channel user) Role.owner
