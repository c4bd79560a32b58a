-- ===== src/Services/Publishing.antt =====
-- What the operations leave behind and send: audit events (backend/src/persistence.rs), messages of
-- the server and lists of members (backend/src/api/channels.rs, backend/src/services.rs).
pub mod Logs
use vussa.Base.{
  ℕ, String, Bool, true, false, ◌&&◌, ◌||◌, ◌==◌, Option, none, some, List, [], ◌∷◌, ◌++◌, any,
  find, sort_by, if◌then◌else◌, str_eq, not,
}
use vussa.Models.{Uuid, ServerEvent, ChatMessage, ChannelMember, Json, Fields}
use vussa.Database.{Db, ChannelRow, MemberRow, UserRow, AuditRow, SystemRow, Role}
use vussa.Database.Tables.{is_live}
use vussa.Io.{Env, Io, pure, ignore, now, new_uuid, query, execute, ◌>>=◌}
use vussa.Broadcast.{broadcast}

insert_audit : AuditRow → Db → Option (Unit {0} × Db)
insert_audit a db =
    if any (λ b. b.id == a.id) db.audit_events
    then none
    else some (tt, record db { audit_events = db.audit_events ++ a ∷ [] })

pub record_audit : Env → Option Uuid → String → String → Uuid → Json → ℕ → Io (Unit {0})
unfolding insert_audit
record_audit env actor action target_type target_id metadata t = do
  id ← new_uuid env
  execute env (
      insert_audit (record {
        id = id;
        actor = actor;
        action = action;
        target_type = target_type;
        target_id = target_id;
        metadata = metadata;
        created_at = t;
      }))

append_message : Uuid → String → ℕ → Option ChannelRow → Db → Option (Bool × Db)
append_message id text t none db = some (false, db)
append_message id text t (some c) db =
    if any (λ m. m.id == id) db.messages
    then none
    else some (true, record db { messages = db.messages ++ row ∷ [] })
  where
    row : SystemRow
    row = record { id = id; channel_id = c.id; text = text; created_at = t }

-- `INSERT INTO messages … SELECT … FROM channels WHERE name=$5 AND deleted_at IS NULL`.
insert_system_message : Uuid → String → String → ℕ → Db → Option (Bool × Db)
unfolding append_message
insert_system_message id channel text t db =
    append_message id text t (find (is_live channel) db.channels) db

abbrev system_metadata : Json
system_metadata = Json.object (Fields.field "kind" (Json.text "system") Fields.end)

system_message : Uuid → String → String → ℕ → ChatMessage
system_message id channel text t = record {
  id = id;
  channel = channel;
  username = "system";
  text = text;
  created_at = t;
  edited = false;
  deleted = false;
  root_message_id = none;
  reply_count = 0;
  metadata = system_metadata;
  mentions = [];
  client_id = none;
  file_ids = [];
}

pub create_system_message : Env → String → String → Io (Option ChatMessage)
unfolding insert_system_message system_message
create_system_message env channel text = do
  id ← new_uuid env
  created_at ← now env
  inserted ← execute env (insert_system_message id channel text created_at)
  pure (if inserted then some (system_message id channel text created_at) else none)

sent : Env → String → Option ChatMessage → Io (Unit {0})
sent env channel none = pure tt
sent env channel (some message) = ignore (broadcast env channel (ServerEvent.message message))

pub publish_system_message : Env → String → String → Io (Unit {0})
unfolding sent
publish_system_message env channel text = do
  message ← create_system_message env channel text
  sent env channel message

abbrev role_text : Role → String
role_text Role.owner = "owner"
role_text Role.moderator = "moderator"
role_text Role.member = "member"

-- `JOIN users u ON u.id=cm.user_id`.
joined : List UserRow → MemberRow → List ChannelMember
joined [] m = []
joined (u ∷ us) m =
    if u.id == m.user_id
    then record {
      user_id = u.id;
      username = u.username;
      membership_role = role_text m.membership_role;
    }
      ∷ joined us m
    else joined us m

members_of : Uuid → List UserRow → List MemberRow → List ChannelMember
unfolding joined
members_of channel users [] = []
members_of channel users (m ∷ ms) =
    (if m.channel_id == channel then joined users m else []) ++ members_of channel users ms

rows_of : String → Db → List ChannelRow → List ChannelMember
unfolding members_of
rows_of name db [] = []
rows_of name db (c ∷ cs) =
    (if is_live name c then members_of c.id db.users db.members else []) ++ rows_of name db cs

-- `ORDER BY cm.membership_role DESC,u.username`.
member_before : Env → ChannelMember → ChannelMember → Bool
member_before env a b =
    not (env.collates a.membership_role b.membership_role)
    || str_eq a.membership_role b.membership_role && env.collates a.username b.username

unfoldable pub channel_members : Env → String → Io (List ChannelMember)
unfolding rows_of member_before
channel_members env name =
    query env (λ db. sort_by (member_before env) (rows_of name db db.channels))

unfoldable pub announced : Env → String → Io (Unit {0})
announced env channel = do
  members ← channel_members env channel
  broadcast env channel (ServerEvent.members channel members)

-- Neither error goes beyond the log.
unfoldable pub broadcast_members : Env → String → Io (Unit {0})
unfolding announced
broadcast_members env channel = ignore (announced env channel)
