-- ===== src/Tests/Data.antt =====
-- A service that always answers, a small table of Unicode, and a database with the main channel and
-- one private channel.
use vussa.Base.{
  ℕ, ◌+◌, ◌==◌, ◌&&◌, ◌||◌, leb, String, Char, code, Bool, true, false, none, some, [], ◌∷◌,
}
use vussa.Models.{Uuid, AuthUser, Session}
use vussa.Error.{Result, ok}
use vussa.Database.{Db, Kind, Role, ChannelRow, MemberRow, UserRow}
use vussa.Text.{Unicode}
use vussa.Io.{Env, World}

abbrev between : ℕ → ℕ → Char → Bool
between low high c = leb low (code c) && leb (code c) high

abbrev pub ascii : Unicode
ascii = record {
  is_whitespace = λ c. code c == 32 || between 9 13 c;
  is_alphanumeric = λ c. between 48 57 c || between 65 90 c || between 97 122 c;
  is_control = λ c. leb (code c) 31 || code c == 127;
  to_lowercase = λ s. s;
}

-- The calls in the list fail.
abbrev pub services : (ℕ → Bool) → Env
services fails = record {
  fails = fails;
  applied = λ n. false;
  clock = λ n. 1000 + n;
  uuid = λ n. 100 + n;
  uuid_text = λ id. "id";
  collates = λ a b. true;
  unicode = ascii;
}

abbrev pub alice : AuthUser
alice = record {
  id = 7;
  email = "alice@example.com";
  username = "alice";
  roles = "user" ∷ [];
  permissions = "chat:write" ∷ "chat:moderate" ∷ [];
}

abbrev pub bob : AuthUser
bob = record {
  id = 8;
  email = "bob@example.com";
  username = "bob";
  roles = "user" ∷ [];
  permissions = "chat:write" ∷ [];
}

abbrev pub logged_in : AuthUser → Result Session
logged_in user = ok (record { id = 50; csrf = "token"; user = user })

abbrev pub main_row : ChannelRow
main_row = record {
  id = 1;
  name = "main";
  kind = Kind.public;
  owner_user_id = none;
  direct_key = none;
  created_at = 0;
  deleted_at = none;
  archived_at = none;
  posting_restricted = false;
  description = "";
  retention_days = 90;
}

abbrev pub team_row : ChannelRow
team_row = record {
  id = 2;
  name = "team";
  kind = Kind.private;
  owner_user_id = some 7;
  direct_key = none;
  created_at = 5;
  deleted_at = none;
  archived_at = none;
  posting_restricted = false;
  description = "";
  retention_days = 90;
}

abbrev member_row : Uuid → Role → MemberRow
member_row user role = record {
  channel_id = 2;
  user_id = user;
  membership_role = role;
  invited_by = some 7;
  created_at = 5;
}

abbrev user_row : Uuid → String → UserRow
user_row id name = record { id = id; username = name; disabled_at = none; deleted_at = none }

abbrev pub two_channels : Db
two_channels = record {
  channels = main_row ∷ team_row ∷ [];
  members = member_row 7 Role.owner ∷ member_row 8 Role.member ∷ [];
  users = user_row 7 "alice" ∷ user_row 8 "bob" ∷ [];
  bans = [];
  messages = [];
  audit_events = [];
  invite_links = [];
}

abbrev pub start : World
start = record { calls = 0; db = two_channels; published = [] }
