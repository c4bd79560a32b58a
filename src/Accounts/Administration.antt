-- ===== src/Accounts/Administration.antt =====
-- backend/src/api/admin.rs, the changes to users, and the operations of the repository that they call
-- (backend/src/repository/postgres.rs).
use vussa.Base.{
  ℕ, suc, ◌==◌, ltb, leb, len, String, str_eq, Bool, true, false, not, ◌&&◌, ◌||◌, Option, none,
  some, List, [], ◌∷◌, ◌++◌, keep, any, length, if◌then◌else◌,
}
use vussa.Models.{Uuid, Session}
use vussa.Error.{RepositoryError, SqlxError, Result, ok, err, bad_request, from_repository_error}
use vussa.Database.Tables.{is_null}
use vussa.Auth.{require_permission}
use vussa.Accounts.{
  Account, RoleRow, Tables, Stamps, Tx, lift, write, has_account_id, is_kept, update_users,
  record_audit_event, no_metadata, text_metadata, queue_auth_invalidation, ◌>>=◌, ◌>>◌,
}

abbrev pub coalesced : Option ℕ → ℕ → Option ℕ
coalesced none now = some now
coalesced (some t) now = some t

-- An `UPDATE` of users, and the early return where it changed no row.
abbrev pub modify : (Account → Bool) → (Account → Account) → Tx (Unit {0})
modify p f t =
    if any p t.users
    then ok (tt, update_users p f t)
    else err (from_repository_error RepositoryError.not_found)

abbrev pub set_disabled : ℕ → Bool → Account → Account
set_disabled now disabled a = record a {
  disabled_at = if disabled then coalesced a.disabled_at now else none;
  role_version = suc a.role_version;
  updated_at = now;
}

abbrev pub set_user_deleted : ℕ → Account → Account
set_user_deleted now a = record a {
  deleted_at = coalesced a.deleted_at now;
  disabled_at = coalesced a.disabled_at now;
  role_version = suc a.role_version;
  updated_at = now;
}

abbrev pub set_password : ℕ → String → Account → Account
set_password now hash a = record a { password_hash = hash; updated_at = now }

abbrev pub bump_version : ℕ → Account → Account
bump_version now a = record a { role_version = suc a.role_version; updated_at = now }

-- `argon` is `Argon2::hash_password` with a new salt.
abbrev pub password_hash : (String → Result String) → String → Result String
password_hash argon password =
    if ltb (len password) 12 || ltb 200 (len password)
    then err (bad_request "password must be 12–200 characters")
    else argon password

abbrev pub has_role : Uuid → String → RoleRow → Bool
has_role user role r = r.user_id == user && str_eq r.role role

abbrev pub is_active_account : Uuid → Account → Bool
is_active_account user a = a.id == user && is_null a.deleted_at && is_null a.disabled_at

-- A row of an administrator who is neither deleted nor disabled.
abbrev pub is_active_admin : List Account → RoleRow → Bool
is_active_admin users r = str_eq r.role "admin" && any (is_active_account r.user_id) users

abbrev pub active_admins : Tables → ℕ
active_admins t = length (keep (is_active_admin t.users) t.user_roles)

-- `INSERT INTO user_roles … SELECT … FROM roles WHERE name=$2 ON CONFLICT DO NOTHING`, under the
-- reference to the user, and the early return where no row was inserted.
abbrev pub insert_role : Uuid → String → Tx (Unit {0})
insert_role user role t =
    if not (any (str_eq role) t.roles) || any (has_role user role) t.user_roles
    then err (from_repository_error RepositoryError.not_found)
    else if any (has_account_id user) t.users
    then ok
        (tt, record t { user_roles = t.user_roles ++ record { user_id = user; role = role } ∷ [] })
    else err (from_repository_error (RepositoryError.database SqlxError.reported))

-- The final administrator stays.
abbrev pub guard_admin : String → Tx (Unit {0})
guard_admin role t =
    if str_eq role "admin" && leb (active_admins t) 1
    then err (bad_request "the final administrator cannot be removed")
    else ok (tt, t)

abbrev pub delete_role : Uuid → String → Tx (Unit {0})
delete_role user role t =
    if any (has_role user role) t.user_roles
    then ok (tt, record t { user_roles = keep (λ r. not (has_role user role r)) t.user_roles })
    else err (from_repository_error RepositoryError.not_found)

module _ (stamps : Stamps) where
  unfoldable pub set_user_disabled : Uuid → Uuid → Bool → Tx (Unit {0})
  set_user_disabled actor user disabled = do
    modify (has_account_id user) (set_disabled stamps.now disabled)
    record_audit_event stamps (some actor) (if disabled then "user.disabled" else "user.enabled")
        user no_metadata
    queue_auth_invalidation stamps user

  unfoldable pub admin_disable_user : Session → Uuid → Tx (Unit {0})
  admin_disable_user session user = do
    lift (require_permission session.user "users:write")
    set_user_disabled session.user.id user true

  unfoldable pub admin_enable_user : Session → Uuid → Tx (Unit {0})
  admin_enable_user session user = do
    lift (require_permission session.user "users:write")
    set_user_disabled session.user.id user false

  unfoldable pub admin_delete_user : Session → Uuid → Tx (Unit {0})
  admin_delete_user session user = do
    lift (require_permission session.user "users:write")
    lift (
        if user == session.user.id
        then err (bad_request "you cannot delete your own account")
        else ok tt)
    modify (is_kept user) (set_user_deleted stamps.now)
    record_audit_event stamps (some session.user.id) "user.deleted" user no_metadata
    queue_auth_invalidation stamps user

  unfoldable pub admin_reset_password :
      (String → Result String) → Session → Uuid → String → Tx (Unit {0})
  admin_reset_password argon session user password = do
    lift (require_permission session.user "users:write")
    hash ← lift (password_hash argon password)
    modify (is_kept user) (set_password stamps.now hash)
    record_audit_event stamps (some session.user.id) "user.password_reset" user no_metadata
    queue_auth_invalidation stamps user

  unfoldable pub admin_invalidate_sessions : Session → Uuid → Tx (Unit {0})
  admin_invalidate_sessions session user = do
    lift (require_permission session.user "users:write")
    record_audit_event stamps (some session.user.id) "user.sessions_invalidated" user no_metadata
    queue_auth_invalidation stamps user

  unfoldable pub assign_role : Uuid → Uuid → String → Tx (Unit {0})
  assign_role actor user role = do
    insert_role user role
    write (update_users (has_account_id user) (bump_version stamps.now))
    record_audit_event stamps (some actor) "user.role_assigned" user (text_metadata "role" role)
    queue_auth_invalidation stamps user

  unfoldable pub admin_assign_role : Session → Uuid → String → Tx (Unit {0})
  admin_assign_role session user role = do
    lift (require_permission session.user "roles:write")
    assign_role session.user.id user role

  unfoldable pub admin_remove_role : Session → Uuid → String → Tx (Unit {0})
  admin_remove_role session user role = do
    lift (require_permission session.user "roles:write")
    guard_admin role
    delete_role user role
    write (update_users (has_account_id user) (bump_version stamps.now))
    record_audit_event stamps (some session.user.id) "user.role_removed" user
        (text_metadata "role" role)
    queue_auth_invalidation stamps user
