-- ===== src/Accounts.antt =====
-- backend/src/api/admin.rs, backend/src/api/account.rs and the users of
-- backend/src/repository/postgres.rs, on tables of their own (backend/migrations/0002_auth_admin.sql,
-- 0014_account_recovery.sql). An operation is what its statements do in one transaction, which is
-- rolled back where it answers an error; the session of the caller has been loaded and its token
-- checked.
pub mod Administration
pub mod Changes
pub mod After
pub mod Login
pub mod Admission
pub mod Barred
pub mod Reopened
pub mod Recovery
pub mod Tokens
pub mod Roles
use vussa.Base.{
  ℕ, suc, ◌+◌, ◌==◌, ltb, leb, len, String, str_eq, Bool, true, false, not, ◌&&◌, ◌||◌, Option,
  none, some, List, [], ◌∷◌, ◌++◌, map, keep, any, find, length, if◌then◌else◌,
}
use vussa.Models.{Uuid, Json, Fields, AuthUser, Session}
use vussa.Error.{
  RepositoryError, SqlxError, Result, ok, err, bad_request, from_repository_error, from_sqlx_error,
  map_conflict,
}
use vussa.Database.{AuditRow}
use vussa.Database.Tables.{is_null, update}
use vussa.Auth.{require_permission}
use vussa.Outbox.{EventRow}

pub record Account : Type 0 where
  pub id : Uuid
  pub email : String
  pub username : String
  pub password_hash : String
  pub disabled_at : Option ℕ
  pub deleted_at : Option ℕ
  pub role_version : ℕ
  pub updated_at : ℕ

-- `user_roles`, with the name of the role.
pub record RoleRow : Type 0 where
  pub user_id : Uuid
  pub role : String

pub record TokenRow : Type 0 where
  pub user_id : Uuid
  pub token_hash : String
  pub expires_at : ℕ
  pub created_at : ℕ
  pub used_at : Option ℕ

pub record Tables : Type 0 where
  pub users : List Account
  pub roles : List String
  pub user_roles : List RoleRow
  pub recovery_tokens : List TokenRow
  pub outbox_events : List EventRow
  pub audit_events : List AuditRow

-- The clock, the new identifiers, and their texts.
pub record Stamps : Type 0 where
  pub now : ℕ
  pub audit_id : Uuid
  pub event_id : Uuid
  pub uuid_text : Uuid → String

abbrev pub Tx : Type 0 → Type 0
Tx A = Tables → Result (A × Tables)

module _ {A B : Type 0} where
  abbrev pub continue : Result (A × Tables) → (A → Tx B) → Result (B × Tables)
  continue (ok (a, t)) f = f a t
  continue (err e) f = err e

  infixl 10 ◌>>=◌ ◌>>◌
  unfoldable pub ◌>>=◌ : Tx A → (A → Tx B) → Tx B
  ◌>>=◌ m f t = continue (m t) f

  abbrev pub ◌>>◌ : Tx A → Tx B → Tx B
  m >> n = m >>= λ _. n

module _ {A : Type 0} where
  abbrev pub outcome : Result (A × Tables) → Tables → Result A × Tables
  outcome (ok (a, t')) t = (ok a, t')
  outcome (err e) t = (err e, t)

  -- `pool.begin()`, the statements, `commit()`.
  abbrev pub transaction : Tx A → Tables → Result A × Tables
  transaction m t = outcome (m t) t

  -- A value that was found out before, or an early return.
  abbrev pub lift : Result A → Tx A
  lift (ok a) t = ok (a, t)
  lift (err e) t = err e

abbrev pub write : (Tables → Tables) → Tx (Unit {0})
write f t = ok (tt, f t)

-- `if failed { return Err(e) }`.
abbrev pub check : (Tables → Bool) → Tables → Result (Unit {0} × Tables)
check failed t =
    if failed t then err (from_repository_error RepositoryError.not_found) else ok (tt, t)

abbrev pub has_account_id : Uuid → Account → Bool
has_account_id user a = a.id == user

-- `WHERE id=$1 AND deleted_at IS NULL`.
abbrev pub is_kept : Uuid → Account → Bool
is_kept user a = a.id == user && is_null a.deleted_at

-- `UPDATE users SET … WHERE …`.
abbrev pub update_users : (Account → Bool) → (Account → Account) → Tables → Tables
update_users p f t = record t { users = update p f t.users }

abbrev pub record_audit_event : Stamps → Option Uuid → String → Uuid → Json → Tx (Unit {0})
record_audit_event stamps actor action target metadata = write (λ t. record t {
  audit_events =
      t.audit_events
      ++ record {
        id = stamps.audit_id;
        actor = actor;
        action = action;
        target_type = "user";
        target_id = target;
        metadata = metadata;
        created_at = stamps.now;
      }
        ∷ [];
})

abbrev pub no_metadata : Json
no_metadata = Json.object Fields.end

abbrev pub text_metadata : String → String → Json
text_metadata name value = Json.object (Fields.field name (Json.text value) Fields.end)

-- What `queue_auth_invalidation` inserts.
abbrev pub invalidation : Stamps → Uuid → EventRow
invalidation stamps user = record {
  id = stamps.event_id;
  topic = "auth.invalidate";
  payload = text_metadata "user_id" (stamps.uuid_text user);
  created_at = stamps.now;
  published_at = none;
  attempts = 0;
  claimed_at = none;
}

unfoldable pub queue_auth_invalidation : Stamps → Uuid → Tx (Unit {0})
queue_auth_invalidation stamps user =
    write (λ t. record t { outbox_events = t.outbox_events ++ invalidation stamps user ∷ [] })
