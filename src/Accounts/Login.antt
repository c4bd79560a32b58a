-- ===== src/Accounts/Login.antt =====
-- Who is let in: `find_user_for_login` of backend/src/repository/postgres.rs and `login` of
-- backend/src/api/account.rs. What the rate limits, the check of the password and the creation of the
-- session answer is given; the check is made whether or not the account was found.
use vussa.Base.{
  ◌==◌, String, str_eq, Bool, true, false, not, ◌||◌, Option, none, some, List, map, keep, find,
}
use vussa.Models.{Uuid, nil_uuid, AuthUser}
use vussa.Error.{Result, ok, err, unauthorized}
use vussa.Database.Tables.{is_null}
use vussa.Accounts.{Account, RoleRow, Tables}

-- A user with a password hash, and whether the account is disabled.
pub record Found : Type 0 where
  pub user : AuthUser
  pub hash : String
  pub disabled : Bool

-- `lower` is the database's.
module _ (lower : String → String) (role_permissions : List RoleRow → List String) where
  abbrev pub answers_to : String → Account → Bool
  answers_to text a = str_eq (lower a.email) (lower text) || str_eq (lower a.username) (lower text)

  abbrev pub roles_of : Tables → Uuid → List RoleRow
  roles_of t user = keep (λ r. r.user_id == user) t.user_roles

  abbrev pub found_account : Tables → Account → Found
  found_account t a = record {
    user = record {
      id = a.id;
      email = a.email;
      username = a.username;
      roles = map (λ r. r.role) (roles_of t a.id);
      permissions = role_permissions (roles_of t a.id);
    };
    hash = a.password_hash;
    disabled = not (is_null a.disabled_at);
  }

  abbrev pub found_login : Tables → Option Account → Option Found
  found_login t none = none
  found_login t (some a) = some (found_account t a)

  unfoldable pub find_user_for_login : String → Tables → Option Found
  find_user_for_login text t = found_login t (find (answers_to text) t.users)

-- The answers of the calls that `login` makes.
pub record LoginCalls : Type 0 where
  pub limit_ip : Result (Unit {0})
  pub limit_target : Result (Unit {0})
  pub dummy_hash : String
  -- `verify_password_coalesced`.
  pub verify : Uuid → String → String → Result Bool
  pub create_session : AuthUser → Result (Uuid × String)

module _ {A B : Type 0} where
  -- `?`.
  abbrev pub and_then : Result A → (A → Result B) → Result B
  and_then (ok a) f = f a
  and_then (err e) f = err e

abbrev pub invalid_credentials : Result AuthUser
invalid_credentials = err (unauthorized "invalid credentials")

module _ (calls : LoginCalls) where
  abbrev pub let_in : AuthUser → Result AuthUser
  let_in user = and_then (calls.create_session user) (λ created. ok user)

  abbrev pub decide : Bool → Option AuthUser → Bool → Result AuthUser
  decide true user verified = invalid_credentials
  decide false none verified = invalid_credentials
  decide false (some user) false = invalid_credentials
  decide false (some user) true = let_in user

  abbrev pub verify_found : String → Option Found → Result AuthUser
  verify_found password none =
      and_then (calls.verify nil_uuid password calls.dummy_hash) (decide false none)
  verify_found password (some f) =
      and_then (calls.verify f.user.id password f.hash) (decide f.disabled (some f.user))

  -- The account is looked for between the rate limits and the check.
  unfoldable pub login : String → Result (Option Found) → Result AuthUser
  login password found =
      and_then calls.limit_ip
        (λ a. and_then calls.limit_target (λ b. and_then found (verify_found password)))
