-- ===== src/Accounts/Recovery.antt =====
-- backend/src/api/account.rs, `request_recovery` and `reset_recovery`: a password is set anew with a
-- token that was sent by mail. The rate limit has been passed; `digest` is the hash of tokens in
-- hexadecimal, and the random token is given.
use vussa.Base.{
  ℕ, suc, ◌+◌, ◌*◌, ◌==◌, ltb, leb, len, code, Char, String, str_eq, Bool, not, ◌&&◌, ◌||◌, Option,
  none, some, [], ◌∷◌, ◌++◌, keep, find, any, if◌then◌else◌,
}
use vussa.Models.{Uuid}
use vussa.Error.{Result, ok, err, unauthorized, bad_request, SqlxError, from_sqlx_error}
use vussa.Database.Tables.{is_null, update}
use vussa.Text.{Unicode, trim, is_empty, all_chars}
use vussa.Accounts.{
  Account, TokenRow, Tables, Stamps, Tx, lift, write, is_kept, update_users, record_audit_event,
  no_metadata, queue_auth_invalidation, ◌>>=◌, ◌>>◌,
}
use vussa.Accounts.Administration.{password_hash}

-- `is_ascii_hexdigit`.
abbrev pub is_hex : Char → Bool
is_hex c =
    (leb 48 (code c) && leb (code c) 57)
    || (leb 65 (code c) && leb (code c) 70)
    || (leb 97 (code c) && leb (code c) 102)

abbrev pub invalid_token {ℓ} : {A : Type ℓ} → Result A
invalid_token = err (unauthorized "invalid or expired recovery token")

abbrev pub is_active_email : (String → String) → String → Account → Bool
is_active_email lower email a =
    str_eq (lower a.email) (lower email) && is_null a.disabled_at && is_null a.deleted_at

abbrev pub new_token : Stamps → Uuid → String → TokenRow
new_token stamps user hash = record {
  user_id = user;
  token_hash = hash;
  expires_at = stamps.now + 30 * 60 * 1000;
  created_at = stamps.now;
  used_at = none;
}

-- `DELETE … WHERE user_id=$1 AND used_at IS NULL`.
abbrev pub delete_unused : Uuid → Tables → Tables
delete_unused user t = record t {
  recovery_tokens = keep (λ k. not (k.user_id == user && is_null k.used_at)) t.recovery_tokens;
}

-- `token_hash` is unique.
abbrev pub insert_token : TokenRow → Tx (Unit {0})
insert_token k t =
    if any (λ other. str_eq other.token_hash k.token_hash) t.recovery_tokens
    then err (from_sqlx_error SqlxError.reported)
    else ok (tt, record t { recovery_tokens = t.recovery_tokens ++ k ∷ [] })

-- `WHERE token_hash=$1 AND used_at IS NULL AND expires_at>$2`.
abbrev pub is_usable : String → ℕ → TokenRow → Bool
is_usable hash now k = str_eq k.token_hash hash && is_null k.used_at && ltb now k.expires_at

abbrev pub found_user : Option TokenRow → Result Uuid
found_user none = invalid_token
found_user (some k) = ok k.user_id

abbrev pub select_user : String → ℕ → Tx Uuid
select_user hash now t = lift (found_user (find (is_usable hash now) t.recovery_tokens)) t

abbrev pub set_recovered : ℕ → String → Account → Account
set_recovered now hash a = record a {
  password_hash = hash;
  role_version = suc a.role_version;
  updated_at = now;
}

-- `UPDATE account_recovery_tokens SET used_at=$1 WHERE token_hash=$2`.
abbrev pub use_token : ℕ → String → Tables → Tables
use_token now hash t = record t {
  recovery_tokens =
      update (λ k. str_eq k.token_hash hash) (λ k. record k { used_at = some now })
        t.recovery_tokens;
}

module _ (u : Unicode) (digest : String → String) (stamps : Stamps) where
  abbrev pub send_token : String → Option Account → Tx (Option (String × String))
  send_token token none = lift (ok none)
  send_token token (some a) = do
    write (delete_unused a.id)
    insert_token (new_token stamps a.id (digest token))
    lift (ok (some (a.email, token)))

  -- The answer is the mail that is sent, of which the caller does not learn.
  unfoldable pub request_recovery :
      (String → String) → String → String → Tx (Option (String × String))
  request_recovery lower email token t =
      if is_empty (u.to_lowercase (trim u email)) || ltb 320 (len (u.to_lowercase (trim u email)))
      then err (bad_request "invalid email")
      else send_token token (find (is_active_email lower (u.to_lowercase (trim u email))) t.users) t

  abbrev pub check_form : String → Result (Unit {0})
  check_form token =
      if not (len token == 64) || not (all_chars is_hex token) then invalid_token else ok tt

  unfoldable pub reset_recovery : (String → Result String) → String → String → Tx (Unit {0})
  reset_recovery argon token password = do
    lift (check_form (trim u token))
    hash ← lift (password_hash argon password)
    user ← select_user (digest (trim u token)) stamps.now
    write (update_users (is_kept user) (set_recovered stamps.now hash))
    write (use_token stamps.now (digest (trim u token)))
    record_audit_event stamps (some user) "user.password_recovered" user no_metadata
    queue_auth_invalidation stamps user
