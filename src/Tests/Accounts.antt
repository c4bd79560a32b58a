-- ===== src/Tests/Accounts.antt =====
-- An administrator, a user whose account is deleted, and a recovery.
use vussa.Base.{ℕ, ◌≡◌, refl, String, true, false, Option, none, some, List, [], ◌∷◌, keep, arith}
use vussa.Models.{Uuid, Session}
use vussa.Error.{Result, ok}
use vussa.Accounts.{Account, RoleRow, Tables, Stamps, transaction}
use vussa.Accounts.After.{After}
use vussa.Accounts.Changes.{Change, apply, HasQueued, apply-HasQueued}
use vussa.Accounts.Roles.{HasAdmin, admin_remove_role-HasAdmin}
use vussa.Accounts.Administration.{
  admin_remove_role, admin_disable_user, admin_delete_user, admin_enable_user,
}
use vussa.Accounts.Login.{LoginCalls, Found, login}
use vussa.Accounts.Admission.{login-unrevealing}
use vussa.Accounts.Barred.{IsBarred, close_account-IsBarred}
use vussa.Accounts.Reopened.{IsOpen, admin_enable_user-IsOpen}
use vussa.Accounts.Recovery.{reset_recovery, request_recovery}
use vussa.Accounts.Tokens.{
  IsRefused, IsUsable, is_token, reset_recovery-once, request_recovery-reset,
}
use vussa.Text.{trim, trim_start, trim_end}
use vussa.Tests.Data.{ascii}
use vussa.Tests.Sessions.{small_codec}

abbrev root : Session
root = record {
  id = 50;
  csrf = "token";
  user = record {
    id = 1;
    email = "root@example.com";
    username = "root";
    roles = "admin" ∷ [];
    permissions = "users:write" ∷ "roles:write" ∷ [];
  };
}

abbrev account : Uuid → String → Option ℕ → Account
account id name gone = record {
  id = id;
  email = name;
  username = name;
  password_hash = "hash";
  disabled_at = gone;
  deleted_at = gone;
  role_version = 1;
  updated_at = 0;
}

abbrev some_accounts : Tables
some_accounts = record {
  users = account 1 "root" none ∷ account 7 "alice" (some 90) ∷ account 8 "bob" none ∷ [];
  roles = "admin" ∷ "user" ∷ [];
  user_roles = record { user_id = 1; role = "admin" } ∷ record { user_id = 8; role = "user" } ∷ [];
  recovery_tokens = [];
  outbox_events = [];
  audit_events = [];
}

abbrev at : ℕ → Stamps
at now = record { now = now; audit_id = 900; event_id = 901; uuid_text = small_codec.uuid_text }

abbrev hashed : String → Result String
hashed password = ok "new hash"

apply-HasQueued_example :
    After (HasQueued small_codec 7) (apply hashed (at 100) root 7 Change.enable some_accounts)
apply-HasQueued_example =
    apply-HasQueued small_codec 7 hashed (at 100) root refl Change.enable some_accounts

some_accounts-HasAdmin : HasAdmin some_accounts
unfolding keep
some_accounts-HasAdmin = omega arith

admin_remove_role-HasAdmin_example :
    HasAdmin (transaction (admin_remove_role (at 100) root 1 "admin") some_accounts).1
admin_remove_role-HasAdmin_example =
    admin_remove_role-HasAdmin (at 100) root 1 "admin" some_accounts (refl, (refl, tt))
      some_accounts-HasAdmin

-- No password is right.
abbrev answers : LoginCalls
answers = record {
  limit_ip = ok tt;
  limit_target = ok tt;
  dummy_hash = "dummy";
  verify = λ user password hash. ok false;
  create_session = λ user. ok (50, "token");
}

abbrev found_bob : Found
found_bob = record {
  user = record { id = 8; email = "bob"; username = "bob"; roles = []; permissions = [] };
  hash = "hash";
  disabled = false;
}

login-unrevealing_example :
    login answers "guess" (ok (some found_bob)) ≡ login answers "guess" (ok none)
login-unrevealing_example =
    login-unrevealing answers "guess" (some found_bob) (λ user hash. refl) refl

abbrev same_text : String → String
same_text text = text

abbrev no_permissions : List RoleRow → List String
no_permissions rows = []

close_account-IsBarred_example :
    After
      (IsBarred 8 same_text no_permissions answers "secret" "bob")
      (admin_disable_user (at 100) root 8 some_accounts)
    × After
        (IsBarred 8 same_text no_permissions answers "secret" "bob")
        (admin_delete_user (at 100) root 8 some_accounts)
close_account-IsBarred_example =
    close_account-IsBarred 8 same_text no_permissions answers "secret" "bob" (at 100) root
      some_accounts refl

admin_enable_user-IsOpen_example :
    After
      (IsOpen 7 same_text no_permissions "alice")
      (admin_enable_user (at 100) root 7 some_accounts)
admin_enable_user-IsOpen_example =
    admin_enable_user-IsOpen 7 same_text no_permissions "alice" (at 100) root some_accounts

abbrev sixty_four : String
sixty_four = "0123456789abcdef0123456789abcdef0123456789abcdef0123456789abcdef"

abbrev with_token : Tables
with_token = record some_accounts {
  recovery_tokens =
      record {
        user_id = 8;
        token_hash = sixty_four;
        expires_at = 1000;
        created_at = 0;
        used_at = none;
      }
      ∷ [];
}

reset_recovery-once_example :
    After
      (IsRefused ascii same_text sixty_four (at 300) hashed "password 1234")
      (reset_recovery ascii same_text (at 200) hashed sixty_four "password 5678" with_token)
reset_recovery-once_example =
    reset_recovery-once ascii same_text sixty_four (at 200) (at 300) hashed hashed "password 5678"
      "password 1234" with_token

sixty_four_trimmed : trim ascii sixty_four ≡ sixty_four
unfolding trim trim_start trim_end
sixty_four_trimmed = refl

sixty_four_digits : is_token ascii same_text sixty_four ≡ true
unfolding trim trim_start trim_end
sixty_four_digits = refl

request_recovery-reset_example :
    IsUsable ascii same_text sixty_four
      (at 300)
      hashed
      "password 5678"
      (request_recovery ascii same_text (at 200) same_text "bob" sixty_four some_accounts)
request_recovery-reset_example =
    request_recovery-reset ascii same_text sixty_four (at 200) (at 300) same_text hashed "bob"
      "password 5678" "new hash" some_accounts sixty_four_trimmed sixty_four_digits refl refl
