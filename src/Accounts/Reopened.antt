-- ===== src/Accounts/Reopened.antt =====
-- Enabling a user.
use vussa.Base.{
  ℕ, ◌≡◌, refl, ◌==◌, String, Bool, true, false, not, ◌||◌, Option, none, some, List, [], ◌∷◌, find,
  all, arith, Bool-cases, inl, inr,
}
use vussa.Models.{Uuid, Session}
use vussa.Database.Tables.{is_null, update}
use vussa.Accounts.{Account, RoleRow, Tables, Stamps, has_account_id}
use vussa.Accounts.After.{After, end-After, After-weaken}
use vussa.Accounts.Administration.{admin_enable_user, set_disabled}
use vussa.Accounts.Login.{Found, find_user_for_login, found_login, answers_to}
use vussa.Accounts.Barred.{Has, set_user_disabled-After}

module _ (user : Uuid) where
  abbrev pub AreEnabled : List Account → Type 0
  AreEnabled accounts = all (λ a. not (a.id == user) || is_null a.disabled_at) accounts ≡ true

  enable-all :
      (now : ℕ) (users : List Account)
      → AreEnabled (update (has_account_id user) (set_disabled now false) users)
  unfolding update
  enable-all now [] = refl
  enable-all now (a ∷ users) = ground (arith, enable-all now users)

  -- If it is this user, the login does not see the account as disabled.
  abbrev pub is_open : Option Found → Bool
  is_open none = true
  is_open (some f) = not (f.user.id == user) || not f.disabled

  module _ (lower : String → String) (perms : List RoleRow → List String) (text : String) where
    open-find :
        (t : Tables) (accounts : List Account)
        → AreEnabled accounts
        → is_open (found_login lower perms t (find (answers_to lower perms text) accounts)) ≡ true
    unfolding find
    open-find t [] h = refl
    open-find t (a ∷ accounts) h = elim (Bool-cases (answers_to lower perms text a)) [
      | inl hit ↦ rw hit (ground arith)
      | inr miss ↦ rw miss (open-find t accounts (ground arith))
    ]

    abbrev pub IsOpen : Tables → Type 0
    IsOpen t = is_open (find_user_for_login lower perms text t) ≡ true

    IsOpen-login : (t : Tables) → AreEnabled t.users → IsOpen t
    unfolding find_user_for_login
    IsOpen-login t h = open-find t t.users h

    -- Once an administrator has enabled a user, a name that finds this user finds an account that
    -- is not disabled, whether it had been deleted or not.
    pub admin_enable_user-IsOpen :
        (stamps : Stamps) (session : Session) (t : Tables)
        → After IsOpen (admin_enable_user stamps session user t)
    unfolding admin_enable_user
    admin_enable_user-IsOpen stamps session t =
        After-weaken (Has user AreEnabled) IsOpen (admin_enable_user stamps session user t)
          IsOpen-login
          (end-After (Has user AreEnabled) _ _
            (λ a t.
              set_user_disabled-After user AreEnabled stamps session.user.id false t
                (enable-all stamps.now t.users))
            t)
