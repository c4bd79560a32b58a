-- ===== src/Accounts/Barred.antt =====
-- Disabled and deleted accounts, and what enabling one does.
use vussa.Base.{
  ℕ, ◌≡◌, refl, ◌==◌, String, Bool, true, false, not, ◌||◌, Option, none, some, List, [], ◌∷◌, find,
  any, all, arith, if◌then◌else◌, Bool-cases, inl, inr,
}
use vussa.Models.{Uuid, Session}
use vussa.Error.{Result, ok, err, bad_request}
use vussa.Auth.{require_permission}
use vussa.Database.Tables.{is_null, update}
use vussa.Accounts.{
  Account, RoleRow, Tables, Stamps, has_account_id, is_kept, queue_auth_invalidation, lift,
}
use vussa.Accounts.After.{After, bind-After, end-After, After-weaken}
use vussa.Accounts.Administration.{
  admin_disable_user, admin_delete_user, set_user_disabled, set_disabled, set_user_deleted, modify,
  coalesced,
}
use vussa.Accounts.Login.{LoginCalls, login, find_user_for_login, found_login, answers_to}
use vussa.Accounts.Admission.{is_not_user, IsDisabled, is_barred, login-barred}

module _ (user : Uuid) where
  coalesced-set : (o : Option ℕ) (now : ℕ) → is_null (coalesced o now) ≡ false
  coalesced-set none now = refl
  coalesced-set (some t) now = refl

  disable-all :
      (now : ℕ) (users : List Account)
      → all
          (λ a. not (a.id == user) || not (is_null a.disabled_at))
          (update (has_account_id user) (set_disabled now true) users)
        ≡ true
  unfolding update
  disable-all now [] = refl
  disable-all now (a ∷ users) =
      ground (arith, coalesced-set a.disabled_at now, disable-all now users)

  -- Deleted accounts are disabled.
  abbrev pub is_consistent : Account → Bool
  is_consistent a = is_null a.deleted_at || not (is_null a.disabled_at)

  delete-all :
      (now : ℕ) (users : List Account)
      → all is_consistent users ≡ true
      → all
          (λ a. not (a.id == user) || not (is_null a.disabled_at))
          (update (is_kept user) (set_user_deleted now) users)
        ≡ true
  unfolding update
  delete-all now [] h = refl
  delete-all now (a ∷ users) h =
      ground (arith, coalesced-set a.disabled_at now, delete-all now users)

  -- A property of the accounts, which the events that are written down leave as it was.
  module _ (Q : List Account → Type 0) where
    abbrev pub Has : Tables → Type 0
    Has t = Q t.users

    modify-After :
        (p : Account → Bool) (f : Account → Account) (t : Tables)
        → Q (update p f t.users)
        → After Has (modify p f t)
    modify-After p f t h = elim (Bool-cases (any p t.users)) [
      | inl there ↦ rw there h
      | inr absent ↦ rw absent tt
    ]

    lift-After : (r : Result (Unit {0})) (t : Tables) → Q t.users → After Has (lift r t)
    lift-After (ok a) t h = h
    lift-After (err e) t h = tt

    pub set_user_disabled-After :
        (stamps : Stamps) (actor : Uuid) (disabled : Bool) (t : Tables)
        → Q (update (has_account_id user) (set_disabled stamps.now disabled) t.users)
        → After Has (set_user_disabled stamps actor user disabled t)
    unfolding set_user_disabled queue_auth_invalidation
    set_user_disabled-After stamps actor disabled t h =
        bind-After Has Has _ _ t (modify-After _ _ t h)
          (λ a t h. bind-After Has Has _ _ t h (λ a t h. h))

  abbrev AreDisabled : List Account → Type 0
  AreDisabled accounts =
      all (λ a. not (a.id == user) || not (is_null a.disabled_at)) accounts ≡ true

  abbrev AreConsistent : List Account → Type 0
  AreConsistent accounts = all is_consistent accounts ≡ true

  delete-IsDisabled :
      (stamps : Stamps) (session : Session) (t : Tables)
      → all is_consistent t.users ≡ true
      → After (IsDisabled user) (admin_delete_user stamps session user t)
  unfolding admin_delete_user queue_auth_invalidation
  delete-IsDisabled stamps session t h =
      bind-After (Has AreConsistent) (IsDisabled user) _ _ t
        (lift-After AreConsistent (require_permission session.user "users:write") t h)
        (λ a t h.
          bind-After (Has AreConsistent) (IsDisabled user) _ _ t
            (lift-After AreConsistent
              (if user == session.user.id
                then err (bad_request "you cannot delete your own account")
                else ok tt)
              t h)
            (λ a t h.
              bind-After (IsDisabled user) (IsDisabled user) _ _ t
                (modify-After AreDisabled _ _ t (delete-all stamps.now t.users h))
                (λ a t h. bind-After (IsDisabled user) (IsDisabled user) _ _ t h (λ a t h. h))))

  barred-find :
      (lower : String → String) (perms : List RoleRow → List String) (text : String) (t u : Tables)
      (accounts : List Account)
      → all (λ a. not (a.id == user) || not (is_null a.disabled_at)) accounts ≡ true
      → is_barred user (found_login lower perms t (find (answers_to lower perms text) accounts))
        ≡ true
  unfolding find
  barred-find lower perms text t u [] h = refl
  barred-find lower perms text t u (a ∷ accounts) h =
      elim (Bool-cases (answers_to lower perms text a)) [
        | inl hit ↦ rw hit (ground arith)
        | inr miss ↦ rw miss (barred-find lower perms text t u accounts (ground arith))
      ]

  module _ (lower : String → String) (perms : List RoleRow → List String) (calls : LoginCalls)
      (password text : String) where
    -- Nobody is let in as the user, under whatever name and with whatever password.
    abbrev pub IsBarred : Tables → Type 0
    IsBarred t =
        is_not_user user (login calls password (ok (find_user_for_login lower perms text t))) ≡ true

    IsBarred-login : (t : Tables) → IsDisabled user t → IsBarred t
    unfolding find_user_for_login
    IsBarred-login t h =
        login-barred user calls password (find_user_for_login lower perms text t)
          (barred-find lower perms text t t t.users h)

    module _ (stamps : Stamps) (session : Session) where
      disable-IsBarred : (t : Tables) → After IsBarred (admin_disable_user stamps session user t)
      unfolding admin_disable_user
      disable-IsBarred t =
          After-weaken (IsDisabled user) IsBarred (admin_disable_user stamps session user t)
            IsBarred-login
            (end-After (IsDisabled user) _ _
              (λ a t.
                set_user_disabled-After AreDisabled stamps session.user.id true t
                  (disable-all stamps.now t.users))
              t)

      delete-IsBarred :
          (t : Tables)
          → all is_consistent t.users ≡ true
          → After IsBarred (admin_delete_user stamps session user t)
      delete-IsBarred t h =
          After-weaken (IsDisabled user) IsBarred (admin_delete_user stamps session user t)
            IsBarred-login (delete-IsDisabled stamps session t h)

      -- Once an administrator has disabled or deleted a user, nobody is let in as this user, under
      -- whatever name and with whatever password. Before, all deleted accounts were disabled.
      pub close_account-IsBarred :
          (t : Tables)
          → all is_consistent t.users ≡ true
          → After IsBarred (admin_disable_user stamps session user t)
            × After IsBarred (admin_delete_user stamps session user t)
      close_account-IsBarred t h = (disable-IsBarred t, delete-IsBarred t h)
