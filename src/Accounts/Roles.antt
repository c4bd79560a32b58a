-- ===== src/Accounts/Roles.antt =====
-- An administrator is left when a role is taken away.
use vussa.Base.{
  ℕ, suc, ◌≤◌, ◌≡◌, refl, leb, String, str_eq, Bool, true, false, not, ◌&&◌, List, [], ◌∷◌, any,
  keep, length, arith, Bool-cases, inl, inr, Distinct, eq_iff, ==_iff, subst, and_left, and_right,
}
use vussa.Models.{Uuid, Session}
use vussa.Error.{Result, ok, err}
use vussa.Database.Tables.{update}
use vussa.Accounts.{
  Account, RoleRow, Tables, Stamps, transaction, write, has_account_id, update_users,
  queue_auth_invalidation, lift,
}
use vussa.Auth.{require_permission}
use vussa.Accounts.After.{After, bind-After, transaction-After}
use vussa.Accounts.Administration.{
  admin_remove_role, guard_admin, delete_role, has_role, is_active_admin, is_active_account,
  active_admins, bump_version,
}

abbrev pub same_role : RoleRow → RoleRow → Bool
same_role a b = has_role a.user_id a.role b

module _ (users : List Account) (user : Uuid) (role : String) where
  not_admin :
      (r : RoleRow)
      → str_eq role "admin" ≡ false
      → has_role user role r ≡ true
      → is_active_admin users r ≡ false
  not_admin r other h =
      let e : r.role ≡ role = (eq_iff r.role role).0 (and_right _ _ h) in rw (e, other) refl

  deleted_once :
      (r : RoleRow) (rows : List RoleRow)
      → has_role user role r ≡ true
      → any (same_role r) rows ≡ false
      → any (has_role user role) rows ≡ false
  deleted_once r rows h d =
      let u : r.user_id ≡ user = (==_iff r.user_id user).0 (and_left _ _ h) in
      let e : r.role ≡ role = (eq_iff r.role role).0 (and_right _ _ h) in
      subst (λ x. any (has_role user x) rows ≡ false) e
        (subst (λ x. any (has_role x r.role) rows ≡ false) u d)

  -- Other roles are not counted.
  delete_other :
      (rows : List RoleRow)
      → str_eq role "admin" ≡ false
      → length (keep (is_active_admin users) (keep (λ r. not (has_role user role r)) rows))
        ≡ length (keep (is_active_admin users) rows)
  unfolding keep
  delete_other [] h = refl
  delete_other (r ∷ rows) h = ground (arith, not_admin r h, delete_other rows)

  none_deleted :
      (rows : List RoleRow)
      → any (has_role user role) rows ≡ false
      → length (keep (is_active_admin users) (keep (λ r. not (has_role user role r)) rows))
        ≡ length (keep (is_active_admin users) rows)
  unfolding keep
  none_deleted [] h = refl
  none_deleted (r ∷ rows) h = ground (arith, none_deleted rows)

  -- Of rows of different users and roles, at most one is deleted.
  one_deleted :
      (rows : List RoleRow)
      → Distinct same_role rows
      → length (keep (is_active_admin users) rows)
        ≤ suc (length (keep (is_active_admin users) (keep (λ r. not (has_role user role r)) rows)))
  unfolding keep
  one_deleted [] d = omega arith
  one_deleted (r ∷ rows) d = elim (Bool-cases (has_role user role r)) [
    | inl hit ↦ rw hit (ground (arith, none_deleted rows (deleted_once r rows hit d.0)))
    | inr miss ↦ rw miss (ground (arith, one_deleted rows d.1))
  ]

bumped :
    (now : ℕ) (who user : Uuid) (users : List Account)
    → any (is_active_account who) (update (has_account_id user) (bump_version now) users)
      ≡ any (is_active_account who) users
unfolding update
bumped now who user [] = refl
bumped now who user (a ∷ users) = ground (arith, bumped now who user users)

bumped_admins :
    (now : ℕ) (user : Uuid) (users : List Account) (rows : List RoleRow)
    → length (keep (is_active_admin (update (has_account_id user) (bump_version now) users)) rows)
      ≡ length (keep (is_active_admin users) rows)
unfolding keep
bumped_admins now user users [] = refl
bumped_admins now user users (r ∷ rows) =
    ground (arith, bumped now r.user_id user users, bumped_admins now user users rows)

abbrev pub HasAdmin : Tables → Type 0
HasAdmin t = 1 ≤ active_admins t

-- What the check of the final administrator leaves for the deletion.
abbrev IsGuarded : String → Tables → Type 0
IsGuarded role t =
    Distinct same_role t.user_roles
    × HasAdmin t
    × (str_eq role "admin" ≡ true → 2 ≤ active_admins t)

abbrev IsSound : Tables → Type 0
IsSound t = Distinct same_role t.user_roles × HasAdmin t

lift-After :
    {A : Type 0} (P : Tables → Type 0) (r : Result A) (t : Tables) → P t → After P (lift r t)
lift-After P (ok a) t h = h
lift-After P (err e) t h = tt

guard_admin-IsGuarded :
    (role : String) (t : Tables) → IsSound t → After (IsGuarded role) (guard_admin role t)
guard_admin-IsGuarded role t h =
    elim (Bool-cases (str_eq role "admin" && leb (active_admins t) 1)) [
      | inl final ↦ rw final tt
      | inr more ↦ rw more (h.0, h.1, (λ e. two (str_eq role "admin") (active_admins t) more e))
    ]
  where
    two : (b : Bool) (n : ℕ) → (b && leb n 1) ≡ false → b ≡ true → 2 ≤ n
    two b n h e = ground arith

delete_role-HasAdmin :
    (user : Uuid) (role : String) (t : Tables)
    → IsGuarded role t
    → After HasAdmin (delete_role user role t)
delete_role-HasAdmin user role t (distinct, one, two) =
    elim (Bool-cases (any (has_role user role) t.user_roles)) [
      | inr none_there ↦ rw none_there tt
      | inl there ↦ rw there (elim (Bool-cases (str_eq role "admin")) [
        | inl admin ↦ omega (arith, two admin, one_deleted t.users user role t.user_roles distinct)
        | inr other ↦ omega (arith, one, delete_other t.users user role t.user_roles other)
      ])
    ]

bump-HasAdmin :
    (now : ℕ) (user : Uuid) (t : Tables)
    → HasAdmin t
    → After HasAdmin (write (update_users (has_account_id user) (bump_version now)) t)
bump-HasAdmin now user t h = omega (arith, h, bumped_admins now user t.users t.user_roles)

remove-HasAdmin :
    (stamps : Stamps) (session : Session) (user : Uuid) (role : String) (t : Tables)
    → IsSound t
    → After HasAdmin (admin_remove_role stamps session user role t)
unfolding admin_remove_role queue_auth_invalidation
remove-HasAdmin stamps session user role t sound =
    bind-After IsSound HasAdmin _ _ t
      (lift-After IsSound (require_permission session.user "roles:write") t sound)
      (λ a t sound.
        bind-After (IsGuarded role) HasAdmin _ _ t (guard_admin-IsGuarded role t sound)
          (λ a t guarded.
            bind-After HasAdmin HasAdmin _ _ t (delete_role-HasAdmin user role t guarded)
              (λ a t left.
                bind-After HasAdmin HasAdmin _ _ t (bump-HasAdmin stamps.now user t left)
                  (λ a t left. bind-After HasAdmin HasAdmin _ _ t left (λ a t left. left)))))

-- From rows of different users and roles with an administrator who is neither deleted nor disabled:
-- when a role has been taken away from a user, or not, there still is one.
pub admin_remove_role-HasAdmin :
    (stamps : Stamps) (session : Session) (user : Uuid) (role : String) (t : Tables)
    → Distinct same_role t.user_roles
    → HasAdmin t
    → HasAdmin (transaction (admin_remove_role stamps session user role) t).1
admin_remove_role-HasAdmin stamps session user role t distinct one =
    transaction-After HasAdmin (admin_remove_role stamps session user role) t one
      (remove-HasAdmin stamps session user role t (distinct, one))
