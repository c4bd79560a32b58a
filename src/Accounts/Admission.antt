-- ===== src/Accounts/Admission.antt =====
-- Whom `login` lets in, and what it tells those whom it does not.
use vussa.Base.{
  ◌≡◌, refl, ◌==◌, String, Bool, true, false, not, ◌&&◌, ◌||◌, Option, none, some, all, arith,
}
use vussa.Models.{Uuid, AuthUser}
use vussa.Error.{Result, ok, err}
use vussa.Database.Tables.{is_null}
use vussa.Accounts.{Tables}
use vussa.Accounts.Login.{Found, LoginCalls, login, and_then, decide, verify_found, let_in}

abbrev pub is_true : Result Bool → Bool
is_true (ok b) = b
is_true (err e) = false

abbrev pub is_answered : Result Bool → Bool
is_answered (ok b) = true
is_answered (err e) = false

module _ (calls : LoginCalls) (password : String) where
  -- An account that is not disabled, with the right password.
  abbrev pub is_admitted : Option Found → Bool
  is_admitted none = false
  is_admitted (some f) = not f.disabled && is_true (calls.verify f.user.id password f.hash)

  refused_same :
      (disabled : Bool) (user : AuthUser) (other checked : Result Bool)
      → (not disabled && is_true checked) ≡ false
      → is_answered checked ≡ true
      → is_answered other ≡ true
      → and_then checked (decide calls disabled (some user))
        ≡ and_then other (decide calls false none)
  refused_same true user (ok b) (ok b') h k l = refl
  refused_same false user (ok b) (ok false) h k l = refl
  refused_same false user (ok b) (ok true) h k l = absurd (cc h)
  refused_same disabled user (err e) checked h k l = absurd (cc l)
  refused_same disabled user (ok b) (err e) h k l = absurd (cc k)

  -- Where the checks of passwords answer: the login of an account that is disabled, or with a wrong
  -- password, is answered as the login of one that does not exist, and so does not tell whether the
  -- account exists.
  pub login-unrevealing :
      (found : Option Found)
      → ((user : Uuid) (hash : String) → is_answered (calls.verify user password hash) ≡ true)
      → is_admitted found ≡ false
      → login calls password (ok found) ≡ login calls password (ok none)
  unfolding login
  login-unrevealing none answers h = refl
  login-unrevealing (some f) answers h =
      let same =
        refused_same f.disabled f.user (calls.verify 0 password calls.dummy_hash)
          (calls.verify f.user.id password f.hash) h (answers f.user.id f.hash)
          (answers 0 calls.dummy_hash) in
      rw same refl

module _ (user : Uuid) where
  abbrev pub is_not_user : Result AuthUser → Bool
  is_not_user (ok u) = not (u.id == user)
  is_not_user (err e) = true

  -- Every account with this identifier is disabled.
  abbrev pub IsDisabled : Tables → Type 0
  IsDisabled t = all (λ a. not (a.id == user) || not (is_null a.disabled_at)) t.users ≡ true

  abbrev pub is_barred : Option Found → Bool
  is_barred none = true
  is_barred (some f) = not (f.user.id == user) || f.disabled

  let_in-barred :
      (calls : LoginCalls) (u : AuthUser)
      → (u.id == user) ≡ false
      → is_not_user (let_in calls u) ≡ true
  let_in-barred calls u h = created (calls.create_session u)
    where
      created : (r : Result (Uuid × String)) → is_not_user (and_then r (λ x. ok u)) ≡ true
      created (ok x) = rw h refl
      created (err e) = refl

  decide-barred :
      (calls : LoginCalls) (disabled : Bool) (u : AuthUser) (checked : Result Bool)
      → (not (u.id == user) || disabled) ≡ true
      → is_not_user (and_then checked (decide calls disabled (some u))) ≡ true
  decide-barred calls disabled u (err e) h = refl
  decide-barred calls true u (ok b) h = refl
  decide-barred calls false u (ok false) h = refl
  decide-barred calls false u (ok true) h = let_in-barred calls u (ground arith)

  verify-barred :
      (calls : LoginCalls) (password : String) (found : Option Found)
      → is_barred found ≡ true
      → is_not_user (verify_found calls password found) ≡ true
  verify-barred calls password none h = absent (calls.verify 0 password calls.dummy_hash)
    where
      absent : (r : Result Bool) → is_not_user (and_then r (decide calls false none)) ≡ true
      absent (ok b) = refl
      absent (err e) = refl
  verify-barred calls password (some f) h =
      decide-barred calls f.disabled f.user (calls.verify f.user.id password f.hash) h

  pub login-barred :
      (calls : LoginCalls) (password : String) (found : Option Found)
      → is_barred found ≡ true
      → is_not_user (login calls password (ok found)) ≡ true
  unfolding login
  login-barred calls password found h = limited calls.limit_ip calls.limit_target
    where
      limited :
          (a b : Result (Unit {0}))
          → is_not_user (and_then a (λ x. and_then b (λ y. verify_found calls password found)))
            ≡ true
      limited (ok x) (ok y) = verify-barred calls password found h
      limited (ok x) (err e) = refl
      limited (err e) b = refl
