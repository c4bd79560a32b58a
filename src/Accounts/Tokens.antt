-- ===== src/Accounts/Tokens.antt =====
-- What a recovery token is good for.
use vussa.Base.{
  ℕ, ◌+◌, ◌*◌, ◌≡◌, refl, subst, ◌∙◌, ◌==◌, ltb, len, String, str_eq, str_eq_refl, Bool, true,
  false, ◌&&◌, ◌||◌, Option, none, some, List, [], ◌∷◌, ◌++◌, find, any, arith, Bool-cases, inl,
  inr, find-append, find-head, and_left, and_right,
}
use vussa.Models.{Uuid}
use vussa.Error.{Result, ok, err}
use vussa.Database.Tables.{update}
use vussa.Text.{Unicode, trim, all_chars, is_empty}
use vussa.Outbox.{is_ok}
use vussa.Accounts.{Account, TokenRow, Tables, Stamps, Tx, lift, ◌>>=◌, queue_auth_invalidation}
use vussa.Accounts.After.{After, bind-After, end-After, After-weaken}
use vussa.Accounts.Administration.{password_hash}
use vussa.Accounts.Recovery.{
  reset_recovery, request_recovery, is_usable, select_user, check_form, is_hex, send_token,
  new_token, delete_unused, is_active_email,
}

module _ (hash : String) where
  used-unusable :
      (now later : ℕ) (rows : List TokenRow)
      → find
          (is_usable hash later)
          (update (λ k. str_eq k.token_hash hash) (λ k. record k { used_at = some now }) rows)
        ≡ none
  unfolding find update
  used-unusable now later [] = refl
  used-unusable now later (k ∷ rows) = ground (arith, used-unusable now later rows)

  other-unusable :
      (later : ℕ) (rows : List TokenRow)
      → any (λ k. str_eq k.token_hash hash) rows ≡ false
      → any (is_usable hash later) rows ≡ false
  other-unusable later [] h = refl
  other-unusable later (k ∷ rows) h = ground (arith, other-unusable later rows)

module _ (u : Unicode) (digest : String → String) (token : String) where
  -- No token with this hash can be used any more.
  abbrev IsSpent : Tables → Type 0
  IsSpent t = (later : ℕ) → find (is_usable (digest (trim u token)) later) t.recovery_tokens ≡ none

  abbrev IsAnything : Tables → Type 0
  IsAnything t = Unit

  lift-After : {A : Type 0} (r : Result A) (t : Tables) → After IsAnything (lift r t)
  lift-After (ok a) t = tt
  lift-After (err e) t = tt

  reset-IsSpent :
      (stamps : Stamps) (argon : String → Result String) (password : String) (t : Tables)
      → After IsSpent (reset_recovery u digest stamps argon token password t)
  unfolding reset_recovery queue_auth_invalidation
  reset-IsSpent stamps argon password = end-After IsSpent _ _ (λ a. end-After IsSpent _ _ (λ hash.
      end-After IsSpent _ _ (λ user. end-After IsSpent _ _ (λ a t.
        bind-After IsSpent IsSpent _ _ t
          (λ later. used-unusable (digest (trim u token)) stamps.now later t.recovery_tokens)
          (λ a t h. bind-After IsSpent IsSpent _ _ t h (λ a t h. h))))))

  -- What a second use of the token gets.
  abbrev pub IsRefused : Stamps → (String → Result String) → String → Tables → Type 0
  IsRefused stamps argon password t =
      is_ok (reset_recovery u digest stamps argon token password t) ≡ false

  lift-refused :
      {A B : Type 0} (r : Result A) (f : A → Tx B) (t : Tables)
      → ((a : A) → is_ok (f a t) ≡ false)
      → is_ok ((lift r >>= f) t) ≡ false
  unfolding ◌>>=◌
  lift-refused (ok a) f t h = h a
  lift-refused (err e) f t h = refl

  select-refused :
      {B : Type 0} (now : ℕ) (f : Uuid → Tx B) (t : Tables)
      → find (is_usable (digest (trim u token)) now) t.recovery_tokens ≡ none
      → is_ok ((select_user (digest (trim u token)) now >>= f) t) ≡ false
  unfolding ◌>>=◌
  select-refused now f t h = rw h refl

  spent-IsRefused :
      (later : Stamps) (argon : String → Result String) (password : String) (t : Tables)
      → IsSpent t
      → IsRefused later argon password t
  unfolding reset_recovery
  spent-IsRefused later argon password t h =
      lift-refused (check_form u digest later (trim u token)) _ t (λ a.
        lift-refused (password_hash argon password) _ t
          (λ hash. select-refused later.now _ t (h later.now)))

  -- A token works once: after a reset with it that succeeded, a reset with the same token is refused,
  -- at whatever time and with whatever password.
  pub reset_recovery-once :
      (stamps later : Stamps) (argon argon' : String → Result String) (password password' : String)
      (t : Tables)
      → After
          (IsRefused later argon' password')
          (reset_recovery u digest stamps argon token password t)
  reset_recovery-once stamps later argon argon' password password' t =
      After-weaken IsSpent (IsRefused later argon' password')
        (reset_recovery u digest stamps argon token password t)
        (spent-IsRefused later argon' password') (reset-IsSpent stamps argon password t)

  -- Where a mail was sent, the reset succeeds.
  abbrev pub IsUsable :
      Stamps
      → (String → Result String)
      → String
      → Result (Option (String × String) × Tables)
      → Type 0
  IsUsable later argon password (ok (none, t)) = Unit
  IsUsable later argon password (ok (some mail, t)) =
      is_ok (reset_recovery u digest later argon token password t) ≡ true
  IsUsable later argon password (err e) = Unit

  -- A token of 64 hexadecimal digits.
  abbrev pub is_token : Bool
  is_token = len (trim u token) == 64 && all_chars is_hex (trim u token)

  fresh-found :
      (stamps : Stamps) (user : Uuid) (later : ℕ) (rows : List TokenRow)
      → any (λ k. str_eq k.token_hash (digest (trim u token))) rows ≡ false
      → ltb later (stamps.now + 30 * 60 * 1000) ≡ true
      → find
          (is_usable (digest (trim u token)) later)
          (rows ++ new_token stamps user (digest (trim u token)) ∷ [])
        ≡ some (new_token stamps user (digest (trim u token)))
  fresh-found stamps user later rows none_there soon =
      find-append (is_usable (digest (trim u token)) later) rows
        (new_token stamps user (digest (trim u token)) ∷ [])
        (other-unusable (digest (trim u token)) later rows none_there)
      ∙ find-head (is_usable (digest (trim u token)) later)
          (new_token stamps user (digest (trim u token))) []
          (rw (str_eq_refl (digest (trim u token)), soon) refl)

  reset-succeeds :
      (later : Stamps) (argon : String → Result String) (password hash : String) (k : TokenRow)
      (t : Tables)
      → is_token ≡ true
      → password_hash argon password ≡ ok hash
      → find (is_usable (digest (trim u token)) later.now) t.recovery_tokens ≡ some k
      → is_ok (reset_recovery u digest later argon token password t) ≡ true
  unfolding reset_recovery ◌>>=◌ queue_auth_invalidation
  reset-succeeds later argon password hash k t form hashed found =
      rw
        (
          and_left (len (trim u token) == 64) (all_chars is_hex (trim u token)) form,
          and_right (len (trim u token) == 64) (all_chars is_hex (trim u token)) form,
          hashed,
          found,
        )
        refl

  sent-IsUsable :
      (stamps later : Stamps) (argon : String → Result String) (password hash : String)
      (found : Option Account) (t : Tables)
      → is_token ≡ true
      → password_hash argon password ≡ ok hash
      → ltb later.now (stamps.now + 30 * 60 * 1000) ≡ true
      → IsUsable later argon password (send_token u digest stamps (trim u token) found t)
  unfolding ◌>>=◌
  sent-IsUsable stamps later argon password hash none t form hashed soon = tt
  sent-IsUsable stamps later argon password hash (some a) t form hashed soon =
      let rows = (delete_unused a.id t).recovery_tokens in
      elim (Bool-cases (any (λ k. str_eq k.token_hash (digest (trim u token))) rows)) [
        | inl taken ↦ rw taken tt
        | inr new ↦ rw new (
            reset-succeeds later argon password hash (new_token stamps a.id (digest (trim u token)))
              (record t {
                recovery_tokens = rows ++ new_token stamps a.id (digest (trim u token)) ∷ [];
              })
              form hashed (fresh-found stamps a.id later.now rows new soon))
      ]

  -- The token that a request sends can be used: a reset with it within half an hour succeeds. The
  -- token is 64 hexadecimal digits without white space around them, and the new password is hashed.
  pub request_recovery-reset :
      (stamps later : Stamps) (lower : String → String) (argon : String → Result String)
      (email password hash : String) (t : Tables)
      → trim u token ≡ token
      → is_token ≡ true
      → password_hash argon password ≡ ok hash
      → ltb later.now (stamps.now + 30 * 60 * 1000) ≡ true
      → IsUsable later argon password (request_recovery u digest stamps lower email token t)
  unfolding request_recovery
  request_recovery-reset stamps later lower argon email password hash t trimmed form hashed soon =
      let name = u.to_lowercase (trim u email) in
      elim (Bool-cases (is_empty name || ltb 320 (len name))) [
        | inl bad ↦ rw bad tt
        | inr good ↦ rw good (
            subst
              (λ x.
                IsUsable later argon password
                  (send_token u digest stamps x (find (is_active_email lower name) t.users) t))
              trimmed
              (sent-IsUsable stamps later argon password hash
                (find (is_active_email lower name) t.users) t form hashed soon))
      ]
