-- ===== src/RateLimit/Window.antt =====
-- How many requests pass in a window, and that a counter does not stay for ever.
use vussa.Base.{
  ℕ, suc, ◌+◌, ◌-◌, ◌≤◌, ◌==◌, ◌≡◌, refl, min, ltb, leb, Bool, true, false, ◌||◌, Option, none,
  some, List, [], ◌∷◌, length, all, inl, inr, Bool-cases, arith, and_left, and_right, ltb→lt,
}
use vussa.Error.{Result, ok, err, is_too_many_requests}
use vussa.Database.Tables.{is_null}
use vussa.Rooms.{Answer}
use vussa.RateLimit.{
  Counter, enforce_rate_limit, is_expired, counted, expire, check_ttl, incremented, live,
}

abbrev pub passed : Result (Unit {0}) → ℕ
passed (ok a) = 1
passed (err e) = 0

-- How many of the requests at these times pass, where Valkey answers.
pub passes : ℕ → ℕ → List ℕ → Option Counter → ℕ
passes limit window [] key = 0
passes limit window (now ∷ times) key =
    let (r, key') = enforce_rate_limit limit window now Answer.done Answer.done Answer.done key in
    passed r + passes limit window times key'

unexpired : (now deadline : ℕ) → ltb now deadline ≡ true → leb deadline now ≡ false
unexpired now deadline h = ground arith

not_first : (n : ℕ) → 1 ≤ n → (suc n == 1) ≡ false
not_first n h = ground arith

ltb→ge : (a b : ℕ) → ltb a b ≡ false → b ≤ a
ltb→ge a b h = ground arith

in_window :
    (limit window deadline n : ℕ) (times : List ℕ)
    → all (λ t. ltb t deadline) times ≡ true
    → 1 ≤ n
    → passes limit window times (some (record { count = n; expires = some deadline }))
      ≡ min (length times) (limit - n)
unfolding passes enforce_rate_limit
in_window limit window deadline n [] h low = omega arith
in_window limit window deadline n (now ∷ times) h low =
    let fresh : leb deadline now ≡ false =
      unexpired now deadline (and_left (ltb now deadline) _ h) in
    let later : (suc n == 1) ≡ false = not_first n low in
    let rest =
      in_window limit window deadline (suc n) times (and_right (ltb now deadline) _ h)
        (omega arith) in
    rw (fresh, later)
      (elim (Bool-cases (ltb limit (suc n))) [
        | inl over ↦ rw over (omega (arith, rest, ltb→lt limit (suc n) over))
        | inr under ↦ rw under (omega (arith, rest, ltb→ge limit (suc n) under))
      ])

-- Of the requests from the first, which finds no counter, to the end of the window that it opens, with
-- Valkey answering, as many pass as the limit says, and all of them if there are fewer.
pub passes-limit :
    (limit window start : ℕ) (times : List ℕ)
    → all (λ t. ltb t (start + window)) times ≡ true
    → passes limit window (start ∷ times) none ≡ min (suc (length times)) limit
unfolding passes enforce_rate_limit
passes-limit limit window start times h =
    let rest = in_window limit window (start + window) 1 times h (omega arith) in
    elim (Bool-cases (ltb limit 1)) [
      | inl over ↦ rw over (omega (arith, rest, ltb→lt limit 1 over))
      | inr under ↦ rw under (omega (arith, rest, ltb→ge limit 1 under))
    ]

abbrev by_time : ℕ → Option ℕ → Bool
by_time latest none = false
by_time latest (some t) = leb t latest

-- A key that is not there, has no deadline yet, or expires at the latest at this time.
abbrev pub is_sound : ℕ → Option Counter → Bool
is_sound latest none = true
is_sound latest (some k) = is_null k.expires || by_time latest k.expires

-- The counter expires, at the latest at this time.
abbrev pub expires_by : ℕ → Option Counter → Bool
expires_by latest none = false
expires_by latest (some k) = by_time latest k.expires

abbrev pub is_answered : Result (Unit {0}) → Bool
is_answered (ok a) = true
is_answered (err e) = is_too_many_requests e.status

incremented_sound :
    (now latest : ℕ) (key : Option Counter)
    → is_sound latest key ≡ true
    → is_sound latest (some (incremented (live now key))) ≡ true
incremented_sound now latest none h = refl
incremented_sound now latest (some k) h = elim (Bool-cases (is_expired now k.expires)) [
  | inl gone ↦ rw gone refl
  | inr there ↦ rw there h
]

module _ (limit window now : ℕ) where
  expire-expires :
      (a : Answer) (k : Counter)
      → is_answered (expire limit window now a k).0 ≡ true
      → expires_by (now + window) (expire limit window now a k).1 ≡ true
  expire-expires Answer.done k h = ground arith
  expire-expires Answer.refused k h = ground arith
  expire-expires Answer.failed_late k h = ground arith

  check_ttl-expires :
      (ttl last : Answer) (k : Counter)
      → is_sound (now + window) (some k) ≡ true
      → is_answered (check_ttl limit window now ttl last k).0 ≡ true
      → expires_by (now + window) (check_ttl limit window now ttl last k).1 ≡ true
  check_ttl-expires Answer.done last k sound h = elim (Bool-cases (is_null k.expires)) [
    | inl unset ↦ rw unset (expire-expires last k (rw unset at h))
    | inr set ↦ rw set (ground (arith, sound, set))
  ]
  check_ttl-expires Answer.refused last k sound h = ground arith
  check_ttl-expires Answer.failed_late last k sound h = ground arith

  counted-expires :
      (next last : Answer) (k : Counter)
      → is_sound (now + window) (some k) ≡ true
      → is_answered (counted limit window now next last k).0 ≡ true
      → expires_by (now + window) (counted limit window now next last k).1 ≡ true
  counted-expires next last k sound h = elim (Bool-cases (k.count == 1)) [
    | inl first ↦ rw first (expire-expires next k (rw first at h))
    | inr later ↦ rw later (check_ttl-expires next last k sound (rw later at h))
  ]

-- From a key that is not there, has no deadline (as a call that failed may leave it), or expires within
-- a window from now: once a request is answered, passed or refused for its rate, whatever Valkey
-- answered, its counter expires within a window from now.
pub enforce_rate_limit-expires :
    (limit window now : ℕ) (first next last : Answer) (key : Option Counter)
    → is_sound (now + window) key ≡ true
    → is_answered (enforce_rate_limit limit window now first next last key).0 ≡ true
    → expires_by (now + window) (enforce_rate_limit limit window now first next last key).1 ≡ true
unfolding enforce_rate_limit
enforce_rate_limit-expires limit window now Answer.done next last key sound answered =
    counted-expires limit window now next last (incremented (live now key))
      (incremented_sound now (now + window) key sound) answered
enforce_rate_limit-expires limit window now Answer.refused next last key sound answered =
    ground arith
enforce_rate_limit-expires limit window now Answer.failed_late next last key sound answered =
    ground arith
