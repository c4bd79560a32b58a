-- ===== src/RateLimit.antt =====
-- backend/src/auth.rs, `enforce_rate_limit`: a counter in Valkey that expires with its window. A call
-- to Valkey may report an error and have taken effect; the calls of one request see one time, in
-- seconds.
pub mod Window
use vussa.Base.{
  ℕ, suc, ◌+◌, ◌==◌, ltb, leb, Bool, true, false, Option, none, some, List, [], ◌∷◌, if◌then◌else◌,
}
use vussa.Error.{Result, ok, err, from_redis_error, too_many_requests}
use vussa.Database.Tables.{is_null}
use vussa.Rooms.{Answer, succeeded, took_effect}

-- The value of a key, and when it expires.
pub record Counter : Type 0 where
  pub count : ℕ
  pub expires : Option ℕ

abbrev pub is_expired : ℕ → Option ℕ → Bool
is_expired now none = false
is_expired now (some t) = leb t now

abbrev pub live : ℕ → Option Counter → Option Counter
live now none = none
live now (some k) = if is_expired now k.expires then none else some k

-- `INCR key`.
abbrev pub incremented : Option Counter → Counter
incremented none = record { count = 1; expires = none }
incremented (some k) = record k { count = suc k.count }

module _ (limit window_seconds now : ℕ) where
  abbrev pub finish : Counter → Result (Unit {0}) × Option Counter
  finish k =
      ((if ltb limit k.count then err (too_many_requests "rate limit exceeded") else ok tt), some k)

  abbrev pub with_deadline : Counter → Counter
  with_deadline k = record k { expires = some (now + window_seconds) }

  -- `connection.expire(key, window_seconds)`, and what follows.
  abbrev pub expire : Answer → Counter → Result (Unit {0}) × Option Counter
  expire Answer.done k = finish (with_deadline k)
  expire Answer.refused k = (err from_redis_error, some k)
  expire Answer.failed_late k = (err from_redis_error, some (with_deadline k))

  -- `connection.ttl(key)`, and what follows.
  abbrev pub check_ttl : Answer → Answer → Counter → Result (Unit {0}) × Option Counter
  check_ttl ttl last k =
      if succeeded ttl
      then if is_null k.expires then expire last k else finish k
      else (err from_redis_error, some k)

  abbrev pub counted : Answer → Answer → Counter → Result (Unit {0}) × Option Counter
  counted next last k = if k.count == 1 then expire next k else check_ttl next last k

  unfoldable pub enforce_rate_limit :
      Answer → Answer → Answer → Option Counter → Result (Unit {0}) × Option Counter
  enforce_rate_limit Answer.done next last key = counted next last (incremented (live now key))
  enforce_rate_limit Answer.refused next last key = (err from_redis_error, live now key)
  enforce_rate_limit Answer.failed_late next last key =
      (err from_redis_error, some (incremented (live now key)))
