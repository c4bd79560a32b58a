-- ===== src/Tests/RateLimit.antt =====
-- Five requests in a window of three, and a counter that a failed call left without a deadline.
use vussa.Base.{◌+◌, ◌≡◌, refl, min, true, none, some, [], ◌∷◌}
use vussa.Rooms.{Answer}
use vussa.RateLimit.{enforce_rate_limit}
use vussa.RateLimit.Window.{passes, passes-limit, expires_by, enforce_rate_limit-expires}

passes-limit_example : passes 3 60 (100 ∷ 101 ∷ 102 ∷ 110 ∷ 159 ∷ []) none ≡ min 5 3
passes-limit_example = passes-limit 3 60 100 (101 ∷ 102 ∷ 110 ∷ 159 ∷ []) refl

enforce_rate_limit-expires_example :
    expires_by
      (100 + 60)
      (enforce_rate_limit 3 60 100 Answer.done Answer.done Answer.done
        (some (record { count = 7; expires = none }))).1
    ≡ true
unfolding enforce_rate_limit
enforce_rate_limit-expires_example =
    enforce_rate_limit-expires 3 60 100 Answer.done Answer.done Answer.done
      (some (record { count = 7; expires = none })) refl refl
