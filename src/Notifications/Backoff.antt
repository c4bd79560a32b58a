-- ===== src/Notifications/Backoff.antt =====
-- How long a delivery waits after an attempt.
use vussa.Base.{
  ℕ, zero, suc, ◌+◌, ◌*◌, ◌-◌, ◌^◌, min, ◌≤◌, ◌<◌, ◌≡◌, refl, ap, subst, ◌∙◌, Bool-cases, inl, inr,
  leb, Bool, true, false, not, ◌&&◌, List, [], ◌∷◌, keep, any, arith, any-chosen,
}
use vussa.Models.{Uuid}
use vussa.Database.Tables.{update}
use vussa.Database.Claimed.{any-claimed}
use vussa.Rooms.{Answer, took_effect}
use vussa.Notifications.{
  DeliveryRow, Outcome, accepted, failed, Sink, Task, retry_delay_ms, is_claimable, is_sooner,
  delivery_id, is_delivery, mark_claimed, next_deliveries, claim_deliveries, record_outcome,
  run_task, batch,
}

-- No row of this delivery can be claimed.
abbrev is_waiting : Uuid → ℕ → List DeliveryRow → Bool
is_waiting id now rows = not (any (λ d. is_delivery id d && is_claimable now d) rows)

waiting-keep :
    (id : Uuid) (now : ℕ) (locked : Uuid → Bool) (rows : List DeliveryRow)
    → is_waiting id now rows ≡ true
    → any (is_delivery id) (keep (λ d. is_claimable now d && not (locked d.id)) rows) ≡ false
unfolding keep
waiting-keep id now locked [] h = refl
waiting-keep id now locked (d ∷ rows) h = ground (arith, waiting-keep id now locked rows)

waiting-claim_deliveries :
    (id : Uuid) (now : ℕ) (locked : Uuid → Bool) (rows : List DeliveryRow)
    → is_waiting id now rows ≡ true
    → any (is_delivery id) (claim_deliveries now locked rows).1 ≡ false
unfolding claim_deliveries next_deliveries
waiting-claim_deliveries id now locked rows h =
    any-claimed delivery_id (mark_claimed now) (λ d. refl) id (next_deliveries now locked rows) rows
      (any-chosen delivery_id batch is_sooner (λ d. is_claimable now d && not (locked d.id))
        (is_delivery id) rows (waiting-keep id now locked rows h))

outcome-waiting :
    (now later : ℕ) (task : DeliveryRow) (outcome : Outcome) (rows : List DeliveryRow)
    → later < now + retry_delay_ms task.attempts
    → is_waiting task.id later (record_outcome now task outcome rows) ≡ true
unfolding record_outcome update
outcome-waiting now later task accepted [] h = refl
outcome-waiting now later task accepted (d ∷ rows) h =
    ground (arith, outcome-waiting now later task accepted rows h)
outcome-waiting now later task (failed e) [] h = refl
outcome-waiting now later task (failed e) (d ∷ rows) h =
    ground (arith, outcome-waiting now later task (failed e) rows h)

pow_large : (n : ℕ) → 4096 ≤ 2 ^ (n + 12)
pow_large zero = omega arith
pow_large (suc n) =
    let more : 4096 ≤ 2 ^ suc (n + 12) = omega (arith, pow_large n) in
    subst (λ m. 4096 ≤ 2 ^ m) (omega arith) more

-- The time that a delivery waits after the given number of attempts.
abbrev backoff : ℕ → ℕ
backoff attempts = min (2 ^ attempts * 1000) 3600000

retry_delay_ms-backoff : (attempts : ℕ) → retry_delay_ms attempts ≡ backoff attempts
unfolding retry_delay_ms
retry_delay_ms-backoff attempts = elim (Bool-cases (leb attempts 12)) [
  | inl few ↦
      let e : min attempts 12 ≡ attempts = ground arith in ap (λ n. min (2 ^ n * 1000) 3600000) e
  | inr many ↦
      let e : min attempts 12 ≡ 12 = ground arith in
      let big : 4096 ≤ 2 ^ attempts = large attempts (ground arith) in
      ap (λ n. min (2 ^ n * 1000) 3600000) e ∙ ground (arith, big)
]
  where
    large : (n : ℕ) → 12 ≤ n → 4096 ≤ 2 ^ n
    large n le = subst (λ m. 4096 ≤ 2 ^ m) (omega arith) (pow_large (n - 12))

-- After the attempt that a task made, whatever its sink answered, and the update took effect: no
-- worker claims the delivery again before one second has passed, twice that after each attempt
-- more, and an hour at most.
run_task-waits :
    (email_sink browser_sink : Sink) (now later : ℕ) (answer : Answer) (task : Task)
    (locked : Uuid → Bool) (rows : List DeliveryRow)
    → took_effect answer ≡ true
    → later < now + min (2 ^ task.row.attempts * 1000) 3600000
    → any
        (is_delivery task.row.id)
        (claim_deliveries later locked (run_task email_sink browser_sink now answer task rows)).1
      ≡ false
unfolding run_task
run_task-waits email_sink browser_sink now later answer task locked rows done soon = rw done (
    waiting-claim_deliveries task.row.id later locked _ (
      outcome-waiting now later task.row _ rows
        (omega (arith, soon, retry_delay_ms-backoff task.row.attempts))))
