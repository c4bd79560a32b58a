-- ===== src/Tests/Outbox.antt =====
-- Two events, claimed, published and delivered.
use vussa.Base.{
  ℕ, ◌≡◌, ◌≤◌, refl, ◌-◌, ◌*◌, Bool, true, false, none, List, [], ◌∷◌, ◌++◌, any, keep, length,
  arith, chosen, sort_by,
}
use vussa.Models.{Uuid, Json}
use vussa.Database.Tables.{update}
use vussa.Error.{Result, ok}
use vussa.Outbox.{EventRow, claim_events, next_events, finish_event, is_event, run_outbox}
use vussa.Outbox.Claims.{claim_events-exclusive}
use vussa.Outbox.Attempts.{
  Queue, Steps, here, more, enqueue, claim, times, empty_queue, after_claim, Steps-times,
}
use vussa.Outbox.Final.{is_pending, is_published, finish_event-final}
use vussa.Outbox.Draining.{calm_rounds, run_outbox-drains}

abbrev pub waiting : Uuid → ℕ → EventRow
waiting id created_at = record {
  id = id;
  topic = "auth.invalidate";
  payload = Json.null;
  created_at = created_at;
  published_at = none;
  attempts = 0;
  claimed_at = none;
}

abbrev pub two_events : List EventRow
two_events = waiting 1 500 ∷ waiting 2 400 ∷ []

abbrev none_locked : Uuid → Bool
none_locked id = false

first_claimed : any (is_event 1) (claim_events 1000 none_locked two_events).1 ≡ true
unfolding claim_events next_events keep update chosen sort_by
first_claimed = refl

claim_events-exclusive_example :
    any (is_event 1) (claim_events 60500 none_locked (claim_events 1000 none_locked two_events).0).1
    ≡ false
claim_events-exclusive_example =
    claim_events-exclusive 1 1000 60500 none_locked none_locked two_events first_claimed
      (omega arith)

abbrev one_queued : Queue
one_queued = record empty_queue { rows = [] ++ waiting 1 500 ∷ [] }

one_claimed : Steps empty_queue (after_claim 1000 none_locked one_queued)
one_claimed = more (more here (enqueue (waiting 1 500) refl)) (claim 1000 none_locked)

Steps-times_example : times 1 (after_claim 1000 none_locked one_queued).log ≤ 5
Steps-times_example = Steps-times one_claimed 1

abbrev one_done : Queue
one_done = record one_queued { rows = finish_event 1200 1 true one_queued.rows }

finish_event-final_example :
    (is_published 1 (after_claim 99000 none_locked one_done).rows ≡ true)
    × (times 1 (after_claim 99000 none_locked one_done).log ≡ times 1 one_queued.log)
finish_event-final_example =
    finish_event-final 1 1200 one_queued (after_claim 99000 none_locked one_done) refl
      (more here (claim 99000 none_locked))

abbrev accept : Json → ℕ → Result (Unit {0}) × ℕ
accept payload s = (ok tt, s)

run_outbox-drains_example :
    length (
      keep is_pending
        (run_outbox accept accept (calm_rounds ((1000, λ id. 1001) ∷ [])) two_events 0).0)
    ≡ length (keep is_pending two_events) - 32 * 1
run_outbox-drains_example =
    run_outbox-drains accept accept (λ p s. refl) (λ p s. refl) ((1000, λ id. 1001) ∷ []) two_events
      0 (record { distinct = (refl, (refl, tt)); fresh = refl })
