-- ===== src/Notifications/Retries.antt =====
-- That no delivery is given up: workers of several replicas on one queue, in any interleaving of
-- their statements.
use vussa.Base.{
  ℕ, ◌+◌, ◌≤◌, ◌≡◌, refl, sym, String, Bool-cases, inl, inr, ◌==◌, leb, min, Bool, true, false, not,
  ◌&&◌, ◌||◌, none, some, List, [], ◌∷◌, ◌++◌, keep, any, all, length, arith, same_key, Distinct,
  Distinct-append, Distinct-keep, all-among, chosen, chosen-all, is_among,
}
use vussa.Models.{Uuid}
use vussa.Database.Tables.{is_null, update}
use vussa.Database.Claimed.{update_Distinct, length-claimed_chosen}
use vussa.Rooms.{Answer, took_effect}
use vussa.Notifications.{
  DeliveryRow, Outcome, accepted, failed, Sink, Task, retry_delay_ms, is_unsent, is_claimable,
  is_sooner, delivery_id, is_delivery, mark_claimed, mark_sent, mark_failed, next_deliveries,
  claim_deliveries, record_outcome, run_task, batch, error_text,
}

-- The table, and the time of the last statement: the clocks of the workers agree.
pub record DeliveryQueue : Type 0 where
  pub rows : List DeliveryRow
  pub clock : ℕ

-- A row of `INSERT INTO notification_deliveries`, with an identifier not used before.
abbrev pub is_fresh_delivery : ℕ → DeliveryRow → List DeliveryRow → Bool
is_fresh_delivery now d rows =
    d.next_attempt_at == now
    && is_null d.claimed_at
    && is_null d.sent_at
    && not (any (is_delivery d.id) rows)

pub data DeliveryStep (q : DeliveryQueue) : DeliveryQueue → Type 0 where
  insert_delivery :
      (now : ℕ) (d : DeliveryRow)
      → q.clock ≤ now
      → is_fresh_delivery now d q.rows ≡ true
      → DeliveryStep q (record { rows = q.rows ++ d ∷ []; clock = now })
  claim_batch :
      (now : ℕ) (locked : Uuid → Bool)
      → q.clock ≤ now
      → DeliveryStep q (record { rows = (claim_deliveries now locked q.rows).0; clock = now })
  end_task :
      (now : ℕ) (email_sink browser_sink : Sink) (answer : Answer) (task : Task)
      → q.clock ≤ now
      → DeliveryStep q
          (record { rows = run_task email_sink browser_sink now answer task q.rows; clock = now })

pub data DeliverySteps (q : DeliveryQueue) : DeliveryQueue → Type 0 where
  no_step : DeliverySteps q q
  one_more : {r t : DeliveryQueue} → DeliverySteps q r → DeliveryStep r t → DeliverySteps q t

abbrev pub no_deliveries : DeliveryQueue
no_deliveries = record { rows = []; clock = 0 }

abbrev pub hour_millis : ℕ
hour_millis = 3600000

abbrev claimed_by : ℕ → DeliveryRow → Bool
claimed_by now d = elim d.claimed_at [ none ↦ true | some t ↦ leb t now ]

-- Sent, or to be attempted within an hour and claimed by now.
abbrev is_timely : ℕ → DeliveryRow → Bool
is_timely now d = not (is_unsent d) || (leb d.next_attempt_at (now + 3600000) && claimed_by now d)

record IsTimely (q : DeliveryQueue) : Type 0 where
  distinct : Distinct (same_key delivery_id) q.rows
  timely : all (is_timely q.clock) q.rows ≡ true

pub retry_delay_ms-hour : (attempts : ℕ) → retry_delay_ms attempts ≤ 3600000
unfolding retry_delay_ms
retry_delay_ms-hour attempts = omega arith

timely-later :
    (now later : ℕ) (d : DeliveryRow)
    → now ≤ later
    → is_timely now d ≡ true
    → is_timely later d ≡ true
timely-later now later d le h = ground arith

all-later :
    (now later : ℕ) (rows : List DeliveryRow)
    → now ≤ later
    → all (is_timely now) rows ≡ true
    → all (is_timely later) rows ≡ true
all-later now later [] le h = refl
all-later now later (d ∷ rows) le h =
    ground (arith, timely-later now later d le, all-later now later rows le)

-- An update of rows that leaves each as it should be keeps what holds of the queue.
module _ (now : ℕ) (p : DeliveryRow → Bool) (f : DeliveryRow → DeliveryRow)
    (f_id : (d : DeliveryRow) → (f d).id ≡ d.id)
    (f_timely : (d : DeliveryRow) → is_timely now d ≡ true → is_timely now (f d) ≡ true) where
  all-update :
      (rows : List DeliveryRow)
      → all (is_timely now) rows ≡ true
      → all (is_timely now) (update p f rows) ≡ true
  unfolding update
  all-update [] h = refl
  all-update (d ∷ rows) h = ground (arith, f_timely d, all-update rows)

  update-IsTimely :
      (q : DeliveryQueue)
      → q.clock ≤ now
      → IsTimely q
      → IsTimely (record { rows = update p f q.rows; clock = now })
  update-IsTimely q le i = record {
    distinct = update_Distinct delivery_id f f_id p q.rows i.distinct;
    timely = all-update q.rows (all-later q.clock now q.rows le i.timely);
  }

claimed-timely :
    (now : ℕ) (d : DeliveryRow) → is_timely now d ≡ true → is_timely now (mark_claimed now d) ≡ true
claimed-timely now d h = ground arith

failed-timely :
    (now attempts : ℕ) (message : String) (d : DeliveryRow)
    → is_timely now d ≡ true
    → is_timely now (mark_failed (now + retry_delay_ms attempts) message d) ≡ true
failed-timely now attempts message d h = ground (arith, retry_delay_ms-hour attempts)

outcome-IsTimely :
    (now : ℕ) (task : DeliveryRow) (outcome : Outcome) (q : DeliveryQueue)
    → q.clock ≤ now
    → IsTimely q
    → IsTimely (record { rows = record_outcome now task outcome q.rows; clock = now })
unfolding record_outcome
outcome-IsTimely now task accepted q le i =
    update-IsTimely now _ (mark_sent now) (λ d. refl) (λ d h. refl) q le i
outcome-IsTimely now task (failed e) q le i =
    update-IsTimely now _ (mark_failed (now + retry_delay_ms task.attempts) (error_text e))
      (λ d. refl) (failed-timely now task.attempts (error_text e)) q le i

same_key_delivery :
    (d : DeliveryRow) (rows : List DeliveryRow)
    → any (same_key delivery_id d) rows ≡ any (is_delivery d.id) rows
same_key_delivery d [] = refl
same_key_delivery d (r ∷ rows) = ground (arith, same_key_delivery d rows)

all-append_timely :
    (now : ℕ) (d : DeliveryRow) (rows : List DeliveryRow)
    → all (is_timely now) rows ≡ true
    → is_timely now d ≡ true
    → all (is_timely now) (rows ++ d ∷ []) ≡ true
all-append_timely now d [] h k = ground arith
all-append_timely now d (r ∷ rows) h k = ground (arith, all-append_timely now d rows)

inserted-timely :
    (now : ℕ) (d : DeliveryRow) (rows : List DeliveryRow)
    → is_fresh_delivery now d rows ≡ true
    → is_timely now d ≡ true
inserted-timely now d rows h = ground arith

DeliveryStep-IsTimely : {q r : DeliveryQueue} → DeliveryStep q r → IsTimely q → IsTimely r
unfolding claim_deliveries run_task
DeliveryStep-IsTimely {q} (insert_delivery now d le h) i = record {
  distinct =
      Distinct-append (same_key delivery_id) (λ a b. ground arith) q.rows d i.distinct
        (ground (arith, same_key_delivery d q.rows));
  timely =
      all-append_timely now d q.rows (all-later q.clock now q.rows le i.timely)
        (inserted-timely now d q.rows h);
}
DeliveryStep-IsTimely {q} (claim_batch now locked le) i =
    update-IsTimely now _ (mark_claimed now) (λ d. refl) (claimed-timely now) q le i
DeliveryStep-IsTimely {q} (end_task now email_sink browser_sink answer task le) i =
    elim (Bool-cases (took_effect answer)) [
      | inl done ↦ rw done (outcome-IsTimely now task.row _ q le i)
      | inr lost ↦
          rw lost
            (record { distinct = i.distinct; timely = all-later q.clock now q.rows le i.timely })
    ]

DeliverySteps-IsTimely : {q r : DeliveryQueue} → DeliverySteps q r → IsTimely q → IsTimely r
DeliverySteps-IsTimely no_step i = i
DeliverySteps-IsTimely (one_more steps step) i =
    DeliveryStep-IsTimely step (DeliverySteps-IsTimely steps i)

-- An hour later, what is not sent can be claimed.
timely-claimable :
    (now later : ℕ) (rows : List DeliveryRow)
    → all (is_timely now) rows ≡ true
    → now + 3600000 ≤ later
    → keep (λ d. is_claimable later d && not false) rows ≡ keep is_unsent rows
unfolding keep
timely-claimable now later [] h le = refl
timely-claimable now later (d ∷ rows) h le = ground (arith, timely-claimable now later rows)

-- No delivery is given up. Whatever is inserted, claimed, accepted or refused, in any interleaving
-- of workers whose clocks agree, with answers of the database lost or not: an hour or more after
-- the last statement, a claim that meets no lock returns 32 of the deliveries that are not sent,
-- or all of them if they are fewer, each once and no delivery that is sent, however often their
-- delivery failed before.
pub claim_deliveries-unsent :
    {q : DeliveryQueue}
    → DeliverySteps no_deliveries q
    → (later : ℕ) → q.clock + 3600000 ≤ later
    → (length (claim_deliveries later (λ id. false) q.rows).1
        ≡ min 32 (length (keep is_unsent q.rows)))
      × Distinct (same_key delivery_id) (claim_deliveries later (λ id. false) q.rows).1
      × (all
            (λ d. any (same_key delivery_id d) (keep is_unsent q.rows))
            (claim_deliveries later (λ id. false) q.rows).1
          ≡ true)
unfolding claim_deliveries next_deliveries
claim_deliveries-unsent {q} steps later le =
    let i = DeliverySteps-IsTimely steps (record { distinct = tt; timely = refl }) in
    let ready : DeliveryRow → Bool = λ d. is_claimable later d && not false in
    let next = chosen delivery_id batch is_sooner ready q.rows in
    let rows = update (is_among delivery_id next) (mark_claimed later) q.rows in
    rw (sym (timely-claimable q.clock later q.rows i.timely le)) (
      sym (
          length-claimed_chosen delivery_id (mark_claimed later) (λ d. refl) batch is_sooner ready
            q.rows i.distinct),
      Distinct-keep delivery_id (is_among delivery_id next) rows (
          update_Distinct delivery_id (mark_claimed later) (λ d. refl) (is_among delivery_id next)
            q.rows i.distinct),
      all-among delivery_id (keep ready q.rows) next rows
          (chosen-all delivery_id batch is_sooner ready q.rows),
    )
