-- ===== src/Outbox/Attempts.antt =====
-- Workers of several replicas on one queue, in any interleaving of their statements: how often an
-- event is claimed.
use vussa.Base.{
  ==_iff, ℕ, ◌+◌, ◌≤◌, ◌≡◌, refl, ◌==◌, leb, Bool, true, false, not, ◌&&◌, ◌||◌, List, [], ◌∷◌,
  ◌++◌, map, keep, any, all, arith, is_among, same_key, if◌then◌else◌, Distinct, Distinct-append,
  Bool-cases, inl, inr, all-chosen,
}
use vussa.Models.{Uuid}
use vussa.Database.Tables.{update}
use vussa.Outbox.{
  EventRow, claim_events, next_events, set_claim, is_due, is_event, event_id, finish_event,
  claim_limit, is_earlier, set_finished, max_attempts,
}

-- The table, and the identifiers that the claims so far returned, the latest first.
pub record Queue : Type 0 where
  pub rows : List EventRow
  pub log : List Uuid

abbrev pub after_claim : ℕ → (Uuid → Bool) → Queue → Queue
after_claim now locked q = record {
  rows = (claim_events now locked q.rows).0;
  log = map event_id (claim_events now locked q.rows).1 ++ q.log;
}

-- `INSERT INTO outbox_events (id, topic, payload, created_at)` with an identifier not used before.
abbrev pub is_new : EventRow → Queue → Bool
is_new e q = e.attempts == 0 && not (any (is_event e.id) q.rows)

pub data Step (q : Queue) : Queue → Type 0 where
  enqueue : (e : EventRow) → is_new e q ≡ true → Step q (record q { rows = q.rows ++ e ∷ [] })
  claim : (now : ℕ) (locked : Uuid → Bool) → Step q (after_claim now locked q)
  finish :
      (now : ℕ) (id : Uuid) (delivered : Bool)
      → Step q (record q { rows = finish_event now id delivered q.rows })

pub data Steps (q : Queue) : Queue → Type 0 where
  here : Steps q q
  more : {r t : Queue} → Steps q r → Step r t → Steps q t

abbrev pub empty_queue : Queue
empty_queue = record { rows = []; log = [] }

abbrev pub times : Uuid → List Uuid → ℕ
times id [] = 0
times id (x ∷ xs) = (if x == id then 1 else 0) + times id xs

-- The attempts that the table has counted for an event.
abbrev pub attempts_counted : Uuid → List EventRow → ℕ
attempts_counted id [] = 0
attempts_counted id (e ∷ rows) =
    (if is_event id e then e.attempts else 0) + attempts_counted id rows

abbrev within : EventRow → Bool
within e = leb e.attempts max_attempts

-- What holds of the queue between two statements.
record Inv (q : Queue) : Type 0 where
  distinct : Distinct (same_key event_id) q.rows
  capped : all within q.rows ≡ true
  logged : (id : Uuid) → times id q.log ≤ attempts_counted id q.rows

pub times-append : (id : Uuid) (xs ys : List Uuid) → times id (xs ++ ys) ≡ times id xs + times id ys
times-append id [] ys = omega arith
times-append id (x ∷ xs) ys = omega (arith, times-append id xs ys)

attempts_counted-append :
    (id : Uuid) (xs ys : List EventRow)
    → attempts_counted id (xs ++ ys) ≡ attempts_counted id xs + attempts_counted id ys
attempts_counted-append id [] ys = omega arith
attempts_counted-append id (x ∷ xs) ys = omega (arith, attempts_counted-append id xs ys)

-- An update that keeps the identifiers keeps them different.
module _ (p : EventRow → Bool) (f : EventRow → EventRow)
    (f_id : (e : EventRow) → (f e).id ≡ e.id) where
  any-update :
      (e : EventRow) (rows : List EventRow)
      → any (same_key event_id e) (update p f rows) ≡ any (same_key event_id e) rows
  unfolding update
  any-update e [] = refl
  any-update e (r ∷ rows) = ground (arith, f_id r, any-update e rows)

  any-update_first :
      (e : EventRow) (rows : List EventRow)
      → any (same_key event_id (f e)) rows ≡ any (same_key event_id e) rows
  any-update_first e [] = refl
  any-update_first e (r ∷ rows) = ground (arith, f_id e, any-update_first e rows)

  pub update-Distinct :
      (rows : List EventRow)
      → Distinct (same_key event_id) rows
      → Distinct (same_key event_id) (update p f rows)
  unfolding update
  update-Distinct [] d = tt
  update-Distinct (r ∷ rows) d = elim (Bool-cases (p r)) [
    | inl hit ↦ rw hit (
        ground (
          arith,
          any-update r rows,
          any-update_first r (update p f rows),
          update-Distinct rows d.1,
        ))
    | inr miss ↦ rw miss (ground (arith, any-update r rows, update-Distinct rows d.1))
  ]

set_claim_id : (now : ℕ) (e : EventRow) → (set_claim now e).id ≡ e.id
set_claim_id now e = refl

set_finished_id :
    (now : ℕ) (delivered : Bool) (e : EventRow) → (set_finished now delivered e).id ≡ e.id
set_finished_id now true e = refl
set_finished_id now false e = refl

set_finished_attempts :
    (now : ℕ) (delivered : Bool) (e : EventRow)
    → (set_finished now delivered e).attempts ≡ e.attempts
set_finished_attempts now true e = refl
set_finished_attempts now false e = refl

-- Each row that a claim returns has one attempt more than before.
claim-attempts_counted :
    (now : ℕ) (id : Uuid) (named rows : List EventRow)
    → times id (
          map event_id (
            keep (is_among event_id named) (update (is_among event_id named) (set_claim now) rows)))
        + attempts_counted id rows
      ≡ attempts_counted id (update (is_among event_id named) (set_claim now) rows)
unfolding keep update
claim-attempts_counted now id named [] = refl
claim-attempts_counted now id named (e ∷ rows) =
    ground (arith, claim-attempts_counted now id named rows)

module _ (now : ℕ) (locked : Uuid → Bool) where
  abbrev claimable : EventRow → Bool
  claimable e = is_due now e && not (locked e.id)

  within-set_claim : (e : EventRow) → claimable e ≡ true → within (set_claim now e) ≡ true
  within-set_claim e h = ground arith

  update-capped :
      (named rows : List EventRow)
      → all (λ e. not (is_among event_id named e) || claimable e) rows ≡ true
      → all within rows ≡ true
      → all within (update (is_among event_id named) (set_claim now) rows) ≡ true
  unfolding update
  update-capped named [] k h = refl
  update-capped named (e ∷ rows) k h = ground (arith, within-set_claim e, update-capped named rows)

  claim-capped :
      (rows : List EventRow)
      → Distinct (same_key event_id) rows
      → all within rows ≡ true
      → all within (claim_events now locked rows).0 ≡ true
  unfolding claim_events next_events
  claim-capped rows d h =
      update-capped (next_events now locked rows) rows
        (all-chosen event_id claim_limit is_earlier claimable rows d) h

finish-capped :
    (now : ℕ) (id : Uuid) (delivered : Bool) (rows : List EventRow)
    → all within rows ≡ true
    → all within (finish_event now id delivered rows) ≡ true
unfolding finish_event update
finish-capped now id delivered [] h = refl
finish-capped now id delivered (e ∷ rows) h =
    ground (arith, set_finished_attempts now delivered e, finish-capped now id delivered rows)

finish-attempts_counted :
    (now : ℕ) (id : Uuid) (delivered : Bool) (other : Uuid) (rows : List EventRow)
    → attempts_counted other (finish_event now id delivered rows) ≡ attempts_counted other rows
unfolding finish_event update
finish-attempts_counted now id delivered other [] = refl
finish-attempts_counted now id delivered other (e ∷ rows) = ground (
  arith,
  set_finished_attempts now delivered e,
  set_finished_id now delivered e,
  finish-attempts_counted now id delivered other rows,
)

all-append_one :
    (e : EventRow) (rows : List EventRow)
    → all within rows ≡ true
    → within e ≡ true
    → all within (rows ++ e ∷ []) ≡ true
all-append_one e [] h k = ground arith
all-append_one e (r ∷ rows) h k = ground (arith, all-append_one e rows)

same_key_event :
    (e : EventRow) (rows : List EventRow)
    → any (same_key event_id e) rows ≡ any (is_event e.id) rows
same_key_event e [] = refl
same_key_event e (r ∷ rows) = ground (arith, same_key_event e rows)

Step-Inv : {q r : Queue} → Step q r → Inv q → Inv r
unfolding claim_events finish_event
Step-Inv {q} (enqueue e h) i = record {
  distinct =
      Distinct-append (same_key event_id) (λ a b. ground arith) q.rows e i.distinct
        (ground (arith, same_key_event e q.rows));
  capped = all-append_one e q.rows i.capped (ground arith);
  logged = λ id. omega (arith, i.logged id, attempts_counted-append id q.rows (e ∷ []));
}
Step-Inv {q} (claim now locked) i = record {
  distinct = update-Distinct _ (set_claim now) (set_claim_id now) q.rows i.distinct;
  capped = claim-capped now locked q.rows i.distinct i.capped;
  logged = λ id. omega (
    arith,
    i.logged id,
    claim-attempts_counted now id (next_events now locked q.rows) q.rows,
    times-append id (map event_id (claim_events now locked q.rows).1) q.log,
  );
}
Step-Inv {q} (finish now id delivered) i = record {
  distinct =
      update-Distinct _ (set_finished now delivered) (set_finished_id now delivered) q.rows
        i.distinct;
  capped = finish-capped now id delivered q.rows i.capped;
  logged =
      λ other. omega (arith, i.logged other, finish-attempts_counted now id delivered other q.rows);
}

Steps-Inv : {q r : Queue} → Steps q r → Inv q → Inv r
Steps-Inv here i = i
Steps-Inv (more steps step) i = Step-Inv step (Steps-Inv steps i)

empty_queue-Inv : Inv empty_queue
empty_queue-Inv = record { distinct = tt; capped = refl; logged = λ id. omega arith }

attempts_counted_none :
    (id : Uuid) (rows : List EventRow)
    → any (is_event id) rows ≡ false
    → attempts_counted id rows ≡ 0
attempts_counted_none id [] h = refl
attempts_counted_none id (e ∷ rows) h = ground (arith, attempts_counted_none id rows)

attempts_counted_bounded :
    (id : Uuid) (rows : List EventRow)
    → Distinct (same_key event_id) rows
    → all within rows ≡ true
    → attempts_counted id rows ≤ max_attempts
attempts_counted_bounded id [] d h = omega arith
attempts_counted_bounded id (e ∷ rows) d h = ground (
  arith,
  attempts_counted_none id rows,
  same_key_event e rows,
  ==_iff e.id id,
  attempts_counted_bounded id rows d.1,
)

-- Whatever the workers do, in any interleaving of their claims and updates, and whatever is added
-- meanwhile, from an empty queue: the claims return an event at most five times altogether.
pub Steps-times : {q : Queue} → Steps empty_queue q → (id : Uuid) → times id q.log ≤ 5
Steps-times steps id =
    let i = Steps-Inv steps empty_queue-Inv in
    omega (arith, i.logged id, attempts_counted_bounded id _ i.distinct i.capped)
