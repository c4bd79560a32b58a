-- ===== src/Outbox/Final.antt =====
-- What has been published stays so.
use vussa.Base.{
  ℕ, ◌≡◌, refl, ◌∙◌, Bool, true, false, not, ◌&&◌, List, [], ◌∷◌, map, any, arith, any-append,
}
use vussa.Models.{Uuid}
use vussa.Database.Tables.{is_null, update}
use vussa.Outbox.{EventRow, claim_events, set_claim, is_event, event_id, finish_event, set_finished}
use vussa.Outbox.Claims.{is_idle, idle-claim_events}
use vussa.Outbox.Attempts.{
  Queue, Step, enqueue, claim, finish, Steps, here, more, times, times-append,
}

abbrev pub is_pending : EventRow → Bool
is_pending e = is_null e.published_at

-- The event is in the table, and published.
abbrev pub is_published : Uuid → List EventRow → Bool
is_published id rows = any (is_event id) rows && not (any (λ e. is_event id e && is_pending e) rows)

module _ (id : Uuid) where
  published-idle :
      (now : ℕ) (rows : List EventRow)
      → any (λ e. is_event id e && is_pending e) rows ≡ false
      → is_idle id now rows ≡ true
  published-idle now [] h = refl
  published-idle now (e ∷ rows) h = ground (arith, published-idle now rows)

  times-none : (es : List EventRow) → any (is_event id) es ≡ false → times id (map event_id es) ≡ 0
  times-none [] h = refl
  times-none (e ∷ es) h = ground (arith, times-none es)

  module _ (p : EventRow → Bool) (f : EventRow → EventRow) (f_id : (e : EventRow) → (f e).id ≡ e.id)
      (f_pending : (e : EventRow) → is_pending e ≡ false → is_pending (f e) ≡ false) where
    update-published :
        (rows : List EventRow)
        → any (λ e. is_event id e && is_pending e) rows ≡ false
        → any (λ e. is_event id e && is_pending e) (update p f rows) ≡ false
    unfolding update
    update-published [] h = refl
    update-published (e ∷ rows) h = ground (arith, f_id e, f_pending e, update-published rows)

    update-there :
        (rows : List EventRow) → any (is_event id) (update p f rows) ≡ any (is_event id) rows
    unfolding update
    update-there [] = refl
    update-there (e ∷ rows) = ground (arith, f_id e, update-there rows)

    update-is_published :
        (rows : List EventRow)
        → is_published id rows ≡ true
        → is_published id (update p f rows) ≡ true
    update-is_published rows h = ground (arith, update-there rows, update-published rows)

  finished_id : (now : ℕ) (d : Bool) (e : EventRow) → (set_finished now d e).id ≡ e.id
  finished_id now true e = refl
  finished_id now false e = refl

  finished_pending :
      (now : ℕ) (d : Bool) (e : EventRow)
      → is_pending e ≡ false
      → is_pending (set_finished now d e) ≡ false
  finished_pending now true e h = refl
  finished_pending now false e h = h

  Step-published :
      {q r : Queue}
      → Step q r
      → is_published id q.rows ≡ true
      → (is_published id r.rows ≡ true) × (times id r.log ≡ times id q.log)
  unfolding claim_events finish_event
  Step-published {q} (enqueue e h) k = (
    ground (
      arith,
      any-append (is_event id) q.rows (e ∷ []),
      any-append (λ r. is_event id r && is_pending r) q.rows (e ∷ []),
      other_event e q.rows,
    ),
    refl,
  )
    where
      other_event :
          (e : EventRow) (rows : List EventRow)
          → any (is_event e.id) rows ≡ false
          → any (is_event id) rows ≡ true
          → is_event id e ≡ false
      other_event e [] h k = ground arith
      other_event e (r ∷ rows) h k = ground (arith, other_event e rows)
  Step-published {q} (claim now locked) k = (
    update-is_published _ (set_claim now) (λ e. refl) (λ e h. h) q.rows k,
    omega (
      arith,
      times-append id (map event_id (claim_events now locked q.rows).1) q.log,
      times-none (claim_events now locked q.rows).1
          (idle-claim_events id now locked q.rows (published-idle now q.rows (ground arith))),
    ),
  )
  Step-published {q} (finish now other d) k = (
    update-is_published _ (set_finished now d) (finished_id now d) (finished_pending now d) q.rows
        k,
    refl,
  )

  Steps-published :
      {q r : Queue}
      → Steps q r
      → is_published id q.rows ≡ true
      → (is_published id r.rows ≡ true) × (times id r.log ≡ times id q.log)
  Steps-published here k = (k, refl)
  Steps-published (more steps step) k =
      let before = Steps-published steps k in
      let after = Step-published step before.0 in (after.0, after.1 ∙ before.1)

  finish-all :
      (now : ℕ) (rows : List EventRow)
      → any (λ e. is_event id e && is_pending e) (finish_event now id true rows) ≡ false
  unfolding finish_event update
  finish-all now [] = refl
  finish-all now (e ∷ rows) = ground (arith, finish-all now rows)

  -- Once a worker has recorded that an event of the table was delivered, it is published and no claim
  -- returns it again, whatever the workers and those who add events do afterwards.
  pub finish_event-final :
      (now : ℕ) (q r : Queue)
      → any (is_event id) q.rows ≡ true
      → Steps (record q { rows = finish_event now id true q.rows }) r
      → (is_published id r.rows ≡ true) × (times id r.log ≡ times id q.log)
  unfolding finish_event
  finish_event-final now q r h steps = Steps-published steps (
      ground (
        arith,
        update-there (λ e. is_event id e && is_pending e) (set_finished now true) (λ e. refl)
            (finished_pending now true) q.rows,
        finish-all now q.rows,
      ))
