-- ===== src/Outbox/Claims.antt =====
-- Which events a claim returns.
use vussa.Base.{
  ℕ, ◌+◌, ◌≤◌, ◌≡◌, refl, Bool, true, false, not, ◌&&◌, some, List, [], ◌∷◌, keep, any, arith,
  is_among, any-chosen, Bool-cases, inl, inr,
}
use vussa.Models.{Uuid}
use vussa.Database.Tables.{update}
use vussa.Outbox.{
  EventRow, claim_events, next_events, set_claim, is_due, is_event, event_id, claimed_before,
  claim_timeout_millis, claim_limit, is_earlier,
}

-- No row of this event is due.
abbrev pub is_idle : Uuid → ℕ → List EventRow → Bool
is_idle id now rows = not (any (λ e. is_event id e && is_due now e) rows)

module _ (id : Uuid) where
  idle-keep :
      (now : ℕ) (locked : Uuid → Bool) (rows : List EventRow)
      → is_idle id now rows ≡ true
      → any (is_event id) (keep (λ e. is_due now e && not (locked e.id)) rows) ≡ false
  unfolding keep
  idle-keep now locked [] h = refl
  idle-keep now locked (e ∷ rows) h = ground (arith, idle-keep now locked rows)

  among-event :
      (next : List EventRow) (e : EventRow)
      → is_event id e ≡ true
      → is_among event_id next e ≡ any (is_event id) next
  among-event [] e h = refl
  among-event (n ∷ next) e h = ground (arith, among-event next e)

  claimed-among :
      (now : ℕ) (next rows : List EventRow)
      → any (is_event id) next ≡ false
      → any
          (is_event id)
          (keep (is_among event_id next) (update (is_among event_id next) (set_claim now) rows))
        ≡ false
  unfolding keep update
  claimed-among now next [] h = refl
  claimed-among now next (e ∷ rows) h =
      ground (arith, among-event next e, claimed-among now next rows)

  -- A claim returns no event that is not due.
  pub idle-claim_events :
      (now : ℕ) (locked : Uuid → Bool) (rows : List EventRow)
      → is_idle id now rows ≡ true
      → any (is_event id) (claim_events now locked rows).1 ≡ false
  unfolding claim_events next_events
  idle-claim_events now locked rows h = claimed-among now _ rows (
      any-chosen event_id claim_limit is_earlier (λ e. is_due now e && not (locked e.id))
        (is_event id) rows (idle-keep now locked rows h))

  recent : (t now : ℕ) → now ≤ t + claim_timeout_millis → claimed_before now (some t) ≡ false
  recent t now h = ground arith

  claimed-idle :
      (now later : ℕ) (next rows : List EventRow)
      → any (is_event id) next ≡ true
      → later ≤ now + claim_timeout_millis
      → is_idle id later (update (is_among event_id next) (set_claim now) rows) ≡ true
  unfolding update
  claimed-idle now later next [] h soon = refl
  claimed-idle now later next (e ∷ rows) h soon =
      let fresh : claimed_before later (some now) ≡ false = recent now later soon in
      ground (arith, fresh, among-event next e, claimed-idle now later next rows h soon)

  next-claimed :
      (now : ℕ) (next rows : List EventRow)
      → any
          (is_event id)
          (keep (is_among event_id next) (update (is_among event_id next) (set_claim now) rows))
        ≡ true
      → any (is_event id) next ≡ true
  next-claimed now next rows h = elim (Bool-cases (any (is_event id) next)) [
    | inl there ↦ there
    | inr gone ↦ absurd (cc (h, claimed-among now next rows gone))
  ]

  -- A worker that claims an event has it for a minute: until a worker finishes it, a claim made at
  -- most 60 seconds after this one, by whichever worker, does not return it.
  pub claim_events-exclusive :
      (now later : ℕ) (locked locked' : Uuid → Bool) (rows : List EventRow)
      → any (is_event id) (claim_events now locked rows).1 ≡ true
      → later ≤ now + claim_timeout_millis
      → any (is_event id) (claim_events later locked' (claim_events now locked rows).0).1 ≡ false
  unfolding claim_events
  claim_events-exclusive now later locked locked' rows h soon =
      idle-claim_events later locked' (claim_events now locked rows).0 (
        claimed-idle now later (next_events now locked rows) rows
          (next-claimed now (next_events now locked rows) rows h) soon)
