-- ===== src/Outbox/Draining.antt =====
-- That the loop of `run_outbox` empties the queue.
use vussa.Base.{
  ℕ, ◌-◌, ◌*◌, ◌≡◌, refl, sym, ap, ◌∙◌, String, ltb, Bool, true, false, not, ◌&&◌, ◌||◌, List, [],
  ◌∷◌, keep, all, length, arith, is_among, same_key, length-unchosen, keep-IsKept, keep-IsOwn,
  Distinct,
}
use vussa.Models.{Uuid, Json}
use vussa.Database.Tables.{is_null, update}
use vussa.Rooms.{Answer}
use vussa.Outbox.{
  EventRow, claim_events, next_events, set_claim, is_due, is_event, event_id, finish_event,
  set_finished, claim_limit, is_earlier, is_ok, Round, Handler, dispatch, deliver, run_round,
  run_outbox,
}
use vussa.Outbox.Attempts.{update-Distinct}
use vussa.Outbox.Final.{is_pending}

-- A round whose statements succeed, with no other worker at the queue.
abbrev pub calm : ℕ → (Uuid → ℕ) → Round
calm now clock = record {
  now = now;
  locked = λ id. false;
  claim = Answer.done;
  finish = λ id. Answer.done;
  clock = clock;
}

abbrev pub calm_rounds : List (ℕ × (Uuid → ℕ)) → List Round
calm_rounds [] = []
calm_rounds ((now, clock) ∷ rounds) = calm now clock ∷ calm_rounds rounds

-- Published, or neither claimed nor given up.
abbrev pub is_fresh : EventRow → Bool
is_fresh e = not (is_pending e) || (ltb e.attempts 5 && is_null e.claimed_at)

module _ (es : List EventRow) where
  abbrev left : EventRow → Bool
  left e = is_pending e && not (is_among event_id es e)

finish-left :
    (clock : ℕ) (e : EventRow) (es rows : List EventRow)
    → length (keep (left es) (finish_event clock e.id true rows))
      ≡ length (keep (left (e ∷ es)) rows)
unfolding finish_event update keep
finish-left clock e es [] = refl
finish-left clock e es (r ∷ rows) = ground (arith, finish-left clock e es rows)

-- The rows that a claim returns carry the identifiers of those that it chose.
claimed-left :
    (now : ℕ) (named es rows : List EventRow)
    → all
        (λ e. not (is_among event_id named e) || is_among event_id es e)
        (update (is_among event_id named) (set_claim now) rows)
      ≡ true
    → all
        (λ e. not (is_among event_id es e) || is_among event_id named e)
        (update (is_among event_id named) (set_claim now) rows)
      ≡ true
    → length (keep (left es) (update (is_among event_id named) (set_claim now) rows))
      ≡ length (keep (left named) rows)
unfolding keep update
claimed-left now named es [] h k = refl
claimed-left now named es (r ∷ rows) h k = ground (arith, claimed-left now named es rows)

claimed-fresh :
    (now : ℕ) (named es rows : List EventRow)
    → all
        (λ e. not (is_among event_id named e) || is_among event_id es e)
        (update (is_among event_id named) (set_claim now) rows)
      ≡ true
    → all is_fresh rows ≡ true
    → all
        (λ e. is_among event_id es e || is_fresh e)
        (update (is_among event_id named) (set_claim now) rows)
      ≡ true
unfolding update
claimed-fresh now named es [] h k = refl
claimed-fresh now named es (r ∷ rows) h k = ground (arith, claimed-fresh now named es rows)

finish-fresh :
    (clock : ℕ) (e : EventRow) (es rows : List EventRow)
    → all (λ r. is_among event_id (e ∷ es) r || is_fresh r) rows ≡ true
    → all (λ r. is_among event_id es r || is_fresh r) (finish_event clock e.id true rows) ≡ true
unfolding finish_event update
finish-fresh clock e es [] h = refl
finish-fresh clock e es (r ∷ rows) h = ground (arith, finish-fresh clock e es rows)

-- Among fresh rows, those that are due are those that are pending.
fresh-keep :
    (now : ℕ) (rows : List EventRow)
    → all is_fresh rows ≡ true
    → keep (λ e. is_due now e && not false) rows ≡ keep is_pending rows
unfolding keep
fresh-keep now [] h = refl
fresh-keep now (e ∷ rows) h = ground (arith, fresh-keep now rows)

fresh-left :
    (now : ℕ) (named rows : List EventRow)
    → all is_fresh rows ≡ true
    → keep (λ e. (is_due now e && not false) && not (is_among event_id named e)) rows
      ≡ keep (left named) rows
unfolding keep
fresh-left now named [] h = refl
fresh-left now named (e ∷ rows) h = ground (arith, fresh-left now named rows)

next-left :
    (now : ℕ) (rows : List EventRow)
    → Distinct (same_key event_id) rows
    → all is_fresh rows ≡ true
    → length (keep (left (next_events now (λ id. false) rows)) rows)
      ≡ length (keep is_pending rows) - 32
unfolding next_events
next-left now rows d h =
    rw
      (
        sym (fresh-left now (next_events now (λ id. false) rows) rows h),
        sym (fresh-keep now rows h),
      )
      (length-unchosen event_id claim_limit is_earlier (λ e. is_due now e && not false) rows d)

finish-Distinct :
    (clock : ℕ) (id : Uuid) (rows : List EventRow)
    → Distinct (same_key event_id) rows
    → Distinct (same_key event_id) (finish_event clock id true rows)
unfolding finish_event
finish-Distinct clock id rows d =
    update-Distinct (λ e. is_event id e && is_pending e) (set_finished clock true) (λ e. refl) rows
      d

-- What a round needs of the table, and leaves.
pub record IsReady (rows : List EventRow) : Type 0 where
  pub distinct : Distinct (same_key event_id) rows
  pub fresh : all is_fresh rows ≡ true

module _ {S : Type 0} (auth_invalidate notification_retry : Handler S)
    (auth_ok : (p : Json) (s : S) → is_ok (auth_invalidate p s).0 ≡ true)
    (retry_ok : (p : Json) (s : S) → is_ok (notification_retry p s).0 ≡ true) where
  dispatch-ok :
      (topic : String) (p : Json) (s : S)
      → is_ok (dispatch auth_invalidate notification_retry topic p s).0 ≡ true
  unfolding dispatch
  dispatch-ok topic p s = ground (arith, auth_ok p s, retry_ok p s)

  deliver-step :
      (now : ℕ) (clock : Uuid → ℕ) (e : EventRow) (es rows : List EventRow) (s : S)
      → deliver auth_invalidate notification_retry (calm now clock) (e ∷ es) rows s
        ≡ deliver auth_invalidate notification_retry
            (calm now clock)
            es
            (finish_event (clock e.id) e.id true rows)
            (dispatch auth_invalidate notification_retry e.topic e.payload s).1
  unfolding deliver
  deliver-step now clock e es rows s =
      let (r, s') = dispatch auth_invalidate notification_retry e.topic e.payload s in
      ap
        (λ b.
          deliver auth_invalidate notification_retry (calm now clock) es
            (finish_event (clock e.id) e.id b rows) s')
        (dispatch-ok e.topic e.payload s)

  keep_all : (rows : List EventRow) → length (keep is_pending rows) ≡ length (keep (left []) rows)
  unfolding keep
  keep_all [] = refl
  keep_all (e ∷ rows) = ground (arith, keep_all rows)

  deliver-left :
      (now : ℕ) (clock : Uuid → ℕ) (es rows : List EventRow) (s : S)
      → length (
          keep is_pending (deliver auth_invalidate notification_retry (calm now clock) es rows s).0)
        ≡ length (keep (left es) rows)
  unfolding deliver
  deliver-left now clock [] rows s = keep_all rows
  deliver-left now clock (e ∷ es) rows s = rw (deliver-step now clock e es rows s) (
      deliver-left now clock es (finish_event (clock e.id) e.id true rows)
        (dispatch auth_invalidate notification_retry e.topic e.payload s).1
      ∙ finish-left (clock e.id) e es rows)

  deliver-IsReady :
      (now : ℕ) (clock : Uuid → ℕ) (es rows : List EventRow) (s : S)
      → Distinct (same_key event_id) rows
      → all (λ e. is_among event_id es e || is_fresh e) rows ≡ true
      → IsReady (deliver auth_invalidate notification_retry (calm now clock) es rows s).0
  unfolding deliver
  deliver-IsReady now clock [] rows s d h = record { distinct = d; fresh = h }
  deliver-IsReady now clock (e ∷ es) rows s d h = rw (deliver-step now clock e es rows s) (
      deliver-IsReady now clock es (finish_event (clock e.id) e.id true rows)
        (dispatch auth_invalidate notification_retry e.topic e.payload s).1
        (finish-Distinct (clock e.id) e.id rows d) (finish-fresh (clock e.id) e es rows h))

  round-left :
      (now : ℕ) (clock : Uuid → ℕ) (rows : List EventRow) (s : S)
      → IsReady rows
      → length
          (keep is_pending (run_round auth_invalidate notification_retry (calm now clock) rows s).0)
        ≡ length (keep is_pending rows) - 32
  unfolding run_round claim_events next_events
  round-left now clock rows s ready =
      let named = next_events now (λ id. false) rows in
      let rows' = update (is_among event_id named) (set_claim now) rows in
      let es = keep (is_among event_id named) rows' in
      omega (
        arith,
        deliver-left now clock es rows' s,
        claimed-left now named es rows (keep-IsKept event_id (is_among event_id named) rows') (
            keep-IsOwn event_id (is_among event_id named) rows' (
              update-Distinct (is_among event_id named) (set_claim now) (λ e. refl) rows
                ready.distinct)),
        next-left now rows ready.distinct ready.fresh,
      )

  round-IsReady :
      (now : ℕ) (clock : Uuid → ℕ) (rows : List EventRow) (s : S)
      → IsReady rows
      → IsReady (run_round auth_invalidate notification_retry (calm now clock) rows s).0
  unfolding run_round claim_events next_events
  round-IsReady now clock rows s ready =
      let named = next_events now (λ id. false) rows in
      let rows' = update (is_among event_id named) (set_claim now) rows in
      let es = keep (is_among event_id named) rows' in
      deliver-IsReady now clock es rows' s
        (update-Distinct (is_among event_id named) (set_claim now) (λ e. refl) rows ready.distinct)
        (claimed-fresh now named es rows (keep-IsKept event_id (is_among event_id named) rows')
          ready.fresh)

  -- From a table of fresh events with different identifiers, with every statement and every delivery
  -- succeeding and no other worker at the queue: each round publishes exactly 32 of the events that are
  -- pending, or all of them if they are fewer.
  pub run_outbox-drains :
      (rounds : List (ℕ × (Uuid → ℕ))) (rows : List EventRow) (s : S)
      → IsReady rows
      → length (
          keep is_pending
            (run_outbox auth_invalidate notification_retry (calm_rounds rounds) rows s).0)
        ≡ length (keep is_pending rows) - 32 * length rounds
  unfolding run_outbox
  run_outbox-drains [] rows s ready = omega arith
  run_outbox-drains ((now, clock) ∷ rounds) rows s ready =
      let (rows', s') = run_round auth_invalidate notification_retry (calm now clock) rows s in
      omega (
        arith,
        round-left now clock rows s ready,
        run_outbox-drains rounds rows' s' (round-IsReady now clock rows s ready),
      )
