-- ===== src/Outbox.antt =====
-- backend/src/outbox.rs: the queue of events that a transaction leaves for later, in the table
-- `outbox_events` (backend/migrations/0002_auth_admin.sql, 0016_outbox_claims.sql). `locked` says
-- which rows another transaction holds, which `SKIP LOCKED` passes over.
pub mod Claims
pub mod Attempts
pub mod Final
pub mod Draining
use vussa.Base.{
  ℕ, suc, ◌+◌, ◌==◌, ltb, String, str_eq, Bool, true, false, not, ◌&&◌, ◌||◌, Option, none, some,
  List, [], ◌∷◌, keep, chosen, is_among, if◌then◌else◌,
}
use vussa.Models.{Uuid, Json}
use vussa.Error.{Result, ok, err}
use vussa.Database.Tables.{is_null, update}
use vussa.Rooms.{Answer, took_effect}

pub record EventRow : Type 0 where
  pub id : Uuid
  pub topic : String
  pub payload : Json
  pub created_at : ℕ
  pub published_at : Option ℕ
  pub attempts : ℕ
  pub claimed_at : Option ℕ

abbrev pub claim_timeout_millis : ℕ
claim_timeout_millis = 60000

abbrev pub max_attempts : ℕ
max_attempts = 5

abbrev pub claim_limit : ℕ
claim_limit = 32

-- `claimed_at < $1 - $2`.
abbrev pub claimed_before : ℕ → Option ℕ → Bool
claimed_before now none = false
claimed_before now (some t) = ltb (t + claim_timeout_millis) now

-- `published_at IS NULL AND attempts < 5 AND (claimed_at IS NULL OR claimed_at < $1 - $2)`.
abbrev pub is_due : ℕ → EventRow → Bool
is_due now e =
    is_null e.published_at
    && ltb e.attempts max_attempts
    && (is_null e.claimed_at || claimed_before now e.claimed_at)

-- `ORDER BY created_at, id`.
abbrev pub is_earlier : EventRow → EventRow → Bool
is_earlier a b = ltb a.created_at b.created_at || (a.created_at == b.created_at && ltb a.id b.id)

abbrev pub is_event : Uuid → EventRow → Bool
is_event id e = e.id == id

abbrev pub event_id : EventRow → ℕ
event_id e = e.id

abbrev pub set_claim : ℕ → EventRow → EventRow
set_claim now e = record e { claimed_at = some now; attempts = suc e.attempts }

-- The common table expression `next`.
unfoldable pub next_events : ℕ → (Uuid → Bool) → List EventRow → List EventRow
next_events now locked rows =
    chosen event_id claim_limit is_earlier (λ e. is_due now e && not (locked e.id)) rows

-- The table after the claim, and the rows that it returns; PostgreSQL promises them in no order.
unfoldable pub claim_events : ℕ → (Uuid → Bool) → List EventRow → List EventRow × List EventRow
claim_events now locked rows =
    let next = next_events now locked rows in
    let rows' = update (is_among event_id next) (set_claim now) rows in
    (rows', keep (is_among event_id next) rows')

abbrev pub set_finished : ℕ → Bool → EventRow → EventRow
set_finished now true e = record e { published_at = some now; claimed_at = none }
set_finished now false e = record e { claimed_at = none }

unfoldable pub finish_event : ℕ → Uuid → Bool → List EventRow → List EventRow
finish_event now id delivered rows =
    update (λ e. is_event id e && is_null e.published_at) (set_finished now delivered) rows

abbrev pub is_ok {ℓ} : {A : Type ℓ} → Result A → Bool
is_ok (ok a) = true
is_ok (err e) = false

-- What the database answers to one round of `run_outbox`, and the times at which its updates run.
pub record Round : Type 0 where
  pub now : ℕ
  pub locked : Uuid → Bool
  pub claim : Answer
  pub finish : Uuid → Answer
  pub clock : Uuid → ℕ

abbrev pub Handler : Type 0 → Type 0
Handler S = Json → S → Result (Unit {0}) × S

-- `S` is what the deliveries change.
module _ {S : Type 0} (handle_auth_invalidate handle_notification_retry : Handler S) where
  unfoldable pub dispatch : String → Json → S → Result (Unit {0}) × S
  dispatch topic payload s =
      if str_eq topic "auth.invalidate"
      then handle_auth_invalidate payload s
      else if str_eq topic "message.notifications"
      then handle_notification_retry payload s
      else (ok tt, s)

  -- The body of the loop over the claimed rows: what an update answers is only logged.
  abbrev pub completed : Round → EventRow → Bool → List EventRow → List EventRow
  completed round e delivered rows =
      if took_effect (round.finish e.id)
      then finish_event (round.clock e.id) e.id delivered rows
      else rows

  unfoldable pub deliver : Round → List EventRow → List EventRow → S → List EventRow × S
  deliver round [] rows s = (rows, s)
  deliver round (e ∷ es) rows s =
      let (r, s') = dispatch e.topic e.payload s in
      deliver round es (completed round e (is_ok r) rows) s'

  -- The rows that a round delivers.
  abbrev pub claimed_events : Answer → List EventRow → List EventRow
  claimed_events Answer.done es = es
  claimed_events other es = []

  -- One round of the loop of `run_outbox`.
  unfoldable pub run_round : Round → List EventRow → S → List EventRow × S
  run_round round rows s =
      let (rows', es) = claim_events round.now round.locked rows in
      deliver round (claimed_events round.claim es)
        (if took_effect round.claim then rows' else rows) s

  unfoldable pub run_outbox : List Round → List EventRow → S → List EventRow × S
  run_outbox [] rows s = (rows, s)
  run_outbox (round ∷ rounds) rows s =
      let (rows', s') = run_round round rows s in run_outbox rounds rows' s'
