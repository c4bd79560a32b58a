-- ===== src/Notifications.antt =====
-- backend/src/notifications/delivery.rs: the queue of notifications to deliver, in the table
-- `notification_deliveries` (backend/migrations/0017_notification_delivery.sql). `locked` says which
-- rows another transaction holds, which `SKIP LOCKED` passes over.
pub mod Retries
pub mod Backoff
pub mod Mentions
pub mod Recipients
pub mod Creation
pub mod Settled
pub mod Once
pub mod Again
pub mod Readers
use vussa.Base.{
  ℕ, suc, ◌+◌, ◌*◌, ◌^◌, min, ◌==◌, ltb, leb, String, str_eq, text_append, Bool, true, false, not,
  ◌&&◌, ◌||◌, Option, none, some, List, [], ◌∷◌, keep, map, chosen, is_among, if◌then◌else◌,
}
use vussa.Models.{Uuid}
use vussa.Database.Tables.{is_null, update}
use vussa.Rooms.{Answer, took_effect}

pub record DeliveryRow : Type 0 where
  pub id : Uuid
  pub notification_id : Uuid
  pub user_id : Uuid
  pub channel : String
  pub email : String
  pub kind : String
  pub body : String
  pub attempts : ℕ
  pub next_attempt_at : ℕ
  pub claimed_at : Option ℕ
  pub sent_at : Option ℕ
  pub last_error : Option String

pub record SubscriptionRow : Type 0 where
  pub id : Uuid
  pub user_id : Uuid
  pub endpoint : String
  pub p256dh : String
  pub auth : String
  pub updated_at : ℕ

pub data NotificationDeliveryError : Type 0 where
  configuration : String → NotificationDeliveryError
  network : String → NotificationDeliveryError

-- `to_string` of its `Display`.
abbrev pub error_text : NotificationDeliveryError → String
error_text (configuration message) = text_append "notification configuration: " message
error_text (network message) = text_append "notification delivery: " message

pub record NotificationTarget : Type 0 where
  pub user_id : Uuid
  pub email : String
  pub endpoint : Option String
  pub p256dh : Option String
  pub auth : Option String

-- `Result<(), NotificationDeliveryError>`.
pub data Outcome : Type 0 where
  accepted : Outcome
  failed : NotificationDeliveryError → Outcome

-- `NotificationSink::deliver`.
abbrev pub Sink : Type 0
Sink = NotificationTarget → String → String → Outcome

abbrev pub disabled_sink : Sink
disabled_sink target kind body = accepted

-- `attempts` counts from 0, so the lower bound of `clamp(0, 12)` is never met from below.
unfoldable pub retry_delay_ms : ℕ → ℕ
retry_delay_ms attempts = min (2 ^ min attempts 12 * 1000) 3600000

abbrev pub reclaim_millis : ℕ
reclaim_millis = 60000

abbrev pub batch : ℕ
batch = 32

-- `claimed_at < $1 - 60000`.
abbrev pub is_stale : ℕ → Option ℕ → Bool
is_stale now none = false
is_stale now (some t) = ltb (t + reclaim_millis) now

abbrev pub is_unsent : DeliveryRow → Bool
is_unsent d = is_null d.sent_at

-- `sent_at IS NULL AND next_attempt_at <= $1 AND (claimed_at IS NULL OR claimed_at < $1 - 60000)`.
abbrev pub is_claimable : ℕ → DeliveryRow → Bool
is_claimable now d =
    is_unsent d && leb d.next_attempt_at now && (is_null d.claimed_at || is_stale now d.claimed_at)

-- `ORDER BY next_attempt_at, id`.
abbrev pub is_sooner : DeliveryRow → DeliveryRow → Bool
is_sooner a b =
    ltb a.next_attempt_at b.next_attempt_at
    || (a.next_attempt_at == b.next_attempt_at && ltb a.id b.id)

abbrev pub delivery_id : DeliveryRow → ℕ
delivery_id d = d.id

abbrev pub is_delivery : Uuid → DeliveryRow → Bool
is_delivery id d = d.id == id

abbrev pub mark_claimed : ℕ → DeliveryRow → DeliveryRow
mark_claimed now d = record d { claimed_at = some now; attempts = suc d.attempts }

-- The common table expression `next`.
unfoldable pub next_deliveries : ℕ → (Uuid → Bool) → List DeliveryRow → List DeliveryRow
next_deliveries now locked rows =
    chosen delivery_id batch is_sooner (λ d. is_claimable now d && not (locked d.id)) rows

-- The table after the claim, and the rows that it returns; PostgreSQL promises them in no order.
unfoldable pub claim_deliveries :
    ℕ → (Uuid → Bool) → List DeliveryRow → List DeliveryRow × List DeliveryRow
claim_deliveries now locked rows =
    let next = next_deliveries now locked rows in
    let rows' = update (is_among delivery_id next) (mark_claimed now) rows in
    (rows', keep (is_among delivery_id next) rows')

abbrev pub subscription_id : SubscriptionRow → ℕ
subscription_id s = s.id

-- `ORDER BY updated_at DESC, id DESC`.
abbrev pub is_newer : SubscriptionRow → SubscriptionRow → Bool
is_newer a b = ltb b.updated_at a.updated_at || (a.updated_at == b.updated_at && ltb b.id a.id)

-- A column of the row that an outer join may not find.
abbrev pub joined_column {ℓ} : {A : Type ℓ} → (A → String) → Option A → Option String
joined_column column none = none
joined_column column (some a) = some (column a)

abbrev pub first_of {ℓ} : {A : Type ℓ} → List A → Option A
first_of [] = none
first_of (x ∷ xs) = some x

-- `LEFT JOIN LATERAL (…) s ON d.channel='browser'`.
unfoldable pub subscription_of : List SubscriptionRow → DeliveryRow → Option SubscriptionRow
subscription_of subscriptions d =
    if str_eq d.channel "browser"
    then first_of (chosen subscription_id 1 is_newer (λ s. s.user_id == d.user_id) subscriptions)
    else none

unfoldable pub target_of : List SubscriptionRow → DeliveryRow → NotificationTarget
target_of subscriptions d =
    let s = subscription_of subscriptions d in
    record {
      user_id = d.user_id;
      email = d.email;
      endpoint = joined_column (λ s. s.endpoint) s;
      p256dh = joined_column (λ s. s.p256dh) s;
      auth = joined_column (λ s. s.auth) s;
    }

abbrev pub mark_sent : ℕ → DeliveryRow → DeliveryRow
mark_sent now d = record d { sent_at = some now; claimed_at = none }

abbrev pub mark_failed : ℕ → String → DeliveryRow → DeliveryRow
mark_failed next message d = record d {
  claimed_at = none;
  next_attempt_at = next;
  last_error = some message;
}

-- What a task records of its delivery, by the time and the attempts that its row had.
unfoldable pub record_outcome : ℕ → DeliveryRow → Outcome → List DeliveryRow → List DeliveryRow
record_outcome now d accepted rows =
    update (λ r. is_delivery d.id r && is_unsent r) (mark_sent now) rows
record_outcome now d (failed e) rows =
    update (λ r. is_delivery d.id r && is_unsent r)
      (mark_failed (now + retry_delay_ms d.attempts) (error_text e)) rows

-- A claimed row with the target that the claim joined to it.
pub record Task : Type 0 where
  pub row : DeliveryRow
  pub target : NotificationTarget

abbrev pub tasks_of : List SubscriptionRow → List DeliveryRow → List Task
tasks_of subscriptions ds = map (λ d. record { row = d; target = target_of subscriptions d }) ds

-- One spawned task; what its update answers is only logged.
unfoldable pub run_task :
    (email_sink browser_sink : Sink) → ℕ → Answer → Task → List DeliveryRow → List DeliveryRow
run_task email_sink browser_sink now answer task rows =
    let d = task.row in
    let sink = if str_eq d.channel "email" then email_sink else browser_sink in
    let outcome = sink task.target d.kind d.body in
    if took_effect answer then record_outcome now d outcome rows else rows
