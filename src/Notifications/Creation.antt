-- ===== src/Notifications/Creation.antt =====
-- backend/src/api/notifications.rs, `create_message_notifications_with_clock`: the rows that it
-- writes in one transaction, by the unique keys of
-- backend/migrations/0019_notification_idempotency.sql and
-- 0020_notification_delivery_idempotency.sql.
use vussa.Base.{
  ℕ, ◌==◌, String, str_eq, Bool, ◌&&◌, Option, none, some, List, [], ◌∷◌, ◌++◌, keep, any, find,
  if◌then◌else◌,
}
use vussa.Models.{Uuid, AuthUser, ChatMessage}
use vussa.Database.Tables.{equals, update}
use vussa.Text.{Unicode}
use vussa.Notifications.{DeliveryRow}
use vussa.Notifications.Recipients.{
  NotificationRow, NotifyTables, Recipient, mentions_in, select_recipients,
}

-- What a run takes from outside: the identifiers that it makes for a user and for a way of delivery,
-- and the clock when it reads the bans and when it has read the recipients.
pub record Run : Type 0 where
  pub notification_id : Uuid → Uuid
  pub delivery_id : Uuid → String → Uuid
  pub read_at : ℕ
  pub now : ℕ

module _ (actor : AuthUser) (message : ChatMessage) where
  -- `ON CONFLICT (user_id, message_id, kind)`.
  abbrev pub conflicts : Recipient → NotificationRow → Bool
  conflicts r n = n.user_id == r.user_id && equals n.message_id message.id && str_eq n.kind r.kind

  abbrev pub set_body : String → NotificationRow → NotificationRow
  set_body body n = record n { body = body }

  abbrev pub new_notification : Run → Recipient → NotificationRow
  new_notification run r = record {
    id = run.notification_id r.user_id;
    user_id = r.user_id;
    actor_user_id = actor.id;
    kind = r.kind;
    message_id = some message.id;
    channel_id = r.channel_id;
    body = r.body;
    created_at = message.created_at;
    read_at = none;
  }

  unfoldable pub upsert_notification : Run → Recipient → List NotificationRow → List NotificationRow
  upsert_notification run r rows =
      if any (conflicts r) rows
      then update (conflicts r) (set_body r.body) rows
      else rows ++ new_notification run r ∷ []

  unfoldable pub insert_notifications :
      Run → List Recipient → List NotificationRow → List NotificationRow
  insert_notifications run [] rows = rows
  insert_notifications run (r ∷ rs) rows =
      insert_notifications run rs (upsert_notification run r rows)

  -- `RETURNING`.
  unfoldable pub returned : List Recipient → List NotificationRow → List NotificationRow
  returned rs rows = keep (λ n. any (λ r. conflicts r n) rs) rows

-- `notification_ids.get(&(user_id, kind))`.
unfoldable pub notification_for : List NotificationRow → Recipient → Option NotificationRow
notification_for rows r = find (λ n. n.user_id == r.user_id && str_eq n.kind r.kind) rows

abbrev pub new_delivery : Run → NotificationRow → Recipient → String → DeliveryRow
new_delivery run n r channel = record {
  id = run.delivery_id r.user_id channel;
  notification_id = n.id;
  user_id = r.user_id;
  channel = channel;
  email = r.email;
  kind = r.kind;
  body = r.body;
  attempts = 0;
  next_attempt_at = run.now;
  claimed_at = none;
  sent_at = none;
  last_error = none;
}

abbrev pub then_some : Bool → DeliveryRow → List DeliveryRow → List DeliveryRow
then_some enabled d ds = if enabled then d ∷ ds else ds

abbrev pub deliveries_for :
    Run → Recipient → Option NotificationRow → List DeliveryRow → List DeliveryRow
deliveries_for run r none ds = ds
deliveries_for run r (some n) ds =
    then_some r.email_enabled (new_delivery run n r "email")
      (then_some r.browser_enabled (new_delivery run n r "browser") ds)

unfoldable pub deliveries_of : Run → List NotificationRow → List Recipient → List DeliveryRow
deliveries_of run ids [] = []
deliveries_of run ids (r ∷ rs) =
    deliveries_for run r (notification_for ids r) (deliveries_of run ids rs)

-- `ON CONFLICT (notification_id, channel)`.
abbrev pub is_repeated : DeliveryRow → DeliveryRow → Bool
is_repeated d e = e.notification_id == d.notification_id && str_eq e.channel d.channel

unfoldable pub insert_once : DeliveryRow → List DeliveryRow → List DeliveryRow
insert_once d rows = if any (is_repeated d) rows then rows else rows ++ d ∷ []

unfoldable pub insert_deliveries : List DeliveryRow → List DeliveryRow → List DeliveryRow
insert_deliveries [] rows = rows
insert_deliveries (d ∷ ds) rows = insert_deliveries ds (insert_once d rows)

-- The transaction. Where nobody is found nothing is written, as the early return says.
unfoldable pub write_notifications :
    AuthUser → ChatMessage → Run → List Recipient → NotifyTables → NotifyTables
write_notifications actor message run rs t =
    let notifications = insert_notifications actor message run rs t.notifications in
    record t {
      notifications = notifications;
      deliveries =
          insert_deliveries (deliveries_of run (returned actor message rs notifications) rs)
            t.deliveries;
    }

module _ (parse_uuid : String → Option Uuid) (u : Unicode) (actor : AuthUser)
    (message : ChatMessage) where
  unfoldable pub recipients_at : ℕ → NotifyTables → List Recipient
  recipients_at now t =
      select_recipients u actor message (mentions_in parse_uuid u actor message) now t

  unfoldable pub create_message_notifications : Run → NotifyTables → NotifyTables
  create_message_notifications run t =
      write_notifications actor message run (recipients_at run.read_at t) t
