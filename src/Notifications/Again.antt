-- ===== src/Notifications/Again.antt =====
-- That a run which is made again for a message adds nothing.
use vussa.Base.{
  ℕ, ◌≡◌, refl, ap, ◌∙◌, String, false, Option, none, some, List, [], ◌∷◌, any, find, if◌then◌else◌,
  arith, Bool-cases, Option-cases, inl, inr, Distinct, same_key,
}
use vussa.Models.{Uuid, AuthUser, ChatMessage}
use vussa.Accounts.{Account}
use vussa.Database.{ChannelRow}
use vussa.Database.Tables.{is_live}
use vussa.Text.{Unicode}
use vussa.Notifications.{DeliveryRow}
use vussa.Notifications.Recipients.{
  NotificationRow, NotifyTables, Recipient, Mentions, mentions_in, select_recipients,
  recipients_among, recipient, is_recipient, in_channel,
}
use vussa.Notifications.Creation.{
  Run, insert_notifications, returned, deliveries_of, insert_deliveries, recipients_at,
  write_notifications, create_message_notifications,
}
use vussa.Notifications.Settled.{
  recipient_id, insert_notifications-settles, insert_notifications-again,
}
use vussa.Notifications.Once.{insert_deliveries-there, insert_deliveries-again, deliveries_of-there}

abbrev pub account_id : Account → ℕ
account_id a = a.id

module _ (u : Unicode) (actor : AuthUser) (message : ChatMessage) (m : Mentions) (now : ℕ)
    (t : NotifyTables) where
  recipients_among-fewer :
      (c : ChannelRow) (a : Account) (b : Recipient) (users : List Account)
      → b.user_id ≡ a.id
      → any (same_key account_id a) users ≡ false
      → any (same_key recipient_id b) (recipients_among u actor message m now t c users) ≡ false
  unfolding recipients_among recipient
  recipients_among-fewer c a b [] e h = refl
  recipients_among-fewer c a b (user ∷ users) e h =
      ground (arith, recipients_among-fewer c a b users e)

  recipients_among-Distinct :
      (c : ChannelRow) (users : List Account)
      → Distinct (same_key account_id) users
      → Distinct (same_key recipient_id) (recipients_among u actor message m now t c users)
  unfolding recipients_among recipient
  recipients_among-Distinct c [] d = tt
  recipients_among-Distinct c (user ∷ users) d =
      let b = recipient u actor message m t.preferences c user in
      elim (Bool-cases (is_recipient actor m now t c user)) [
        | inl told ↦
            rw told (
              recipients_among-fewer c user b users refl d.0,
              recipients_among-Distinct c users d.1,
            )
        | inr other ↦ rw other (recipients_among-Distinct c users d.1)
      ]

  select_recipients-Distinct :
      Distinct (same_key account_id) t.users
      → Distinct (same_key recipient_id) (select_recipients u actor message m now t)
  unfolding select_recipients
  select_recipients-Distinct d = in_channel-Distinct (find (is_live message.channel) t.channels)
    where
      in_channel-Distinct :
          (c : Option ChannelRow)
          → Distinct
              (same_key recipient_id)
              (in_channel (λ c. recipients_among u actor message m now t c t.users) c)
      in_channel-Distinct none = tt
      in_channel-Distinct (some c) = recipients_among-Distinct c t.users d

module _ (actor : AuthUser) (message : ChatMessage) where
  -- The rows of a second run, for the same recipients.
  rows_again :
      (run other : Run) (rs : List Recipient) (rows : List NotificationRow)
      → Distinct (same_key recipient_id) rs
      → insert_notifications actor message other rs (insert_notifications actor message run rs rows)
        ≡ insert_notifications actor message run rs rows
  rows_again run other rs rows d =
      insert_notifications-again actor message other rs _
        (insert_notifications-settles actor message run rs rows d)

  deliveries_again :
      (run other : Run) (ids : List NotificationRow) (rs : List Recipient) (rows : List DeliveryRow)
      → insert_deliveries
          (deliveries_of other ids rs)
          (insert_deliveries (deliveries_of run ids rs) rows)
        ≡ insert_deliveries (deliveries_of run ids rs) rows
  deliveries_again run other ids rs rows = insert_deliveries-again (deliveries_of other ids rs) _ (
      deliveries_of-there other run (insert_deliveries (deliveries_of run ids rs) rows) ids rs
      ∙ insert_deliveries-there (deliveries_of run ids rs) rows)

  write_notifications-again :
      (run other : Run) (rs : List Recipient) (t : NotifyTables)
      → Distinct (same_key recipient_id) rs
      → write_notifications actor message other rs (write_notifications actor message run rs t)
        ≡ write_notifications actor message run rs t
  unfolding write_notifications
  write_notifications-again run other rs t d =
      let ns = insert_notifications actor message run rs t.notifications in
      let ids = returned actor message rs ns in
      rw (rows_again run other rs t.notifications d)
        (rw (deliveries_again run other ids rs t.deliveries) refl)

  -- What is written is not read when the recipients are selected.
  module _ (u : Unicode) (m : Mentions) (now : ℕ) (run : Run) (rs : List Recipient)
      (t : NotifyTables) where
    recipients_among-written :
        (c : ChannelRow) (users : List Account)
        → recipients_among u actor message m now
            (write_notifications actor message run rs t)
            c
            users
          ≡ recipients_among u actor message m now t c users
    unfolding recipients_among is_recipient write_notifications
    recipients_among-written c [] = refl
    recipients_among-written c (user ∷ users) =
        ap
          (λ rest.
            if is_recipient actor m now t c user
            then recipient u actor message m t.preferences c user ∷ rest
            else rest)
          (recipients_among-written c users)

    select_recipients-written :
        select_recipients u actor message m now (write_notifications actor message run rs t)
        ≡ select_recipients u actor message m now t
    unfolding select_recipients write_notifications
    select_recipients-written = elim (Option-cases (find (is_live message.channel) t.channels)) [
      | inl nowhere ↦ rw nowhere refl
      | inr (c, found) ↦ rw found (recipients_among-written c t.users)
    ]

module _ (parse_uuid : String → Option Uuid) (u : Unicode) (actor : AuthUser)
    (message : ChatMessage) where
  -- Users have different identifiers. A run that is made again for a message, by whichever worker
  -- and with whichever identifiers, and finds the same recipients at its time, leaves the tables as
  -- the first run left them: nobody is told twice of one message.
  pub create_message_notifications-again :
      (run other : Run) (t : NotifyTables)
      → Distinct (same_key account_id) t.users
      → recipients_at parse_uuid u actor message other.read_at t
        ≡ recipients_at parse_uuid u actor message run.read_at t
      → create_message_notifications parse_uuid u actor message other
          (create_message_notifications parse_uuid u actor message run t)
        ≡ create_message_notifications parse_uuid u actor message run t
  unfolding create_message_notifications recipients_at
  create_message_notifications-again run other t d same =
      let m = mentions_in parse_uuid u actor message in
      let rs = select_recipients u actor message m run.read_at t in
      rw (select_recipients-written actor message u m other.read_at run rs t ∙ same) (
        write_notifications-again actor message run other rs t
          (select_recipients-Distinct u actor message m run.read_at t d))
