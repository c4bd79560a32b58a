-- ===== src/Notifications/Settled.antt =====
-- What the notifications of a run leave in the table.
use vussa.Base.{
  ℕ, ◌==◌, ==_refl, str_eq_refl, eq_iff, ◌≡◌, refl, sym, ap, str_eq, Bool, true, false, not, ◌&&◌,
  ◌||◌, List, [], ◌∷◌, ◌++◌, any, all, arith, Bool-cases, inl, inr, Distinct, same_key, any-append,
}
use vussa.Models.{AuthUser, ChatMessage}
use vussa.Database.Tables.{update}
use vussa.Notifications.Recipients.{NotificationRow, Recipient}
use vussa.Notifications.Creation.{
  Run, conflicts, set_body, new_notification, upsert_notification, insert_notifications,
}

abbrev pub recipient_id : Recipient → ℕ
recipient_id r = r.user_id

module _ (actor : AuthUser) (message : ChatMessage) where
  -- The table has what the recipient is told, and nothing else under the same key.
  abbrev pub is_settled : Recipient → List NotificationRow → Bool
  is_settled r rows =
      any (conflicts actor message r) rows
      && all (λ n. not (conflicts actor message r n) || str_eq n.body r.body) rows

  any-set_body :
      (r s : Recipient) (rows : List NotificationRow)
      → any
          (conflicts actor message r)
          (update (conflicts actor message s) (set_body actor message s.body) rows)
        ≡ any (conflicts actor message r) rows
  unfolding update
  any-set_body r s [] = refl
  any-set_body r s (n ∷ rows) = ground (arith, any-set_body r s rows)

  all-set_body :
      (r : Recipient) (rows : List NotificationRow)
      → all
          (λ n. not (conflicts actor message r n) || str_eq n.body r.body)
          (update (conflicts actor message r) (set_body actor message r.body) rows)
        ≡ true
  unfolding update
  all-set_body r [] = refl
  all-set_body r (n ∷ rows) = ground (arith, str_eq_refl r.body, all-set_body r rows)

  all-set_other :
      (r s : Recipient) (rows : List NotificationRow)
      → s.user_id == r.user_id ≡ false
      → all (λ n. not (conflicts actor message r n) || str_eq n.body r.body) rows ≡ true
      → all
          (λ n. not (conflicts actor message r n) || str_eq n.body r.body)
          (update (conflicts actor message s) (set_body actor message s.body) rows)
        ≡ true
  unfolding update
  all-set_other r s [] d h = refl
  all-set_other r s (n ∷ rows) d h = ground (arith, all-set_other r s rows)

  all-new :
      (r : Recipient) (n : NotificationRow) (rows : List NotificationRow)
      → all (λ n. not (conflicts actor message r n) || str_eq n.body r.body) rows ≡ true
      → (not (conflicts actor message r n) || str_eq n.body r.body) ≡ true
      → all (λ n. not (conflicts actor message r n) || str_eq n.body r.body) (rows ++ n ∷ []) ≡ true
  all-new r n [] h k = ground arith
  all-new r n (m ∷ rows) h k = ground (arith, all-new r n rows)

  none-settled :
      (r : Recipient) (rows : List NotificationRow)
      → any (conflicts actor message r) rows ≡ false
      → all (λ n. not (conflicts actor message r n) || str_eq n.body r.body) rows ≡ true
  none-settled r [] h = refl
  none-settled r (n ∷ rows) h = ground (arith, none-settled r rows)

  upsert_notification-is_settled :
      (run : Run) (r : Recipient) (rows : List NotificationRow)
      → is_settled r (upsert_notification actor message run r rows) ≡ true
  unfolding upsert_notification
  upsert_notification-is_settled run r rows =
      elim (Bool-cases (any (conflicts actor message r) rows)) [
        | inl there ↦ rw there (ground (arith, any-set_body r r rows, all-set_body r rows))
        | inr absent ↦ rw absent (
            ground (
              arith,
              ==_refl r.user_id,
              ==_refl message.id,
              str_eq_refl r.kind,
              str_eq_refl r.body,
              any-append (conflicts actor message r) rows
                  (new_notification actor message run r ∷ []),
              all-new r (new_notification actor message run r) rows (none-settled r rows absent),
            ))
      ]

  upsert_notification-stays :
      (run : Run) (r s : Recipient) (rows : List NotificationRow)
      → s.user_id == r.user_id ≡ false
      → is_settled r rows ≡ true
      → is_settled r (upsert_notification actor message run s rows) ≡ true
  unfolding upsert_notification
  upsert_notification-stays run r s rows d h =
      elim (Bool-cases (any (conflicts actor message s) rows)) [
        | inl there ↦ rw there (ground (arith, any-set_body r s rows, all-set_other r s rows d))
        | inr absent ↦ rw absent (
            ground (
              arith,
              any-append (conflicts actor message r) rows
                  (new_notification actor message run s ∷ []),
              all-new r (new_notification actor message run s) rows,
            ))
      ]

  insert_notifications-stays :
      (run : Run) (r : Recipient) (rs : List Recipient) (rows : List NotificationRow)
      → any (same_key recipient_id r) rs ≡ false
      → is_settled r rows ≡ true
      → is_settled r (insert_notifications actor message run rs rows) ≡ true
  unfolding insert_notifications
  insert_notifications-stays run r [] rows d h = h
  insert_notifications-stays run r (s ∷ rs) rows d h =
      insert_notifications-stays run r rs (upsert_notification actor message run s rows)
        (ground arith) (upsert_notification-stays run r s rows (ground arith) h)

  pub insert_notifications-settles :
      (run : Run) (rs : List Recipient) (rows : List NotificationRow)
      → Distinct (same_key recipient_id) rs
      → all (λ r. is_settled r (insert_notifications actor message run rs rows)) rs ≡ true
  unfolding insert_notifications
  insert_notifications-settles run [] rows d = refl
  insert_notifications-settles run (r ∷ rs) rows d =
      let rows' = upsert_notification actor message run r rows in
      ground (
        arith,
        insert_notifications-stays run r rs rows' d.0 (upsert_notification-is_settled run r rows),
        insert_notifications-settles run rs rows' d.1,
      )

  same_body :
      (r : Recipient) (n : NotificationRow) → n.body ≡ r.body → set_body actor message r.body n ≡ n
  same_body r n e = ap (λ b. set_body actor message b n) (sym e)

  update_settled :
      (r : Recipient) (rows : List NotificationRow)
      → all (λ n. not (conflicts actor message r n) || str_eq n.body r.body) rows ≡ true
      → update (conflicts actor message r) (set_body actor message r.body) rows ≡ rows
  unfolding update
  update_settled r [] h = refl
  update_settled r (n ∷ rows) h =
      ground (arith, eq_iff n.body r.body, same_body r n, update_settled r rows)

  upsert_notification-again :
      (run : Run) (r : Recipient) (rows : List NotificationRow)
      → is_settled r rows ≡ true
      → upsert_notification actor message run r rows ≡ rows
  unfolding upsert_notification
  upsert_notification-again run r rows h = ground (arith, update_settled r rows)

  pub insert_notifications-again :
      (run : Run) (rs : List Recipient) (rows : List NotificationRow)
      → all (λ r. is_settled r rows) rs ≡ true
      → insert_notifications actor message run rs rows ≡ rows
  unfolding insert_notifications
  insert_notifications-again run [] rows h = refl
  insert_notifications-again run (r ∷ rs) rows h =
      ground (arith, upsert_notification-again run r rows, insert_notifications-again run rs rows)
