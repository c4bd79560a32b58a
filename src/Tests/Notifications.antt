-- ===== src/Tests/Notifications.antt =====
-- Concrete deliveries.
use vussa.Base.{
  ℕ, ◌≡◌, refl, min, length, Bool, true, false, Option, none, List, [], ◌∷◌, keep, arith, chosen,
  Distinct, same_key, any, all, sort_by,
}
use vussa.Models.{Uuid}
use vussa.Rooms.{Answer}
use vussa.Notifications.{
  DeliveryRow, SubscriptionRow, NotificationDeliveryError, Outcome, Sink, Task, is_unsent,
  delivery_id, disabled_sink, claim_deliveries, run_task, target_of, subscription_of,
  retry_delay_ms,
}
use vussa.Notifications.Retries.{
  DeliveryQueue, DeliverySteps, no_step, one_more, insert_delivery, end_task, no_deliveries,
  claim_deliveries-unsent,
}

abbrev mention : DeliveryRow
mention = record {
  id = 7;
  notification_id = 70;
  user_id = 3;
  channel = "browser";
  email = "ann@example.com";
  kind = "mention";
  body = "bob mentioned you in #main";
  attempts = 0;
  next_attempt_at = 1000;
  claimed_at = none;
  sent_at = none;
  last_error = none;
}

abbrev down_sink : Sink
down_sink target kind body = Outcome.failed (NotificationDeliveryError.network "503")

abbrev nobody_holds : Uuid → Bool
nobody_holds id = false

abbrev mention_task : Task
mention_task = record { row = record mention { attempts = 3 }; target = target_of [] mention }

abbrev failed_rows : List DeliveryRow
failed_rows = run_task disabled_sink down_sink 5000 Answer.done mention_task (mention ∷ [])

abbrev failed_queue : DeliveryQueue
failed_queue = record { rows = failed_rows; clock = 5000 }

failed_steps : DeliverySteps no_deliveries failed_queue
failed_steps =
    one_more (one_more no_step (insert_delivery 1000 mention (omega arith) refl))
      (end_task 5000 disabled_sink down_sink Answer.done mention_task (omega arith))

retry_delays : (retry_delay_ms 0 ≡ 1000) × (retry_delay_ms 3 ≡ 8000) × (retry_delay_ms 99 ≡ 3600000)
unfolding retry_delay_ms
retry_delays = (refl, refl, refl)

claim_deliveries-unsent_example :
    (length (claim_deliveries 3605000 nobody_holds failed_rows).1
      ≡ min 32 (length (keep is_unsent failed_rows)))
    × Distinct (same_key delivery_id) (claim_deliveries 3605000 nobody_holds failed_rows).1
    × (all
          (λ d. any (same_key delivery_id d) (keep is_unsent failed_rows))
          (claim_deliveries 3605000 nobody_holds failed_rows).1
        ≡ true)
claim_deliveries-unsent_example = claim_deliveries-unsent failed_steps 3605000 (omega arith)

abbrev subscribed : ℕ → ℕ → SubscriptionRow
subscribed id updated_at = record {
  id = id;
  user_id = 3;
  endpoint = "https://push.example.com";
  p256dh = "p";
  auth = "a";
  updated_at = updated_at;
}

latest_subscription :
    subscription_of (subscribed 1 10 ∷ subscribed 2 30 ∷ subscribed 3 20 ∷ []) mention
    ≡ Option.some (subscribed 2 30)
unfolding subscription_of chosen sort_by keep
latest_subscription = refl
