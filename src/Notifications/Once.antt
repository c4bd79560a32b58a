-- ===== src/Notifications/Once.antt =====
-- That a delivery is inserted once.
use vussa.Base.{
  ==_refl, str_eq_refl, ◌≡◌, refl, Bool, true, Option, none, some, List, [], ◌∷◌, any, all, arith,
  any-append,
}
use vussa.Notifications.{DeliveryRow}
use vussa.Notifications.Recipients.{NotificationRow, Recipient}
use vussa.Notifications.Creation.{
  Run, notification_for, deliveries_for, deliveries_of, is_repeated, insert_once, insert_deliveries,
}

is_repeated_self : (d : DeliveryRow) → is_repeated d d ≡ true
is_repeated_self d = ground (arith, ==_refl d.notification_id, str_eq_refl d.channel)

abbrev pub is_there : List DeliveryRow → DeliveryRow → Bool
is_there rows d = any (is_repeated d) rows

insert_once-there :
    (d : DeliveryRow) (rows : List DeliveryRow) → is_there (insert_once d rows) d ≡ true
unfolding insert_once
insert_once-there d rows =
    ground (arith, is_repeated_self d, any-append (is_repeated d) rows (d ∷ []))

insert_once-stays :
    (d e : DeliveryRow) (rows : List DeliveryRow)
    → is_there rows d ≡ true
    → is_there (insert_once e rows) d ≡ true
unfolding insert_once
insert_once-stays d e rows h = ground (arith, any-append (is_repeated d) rows (e ∷ []))

insert_deliveries-stays :
    (d : DeliveryRow) (ds rows : List DeliveryRow)
    → is_there rows d ≡ true
    → is_there (insert_deliveries ds rows) d ≡ true
unfolding insert_deliveries
insert_deliveries-stays d [] rows h = h
insert_deliveries-stays d (e ∷ ds) rows h =
    insert_deliveries-stays d ds (insert_once e rows) (insert_once-stays d e rows h)

pub insert_deliveries-there :
    (ds rows : List DeliveryRow) → all (is_there (insert_deliveries ds rows)) ds ≡ true
unfolding insert_deliveries
insert_deliveries-there [] rows = refl
insert_deliveries-there (d ∷ ds) rows = ground (
  arith,
  insert_deliveries-stays d ds (insert_once d rows) (insert_once-there d rows),
  insert_deliveries-there ds (insert_once d rows),
)

insert_once-again :
    (d : DeliveryRow) (rows : List DeliveryRow) → is_there rows d ≡ true → insert_once d rows ≡ rows
unfolding insert_once
insert_once-again d rows h = rw h refl

pub insert_deliveries-again :
    (ds rows : List DeliveryRow) → all (is_there rows) ds ≡ true → insert_deliveries ds rows ≡ rows
unfolding insert_deliveries
insert_deliveries-again [] rows h = refl
insert_deliveries-again (d ∷ ds) rows h =
    ground (arith, insert_once-again d rows, insert_deliveries-again ds rows)

-- Two runs make deliveries of the same keys.
deliveries_for-there :
    (run other : Run) (rows : List DeliveryRow) (r : Recipient) (n : Option NotificationRow)
    (ds es : List DeliveryRow)
    → all (is_there rows) ds ≡ all (is_there rows) es
    → all (is_there rows) (deliveries_for run r n ds)
      ≡ all (is_there rows) (deliveries_for other r n es)
deliveries_for-there run other rows r none ds es h = h
deliveries_for-there run other rows r (some n) ds es h = ground arith

pub deliveries_of-there :
    (run other : Run) (rows : List DeliveryRow) (ids : List NotificationRow) (rs : List Recipient)
    → all (is_there rows) (deliveries_of run ids rs)
      ≡ all (is_there rows) (deliveries_of other ids rs)
unfolding deliveries_of
deliveries_of-there run other rows ids [] = refl
deliveries_of-there run other rows ids (r ∷ rs) =
    deliveries_for-there run other rows r (notification_for ids r) _ _
      (deliveries_of-there run other rows ids rs)
