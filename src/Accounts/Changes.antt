-- ===== src/Accounts/Changes.antt =====
-- The changes of an administrator to a user, as one type, and that each leaves an event which ends
-- the sessions of the user.
use vussa.Base.{
  ◌≡◌, ==_refl, String, Bool, true, false, ◌&&◌, [], ◌∷◌, any, some, arith, any-append,
}
use vussa.Models.{Uuid, Session}
use vussa.Error.{Result}
use vussa.Sessions.{Codec}
use vussa.Sessions.Invalidation.{is_invalidation}
use vussa.Outbox.{EventRow}
use vussa.Outbox.Final.{is_pending}
use vussa.Outbox.Draining.{is_fresh}
use vussa.Accounts.{Tables, Stamps, Tx, queue_auth_invalidation, invalidation}
use vussa.Accounts.After.{After, end-After}
use vussa.Accounts.Administration.{
  admin_disable_user, admin_enable_user, admin_delete_user, admin_reset_password,
  admin_invalidate_sessions, admin_assign_role, admin_remove_role, set_user_disabled, assign_role,
}

pub data Change : Type 0 where
  disable : Change
  enable : Change
  delete : Change
  reset_password : (password : String) → Change
  invalidate_sessions : Change
  give_role : (role : String) → Change
  take_role : (role : String) → Change

unfoldable pub apply : (String → Result String) → Stamps → Session → Uuid → Change → Tx (Unit {0})
apply argon stamps session user Change.disable = admin_disable_user stamps session user
apply argon stamps session user Change.enable = admin_enable_user stamps session user
apply argon stamps session user Change.delete = admin_delete_user stamps session user
apply argon stamps session user (Change.reset_password password) =
    admin_reset_password stamps argon session user password
apply argon stamps session user Change.invalidate_sessions =
    admin_invalidate_sessions stamps session user
apply argon stamps session user (Change.give_role role) = admin_assign_role stamps session user role
apply argon stamps session user (Change.take_role role) = admin_remove_role stamps session user role

module _ (c : Codec) (user : Uuid) where
  -- An event that is waiting, and asks to end the sessions of the user.
  abbrev pub is_queued : EventRow → Bool
  is_queued e = is_invalidation c user e && is_pending e && is_fresh e

  abbrev pub HasQueued : Tables → Type 0
  HasQueued t = any is_queued t.outbox_events ≡ true

  module _ (argon : String → Result String) (stamps : Stamps) (session : Session)
      (stamps_parse : c.parse_uuid (stamps.uuid_text user) ≡ some user) where
    queue-HasQueued : (t : Tables) → After HasQueued (queue_auth_invalidation stamps user t)
    unfolding queue_auth_invalidation
    queue-HasQueued t =
        rw (any-append is_queued t.outbox_events (invalidation stamps user ∷ []), stamps_parse)
          (ground (arith, ==_refl user))

    set_user_disabled-HasQueued :
        (disabled : Bool) (t : Tables)
        → After HasQueued (set_user_disabled stamps session.user.id user disabled t)
    unfolding set_user_disabled
    set_user_disabled-HasQueued disabled =
        end-After HasQueued _ _ (λ a. end-After HasQueued _ _ (λ a. queue-HasQueued))

    assign_role-HasQueued :
        (role : String) (t : Tables)
        → After HasQueued (assign_role stamps session.user.id user role t)
    unfolding assign_role
    assign_role-HasQueued role =
        end-After HasQueued _ _
          (λ a. end-After HasQueued _ _ (λ a. end-After HasQueued _ _ (λ a. queue-HasQueued)))

    -- Each change of an administrator to a user that succeeds leaves an event in the queue, not yet
    -- claimed, which asks to end the sessions of the user, whose text reads back.
    pub apply-HasQueued :
        (change : Change) (t : Tables) → After HasQueued (apply argon stamps session user change t)
    unfolding apply admin_disable_user admin_enable_user admin_delete_user admin_reset_password
        admin_invalidate_sessions admin_assign_role admin_remove_role
    apply-HasQueued Change.disable = end-After HasQueued _ _ (λ a. set_user_disabled-HasQueued true)
    apply-HasQueued Change.enable = end-After HasQueued _ _ (λ a. set_user_disabled-HasQueued false)
    apply-HasQueued Change.delete = end-After HasQueued _ _ (λ a.
        end-After HasQueued _ _
          (λ a. end-After HasQueued _ _ (λ a. end-After HasQueued _ _ (λ a. queue-HasQueued))))
    apply-HasQueued (Change.reset_password password) = end-After HasQueued _ _ (λ a.
        end-After HasQueued _ _
          (λ a. end-After HasQueued _ _ (λ a. end-After HasQueued _ _ (λ a. queue-HasQueued))))
    apply-HasQueued Change.invalidate_sessions =
        end-After HasQueued _ _ (λ a. end-After HasQueued _ _ (λ a. queue-HasQueued))
    apply-HasQueued (Change.give_role role) =
        end-After HasQueued _ _ (λ a. assign_role-HasQueued role)
    apply-HasQueued (Change.take_role role) = end-After HasQueued _ _ (λ a.
        end-After HasQueued _ _ (λ a.
          end-After HasQueued _ _
            (λ a. end-After HasQueued _ _ (λ a. end-After HasQueued _ _ (λ a. queue-HasQueued)))))
