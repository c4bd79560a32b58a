-- ===== src/Sessions/Invalidation.antt =====
-- The outbox at work on the sessions: a delivery of the event that a change of a user's rights
-- leaves ends the sessions of the user.
use vussa.Base.{
  ◌≡◌, refl, ap, and_left, and_right, String, str_eq, Bool, true, false, not, ◌&&◌, Option, none,
  some, List, [], ◌∷◌, any, arith, Bool-cases, inl, inr, ◌==◌, any-keep_fewer, ==_iff,
}
use vussa.Models.{Uuid, Json}
use vussa.Error.{Result, ok, err}
use vussa.Rooms.{Answer}
use vussa.Sessions.{
  Codec, Store, InvalidateAnswers, invalidate, handle_auth_invalidate, payload_id, delete_listed,
  session_ids, called, end_published, delete_entries, has_session_id,
}
use vussa.Sessions.Owned.{HasNone, IsIndexed, owned_by}
use vussa.Sessions.Revocation.{IsRevoked, handle_auth_invalidate-IsRevoked}
use vussa.Sessions.Ended.{handle_auth_invalidate-IsIndexed}
use vussa.Outbox.{EventRow, Handler, Round, dispatch, deliver, completed, is_ok}

abbrev pub all_answered : InvalidateAnswers
all_answered = record {
  smembers = Answer.done;
  del = Answer.done;
  del_set = Answer.done;
  publish = Answer.done;
}

module _ (c : Codec) where
  abbrev pub names : Uuid → Option Uuid → Bool
  names user none = false
  names user (some other) = other == user

  -- An event that asks to end the sessions of the user.
  abbrev pub is_invalidation : Uuid → EventRow → Bool
  is_invalidation user e =
      str_eq e.topic "auth.invalidate" && names user (payload_id c "user_id" e.payload)

module _ (c : Codec) (retry : Json → Result (Unit {0})) where
  -- The handlers of `dispatch`, where Valkey answers. A retry of notifications leaves the sessions.
  abbrev pub on_invalidate : Handler Store
  on_invalidate payload s = handle_auth_invalidate c all_answered payload s

  abbrev pub on_notification : Handler Store
  on_notification payload s = (retry payload, s)

  invalidate-HasNone :
      (user : Uuid) (other : Option Uuid) (s : Store)
      → HasNone c user s
      → HasNone c user (invalidate all_answered other s).1
  invalidate-HasNone user none s h = h
  invalidate-HasNone user (some other) s h = listed (session_ids other s)
    where
      listed :
          (ids : List Uuid)
          → HasNone c user
              (delete_listed all_answered.del ids
                (called all_answered.del_set
                  (delete_entries other)
                  (end_published all_answered.publish))
                s).1
      listed [] = h
      listed (id ∷ ids) =
          any-keep_fewer (owned_by c user) (λ k. not (any (λ x. has_session_id x k) (id ∷ ids)))
            s.sessions h

  dispatch-HasNone :
      (user : Uuid) (topic : String) (payload : Json) (s : Store)
      → HasNone c user s
      → HasNone c user (dispatch on_invalidate on_notification topic payload s).1
  unfolding dispatch handle_auth_invalidate
  dispatch-HasNone user topic payload s h =
      ground (arith, invalidate-HasNone user (payload_id c "user_id" payload) s h)

  dispatch-IsIndexed :
      (topic : String) (payload : Json) (s : Store)
      → IsIndexed c s
      → IsIndexed c (dispatch on_invalidate on_notification topic payload s).1
  unfolding dispatch
  dispatch-IsIndexed topic payload s h = elim (Bool-cases (str_eq topic "auth.invalidate")) [
    | inl e ↦ rw e (handle_auth_invalidate-IsIndexed c all_answered payload s h)
    | inr e ↦ rw e (elim (Bool-cases (str_eq topic "message.notifications")) [
      | inl e' ↦ rw e' h
      | inr e' ↦ rw e' h
    ])
  ]

  succeeded-HasNone :
      (user : Uuid) (o : Result (Unit {0}) × Store)
      → is_ok o.0 ≡ true
      → IsRevoked c user o
      → HasNone c user o.1
  succeeded-HasNone user (ok a, s) e h = h
  succeeded-HasNone user (err a, s) e h = absurd (cc e)

  answered : (user : Uuid) (s : Store) → is_ok (invalidate all_answered (some user) s).0 ≡ true
  answered user s = listed (session_ids user s)
    where
      listed :
          (ids : List Uuid)
          → is_ok
              (delete_listed all_answered.del ids
                (called all_answered.del_set
                  (delete_entries user)
                  (end_published all_answered.publish))
                s).0
            ≡ true
      listed [] = refl
      listed (id ∷ ids) = refl

  named : (user : Uuid) (found : Option Uuid) → names c user found ≡ true → found ≡ some user
  named user none h = absurd (cc h)
  named user (some other) h = ap some ((==_iff other user).0 h)

  dispatch-ends :
      (user : Uuid) (e : EventRow) (s : Store)
      → is_invalidation c user e ≡ true
      → IsIndexed c s
      → HasNone c user (dispatch on_invalidate on_notification e.topic e.payload s).1
  unfolding dispatch handle_auth_invalidate
  dispatch-ends user e s h indexed =
      let topic : str_eq e.topic "auth.invalidate" ≡ true = and_left _ _ h in
      let who = named user (payload_id c "user_id" e.payload) (and_right _ _ h) in
      rw topic (
        succeeded-HasNone user (handle_auth_invalidate c all_answered e.payload s)
          (rw who (answered user s))
          (handle_auth_invalidate-IsRevoked c all_answered e.payload user s who indexed))

  deliver-HasNone :
      (user : Uuid) (round : Round) (es rows : List EventRow) (s : Store)
      → HasNone c user s
      → HasNone c user (deliver on_invalidate on_notification round es rows s).1
  unfolding deliver
  deliver-HasNone user round [] rows s h = h
  deliver-HasNone user round (e ∷ es) rows s h =
      let (r, s') = dispatch on_invalidate on_notification e.topic e.payload s in
      deliver-HasNone user round es (completed on_invalidate on_notification round e (is_ok r) rows)
        s' (dispatch-HasNone user e.topic e.payload s h)

  -- If every session is in the set of its user and Valkey answers: once a batch of claimed events is
  -- delivered that has one which asks to end the sessions of a user, the store has no session of
  -- this user, wherever in the batch the event stands and whatever the database answers.
  pub deliver-ends :
      (user : Uuid) (round : Round) (es rows : List EventRow) (s : Store)
      → any (is_invalidation c user) es ≡ true
      → IsIndexed c s
      → HasNone c user (deliver on_invalidate on_notification round es rows s).1
  unfolding deliver
  deliver-ends user round [] rows s h indexed = absurd (cc h)
  deliver-ends user round (e ∷ es) rows s h indexed =
      let (r, s') = dispatch on_invalidate on_notification e.topic e.payload s in
      let rows' = completed on_invalidate on_notification round e (is_ok r) rows in
      elim (Bool-cases (is_invalidation c user e)) [
        | inl here ↦ deliver-HasNone user round es rows' s' (dispatch-ends user e s here indexed)
        | inr later ↦
            deliver-ends user round es rows' s' (rw later at h)
              (dispatch-IsIndexed e.topic e.payload s indexed)
      ]
