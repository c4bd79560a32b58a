-- ===== src/Rooms/Switch.antt =====
-- backend/src/websocket/handler.rs, `handle_socket`: what a socket sends to the room manager when it
-- switches to another room and when it ends, with the inputs of others in between.
use vussa.Base.{
  ℕ, suc, ◌-◌, ◌≡◌, refl, sym, subst, ◌∙◌, String, str_eq, str_eq_refl, eq_iff, Bool, true, false,
  ◌&&◌, ◌||◌, Option, List, [], ◌∷◌, ◌++◌, leb, if◌then◌else◌, inl, inr, Bool-cases, arith,
}
use vussa.Models.{ServerEvent}
use vussa.Rooms.{Manager, Answer, succeeded, Input, serve_all}
use vussa.Rooms.Served.{IsServed}
use vussa.Rooms.Counts.{clients_of, count, count_all, serve_all-clients}

-- The arm of `Ok(Some(new_channel))` and, where the subscription fails, the release after the loop:
-- `channel` is the new room by then. Between the release of the previous room and the subscription
-- the socket waits for Valkey, and others are served.
unfoldable pub failed_switch : String → String → List Input → List Input → List Input
failed_switch previous new between others =
    Input.release Answer.done previous
    ∷ (between
        ++ Input.subscribe Answer.refused new ∷ (others ++ Input.release Answer.done new ∷ []))

-- The arm of `Ok(Some(new_channel))` where the subscription succeeds, and the release at the end.
unfoldable pub switch_and_end : String → String → List Input → List Input → List Input
switch_and_end previous new between others =
    Input.release Answer.done previous
    ∷ (between ++ Input.subscribe Answer.done new ∷ (others ++ Input.release Answer.done new ∷ []))

-- From a room with `n` clients: no subscription to it fails, and only who is in it leaves it.
abbrev pub is_balanced : String → List Input → ℕ → Bool
is_balanced channel [] n = true
is_balanced channel (Input.subscribe a other ∷ rest) n =
    if str_eq other channel
    then (leb 1 n || succeeded a) && is_balanced channel rest (suc n)
    else is_balanced channel rest n
is_balanced channel (Input.release a other ∷ rest) n =
    if str_eq other channel
    then leb 1 n && is_balanced channel rest (n - 1)
    else is_balanced channel rest n
is_balanced channel (Input.payload wire ∷ rest) n = is_balanced channel rest n

count_all-append :
    (channel : String) (xs ys : List Input) (n : ℕ)
    → count_all channel (xs ++ ys) n ≡ count_all channel ys (count_all channel xs n)
unfolding count_all
count_all-append channel [] ys n = refl
count_all-append channel (x ∷ xs) ys n = count_all-append channel xs ys (count channel x n)

-- One client more stays one client more.
count_all-suc :
    (channel : String) (others : List Input) (n : ℕ)
    → is_balanced channel others n ≡ true
    → count_all channel others (suc n) ≡ suc (count_all channel others n)
unfolding count_all
count_all-suc channel [] n h = refl
count_all-suc channel (Input.subscribe a other ∷ rest) n h =
    ground (arith, count_all-suc channel rest n, count_all-suc channel rest (suc n))
count_all-suc channel (Input.release a other ∷ rest) n h =
    elim (Bool-cases (str_eq other channel)) [
      | inl this ↦
          let first : (suc n - 1) ≡ suc (n - 1) = ground (arith, this, h) in
          rw (this, first) (count_all-suc channel rest (n - 1) (ground (arith, this, h)))
      | inr apart ↦ rw apart (count_all-suc channel rest n (ground (arith, apart, h)))
    ]
count_all-suc channel (Input.payload wire ∷ rest) n h = count_all-suc channel rest n h

-- A room that the socket joins and leaves again, and any other.
visit-count :
    (new channel : String) (others : List Input) (n : ℕ)
    → (str_eq new channel ≡ true → is_balanced channel others n ≡ true)
    → count_all channel
        (Input.subscribe Answer.done new ∷ (others ++ Input.release Answer.done new ∷ []))
        n
      ≡ count_all channel others n
unfolding count_all
visit-count new channel others n h =
    count_all-append channel others (Input.release Answer.done new ∷ [])
      (count channel (Input.subscribe Answer.done new) n)
    ∙ elim (Bool-cases (str_eq new channel)) [
      | inl this ↦
          rw (this, or_true (leb 1 n), count_all-suc channel others n (h this)) (omega arith)
      | inr apart ↦ rw apart refl
    ]
  where
    or_true : (b : Bool) → (b || true) ≡ true
    or_true b = ground arith

module _ (decode : String → Option ServerEvent) (previous new : String) (between : List Input)
    (m : Manager) where
  -- From a manager that serves its rooms: a socket that switches from another room and whose
  -- subscription fails releases the new room nevertheless. If nobody is in that room after the inputs
  -- of others before the subscription, and another socket subscribes to it before that release, the
  -- manager counts nobody in it.
  pub failed_switch-clients :
      IsServed m
      → str_eq previous new ≡ false
      → clients_of (serve_all decode between m).rooms new ≡ 0
      → clients_of
          (serve_all decode
            (failed_switch previous new between (Input.subscribe Answer.done new ∷ []))
            m).rooms
          new
        ≡ 0
  unfolding failed_switch count_all
  failed_switch-clients v other nobody =
      serve_all-clients decode new _ m v
      ∙ rw (count_all, other)
          (count_all-append new between _ (clients_of m.rooms new)
            ∙ rw (sym (serve_all-clients decode new between m v), nobody, str_eq_refl new) refl)

  -- From a manager that serves its rooms: a socket leaves its room, is granted the subscription to
  -- another and ends. If, after that subscription, no subscription of the others to the room would
  -- fail without the socket and only who is in the room leaves it, every room is left with as many
  -- clients as if the socket had left its room and had never come to the other.
  pub switch_and_end-clients :
      (others : List Input)
      → IsServed m
      → is_balanced new others
          (clients_of (serve_all decode (Input.release Answer.done previous ∷ between) m).rooms new)
        ≡ true
      → (channel : String)
      → clients_of (serve_all decode (switch_and_end previous new between others) m).rooms channel
        ≡ clients_of
            (serve_all decode (Input.release Answer.done previous ∷ (between ++ others)) m).rooms
            channel
  unfolding switch_and_end
  switch_and_end-clients others v balanced channel =
      let left = Input.release Answer.done previous ∷ between in
      let start = clients_of m.rooms channel in
      serve_all-clients decode channel (switch_and_end previous new between others) m v
      ∙ count_all-append channel left
          (Input.subscribe Answer.done new ∷ (others ++ Input.release Answer.done new ∷ [])) start
      ∙ visit-count new channel others (count_all channel left start) (λ this.
        subst (λ n. is_balanced channel others n ≡ true) (serve_all-clients decode channel left m v)
          (subst (λ c. is_balanced c others (clients_of (serve_all decode left m).rooms c) ≡ true)
            ((eq_iff new channel).0 this) balanced))
      ∙ sym (count_all-append channel left others start)
      ∙ sym (serve_all-clients decode channel (left ++ others) m v)
