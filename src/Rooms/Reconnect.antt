-- ===== src/Rooms/Reconnect.antt =====
-- The loss of the connection: the attempts to restore it, their delays, and what they restore.
use vussa.Base.{
  ℕ, zero, suc, ◌*◌, ◌^◌, min, ◌==◌, ◌≡◌, refl, String, str_eq_refl, Bool, true, not, ◌&&◌, none,
  some, List, [], ◌∷◌, ◌++◌, any, all, if◌then◌else◌, inl, inr, Bool-cases, arith, all-weaken,
}
use vussa.Broadcast.{room_key, control_topic}
use vussa.Rooms.{
  RoomEntry, Manager, Answer, succeeded, Attempt, restore, attempt, try_all, interrupted, reconnect,
  next_room_retry_delay, retry_delay,
}
use vussa.Rooms.Served.{IsServed, is_served, has_topic}

-- Every call of the attempt succeeds.
abbrev pub succeeds : List RoomEntry → Attempt → Bool
succeeds rooms a =
    a.connects && (succeeded a.control && all (λ e. succeeded (a.answers e.channel)) rooms)

-- The topics of a connection that has subscribed those of the rooms.
restored : List RoomEntry → List String → List String
restored [] topics = topics
restored (e ∷ es) topics = restored es (room_key e.channel ∷ topics)

restore-restored :
    (answers : String → Answer) (es : List RoomEntry) (topics : List String)
    → restore answers es topics
      ≡ (if all (λ e. succeeded (answers e.channel)) es then some (restored es topics) else none)
unfolding restore restored
restore-restored answers [] topics = refl
restore-restored answers (e ∷ es) topics = elim (Bool-cases (succeeded (answers e.channel))) [
  | inl good ↦ rw (good, restore-restored answers es (room_key e.channel ∷ topics)) refl
  | inr bad ↦ rw bad refl
]

restored-old :
    (es : List RoomEntry) (topics : List String) (topic : String)
    → has_topic topics topic ≡ true
    → has_topic (restored es topics) topic ≡ true
unfolding restored
restored-old [] topics topic h = h
restored-old (e ∷ es) topics topic h =
    restored-old es (room_key e.channel ∷ topics) topic (ground arith)

restored-new :
    (es : List RoomEntry) (topics : List String)
    → all (λ e. not (e.clients == 0)) es ≡ true
    → all (is_served (restored es topics)) es ≡ true
unfolding restored
restored-new [] topics h = refl
restored-new (e ∷ es) topics h = ground (
  arith,
  restored-old es (room_key e.channel ∷ topics) (room_key e.channel)
      (ground (arith, str_eq_refl (room_key e.channel))),
  restored-new es (room_key e.channel ∷ topics),
)

attempt-restored :
    (a : Attempt) (m : Manager)
    → attempt a m
      ≡ (if succeeds m.rooms a then some (restored m.rooms (control_topic ∷ [])) else none)
unfolding attempt
attempt-restored a m = ground (arith, restore-restored a.answers m.rooms (control_topic ∷ []))

try_all-restored :
    (attempts : List Attempt) (m : Manager)
    → try_all attempts m ≡ (
        if any (succeeds m.rooms) attempts
        then some (record m { topics = restored m.rooms (control_topic ∷ []) })
        else none)
unfolding try_all
try_all-restored [] m = refl
try_all-restored (a ∷ rest) m =
    rw (attempt-restored a m, try_all-restored rest m)
      (elim (Bool-cases (succeeds m.rooms a)) [ inl good ↦ rw good refl | inr bad ↦ rw bad refl ])

-- From a manager that serves its rooms: once an attempt has all its calls answered, the manager is
-- back; it then serves the rooms that it had, with the clients and frames that they had, and the
-- control frames end with the notice of the interruption.
pub reconnect-restores :
    (attempts : List Attempt) (m : Manager)
    → IsServed m
    → any (succeeds m.rooms) attempts ≡ true
    → (back : Manager) × (reconnect attempts m ≡ some back)
      × (back.rooms ≡ m.rooms)
      × (back.control ≡ m.control ++ interrupted ∷ [])
      × IsServed back
unfolding reconnect
reconnect-restores attempts m v h =
    let topics = restored m.rooms (control_topic ∷ []) in
    let back : Manager = record {
      rooms = m.rooms;
      control = m.control ++ interrupted ∷ [];
      topics = topics;
    } in
    (
      back,
      rw (try_all-restored attempts _, h) refl,
      refl,
      refl,
      record {
        distinct = v.distinct;
        control = restored-old m.rooms (control_topic ∷ []) control_topic refl;
        rooms = restored-new m.rooms (control_topic ∷ []) (
            all-weaken (is_served m.topics) (λ e. not (e.clients == 0)) (λ e s. ground arith)
              m.rooms v.rooms);
      },
    )

-- The delay before an attempt doubles from 250 milliseconds and stays at 10 seconds.
retry_delay-bounded : (n : ℕ) → retry_delay n ≡ min (250 * 2 ^ n) 10000
unfolding retry_delay next_room_retry_delay
retry_delay-bounded zero = refl
retry_delay-bounded (suc n) = omega (arith, retry_delay-bounded n)
