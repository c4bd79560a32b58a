-- ===== src/Rooms/Counts.antt =====
-- The manager counts the clients of each room apart: what it does for one room is a counter.
use vussa.Base.{
  ℕ, suc, ◌-◌, ◌==◌, ◌≡◌, refl, String, str_eq, eq_iff, false, not, ◌&&◌, ◌||◌, Option, none, some,
  List, [], ◌∷◌, find, keep, leb, if◌then◌else◌, inl, inr, Bool-cases, Option-cases, arith, ap,
  subst, ◌∙◌, find-head, find-tail, all-find, str_eq_refl,
}
use vussa.Models.{ServerEvent}
use vussa.Database.Tables.{update}
use vussa.Rooms.{
  RoomEntry, Manager, Answer, succeeded, is_room, add_client, drop_client, send_frame, new_room,
  handle_subscribe, handle_release, Destination, destination_of, send_to, Input, serve, serve_all,
}
use vussa.Rooms.Served.{IsServed, is_served, serve-IsServed}

abbrev pub clients_at : Option RoomEntry → ℕ
clients_at none = 0
clients_at (some e) = e.clients

-- The clients of a room: none if the manager does not keep it.
unfoldable pub clients_of : List RoomEntry → String → ℕ
clients_of rooms channel = clients_at (find (is_room channel) rooms)

-- One input, seen from one room. The first client needs the topic; nobody leaves an empty room.
abbrev pub count : String → Input → ℕ → ℕ
count channel (Input.subscribe a other) n =
    if str_eq other channel && (leb 1 n || succeeded a) then suc n else n
count channel (Input.release a other) n = if str_eq other channel then n - 1 else n
count channel (Input.payload wire) n = n

unfoldable pub count_all : String → List Input → ℕ → ℕ
count_all channel [] n = n
count_all channel (input ∷ rest) n = count_all channel rest (count channel input n)

abbrev pub mapped : (RoomEntry → RoomEntry) → Option RoomEntry → Option RoomEntry
mapped f none = none
mapped f (some e) = some (f e)

module _ (f : RoomEntry → RoomEntry) (keeps : (e : RoomEntry) → (f e).channel ≡ e.channel)
    (channel : String) where
  pub find-update :
      (es : List RoomEntry)
      → find (is_room channel) (update (is_room channel) f es)
        ≡ mapped f (find (is_room channel) es)
  unfolding find update
  find-update [] = refl
  find-update (e ∷ es) = elim (Bool-cases (is_room channel e)) [
    | inl this ↦ rw (this, keeps e, this) refl
    | inr other ↦ rw (other, other) (find-update es)
  ]

  pub find-update_other :
      (other : String)
      → str_eq other channel ≡ false
      → (es : List RoomEntry)
      → find (is_room channel) (update (is_room other) f es) ≡ find (is_room channel) es
  unfolding find update
  find-update_other other apart [] = refl
  find-update_other other apart (e ∷ es) = ground (
    arith,
    keeps e,
    eq_iff e.channel other,
    eq_iff e.channel channel,
    eq_iff other channel,
    find-update_other other apart es,
  )

find-keep_other :
    (channel other : String)
    → str_eq other channel ≡ false
    → (es : List RoomEntry)
    → find (is_room channel) (keep (λ e. not (is_room other e)) es) ≡ find (is_room channel) es
unfolding find keep
find-keep_other channel other apart [] = refl
find-keep_other channel other apart (e ∷ es) = ground (
  arith,
  eq_iff e.channel other,
  eq_iff e.channel channel,
  eq_iff other channel,
  find-keep_other channel other apart es,
)

find-keep :
    (channel : String) (es : List RoomEntry)
    → find (is_room channel) (keep (λ e. not (is_room channel e)) es) ≡ none
unfolding find keep
find-keep channel [] = refl
find-keep channel (e ∷ es) = ground (arith, find-keep channel es)

-- A room that is served has a client.
pub found-counted :
    (m : Manager) (channel : String) (e : RoomEntry)
    → IsServed m
    → find (is_room channel) m.rooms ≡ some e
    → (e.clients == 0) ≡ false
found-counted m channel e v found =
    let served = all-find (is_served m.topics) (is_room channel) m.rooms e v.rooms found in
    ground arith

clients_of-subscribe :
    (a : Answer) (channel : String) (m : Manager)
    → IsServed m
    → clients_of (handle_subscribe a channel m).0.rooms channel
      ≡ count channel (Input.subscribe a channel) (clients_of m.rooms channel)
unfolding clients_of handle_subscribe
clients_of-subscribe a channel m v = elim (Option-cases (find (is_room channel) m.rooms)) [
  | inl absent ↦
      rw (absent, str_eq_refl channel)
        (elim (Bool-cases (succeeded a)) [
          | inl yes' ↦
              rw
                (yes', find-head (is_room channel) (new_room channel) m.rooms (str_eq_refl channel))
                refl
          | inr no' ↦ rw (no', absent) refl
        ])
  | inr (e, found) ↦
      let counted = found-counted m channel e v found in
      rw (found, str_eq_refl channel, find-update add_client (λ e. refl) channel m.rooms, found)
        (ground arith)
]

pub find-subscribe_other :
    (a : Answer) (other channel : String) (m : Manager)
    → str_eq other channel ≡ false
    → find (is_room channel) (handle_subscribe a other m).0.rooms ≡ find (is_room channel) m.rooms
unfolding handle_subscribe
find-subscribe_other a other channel m apart = elim (Option-cases (find (is_room other) m.rooms)) [
  | inl absent ↦ rw absent (elim (Bool-cases (succeeded a)) [
    | inl yes' ↦ rw (yes', find-tail (is_room channel) (new_room other) m.rooms apart) refl
    | inr no' ↦ rw no' refl
  ])
  | inr (e, found) ↦ rw found (find-update_other add_client (λ e. refl) channel other apart m.rooms)
]

clients_of-release :
    (a : Answer) (channel : String) (m : Manager)
    → clients_of (handle_release a channel m).rooms channel ≡ clients_of m.rooms channel - 1
unfolding clients_of handle_release
clients_of-release a channel m = elim (Option-cases (find (is_room channel) m.rooms)) [
  | inl absent ↦ rw (absent, absent) refl
  | inr (e, found) ↦ rw found (elim (Bool-cases (e.clients - 1 == 0)) [
    | inl last ↦ rw (last, find-keep channel m.rooms) (ground arith)
    | inr more ↦ rw (more, find-update drop_client (λ e. refl) channel m.rooms, found) refl
  ])
]

pub find-release_other :
    (a : Answer) (other channel : String) (m : Manager)
    → str_eq other channel ≡ false
    → find (is_room channel) (handle_release a other m).rooms ≡ find (is_room channel) m.rooms
unfolding handle_release
find-release_other a other channel m apart = elim (Option-cases (find (is_room other) m.rooms)) [
  | inl absent ↦ rw absent refl
  | inr (e, found) ↦ rw found (elim (Bool-cases (e.clients - 1 == 0)) [
    | inl last ↦ rw last (find-keep_other channel other apart m.rooms)
    | inr more ↦ rw more (find-update_other drop_client (λ e. refl) channel other apart m.rooms)
  ])
]

clients_at-mapped :
    (wire : String) (o : Option RoomEntry) → clients_at (mapped (send_frame wire) o) ≡ clients_at o
clients_at-mapped wire none = refl
clients_at-mapped wire (some e) = refl

clients_of-send :
    (d : Destination) (wire channel : String) (m : Manager)
    → clients_of (send_to d wire m).rooms channel ≡ clients_of m.rooms channel
unfolding clients_of
clients_of-send (Destination.room other) wire channel m = elim (Bool-cases (str_eq other channel)) [
  | inl this ↦
      subst
        (λ c.
          clients_of (update (is_room other) (send_frame wire) m.rooms) c ≡ clients_of m.rooms c)
        ((eq_iff other channel).0 this)
        (ap clients_at (find-update (send_frame wire) (λ e. refl) other m.rooms)
          ∙ clients_at-mapped wire (find (is_room other) m.rooms))
  | inr apart ↦
      ap clients_at (find-update_other (send_frame wire) (λ e. refl) channel other apart m.rooms)
]
clients_of-send Destination.control wire channel m = refl
clients_of-send Destination.nobody wire channel m = refl

module _ (decode : String → Option ServerEvent) (channel : String) where
  pub clients_of-serve :
      (input : Input) (m : Manager)
      → IsServed m
      → clients_of (serve decode input m).rooms channel
        ≡ count channel input (clients_of m.rooms channel)
  unfolding serve clients_of
  clients_of-serve (Input.subscribe a other) m v = elim (Bool-cases (str_eq other channel)) [
    | inl this ↦
        subst
          (λ c.
            clients_of (handle_subscribe a other m).0.rooms c
            ≡ count c (Input.subscribe a other) (clients_of m.rooms c))
          ((eq_iff other channel).0 this) (clients_of-subscribe a other m v)
    | inr apart ↦ rw apart (ap clients_at (find-subscribe_other a other channel m apart))
  ]
  clients_of-serve (Input.release a other) m v = elim (Bool-cases (str_eq other channel)) [
    | inl this ↦
        subst
          (λ c.
            clients_of (handle_release a other m).rooms c
            ≡ count c (Input.release a other) (clients_of m.rooms c))
          ((eq_iff other channel).0 this) (rw (str_eq_refl other) (clients_of-release a other m))
    | inr apart ↦ rw apart (ap clients_at (find-release_other a other channel m apart))
  ]
  clients_of-serve (Input.payload wire) m v =
      clients_of-send (destination_of (decode wire)) wire channel m

  -- From a manager that serves its rooms: it counts the clients of each room as if the room were
  -- alone; a subscription that it granted adds one, a release takes one away, down to none, and
  -- nothing else changes the count.
  pub serve_all-clients :
      (inputs : List Input) (m : Manager)
      → IsServed m
      → clients_of (serve_all decode inputs m).rooms channel
        ≡ count_all channel inputs (clients_of m.rooms channel)
  unfolding serve_all count_all
  serve_all-clients [] m v = refl
  serve_all-clients (input ∷ rest) m v =
      serve_all-clients rest (serve decode input m) (serve-IsServed decode input m v)
      ∙ ap (count_all channel rest) (clients_of-serve input m v)
