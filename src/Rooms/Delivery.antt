-- ===== src/Rooms/Delivery.antt =====
-- What the receivers of a room get: the events for the room, all of them, in their order.
use vussa.Base.{
  ℕ, suc, ◌+◌, ◌-◌, ◌<◌, ◌==◌, ◌≡◌, refl, String, str_eq, eq_iff, Bool, false, Option, none, some,
  List, [], ◌∷◌, ◌++◌, find, if◌then◌else◌, inl, inr, Bool-cases, Option-cases, arith, ap, ◌∙◌,
  subst, sym, ◌≤◌,
}
use mathlib.Core.List.{append-nil, append_assoc}
use vussa.Models.{ServerEvent}
use vussa.Database.Tables.{update}
use vussa.Rooms.{
  RoomEntry, Manager, Answer, is_room, send_frame, add_client, drop_client, handle_subscribe,
  handle_release, Destination, destination, destination_of, send_to, Input, serve, serve_all,
}
use vussa.Rooms.Served.{IsServed, serve-IsServed}
use vussa.Rooms.Counts.{
  clients_at, clients_of, count, clients_of-serve, find-update, find-update_other,
  find-subscribe_other, find-release_other,
}

abbrev sender_at : Option RoomEntry → List String
sender_at none = []
sender_at (some e) = e.sender

-- What was sent to the receivers of the room.
unfoldable pub frames_of : List RoomEntry → String → List String
frames_of rooms channel = sender_at (find (is_room channel) rooms)

abbrev is_for : String → Destination → Bool
is_for channel (Destination.room other) = str_eq other channel
is_for channel other = false

-- What the sockets of a room must learn: messages and their changes, reactions, who is there, comes
-- and goes, and who is typing. The lists of members are not among it, nor what a socket asks for.
pub concerns : String → ServerEvent → Bool
concerns channel (ServerEvent.message message) = str_eq message.channel channel
concerns channel (ServerEvent.message_updated message) = str_eq message.channel channel
concerns channel (ServerEvent.reaction_updated other reaction) = str_eq other channel
concerns channel (ServerEvent.participants other participants) = str_eq other channel
concerns channel (ServerEvent.participant_joined other participant) = str_eq other channel
concerns channel (ServerEvent.participant_left other user) = str_eq other channel
concerns channel (ServerEvent.presence_sync other participants) = str_eq other channel
concerns channel (ServerEvent.typing other user name active) = str_eq other channel
concerns channel other = false

-- A text that does not read as an event concerns nobody.
abbrev pub concerns_room : String → Option ServerEvent → Bool
concerns_room channel none = false
concerns_room channel (some event) = concerns channel event

-- The messages among the inputs that concern the room.
pub events_for : (String → Option ServerEvent) → String → List Input → List String
events_for decode channel [] = []
events_for decode channel (Input.payload wire ∷ rest) =
    let later = events_for decode channel rest in
    if concerns_room channel (decode wire) then wire ∷ later else later
events_for decode channel (other ∷ rest) = events_for decode channel rest

-- How many of the inputs release the room.
unfoldable pub releases : String → List Input → ℕ
releases channel [] = 0
releases channel (Input.release a other ∷ rest) =
    let later = releases channel rest in if str_eq other channel then suc later else later
releases channel (other ∷ rest) = releases channel rest

-- The room manager sends to a room what concerns it.
destination-concerns :
    (channel : String) (event : ServerEvent)
    → is_for channel (destination event) ≡ concerns channel event
unfolding destination concerns
destination-concerns channel (ServerEvent.welcome a) = refl
destination-concerns channel (ServerEvent.channels a) = refl
destination-concerns channel (ServerEvent.private_conversations a) = refl
destination-concerns channel (ServerEvent.members a b) = refl
destination-concerns channel (ServerEvent.channel_created a) = refl
destination-concerns channel (ServerEvent.channel_deleted a) = refl
destination-concerns channel (ServerEvent.joined a) = refl
destination-concerns channel (ServerEvent.history a b c d) = refl
destination-concerns channel (ServerEvent.history_page a b c d) = refl
destination-concerns channel (ServerEvent.message a) = refl
destination-concerns channel (ServerEvent.message_updated a) = refl
destination-concerns channel (ServerEvent.thread_history a b c) = refl
destination-concerns channel (ServerEvent.reaction_updated a b) = refl
destination-concerns channel (ServerEvent.typing a b c d) = refl
destination-concerns channel (ServerEvent.read_state_updated a b c d) = refl
destination-concerns channel (ServerEvent.error a) = refl
destination-concerns channel (ServerEvent.participants a b) = refl
destination-concerns channel (ServerEvent.participant_joined a b) = refl
destination-concerns channel (ServerEvent.participant_left a b) = refl
destination-concerns channel (ServerEvent.presence_sync a b) = refl

destination_of-concerns :
    (channel : String) (event : Option ServerEvent)
    → is_for channel (destination_of event) ≡ concerns_room channel event
destination_of-concerns channel none = refl
destination_of-concerns channel (some event) = destination-concerns channel event

unchanged : {xs ys : List String} → xs ≡ ys → xs ≡ ys ++ []
unchanged {ys = ys} h = h ∙ sym (append-nil ys)

-- A room with clients is there.
found_of_clients :
    (rooms : List RoomEntry) (channel : String)
    → 0 < clients_of rooms channel
    → (e : RoomEntry) × (find (is_room channel) rooms ≡ some e)
      × (e.clients ≡ clients_of rooms channel)
unfolding clients_of
found_of_clients rooms channel h = elim (Option-cases (find (is_room channel) rooms)) [
  | inl absent ↦
      let none_held : ⊥ = omega (arith, subst (λ o. 0 < clients_at o) absent h) in
      elim none_held [ ]
  | inr (e, found) ↦ (e, found, rw found refl)
]

frames_of-subscribe :
    (a : Answer) (channel : String) (m : Manager)
    → 0 < clients_of m.rooms channel
    → frames_of (handle_subscribe a channel m).0.rooms channel ≡ frames_of m.rooms channel
unfolding frames_of handle_subscribe
frames_of-subscribe a channel m h =
    let (e, found, _) = found_of_clients m.rooms channel h in
    rw (found, find-update add_client (λ e. refl) channel m.rooms, found) refl

frames_of-release :
    (a : Answer) (channel : String) (m : Manager)
    → 1 < clients_of m.rooms channel
    → frames_of (handle_release a channel m).rooms channel ≡ frames_of m.rooms channel
unfolding frames_of handle_release
frames_of-release a channel m h =
    let (e, found, clients) = found_of_clients m.rooms channel (omega (arith, h)) in
    let more : (e.clients - 1 == 0) ≡ false = ground (arith, clients, h) in
    rw (found, more, find-update drop_client (λ e. refl) channel m.rooms, found) refl

frames_of-send :
    (channel wire : String) (m : Manager)
    → 0 < clients_of m.rooms channel
    → frames_of (update (is_room channel) (send_frame wire) m.rooms) channel
      ≡ frames_of m.rooms channel ++ wire ∷ []
unfolding frames_of
frames_of-send channel wire m h =
    let (e, found, _) = found_of_clients m.rooms channel h in
    rw (find-update (send_frame wire) (λ e. refl) channel m.rooms, found) refl

frames_of-send_to :
    (channel : String) (d : Destination) (wire : String) (m : Manager)
    → 0 < clients_of m.rooms channel
    → frames_of (send_to d wire m).rooms channel
      ≡ frames_of m.rooms channel ++ (if is_for channel d then wire ∷ [] else [])
unfolding frames_of
frames_of-send_to channel (Destination.room other) wire m h =
    elim (Bool-cases (str_eq other channel)) [
      | inl this ↦ rw this (
          subst
            (λ c.
              frames_of (update (is_room c) (send_frame wire) m.rooms) channel
              ≡ frames_of m.rooms channel ++ wire ∷ [])
            (sym ((eq_iff other channel).0 this)) (frames_of-send channel wire m h))
      | inr apart ↦ rw apart (
          unchanged (
            ap sender_at
              (find-update_other (send_frame wire) (λ e. refl) channel other apart m.rooms)))
    ]
frames_of-send_to channel Destination.control wire m h = unchanged refl
frames_of-send_to channel Destination.nobody wire m h = unchanged refl

module _ (decode : String → Option ServerEvent) (channel : String) where
  frames_of-serve :
      (input : Input) (m : Manager)
      → releases channel (input ∷ []) < clients_of m.rooms channel
      → frames_of (serve decode input m).rooms channel
        ≡ frames_of m.rooms channel ++ events_for decode channel (input ∷ [])
  unfolding serve frames_of releases events_for
  frames_of-serve (Input.subscribe a other) m h = elim (Bool-cases (str_eq other channel)) [
    | inl this ↦ unchanged (
        subst (λ c. frames_of (handle_subscribe a c m).0.rooms channel ≡ frames_of m.rooms channel)
          (sym ((eq_iff other channel).0 this)) (frames_of-subscribe a channel m h))
    | inr apart ↦ unchanged (ap sender_at (find-subscribe_other a other channel m apart))
  ]
  frames_of-serve (Input.release a other) m h = elim (Bool-cases (str_eq other channel)) [
    | inl this ↦ unchanged (
        subst (λ c. frames_of (handle_release a c m).rooms channel ≡ frames_of m.rooms channel)
          (sym ((eq_iff other channel).0 this)) (frames_of-release a channel m (ground arith)))
    | inr apart ↦ unchanged (ap sender_at (find-release_other a other channel m apart))
  ]
  frames_of-serve (Input.payload wire) m h =
      rw (← destination_of-concerns channel (decode wire))
        (frames_of-send_to channel (destination_of (decode wire)) wire m h)

  releases-cons :
      (input : Input) (rest : List Input)
      → releases channel (input ∷ rest) ≡ releases channel (input ∷ []) + releases channel rest
  unfolding releases
  releases-cons (Input.subscribe a other) rest = omega arith
  releases-cons (Input.release a other) rest = ground arith
  releases-cons (Input.payload wire) rest = omega arith

  events_for-cons :
      (input : Input) (rest : List Input)
      → events_for decode channel (input ∷ []) ++ events_for decode channel rest
        ≡ events_for decode channel (input ∷ rest)
  unfolding events_for
  events_for-cons (Input.subscribe a other) rest = refl
  events_for-cons (Input.release a other) rest = refl
  events_for-cons (Input.payload wire) rest =
      elim (Bool-cases (concerns_room channel (decode wire))) [
        | inl this ↦ rw this refl
        | inr other ↦ rw other refl
      ]

  count-releases :
      (input : Input) (n : ℕ) → n ≤ count channel input n + releases channel (input ∷ [])
  unfolding releases
  count-releases (Input.subscribe a other) n = ground arith
  count-releases (Input.release a other) n = ground arith
  count-releases (Input.payload wire) n = ground arith

  -- From a manager that serves its rooms: as long as a room keeps more clients than the inputs
  -- release, its receivers are sent, each once and in their order, the inputs that read as a new or
  -- changed message of the room, as a reaction, as who is present in it, comes or leaves, or as who
  -- is typing there, and nothing else.
  pub serve_all-frames :
      (inputs : List Input) (m : Manager)
      → IsServed m
      → releases channel inputs < clients_of m.rooms channel
      → frames_of (serve_all decode inputs m).rooms channel
        ≡ frames_of m.rooms channel ++ events_for decode channel inputs
  unfolding serve_all releases events_for
  serve_all-frames [] m v h = sym (append-nil (frames_of m.rooms channel))
  serve_all-frames (input ∷ rest) m v h =
      let more = count-releases input (clients_of m.rooms channel) in
      serve_all-frames rest (serve decode input m) (serve-IsServed decode input m v) (
        rw (clients_of-serve decode channel input m v)
          (omega (arith, h, releases-cons input rest, more)))
      ∙ ap (λ frames. frames ++ events_for decode channel rest)
          (frames_of-serve input m (omega (arith, h, releases-cons input rest)))
      ∙ append_assoc (frames_of m.rooms channel) (events_for decode channel (input ∷ []))
          (events_for decode channel rest)
      ∙ ap (λ events. frames_of m.rooms channel ++ events) (events_for-cons input rest)
