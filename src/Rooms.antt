-- ===== src/Rooms.antt =====
-- backend/src/websocket/rooms.rs: the task that shares one Pub/Sub connection among the sockets. It
-- counts the sockets of each room, keeps the room's topic subscribed, passes events on to the room's
-- sockets, and restores the subscriptions when the connection is lost.
-- Pub/Sub is the set of topics of the connection; a call that reports an error may have taken effect.
-- The channel to the receivers of a room is the list of the frames sent on it.
pub mod Counts
pub mod Served
pub mod Delivery
pub mod Reconnect
pub mod Announcements
pub mod Switch
use vussa.Base.{
  ℕ, zero, suc, ◌-◌, ◌*◌, ◌==◌, min, String, str_eq, Bool, true, false, not, Option, none, some,
  List, [], ◌∷◌, ◌++◌, keep, find, length, if◌then◌else◌,
}
use vussa.Models.{ServerEvent}
use vussa.Database.Tables.{update}
use vussa.Broadcast.{room_key, control_topic}

-- `sender` is what was sent to the receivers of the room, oldest first.
pub record RoomEntry : Type 0 where
  pub channel : String
  pub sender : List String
  pub clients : ℕ

pub record Manager : Type 0 where
  pub rooms : List RoomEntry
  pub control : List String
  pub topics : List String

-- What a call on the connection reports, and what became of it.
pub data Answer : Type 0 where
  done refused failed_late : Answer

abbrev pub succeeded : Answer → Bool
succeeded Answer.done = true
succeeded other = false

abbrev pub took_effect : Answer → Bool
took_effect Answer.refused = false
took_effect other = true

abbrev pub is_room : String → RoomEntry → Bool
is_room channel e = str_eq e.channel channel

-- `sink.subscribe(topic)`, `sink.unsubscribe(topic)`.
abbrev pub with_topic : Answer → String → List String → List String
with_topic a topic topics = if took_effect a then topic ∷ topics else topics

abbrev pub without_topic : Answer → String → List String → List String
without_topic a topic topics =
    if took_effect a then keep (λ other. not (str_eq other topic)) topics else topics

-- A receiver starts at a position of the room's frames.
pub data Reply : Type 0 where
  receiver : (from : ℕ) → Reply
  failure : (message : String) → Reply

abbrev pub add_client : RoomEntry → RoomEntry
add_client e = record e { clients = suc e.clients }

abbrev pub drop_client : RoomEntry → RoomEntry
drop_client e = record e { clients = e.clients - 1 }

abbrev pub new_room : String → RoomEntry
new_room channel = record { channel = channel; sender = []; clients = 1 }

-- `ManagerCommand::Subscribe`, once the room is looked up.
abbrev pub subscribe_at : Answer → String → Manager → Option RoomEntry → Manager × Reply
subscribe_at a channel m (some e) = (
  record m { rooms = update (is_room channel) add_client m.rooms },
  Reply.receiver (length e.sender),
)
subscribe_at a channel m none =
    if succeeded a
    then (
      record m {
        rooms = new_room channel ∷ m.rooms;
        topics = with_topic a (room_key channel) m.topics;
      },
      Reply.receiver 0,
    )
    else (
      record m { topics = with_topic a (room_key channel) m.topics },
      Reply.failure "Valkey room subscription failed",
    )

pub handle_subscribe : Answer → String → Manager → Manager × Reply
handle_subscribe a channel m = subscribe_at a channel m (find (is_room channel) m.rooms)

-- `ManagerCommand::Release`, once the room is looked up.
abbrev pub release_at : Answer → String → Manager → Option RoomEntry → Manager
release_at a channel m none = m
release_at a channel m (some e) =
    if e.clients - 1 == 0
    then record m {
      rooms = keep (λ other. not (is_room channel other)) m.rooms;
      topics = without_topic a (room_key channel) m.topics;
    }
    else record m { rooms = update (is_room channel) drop_client m.rooms }

pub handle_release : Answer → String → Manager → Manager
handle_release a channel m = release_at a channel m (find (is_room channel) m.rooms)

-- Whom an event goes to.
pub data Destination : Type 0 where
  room : (channel : String) → Destination
  control : Destination
  nobody : Destination

pub destination : ServerEvent → Destination
destination (ServerEvent.message message) = Destination.room message.channel
destination (ServerEvent.message_updated message) = Destination.room message.channel
destination (ServerEvent.reaction_updated channel reaction) = Destination.room channel
destination (ServerEvent.channel_created name) = Destination.control
destination (ServerEvent.channel_deleted name) = Destination.control
destination (ServerEvent.participants channel participants) = Destination.room channel
destination (ServerEvent.participant_joined channel participant) = Destination.room channel
destination (ServerEvent.participant_left channel user) = Destination.room channel
destination (ServerEvent.presence_sync channel participants) = Destination.room channel
destination (ServerEvent.typing channel user name active) = Destination.room channel
destination other = Destination.nobody

abbrev pub send_frame : String → RoomEntry → RoomEntry
send_frame wire e = record e { sender = e.sender ++ wire ∷ [] }

abbrev pub send_to : Destination → String → Manager → Manager
send_to (Destination.room channel) wire m = record m {
  rooms = update (is_room channel) (send_frame wire) m.rooms;
}
send_to Destination.control wire m = record m { control = m.control ++ wire ∷ [] }
send_to Destination.nobody wire m = m

abbrev pub destination_of : Option ServerEvent → Destination
destination_of none = Destination.nobody
destination_of (some event) = destination event

-- What wakes the inner loop: a command with what the connection answers to it, or a message.
pub data Input : Type 0 where
  subscribe : Answer → String → Input
  release : Answer → String → Input
  payload : String → Input

-- `decode` is `serde_json::from_slice`.
module _ (decode : String → Option ServerEvent) where
  pub serve : Input → Manager → Manager
  unfolding handle_subscribe handle_release
  serve (Input.subscribe a channel) m = (handle_subscribe a channel m).0
  serve (Input.release a channel) m = handle_release a channel m
  serve (Input.payload wire) m = send_to (destination_of (decode wire)) wire m

  -- The inner loop, as long as the connection lasts.
  pub serve_all : List Input → Manager → Manager
  serve_all [] m = m
  serve_all (input ∷ rest) m = serve_all rest (serve input m)

-- What the connection of one attempt to reconnect answers.
pub record Attempt : Type 0 where
  pub connects : Bool
  pub control : Answer
  pub answers : String → Answer

pub restore : (String → Answer) → List RoomEntry → List String → Option (List String)
restore answers [] topics = some topics
restore answers (e ∷ es) topics =
    let rest = restore answers es (room_key e.channel ∷ topics) in
    if succeeded (answers e.channel) then rest else none

-- `next_room_retry_delay`, in milliseconds.
pub next_room_retry_delay : ℕ → ℕ
next_room_retry_delay current = min (current * 2) 10000

-- The topics of the new connection, if the attempt succeeds.
pub attempt : Attempt → Manager → Option (List String)
unfolding restore
attempt a m =
    if a.connects
    then if succeeded a.control then restore a.answers m.rooms (control_topic ∷ []) else none
    else none

abbrev connected : Manager → Option (List String) → Option Manager → Option Manager
connected m none later = later
connected m (some topics) later = some (record m { topics = topics })

-- The attempts, in their order; `none` if none of them succeeds.
pub try_all : List Attempt → Manager → Option Manager
unfolding attempt
try_all [] m = none
try_all (a ∷ rest) m = let later = try_all rest m in connected m (attempt a m) later

abbrev pub interrupted : String
interrupted = "{\"type\":\"error\",\"message\":\"realtime connection interrupted\"}"

-- What follows the loss of the connection.
pub reconnect : List Attempt → Manager → Option Manager
unfolding try_all
reconnect attempts m =
    try_all attempts (record m { control = m.control ++ interrupted ∷ []; topics = [] })

-- The milliseconds before the attempt with this number, from 0.
pub retry_delay : ℕ → ℕ
unfolding next_room_retry_delay
retry_delay zero = 250
retry_delay (suc n) = next_room_retry_delay (retry_delay n)
