-- ===== src/Broadcast.antt =====
-- backend/src/websocket/broadcast.rs: events go out on the Pub/Sub channel of their room.
use vussa.Base.{String, str_eq, text_append, if◌then◌else◌}
use vussa.Models.{ServerEvent}
use vussa.Io.{Env, Io, publish}

abbrev pub control_topic : String
control_topic = "_control"

unfoldable pub room_key : String → String
room_key channel = text_append "chat:room:" channel

unfoldable pub broadcast : Env → String → ServerEvent → Io (Unit {0})
unfolding room_key
broadcast env channel event =
    publish env (if str_eq channel control_topic then channel else room_key channel) event

unfoldable pub broadcast_control : Env → ServerEvent → Io (Unit {0})
broadcast_control env event = broadcast env control_topic event
