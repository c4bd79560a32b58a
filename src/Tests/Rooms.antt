-- ===== src/Tests/Rooms.antt =====
-- A room with two sockets, one that leaves and one that stays, and the loss of the connection.
use vussa.Base.{
  ◌<◌, find, sym, subst, ◌≡◌, ◌++◌, refl, String, true, false, Option, some, List, [], ◌∷◌, arith,
}
use vussa.Models.{ServerEvent}
use vussa.Broadcast.{room_key}
use vussa.Rooms.{Manager, Answer, Input, Attempt, serve_all, reconnect, interrupted}
use vussa.Rooms.Served.{IsServed, serve_all-IsServed}
use vussa.Rooms.Counts.{clients_of, count_all, serve_all-clients}
use vussa.Rooms.Delivery.{frames_of, events_for, releases, serve_all-frames}
use vussa.Rooms.Reconnect.{reconnect-restores}
use vussa.Rooms.Switch.{
  is_balanced, failed_switch, switch_and_end, failed_switch-clients, switch_and_end-clients,
}

abbrev crowded : Manager
crowded = record {
  rooms = record { channel = "main"; sender = "old" ∷ []; clients = 2 } ∷ [];
  control = [];
  topics = "_control" ∷ "chat:room:main" ∷ [];
}

-- The text names the room.
abbrev decode : String → Option ServerEvent
decode wire = some (ServerEvent.typing wire 7 "alice" true)

abbrev traffic : List Input
traffic =
    Input.payload "main"
    ∷ Input.subscribe Answer.refused "team"
    ∷ Input.release Answer.done "main"
    ∷ Input.subscribe Answer.done "team"
    ∷ Input.payload "team"
    ∷ Input.payload "main"
    ∷ []

crowded-IsServed : IsServed crowded
unfolding room_key
crowded-IsServed = record { distinct = (refl, tt); control = refl; rooms = refl }

serve_all-IsServed_example : IsServed (serve_all decode traffic crowded)
serve_all-IsServed_example = serve_all-IsServed decode traffic crowded crowded-IsServed

serve_all-clients_example :
    clients_of (serve_all decode traffic crowded).rooms "team"
    ≡ count_all "team" traffic (clients_of crowded.rooms "team")
serve_all-clients_example = serve_all-clients decode "team" traffic crowded crowded-IsServed

one_leaves : releases "main" traffic < clients_of crowded.rooms "main"
unfolding releases clients_of find
one_leaves = omega arith

serve_all-frames_example :
    frames_of (serve_all decode traffic crowded).rooms "main"
    ≡ frames_of crowded.rooms "main" ++ events_for decode "main" traffic
serve_all-frames_example =
    serve_all-frames decode "main" traffic crowded crowded-IsServed one_leaves

abbrev attempts : List Attempt
attempts =
    record { connects = false; control = Answer.done; answers = λ channel. Answer.done }
    ∷ record { connects = true; control = Answer.done; answers = λ channel. Answer.done }
    ∷ []

reconnect-restores_example :
    (back : Manager) × (reconnect attempts crowded ≡ some back)
    × (back.rooms ≡ crowded.rooms)
    × (back.control ≡ crowded.control ++ interrupted ∷ [])
    × IsServed back
reconnect-restores_example = reconnect-restores attempts crowded crowded-IsServed refl

nobody_in_team : clients_of (serve_all decode (Input.payload "team" ∷ []) crowded).rooms "team" ≡ 0
unfolding clients_of find count_all
nobody_in_team =
    serve_all-clients decode "team" (Input.payload "team" ∷ []) crowded crowded-IsServed

failed_switch-clients_example :
    clients_of
      (serve_all decode
        (failed_switch "main" "team"
          (Input.payload "team" ∷ [])
          (Input.subscribe Answer.done "team" ∷ []))
        crowded).rooms
      "team"
    ≡ 0
failed_switch-clients_example =
    failed_switch-clients decode "main" "team" (Input.payload "team" ∷ []) crowded crowded-IsServed
      refl nobody_in_team

-- Another socket comes to the room while the first one is in it, and the first one's old room goes.
abbrev others : List Input
others =
    Input.payload "team"
    ∷ Input.subscribe Answer.done "team"
    ∷ Input.release Answer.done "main"
    ∷ []

others_balanced :
    is_balanced "team" others (
      clients_of
        (serve_all decode (Input.release Answer.done "main" ∷ traffic) crowded).rooms
        "team")
    ≡ true
unfolding clients_of find count_all
others_balanced =
    let left = Input.release Answer.done "main" ∷ traffic in
    subst (λ n. is_balanced "team" others n ≡ true)
      (sym (serve_all-clients decode "team" left crowded crowded-IsServed)) refl

switch_and_end-clients_example :
    clients_of (serve_all decode (switch_and_end "main" "team" traffic others) crowded).rooms "team"
    ≡ clients_of
        (serve_all decode (Input.release Answer.done "main" ∷ (traffic ++ others)) crowded).rooms
        "team"
switch_and_end-clients_example =
    switch_and_end-clients decode "main" "team" traffic crowded others crowded-IsServed
      others_balanced "team"
