-- ===== src/Tests/Presence.antt =====
-- Two users of a channel, of whom one has left.
use vussa.Base.{◌≡◌, refl, true, [], ◌∷◌, Bool, String}
use vussa.Models.{Uuid, Participant}
use vussa.Rooms.{Answer}
use vussa.Presence.{list_presence}
use vussa.Presence.Online.{Op, History, online, replay}
use vussa.Presence.Shown.{is_present, list_presence-online}

abbrev guest : Uuid → String → Participant
guest id name = record {
  user_id = id;
  username = name;
  display_name = name;
  custom_status = "";
  roles = [];
  online = true;
}

abbrev first_come : String → String → Bool
first_come a b = true

abbrev visits_so_far : History
visits_so_far =
    (130, Op.show)
    ∷ (120, Op.leave 8)
    ∷ (110, Op.refresh (guest 8 "bob"))
    ∷ (100, Op.refresh (guest 7 "alice"))
    ∷ []

list_presence-online_example :
    is_present 7
      (list_presence first_come Answer.done Answer.done Answer.done 140
        (replay first_come visits_so_far)).0
    ≡ online 7 140 visits_so_far
list_presence-online_example = list_presence-online first_come 7 140 visits_so_far refl
