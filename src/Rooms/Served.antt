-- ===== src/Rooms/Served.antt =====
-- The room manager serves every room that it keeps: there is one entry for a room, with a client at
-- least, and the topic of the room is subscribed.
use vussa.Base.{
  ◌==◌, ◌-◌, ◌≡◌, refl, String, str_eq, str_eq_refl, eq_iff, Bool, true, false, not, ◌&&◌, Option,
  none, some, List, [], ◌∷◌, any, all, keep, find, find-none, any-keep, any-keep_fewer, all-weaken,
  Distinct, inl, inr, Bool-cases, Option-cases, arith, ap, subst, len, str_eq_of_ne,
}
use text.Mathlib.TextLemmas.{append_cancel_left}
use text.Mathlib.TextPositions.{len-append}
use vussa.Models.{ServerEvent}
use vussa.Database.Tables.{update}
use vussa.Broadcast.{room_key, control_topic}
use vussa.Rooms.{
  RoomEntry, Manager, Answer, took_effect, is_room, with_topic, without_topic, add_client,
  drop_client, send_frame, subscribe_at, handle_subscribe, release_at, handle_release, Destination,
  destination_of, send_to, Input, serve, serve_all,
}

abbrev pub has_topic : List String → String → Bool
has_topic topics topic = any (λ other. str_eq other topic) topics

abbrev pub is_served : List String → RoomEntry → Bool
is_served topics e = not (e.clients == 0) && has_topic topics (room_key e.channel)

abbrev same_room : RoomEntry → RoomEntry → Bool
same_room e f = is_room e.channel f

pub record IsServed (m : Manager) : Type 0 where
  pub distinct : Distinct same_room m.rooms
  pub control : has_topic m.topics control_topic ≡ true
  pub rooms : all (is_served m.topics) m.rooms ≡ true

room_key-other : (a b : String) → str_eq a b ≡ false → str_eq (room_key a) (room_key b) ≡ false
unfolding room_key
room_key-other a b h =
    ground
      (arith, eq_iff a b, eq_iff (room_key a) (room_key b), append_cancel_left "chat:room:" a b)

room_key-control : (a : String) → str_eq control_topic (room_key a) ≡ false
unfolding room_key
room_key-control a =
    str_eq_of_ne control_topic (room_key a) λ e. omega (arith, ap len e, len-append "chat:room:" a)

-- An update of clients or frames leaves the names of the rooms alone.
module _ (p : RoomEntry → Bool) (f : RoomEntry → RoomEntry)
    (keeps_channel : (e : RoomEntry) → (f e).channel ≡ e.channel) where
  is_room-update :
      (es : List RoomEntry) (channel : String)
      → any (is_room channel) (update p f es) ≡ any (is_room channel) es
  unfolding update
  is_room-update [] channel = refl
  is_room-update (e ∷ es) channel = ground (arith, keeps_channel e, is_room-update es channel)

  update-Distinct :
      (es : List RoomEntry) → Distinct same_room es → Distinct same_room (update p f es)
  unfolding update
  update-Distinct [] d = tt
  update-Distinct (e ∷ es) d =
      (ground (arith, keeps_channel e, is_room-update es e.channel), update-Distinct es d.1)

  update-served :
      (topics : List String) (es : List RoomEntry)
      → ((e : RoomEntry) → p e ≡ true → is_served topics e ≡ true → is_served topics (f e) ≡ true)
      → all (is_served topics) es ≡ true
      → all (is_served topics) (update p f es) ≡ true
  unfolding update
  update-served topics [] h v = refl
  update-served topics (e ∷ es) h v = ground (arith, h e, update-served topics es h)

keep-Distinct :
    (q : RoomEntry → Bool) (es : List RoomEntry)
    → Distinct same_room es
    → Distinct same_room (keep q es)
unfolding keep
keep-Distinct q [] d = tt
keep-Distinct q (e ∷ es) d = elim (Bool-cases (q e)) [
  | inl kept ↦
      rw kept (ground (arith, any-keep_fewer (same_room e) q es, d.0), keep-Distinct q es d.1)
  | inr gone ↦ rw gone (keep-Distinct q es d.1)
]

serve_with_topic :
    (a : Answer) (topic : String) (topics : List String) (es : List RoomEntry)
    → all (is_served topics) es ≡ true
    → all (is_served (with_topic a topic topics)) es ≡ true
serve_with_topic a topic topics es v =
    all-weaken (is_served topics) (is_served (with_topic a topic topics)) (λ e h. ground arith) es v

has_topic-without_topic :
    (a : Answer) (gone topic : String) (topics : List String)
    → str_eq topic gone ≡ false
    → has_topic (without_topic a gone topics) topic ≡ has_topic topics topic
has_topic-without_topic a gone topic topics other = elim (Bool-cases (took_effect a)) [
  | inl e ↦ rw e (
      any-keep (λ x. str_eq x topic) (λ x. not (str_eq x gone))
        (λ x h. ground (arith, eq_iff x topic, eq_iff x gone, eq_iff topic gone)) topics)
  | inr e ↦ rw e refl
]

other_topic :
    (a : Answer) (channel : String) (topics : List String) (e : RoomEntry)
    → is_room channel e ≡ false
    → is_served topics e ≡ true
    → is_served (without_topic a (room_key channel) topics) e ≡ true
other_topic a channel topics e other h =
    rw
      (has_topic-without_topic a (room_key channel) (room_key e.channel) topics
        (room_key-other e.channel channel other))
      h

update-none :
    (p : RoomEntry → Bool) (f : RoomEntry → RoomEntry) (es : List RoomEntry)
    → any p es ≡ false
    → update p f es ≡ es
unfolding update
update-none p f [] h = refl
update-none p f (e ∷ es) h = ground (arith, update-none p f es)

same_room_absent :
    (channel : String) (x : RoomEntry) (es : List RoomEntry)
    → is_room channel x ≡ true
    → any (same_room x) es ≡ false
    → any (is_room channel) es ≡ false
same_room_absent channel x es h d =
    subst (λ c. any (is_room c) es ≡ false) ((eq_iff x.channel channel).0 h) d

drop-served :
    (topics : List String) (channel : String) (e : RoomEntry) (es : List RoomEntry)
    → Distinct same_room es
    → find (is_room channel) es ≡ some e
    → (e.clients - 1 == 0) ≡ false
    → all (is_served topics) es ≡ true
    → all (is_served topics) (update (is_room channel) drop_client es) ≡ true
unfolding find update
drop-served topics channel e [] d found more v = refl
drop-served topics channel e (x ∷ es) d found more v = elim (Bool-cases (is_room channel x)) [
  | inl this ↦
      ground (arith, update-none (is_room channel) drop_client es, same_room_absent channel x es)
  | inr other ↦ ground (arith, drop-served topics channel e es d.1)
]

-- The rooms left after `channel` is gone do not need its topic.
serve_without_topic :
    (a : Answer) (channel : String) (topics : List String) (es : List RoomEntry)
    → all (is_served topics) es ≡ true
    → all
        (is_served (without_topic a (room_key channel) topics))
        (keep (λ e. not (is_room channel e)) es)
      ≡ true
unfolding keep
serve_without_topic a channel topics [] v = refl
serve_without_topic a channel topics (e ∷ es) v =
    ground (arith, other_topic a channel topics e, serve_without_topic a channel topics es)

new_room-IsServed :
    (a : Answer) (channel : String) (m : Manager)
    → IsServed m
    → find (is_room channel) m.rooms ≡ none
    → IsServed (subscribe_at a channel m none).0
new_room-IsServed Answer.done channel m v absent = record {
  distinct = (find-none (is_room channel) m.rooms absent, v.distinct);
  control = ground (arith, v.control);
  rooms = ground (
    arith,
    str_eq_refl (room_key channel),
    serve_with_topic Answer.done (room_key channel) m.topics m.rooms v.rooms,
  );
}
new_room-IsServed Answer.refused channel m v absent = v
new_room-IsServed Answer.failed_late channel m v absent = record {
  distinct = v.distinct;
  control = ground (arith, v.control);
  rooms = serve_with_topic Answer.failed_late (room_key channel) m.topics m.rooms v.rooms;
}

release_found-IsServed :
    (a : Answer) (channel : String) (m : Manager) (e : RoomEntry)
    → IsServed m
    → find (is_room channel) m.rooms ≡ some e
    → IsServed (release_at a channel m (some e))
release_found-IsServed a channel m e v found = elim (Bool-cases (e.clients - 1 == 0)) [
  | inl last ↦ rw last (record {
    distinct = keep-Distinct _ m.rooms v.distinct;
    control =
        rw
          (has_topic-without_topic a (room_key channel) control_topic m.topics
            (room_key-control channel))
          v.control;
    rooms = serve_without_topic a channel m.topics m.rooms v.rooms;
  })
  | inr more ↦ rw more (record {
    distinct = update-Distinct (is_room channel) drop_client (λ e. refl) m.rooms v.distinct;
    control = v.control;
    rooms = drop-served m.topics channel e m.rooms v.distinct found more v.rooms;
  })
]

handle_subscribe-IsServed :
    (a : Answer) (channel : String) (m : Manager)
    → IsServed m
    → IsServed (handle_subscribe a channel m).0
unfolding handle_subscribe
handle_subscribe-IsServed a channel m v = elim (Option-cases (find (is_room channel) m.rooms)) [
  | inl absent ↦ rw absent (new_room-IsServed a channel m v absent)
  | inr (e, found) ↦ rw found (record {
    distinct = update-Distinct (is_room channel) add_client (λ e. refl) m.rooms v.distinct;
    control = v.control;
    rooms =
        update-served (is_room channel) add_client (λ e. refl) m.topics m.rooms
          (λ e p h. ground arith) v.rooms;
  })
]

handle_release-IsServed :
    (a : Answer) (channel : String) (m : Manager)
    → IsServed m
    → IsServed (handle_release a channel m)
unfolding handle_release
handle_release-IsServed a channel m v = elim (Option-cases (find (is_room channel) m.rooms)) [
  | inl absent ↦ rw absent v
  | inr (e, found) ↦ rw found (release_found-IsServed a channel m e v found)
]

send_to-IsServed :
    (d : Destination) (wire : String) (m : Manager) → IsServed m → IsServed (send_to d wire m)
send_to-IsServed (Destination.room channel) wire m v = record {
  distinct = update-Distinct (is_room channel) (send_frame wire) (λ e. refl) m.rooms v.distinct;
  control = v.control;
  rooms =
      update-served (is_room channel) (send_frame wire) (λ e. refl) m.topics m.rooms (λ e p h. h)
        v.rooms;
}
send_to-IsServed Destination.control wire m v = record {
  distinct = v.distinct;
  control = v.control;
  rooms = v.rooms;
}
send_to-IsServed Destination.nobody wire m v = v

module _ (decode : String → Option ServerEvent) where
  pub serve-IsServed : (input : Input) (m : Manager) → IsServed m → IsServed (serve decode input m)
  unfolding serve
  serve-IsServed (Input.subscribe a channel) m v = handle_subscribe-IsServed a channel m v
  serve-IsServed (Input.release a channel) m v = handle_release-IsServed a channel m v
  serve-IsServed (Input.payload wire) m v = send_to-IsServed (destination_of (decode wire)) wire m v

  -- From a manager that serves its rooms, whatever commands and messages come in, and whatever
  -- the connection answers: every room that the manager keeps has one entry and a client at
  -- least, and its topic is subscribed, as is the control topic.
  pub serve_all-IsServed :
      (inputs : List Input) (m : Manager) → IsServed m → IsServed (serve_all decode inputs m)
  unfolding serve_all
  serve_all-IsServed [] m v = v
  serve_all-IsServed (input ∷ rest) m v =
      serve_all-IsServed rest (serve decode input m) (serve-IsServed input m v)
