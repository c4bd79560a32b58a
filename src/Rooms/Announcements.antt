-- ===== src/Rooms/Announcements.antt =====
-- What the room manager does with the lists of members that the HTTP handlers and services publish.
use vussa.Base.{
  ◌≡◌, refl, String, Bool, true, false, List, [], ◌∷◌, ◌++◌, keep, ◌∙◌, inl, inr, Bool-cases,
}
use mathlib.Core.List.{append-nil}
use vussa.Models.{ServerEvent, ChannelMember}
use vussa.Error.{Result, ok, err}
use vussa.Database.{Db}
use vussa.Io.{Env, World, Io, continue, query, publish, ignore, ◌>>=◌}
use vussa.Broadcast.{broadcast}
use vussa.Services.Publishing.{channel_members, announced, broadcast_members}
use vussa.Members.{announce_members}
use vussa.Rooms.{Destination, destination}

abbrev reaches_someone : Destination → Bool
reaches_someone Destination.nobody = false
reaches_someone other = true

-- The events, among those published, that the room manager passes on.
unfoldable passed_on : List (String × ServerEvent) → List (String × ServerEvent)
passed_on events = keep (λ e. reaches_someone (destination e.1)) events

passed_on-append :
    (xs ys : List (String × ServerEvent)) → passed_on (xs ++ ys) ≡ passed_on xs ++ passed_on ys
unfolding passed_on keep
passed_on-append [] ys = refl
passed_on-append (x ∷ xs) ys = elim (Bool-cases (reaches_someone (destination x.1))) [
  | inl e ↦ rw (e, passed_on-append xs ys) refl
  | inr e ↦ rw (e, passed_on-append xs ys) refl
]

-- What the action publishes, the room manager passes to nobody.
record IsQuiet {A : Type 0} (m : Io A) : Type 0 where
  at : (w : World) → passed_on (m w).1.published ≡ passed_on w.published

continue-quiet :
    {A B : Type 0} (r : Result A) (f : A → Io B) (w : World)
    → ((a : A) → IsQuiet (f a))
    → passed_on (continue r f w).1.published ≡ passed_on w.published
continue-quiet (ok a) f w k = (k a).at w
continue-quiet (err e) f w k = refl

bind-IsQuiet :
    {A B : Type 0} (m : Io A) (f : A → Io B)
    → IsQuiet m
    → ((a : A) → IsQuiet (f a))
    → IsQuiet (m >>= f)
unfolding ◌>>=◌
bind-IsQuiet m f h k = record { at = λ w. continue-quiet (m w).0 f (m w).1 k ∙ h.at w }

ignore-IsQuiet : {A : Type 0} (m : Io A) → IsQuiet m → IsQuiet (ignore m)
unfolding ignore
ignore-IsQuiet m h = record { at = h.at }

query-IsQuiet : {A : Type 0} (env : Env) (f : Db → A) → IsQuiet (query env f)
unfolding query
query-IsQuiet env f = record {
  at = λ w. elim (Bool-cases (env.fails w.calls)) [ inl e ↦ rw e refl | inr e ↦ rw e refl ];
}

dropped :
    (topic : String) (event : ServerEvent)
    → reaches_someone (destination event) ≡ false
    → (events : List (String × ServerEvent))
    → passed_on events ++ passed_on ((topic, event) ∷ []) ≡ passed_on events
unfolding passed_on keep
dropped topic event h events = rw h (append-nil (passed_on events))

publish-IsQuiet :
    (env : Env) (topic : String) (event : ServerEvent)
    → reaches_someone (destination event) ≡ false
    → IsQuiet (publish env topic event)
unfolding publish
publish-IsQuiet env topic event h = record {
  at = λ w. elim (Bool-cases (env.fails w.calls)) [
    | inl e ↦ rw e refl
    | inr e ↦
        rw e
          (passed_on-append w.published ((topic, event) ∷ []) ∙ dropped topic event h w.published)
  ];
}

members-IsQuiet :
    (env : Env) (name : String) (members : List ChannelMember)
    → IsQuiet (broadcast env name (ServerEvent.members name members))
unfolding broadcast destination
members-IsQuiet env name members = publish-IsQuiet env _ (ServerEvent.members name members) refl

announced-IsQuiet : (env : Env) (name : String) → IsQuiet (announced env name)
unfolding announced channel_members
announced-IsQuiet env name =
    bind-IsQuiet _ _ (query-IsQuiet env _) λ members. members-IsQuiet env name members

-- The lists of members that services and handlers publish when somebody joins, leaves, or becomes
-- the owner reach no socket: the room manager drops every event that they publish.
members-undelivered :
    (env : Env) (name : String) (w : World)
    → (passed_on (broadcast_members env name w).1.published ≡ passed_on w.published)
      × (passed_on (announce_members env name w).1.published ≡ passed_on w.published)
unfolding broadcast_members announce_members channel_members
members-undelivered env name w = (
  (ignore-IsQuiet (announced env name) (announced-IsQuiet env name)).at w,
  (bind-IsQuiet _ _ (query-IsQuiet env _)
        λ members. ignore-IsQuiet _ (members-IsQuiet env name members)).at
      w,
)
