-- ===== src/Tests/Sessions.antt =====
-- A session of alice: created, visited, and ended by an event of the outbox.
use vussa.Base.{
  ℕ, ◌≡◌, refl, ◌+◌, ◌==◌, ltb, String, str_eq, none, some, List, [], ◌∷◌, All, if◌then◌else◌, code,
  Bool-cases, Option, sym, subst, ap, ◌∙◌, inl, inr, ==_iff,
}
use text.Mathlib.TextEquality.{Char-path}
use vussa.Models.{AuthUser, Json, Fields}
use vussa.Error.{ok, err, unauthorized}
use vussa.Rooms.{Answer}
use vussa.Outbox.{EventRow, deliver}
use vussa.Sessions.{
  Codec, Store, create_session, update_account, handle_auth_invalidate, session_ttl_seconds,
}
use vussa.Sessions.Renamed.{KeepsId}
use vussa.Sessions.Owned.{HasNone, IsIndexed}
use vussa.Sessions.Steps.{
  Step, here, more, empty_store, IsShutOut, Steps-IsIndexed, handle_auth_invalidate-IsShutOut,
}
use vussa.Sessions.Invalidation.{all_answered, on_invalidate, on_notification, deliver-ends}
use vussa.Sessions.Lifetime.{created, visit, visits, create_session-load, create_session-visits}
use vussa.Sessions.Csrf.{constant_time_compare, constant_time_compare-str_eq}
use vussa.Tests.Data.{alice}
use vussa.Outbox.Draining.{calm}

-- The texts of two identifiers and one user.
abbrev pub small_codec : Codec
small_codec = record {
  encode = λ user. if user.id == 7 then "alice" else "other";
  decode = λ text. if str_eq text "alice" then some alice else none;
  uuid_text = λ id. if id == 7 then "seven" else "fifty";
  parse_uuid =
      λ text. if str_eq text "seven" then some 7 else if str_eq text "fifty" then some 50 else none;
}

abbrev signed_in : Store
signed_in = (create_session small_codec Answer.done 100 50 "token" alice empty_store).1

signed_in-IsIndexed : IsIndexed small_codec signed_in
signed_in-IsIndexed =
    Steps-IsIndexed small_codec (more here (Step.create Answer.done 100 50 "token" alice refl)) refl

abbrev id_of : Option AuthUser → ℕ
id_of none = 0
id_of (some user) = user.id

small_codec-KeepsId : KeepsId small_codec
small_codec-KeepsId user read reads = elim (Bool-cases (user.id == 7)) [
  | inl e ↦
      sym (
        ap id_of
          (subst (λ b. small_codec.decode (if b then "alice" else "other") ≡ some read) e reads))
      ∙ sym ((==_iff user.id 7).0 e)
  | inr e ↦
      absurd
        (cc (subst (λ b. small_codec.decode (if b then "alice" else "other") ≡ some read) e reads))
]

abbrev renamed : Store
renamed =
    (update_account small_codec Answer.done 210 "alicia" (λ session. ok tt) Answer.done Answer.done
      200 (some "fifty") signed_in).1

Steps-IsIndexed_example : IsIndexed small_codec renamed
Steps-IsIndexed_example =
    Steps-IsIndexed small_codec {s = empty_store} {t = renamed}
      (more (more here (Step.create Answer.done 100 50 "token" alice refl)) (
        Step.update Answer.done Answer.done Answer.done 200 210 "alicia" (λ session. ok tt)
          (some "fifty") small_codec-KeepsId))
      refl

abbrev end_alice : Json
end_alice = Json.object (Fields.field "user_id" (Json.text "seven") Fields.end)

handle_auth_invalidate-IsShutOut_example :
    IsShutOut small_codec Answer.done Answer.done 200
      (some "fifty")
      7
      (handle_auth_invalidate small_codec all_answered end_alice signed_in)
handle_auth_invalidate-IsShutOut_example =
    handle_auth_invalidate-IsShutOut small_codec {s = signed_in} all_answered Answer.done
      Answer.done end_alice 7 200 (some "fifty")
      (more here (Step.create Answer.done 100 50 "token" alice refl)) refl

abbrev alice_event : EventRow
alice_event = record {
  id = 1;
  topic = "auth.invalidate";
  payload = end_alice;
  created_at = 500;
  published_at = none;
  attempts = 0;
  claimed_at = none;
}

deliver-ends_example :
    HasNone small_codec 7
      (deliver
        (on_invalidate small_codec (λ p. ok tt))
        (on_notification small_codec (λ p. ok tt))
        (calm 1000 (λ id. 1001))
        (alice_event ∷ [])
        (alice_event ∷ [])
        signed_in).1
deliver-ends_example =
    deliver-ends small_codec (λ p. ok tt) 7 (calm 1000 (λ id. 1001)) (alice_event ∷ [])
      (alice_event ∷ []) signed_in refl signed_in-IsIndexed

create_session-load_example :
    (visit small_codec 50 "token" alice refl refl 200
      (create_session small_codec Answer.done 100 50 "token" alice empty_store).1).0
    ≡ (if ltb 200 (100 + session_ttl_seconds)
        then ok (created small_codec 50 "token" alice refl refl)
        else err (unauthorized "session expired"))
create_session-load_example =
    create_session-load small_codec 50 "token" alice refl refl 100 200 empty_store

create_session-visits_example :
    All
      (λ r. r ≡ ok (created small_codec 50 "token" alice refl refl))
      (visits small_codec 50 "token" alice refl refl
        (200 ∷ 1000000 ∷ 2000000 ∷ [])
        (create_session small_codec Answer.done 100 50 "token" alice empty_store).1)
create_session-visits_example =
    create_session-visits small_codec 50 "token" alice refl refl 100 (200 ∷ 1000000 ∷ 2000000 ∷ [])
      empty_store refl

-- The codes of the characters, which tell texts apart.
abbrev codes : String → List ℕ
codes String.[] = []
codes (String.◌∷◌ c s) = code c ∷ codes s

codes_injective : (a b : String) → codes a ≡ codes b → a ≡ b
codes_injective String.[] String.[] h = refl
codes_injective String.[] (String.◌∷◌ d t) h = absurd (cc h)
codes_injective (String.◌∷◌ c s) String.[] h = absurd (cc h)
codes_injective (String.◌∷◌ c s) (String.◌∷◌ d t) h =
    let first : code c ≡ code d = cc h in
    let rest : codes s ≡ codes t = cc h in cc (Char-path c d first, codes_injective s t rest)

constant_time_compare-str_eq_example :
    constant_time_compare codes "token" "tokem" ≡ str_eq "token" "tokem"
constant_time_compare-str_eq_example =
    constant_time_compare-str_eq codes codes_injective "token" "tokem"
