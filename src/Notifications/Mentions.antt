-- ===== src/Notifications/Mentions.antt =====
-- backend/src/api/notifications.rs, `extract_mentioned_usernames` and `mention_scope`: whom the text
-- of a message names.
use vussa.Base.{
  String, Char, code, len, str_eq, Bool, not, ◌&&◌, ◌||◌, leb, Option, none, some, List, [], ◌∷◌,
  any, if◌then◌else◌, ◌==◌,
}
use vussa.Text.{Unicode, is_empty, trim}

abbrev pub push_word : String → List String → List String
push_word word words = if is_empty word then words else word ∷ words

-- The word that a text starts with, and the others.
unfoldable pub first_word : Unicode → String → String × List String
first_word u String.[] = (String.[], [])
first_word u (String.◌∷◌ c s) =
    let (word, words) = first_word u s in
    if u.is_whitespace c then (String.[], push_word word words) else (String.◌∷◌ c word, words)

-- `str::split_whitespace`.
unfoldable pub split_whitespace : Unicode → String → List String
split_whitespace u s = let (word, words) = first_word u s in push_word word words

-- `strip_prefix('@')`.
abbrev pub strip_at : String → Option String
strip_at String.[] = none
strip_at (String.◌∷◌ c s) = if code c == b'@' then some s else none

abbrev pub is_ascii_alphanumeric : Char → Bool
is_ascii_alphanumeric c =
    (leb b'0' (code c) && leb (code c) b'9')
    || (leb b'A' (code c) && leb (code c) b'Z')
    || (leb b'a' (code c) && leb (code c) b'z')

-- `trim_matches`, with its test in the place of the one for spaces.
abbrev pub trim_marks : Unicode → String → String
trim_marks u s =
    trim
      (record u {
        is_whitespace =
            λ c. not (is_ascii_alphanumeric c) && not (code c == b'_') && not (code c == b'-');
      })
      s

abbrev pub is_mentionable : Unicode → (actor username : String) → Bool
is_mentionable u actor username =
    not (is_empty username)
    && leb (len username) 64
    && not (str_eq username "channel")
    && not (str_eq username "here")
    && not (str_eq (u.to_lowercase username) actor)

-- `BTreeSet::insert`. The order of the set, by which the list is given out, is not modelled.
abbrev pub insert_name : String → List String → List String
insert_name name names = if any (str_eq name) names then names else name ∷ names

abbrev pub mentioned_in : Unicode → String → Option String → List String → List String
mentioned_in u actor none names = names
mentioned_in u actor (some raw) names =
    let username = trim_marks u raw in
    if is_mentionable u actor username then insert_name (u.to_lowercase username) names else names

unfoldable pub mentioned_usernames : Unicode → String → List String → List String
mentioned_usernames u actor [] = []
mentioned_usernames u actor (token ∷ tokens) =
    mentioned_in u actor (strip_at token) (mentioned_usernames u actor tokens)

unfoldable pub extract_mentioned_usernames : Unicode → (text actor_username : String) → List String
extract_mentioned_usernames u text actor_username =
    mentioned_usernames u (u.to_lowercase actor_username) (split_whitespace u text)

pub data MentionScope : Type 0 where
  everyone here nobody_named : MentionScope

abbrev pub scope_of : Unicode → Option String → MentionScope → MentionScope
scope_of u none later = later
scope_of u (some raw) later =
    let username = u.to_lowercase (trim_marks u raw) in
    if str_eq username "channel"
    then MentionScope.everyone
    else if str_eq username "here"
    then MentionScope.here
    else later

unfoldable pub first_scope : Unicode → List String → MentionScope
first_scope u [] = MentionScope.nobody_named
first_scope u (token ∷ tokens) = scope_of u (strip_at token) (first_scope u tokens)

-- `Some("channel")`, `Some("here")` or `None`.
unfoldable pub mention_scope : Unicode → String → MentionScope
mention_scope u text = first_scope u (split_whitespace u text)
