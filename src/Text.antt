-- ===== src/Text.antt =====
-- The checks and normalisations of text: backend/src/api/channels.rs (channel names, drafts),
-- backend/src/websocket/history.rs (emoji), backend/src/api/media.rs (names of uploads).
-- `len` counts bytes, as `str::len` does; the tables of Unicode are a parameter.
pub mod Trim
pub mod Uploads
use vussa.Base.{
  ℕ, zero, suc, ◌==◌, String, Char, code, len, str_eq, Bool, true, false, not, ◌&&◌, ◌||◌, leb, ltb,
  if◌then◌else◌,
}
use vussa.Error.{Result, ok, err, bad_request}

-- What the standard library's tables of Unicode answer.
pub record Unicode : Type 0 where
  pub is_whitespace : Char → Bool
  pub is_alphanumeric : Char → Bool
  pub is_control : Char → Bool
  pub to_lowercase : String → String

abbrev pub is_empty : String → Bool
is_empty String.[] = true
is_empty (String.◌∷◌ c s) = false

-- `s.chars().all(p)`.
abbrev pub all_chars : (Char → Bool) → String → Bool
all_chars p String.[] = true
all_chars p (String.◌∷◌ c s) = p c && all_chars p s

unfoldable pub trim_start : Unicode → String → String
trim_start u String.[] = String.[]
trim_start u (String.◌∷◌ c s) =
    let rest = trim_start u s in if u.is_whitespace c then rest else String.◌∷◌ c s

unfoldable pub trim_end : Unicode → String → String
trim_end u String.[] = String.[]
trim_end u (String.◌∷◌ c s) =
    let rest = trim_end u s in
    if u.is_whitespace c && is_empty rest then String.[] else String.◌∷◌ c rest

-- `str::trim`.
unfoldable pub trim : Unicode → String → String
trim u s = trim_end u (trim_start u s)

abbrev pub main_channel : String
main_channel = "main"

-- `c.is_alphanumeric() || c == '-' || c == '_'`.
abbrev pub is_name_char : Unicode → Char → Bool
is_name_char u c = u.is_alphanumeric c || code c == b'-' || code c == b'_'

unfoldable pub normalize_channel_name : Unicode → String → Result String
normalize_channel_name u raw =
    let name = trim u raw in
    if is_empty name || ltb 40 (len name)
    then err (bad_request "channel name must be 1–40 characters")
    else if str_eq name main_channel || not (all_chars (is_name_char u) name)
    then err (bad_request "channel name may contain only letters, numbers, '-' and '_'")
    else ok (u.to_lowercase name)

pub normalize_draft_body : Unicode → String → Result String
normalize_draft_body u raw =
    let body = trim u raw in
    if ltb 2000 (len body)
    then err (bad_request "draft must be at most 2000 characters")
    else ok body

pub normalize_emoji : Unicode → String → Result String
normalize_emoji u raw =
    let emoji = trim u raw in
    if is_empty emoji || ltb 64 (len emoji) || not (all_chars (λ c. not (u.is_control c)) emoji)
    then err (bad_request "emoji must be 1–64 printable characters")
    else ok emoji

-- `matches!(c, '/' | '\\')`.
abbrev pub is_separator : Char → Bool
is_separator c = code c == b'/' || code c == 92

-- `s.chars().filter(p)`.
pub keep_chars : (Char → Bool) → String → String
keep_chars p String.[] = String.[]
keep_chars p (String.◌∷◌ c s) = let rest = keep_chars p s in if p c then String.◌∷◌ c rest else rest

-- `s.chars().take(n)`.
pub take_chars : ℕ → String → String
take_chars zero s = String.[]
take_chars (suc n) String.[] = String.[]
take_chars (suc n) (String.◌∷◌ c s) = String.◌∷◌ c (take_chars n s)

-- `name.rsplit(['/', '\\']).next()`: what stands behind the last separator.
pub last_segment : String → String
last_segment String.[] = String.[]
last_segment (String.◌∷◌ c s) =
    let rest = last_segment s in
    if not (all_chars (λ d. not (is_separator d)) s)
    then rest
    else if is_separator c
    then s
    else String.◌∷◌ c s

pub sanitize_upload_name : Unicode → String → String
sanitize_upload_name u name =
    trim u (take_chars 255 (keep_chars (λ c. not (u.is_control c)) (last_segment name)))
