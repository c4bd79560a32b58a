-- ===== src/History.antt =====
-- backend/src/websocket/history.rs: the pages of a channel's history, from the hot cache in Valkey or
-- from the database. The state is the two keys of one channel, `history_key` and
-- `history_order_key`, with what Valkey answers to the calls to come. Times are below 2^53, so that
-- `as isize`, `as i64` and the scores of Valkey keep them.
pub mod Commands
pub mod Stored
pub mod Pages
pub mod Bounds
pub mod Triples
use vussa.Base.{
  ℕ, zero, suc, ◌+◌, ◌-◌, ◌==◌, ltb, leb, String, Bool, true, false, not, ◌&&◌, ◌||◌, Option, none,
  some, List, [], ◌∷◌, length, take, drop, keep, map, sort_by, if◌then◌else◌,
}
use vussa.Models.{Uuid, nil_uuid, ChatMessage, StoredMessage, HistorySource, ServerEvent, Json}
use vussa.Error.{Result, ok, err, from_redis_error}
use vussa.Rooms.{Answer, succeeded, took_effect}
use Commands.{
  HotCache, Entry, zadd, zrem, hset, hdel, hmget, zrange_last, zrange_but_last, zrevrangebyscore,
}
use Stored.{Codec, from_message, into_message}

abbrev pub history_page_size : ℕ
history_page_size = 50

abbrev pub hot_history_limit : ℕ
hot_history_limit = 300

-- What is left of the answers, and the keys. With no answer left, every call succeeds.
pub record Valkey : Type 0 where
  pub answers : List Answer
  pub hot : HotCache

abbrev pub Cache : Type 0 → Type 0
Cache A = Valkey → Result A × Valkey

abbrev pub answered :
    {A : Type 0} → Answer → List Answer → A × HotCache → HotCache → Result A × Valkey
answered a rest (x, after) before = (
  (if succeeded a then ok x else err from_redis_error),
  record { answers = rest; hot = if took_effect a then after else before },
)

-- One call: a command, or a pipeline that Valkey runs as one. Getting the connection, which may
-- fail, is part of the first call of an operation.
abbrev pub call_with :
    {A : Type 0} → (HotCache → A × HotCache) → HotCache → List Answer → Result A × Valkey
call_with f hot [] = answered Answer.done [] (f hot) hot
call_with f hot (a ∷ rest) = answered a rest (f hot) hot

unfoldable pub call : {A : Type 0} → (HotCache → A × HotCache) → Cache A
call f v = call_with f v.hot v.answers

module _ {A : Type 0} where
  unfoldable pub give : A → Cache A
  give a v = (ok a, v)

  unfoldable pub give_result : Result A → Cache A
  give_result r v = (r, v)

module _ {A B : Type 0} where
  abbrev pub after : Result A → (A → Cache B) → Cache B
  after (ok a) f v = f a v
  after (err e) f v = (err e, v)

  infixl 10 ◌>>=◌ ◌>>◌
  unfoldable pub ◌>>=◌ : Cache A → (A → Cache B) → Cache B
  ◌>>=◌ m f v = let (r, w) = m v in after r f w

  abbrev pub ◌>>◌ : Cache A → Cache B → Cache B
  m >> n = m >>= λ _. n

abbrev pub Cursor : Type 0
Cursor = ℕ × Uuid

-- `(message.created_at, message.id) < (created_at, id)`.
abbrev pub before_history_cursor : Cursor → ChatMessage → Bool
before_history_cursor cursor m =
    ltb m.created_at cursor.0 || m.created_at == cursor.0 && ltb m.id cursor.1

-- The order of `sort_by_key(|message| (message.created_at, message.id))`.
abbrev pub message_le : ChatMessage → ChatMessage → Bool
message_le a b = ltb a.created_at b.created_at || a.created_at == b.created_at && leb a.id b.id

-- `messages.split_off(messages.len() - HISTORY_PAGE_SIZE)`, if there are more.
abbrev pub keep_newest : List ChatMessage → List ChatMessage
keep_newest ms =
    if ltb history_page_size (length ms) then drop (length ms - history_page_size) ms else ms

-- `messages.truncate(HISTORY_PAGE_SIZE)`, if there are more.
abbrev pub keep_oldest : List ChatMessage → List ChatMessage
keep_oldest ms = if ltb history_page_size (length ms) then take history_page_size ms else ms

abbrev pub cut : Option Cursor → List ChatMessage → List ChatMessage
cut none ms = keep_newest ms
cut (some cursor) ms = keep_oldest ms

abbrev pub is_first_page : Option Cursor → Bool
is_first_page none = true
is_first_page (some cursor) = false

abbrev pub cache_limit : Option Cursor → ℕ
cache_limit before = if is_first_page before then hot_history_limit else history_page_size

abbrev pub decoded_onto : Codec → Option StoredMessage → List ChatMessage → List ChatMessage
decoded_onto codec none rest = rest
decoded_onto codec (some stored) rest = into_message codec stored ∷ rest

-- `filter_map(|payload| bitcode::decode(&payload).ok()).map(StoredMessage::into_message)`.
unfoldable pub decoded : Codec → List (List ℕ) → List ChatMessage
decoded codec [] = []
decoded codec (payload ∷ rest) = decoded_onto codec (codec.decode payload) (decoded codec rest)

abbrev pub is_empty {ℓ} : {A : Type ℓ} → List A → Bool
is_empty [] = true
is_empty (x ∷ xs) = false

trim_cache : List Entry → Cache (Unit {0})
trim_cache old_ids =
    if is_empty old_ids then give tt else call (λ hot. (tt, hdel old_ids (zrem old_ids hot)))

abbrev pub page_event :
    String → Option Cursor → List ChatMessage → HistorySource → Bool → ServerEvent
page_event channel none messages source has_more =
    ServerEvent.history channel messages source has_more
page_event channel (some cursor) messages source has_more =
    ServerEvent.history_page channel messages source has_more

-- The event with the messages in their order, cut to a page.
abbrev pub finished : String → Option Cursor → List ChatMessage → HistorySource → Bool → ServerEvent
finished channel before messages source has_more =
    page_event channel before (cut before (sort_by message_le messages)) source has_more

module _ (codec : Codec) where
  fetched : List Entry → Cache (List ChatMessage)
  fetched ids = do payloads ← call (λ hot. (hmget ids hot, hot)); give (decoded codec payloads)

  pub load_hot_history : Cache (List ChatMessage)
  unfolding fetched
  load_hot_history = do
    ids ← call (λ hot. (zrange_last hot_history_limit hot, hot))
    if is_empty ids then give [] else fetched ids

  older : Cursor → List Entry → Cache (List ChatMessage)
  unfolding fetched
  older cursor ids = do
    messages ← fetched ids
    give (keep_newest (sort_by message_le (keep (before_history_cursor cursor) messages)))

  pub load_hot_history_before : Option Cursor → Cache (List ChatMessage)
  unfolding older load_hot_history
  load_hot_history_before none = load_hot_history
  load_hot_history_before (some cursor) = do
    ids ← call (λ hot. (zrevrangebyscore cursor.0 hot_history_limit hot, hot))
    if is_empty ids then give [] else older cursor ids

  abbrev pub put : ChatMessage → Uuid → HotCache → HotCache
  put message owner_session hot =
      zadd (message.created_at, message.id)
        (hset message.id (codec.encode (from_message codec message owner_session)) hot)

  abbrev pub put_all : List ChatMessage → HotCache → HotCache
  put_all [] hot = hot
  put_all (m ∷ ms) hot = put_all ms (put m nil_uuid hot)

  pub hydrate_hot_history : List ChatMessage → Cache (Unit {0})
  hydrate_hot_history messages =
      if is_empty messages then give tt else call (λ hot. (tt, put_all messages hot))

  pub store_message : ChatMessage → Uuid → Cache (Unit {0})
  unfolding trim_cache
  store_message message owner_session = do
    call (λ hot. (tt, put message owner_session hot))
    old_ids ← call (λ hot. (zrange_but_last hot_history_limit hot, hot))
    trim_cache old_ids

  pub update_hot_message : ChatMessage → Cache (Unit {0})
  unfolding store_message
  update_hot_message message = store_message message nil_uuid

  -- `load` is `repository.load_messages` on the channel.
  module _ (load : Option Cursor → ℕ → Result (List ChatMessage)) (channel : String) where
    from_database : Option Cursor → Cache ServerEvent
    unfolding hydrate_hot_history
    from_database before = do
      messages ← give_result (load before (cache_limit before + 1))
      if is_first_page before
          then hydrate_hot_history (drop (length messages - hot_history_limit) messages)
          else give tt
      give (
          finished channel before messages HistorySource.database
            (ltb (cache_limit before) (length messages)))

    -- The event that `send_history_page` sends.
    pub send_history_page : Option Cursor → Cache ServerEvent
    unfolding load_hot_history_before from_database
    send_history_page before = do
      messages ← load_hot_history_before before
      if ltb (length messages) (cache_limit before)
          then from_database before
          else give (finished channel before messages HistorySource.cache true)
