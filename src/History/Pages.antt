-- ===== src/History/Pages.antt =====
-- The pages that `send_history_page` sends.
use vussa.Base.{
  ℕ, ◌+◌, ◌-◌, ◌≤◌, ◌≡◌, refl, ltb, Bool, true, String, Option, none, some, List, [], length, take,
  drop, length-take, length-drop, sort_by, if◌then◌else◌, arith,
}
use vussa.Models.{Uuid, ChatMessage, HistorySource, ServerEvent}
use vussa.Error.{Result}
use vussa.History.Stored.{Codec, from_message, into_message}
use vussa.History.{
  give_result, Valkey, Cursor, history_page_size, cache_limit, cut, message_le, finished,
  from_database, load_hot_history_before, send_history_page,
}
use vussa.History.Triples.{OnOk, Triple, give-Triple, if-Triple, bind-Triple, any-Triple}

abbrev pub messages_of : ServerEvent → List ChatMessage
messages_of (ServerEvent.history channel messages source has_more) = messages
messages_of (ServerEvent.history_page channel messages source has_more) = messages
messages_of other = []

newest-length :
    (n : ℕ) (ms : List ChatMessage)
    → length (if ltb n (length ms) then drop (length ms - n) ms else ms) ≤ n
newest-length n ms = ground (arith, length-drop (length ms - n) ms)

oldest-length :
    (n : ℕ) (ms : List ChatMessage) → length (if ltb n (length ms) then take n ms else ms) ≤ n
oldest-length n ms = ground (arith, length-take n ms)

cut-length :
    (before : Option Cursor) (ms : List ChatMessage) → length (cut before ms) ≤ history_page_size
cut-length none ms = newest-length history_page_size ms
cut-length (some cursor) ms = oldest-length history_page_size ms

finished-length :
    (channel : String) (before : Option Cursor) (ms : List ChatMessage) (source : HistorySource)
    (more : Bool)
    → length (messages_of (finished channel before ms source more)) ≤ history_page_size
finished-length channel none ms source more = cut-length none (sort_by message_le ms)
finished-length channel (some cursor) ms source more =
    cut-length (some cursor) (sort_by message_le ms)

module _ (codec : Codec) (load : Option Cursor → ℕ → Result (List ChatMessage))
    (channel : String) where
  from_database-length :
      (before : Option Cursor)
      → Triple
          (λ _. Unit)
          (from_database codec load channel before)
          (λ event _. length (messages_of event) ≤ history_page_size)
  unfolding from_database
  from_database-length before =
      bind-Triple (λ _ _. Unit) (any-Triple (give_result (load before (cache_limit before + 1))))
        λ found.
          bind-Triple (λ _ _. Unit) (any-Triple _)
            λ _. give-Triple _ λ hot _.
              finished-length channel before found HistorySource.database
                (ltb (cache_limit before) (length found))

  -- Whatever the cache, the database and Valkey answer, a page has at most 50 messages.
  send_history_page-length :
      (before : Option Cursor) (v : Valkey)
      → OnOk
          (λ event _. length (messages_of event) ≤ history_page_size)
          (send_history_page codec load channel before v)
  unfolding send_history_page
  send_history_page-length before v =
      (bind-Triple (λ _ _. Unit) {R = λ event _. length (messages_of event) ≤ history_page_size}
          (any-Triple (load_hot_history_before codec before))
          λ ms.
            if-Triple (ltb (length ms) (cache_limit before))
              (from_database codec load channel before) _ (λ _. from_database-length before)
              (λ _.
                give-Triple _
                  λ hot _. finished-length channel before ms HistorySource.cache true)).at
        v tt

-- A message that is stored and read again is the same message, if its metadata are printed as JSON
-- and parsed back as they were.
into_message-from_message :
    (codec : Codec) (message : ChatMessage) (owner_session : Uuid) (json : String)
    → codec.to_string message.metadata ≡ some json
    → codec.from_str json ≡ some message.metadata
    → into_message codec (from_message codec message owner_session) ≡ message
unfolding into_message from_message
into_message-from_message codec message owner_session json prints parses = rw (prints, parses) refl
