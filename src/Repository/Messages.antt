-- ===== src/Repository/Messages.antt =====
-- Who may change a message, and what is seen of one that is deleted.
use vussa.Base.{
  and_left, not-false, ℕ, ◌==◌, ◌≡◌, refl, String, Bool, true, false, not, ◌&&◌, ◌||◌, Option, none,
  some, List, [], ◌∷◌, map, keep, any, all, all-weaken, all-take, all-keep, all-sort_by,
  all-reverse_onto, find, find-some, arith, inl, inr, Bool-cases, ap,
}
use vussa.Models.{Uuid, ChatMessage}
use vussa.Database.Tables.{is_null, update}
use vussa.Text.{is_empty}
use vussa.Repository.{
  MessageRow, Store, Outcome, Cursor, row_message, is_message, is_in, is_shown, newest_first,
  load_messages, set_text, edit_found, edited_message, edit_message, set_deleted, coalesce,
  delete_found, delete_message,
}

-- The message with the identifier is deleted, wherever it is listed.
abbrev pub is_hidden : Uuid → ChatMessage → Bool
is_hidden id m = not (m.id == id) || m.deleted && is_empty m.text

abbrev pub row_hidden : Uuid → MessageRow → Bool
row_hidden id m = not (is_message id m) || not (is_null m.deleted_at)

all-map :
    {A B : Type 0} (p : B → Bool) (f : A → B) (xs : List A)
    → all (λ x. p (f x)) xs ≡ true
    → all p (map f xs) ≡ true
all-map p f [] h = refl
all-map p f (x ∷ xs) h = ground (arith, all-map p f xs)

row-hidden :
    (store : Store) (channel : String) (id : Uuid) (m : MessageRow)
    → row_hidden id m ≡ true
    → is_hidden id (row_message store channel m) ≡ true
row-hidden store channel id m h = elim (Bool-cases (is_message id m)) [
  | inl this ↦ elim (Bool-cases (is_null m.deleted_at)) [
    | inl live ↦ ground arith
    | inr gone ↦ rw (this, gone) refl
  ]
  | inr other ↦ rw other refl
]

load_messages-hidden :
    (id : Uuid) (store : Store) (now : ℕ) (channel : String) (before : Option Cursor) (limit : ℕ)
    → all (row_hidden id) store.messages ≡ true
    → all (is_hidden id) (load_messages store now channel before limit) ≡ true
unfolding load_messages
load_messages-hidden id store now channel before limit h =
    all-map (is_hidden id) (row_message store channel) _ (
      all-weaken (row_hidden id) _ (row-hidden store channel id) _ (
        all-reverse_onto (row_hidden id) _ []
          (all-take (row_hidden id) limit _ (
            all-sort_by newest_first (row_hidden id) _
              (all-keep (row_hidden id) (is_shown store now channel before) store.messages h)))
          refl))

coalesce-there : (o : Option ℕ) (t : ℕ) → is_null (coalesce o t) ≡ false
coalesce-there none t = refl
coalesce-there (some s) t = refl

set_deleted-hidden :
    (now : ℕ) (id : Uuid) (ms : List MessageRow)
    → all (row_hidden id) (update (is_message id) (set_deleted now) ms) ≡ true
unfolding update
set_deleted-hidden now id [] = refl
set_deleted-hidden now id (m ∷ ms) = elim (Bool-cases (is_message id m)) [
  | inl this ↦ rw (this, this, coalesce-there m.deleted_at now) (set_deleted-hidden now id ms)
  | inr other ↦ rw (other, other) (set_deleted-hidden now id ms)
]

-- Whoever deleted the message might do so, and nothing of it can be read in what `seen` shows.
abbrev pub IsGone :
    (Store → List ChatMessage) → Uuid → Uuid → Bool → Store → Outcome ChatMessage → Type 0
IsGone seen id owner_session can_moderate before (Outcome.failed e) = Unit
IsGone seen id owner_session can_moderate before (Outcome.done message after) =
    ((can_moderate
        || any (λ m. is_message id m && m.owner_session == owner_session) before.messages)
      ≡ true)
    × (all (is_hidden id) (seen after) ≡ true)

any-find :
    (p q : MessageRow → Bool) (ms : List MessageRow) (m : MessageRow)
    → find p ms ≡ some m
    → q m ≡ true
    → any q ms ≡ true
unfolding find
any-find p q [] m found h = ground arith
any-find p q (x ∷ ms) m found h = ground (arith, any-find p q ms m)

delete_allowed :
    (moderator owned own : Bool)
    → (not moderator && not own) ≡ false
    → (own ≡ true → owned ≡ true)
    → (moderator || owned) ≡ true
delete_allowed moderator owned own allowed h = ground (arith, h)

any-own :
    (id owner_session : Uuid) (channel : String) (store : Store) (m : MessageRow)
    → find (λ m. is_message id m && is_in store channel m) store.messages ≡ some m
    → (m.owner_session == owner_session) ≡ true
    → any (λ m. is_message id m && m.owner_session == owner_session) store.messages ≡ true
any-own id owner_session channel store m found own = any-find _ _ store.messages m found (
    rw
      (and_left (is_message id m) (is_in store channel m) (find-some _ store.messages m found), own)
      refl)

module _ (later : ℕ) (viewed : String) (cursor : Option Cursor) (limit : ℕ) where
  abbrev pub page : Store → List ChatMessage
  page store = load_messages store later viewed cursor limit

  delete_found-IsGone :
      (now : ℕ) (channel : String) (id owner_session : Uuid) (can_moderate : Bool) (store : Store)
      (o : Option MessageRow)
      → find (λ m. is_message id m && is_in store channel m) store.messages ≡ o
      → IsGone page id owner_session can_moderate store
          (delete_found now channel id owner_session can_moderate store o)
  delete_found-IsGone now channel id owner_session can_moderate store none found = tt
  delete_found-IsGone now channel id owner_session can_moderate store (some m) found =
      elim (Bool-cases (not can_moderate && not (m.owner_session == owner_session))) [
        | inl refused ↦ rw refused tt
        | inr allowed ↦ rw allowed (
          delete_allowed can_moderate _ (m.owner_session == owner_session) allowed
              (any-own id owner_session channel store m found),
          load_messages-hidden id _ later viewed cursor limit
              (set_deleted-hidden now id store.messages),
        )
      ]

  -- A message is deleted only by a moderator or from the session that sent it; afterwards no page of
  -- any channel, at any time, shows its text, and where it is listed it is marked as deleted.
  pub delete_message-IsGone :
      (now : ℕ) (channel : String) (id owner_session : Uuid) (can_moderate : Bool) (store : Store)
      → IsGone page id owner_session can_moderate store
          (delete_message now channel id owner_session can_moderate store)
  unfolding delete_message
  delete_message-IsGone now channel id owner_session can_moderate store =
      delete_found-IsGone now channel id owner_session can_moderate store _ refl

-- The message is edited from its own session, and no other message changes.
abbrev pub IsOwnEdit : Uuid → Uuid → Store → Outcome ChatMessage → Type 0
IsOwnEdit id owner_session before (Outcome.failed e) = Unit
IsOwnEdit id owner_session before (Outcome.done message after) =
    (any (λ m. is_message id m && m.owner_session == owner_session) before.messages ≡ true)
    × (keep (λ m. not (is_message id m)) after.messages
        ≡ keep (λ m. not (is_message id m)) before.messages)

keep-update :
    (id : Uuid) (f : MessageRow → MessageRow) (ms : List MessageRow)
    → ((m : MessageRow) → (f m).id ≡ m.id)
    → keep (λ m. not (is_message id m)) (update (is_message id) f ms)
      ≡ keep (λ m. not (is_message id m)) ms
unfolding keep update
keep-update id f [] same = refl
keep-update id f (m ∷ ms) same = elim (Bool-cases (is_message id m)) [
  | inl this ↦ rw (this, same m, this) (keep-update id f ms same)
  | inr other ↦ rw (other, other) (ap (◌∷◌ m) (keep-update id f ms same))
]

edit_found-IsOwnEdit :
    (channel : String) (id owner_session : Uuid) (text : String) (store : Store)
    (o : Option MessageRow)
    → find (λ m. is_message id m && is_in store channel m) store.messages ≡ o
    → IsOwnEdit id owner_session store (edit_found channel id owner_session text store o)
edit_found-IsOwnEdit channel id owner_session text store none found = tt
edit_found-IsOwnEdit channel id owner_session text store (some m) found =
    elim (Bool-cases (not (m.owner_session == owner_session))) [
      | inl refused ↦ rw refused tt
      | inr own ↦ rw own (
        any-own id owner_session channel store m found
            (not-false (m.owner_session == owner_session) own),
        keep-update id (set_text text) store.messages (λ m. refl),
      )
    ]

-- A message is edited only from the session that sent it, and every other message stays as it was.
pub edit_message-IsOwnEdit :
    (channel : String) (id owner_session : Uuid) (text : String) (store : Store)
    → IsOwnEdit id owner_session store (edit_message channel id owner_session text store)
unfolding edit_message
edit_message-IsOwnEdit channel id owner_session text store =
    edit_found-IsOwnEdit channel id owner_session text store _ refl

set_text-hidden :
    (id : Uuid) (text : String) (ms : List MessageRow)
    → all (row_hidden id) ms ≡ true
    → all (row_hidden id) (update (is_message id) (set_text text) ms) ≡ true
unfolding update
set_text-hidden id text [] h = refl
set_text-hidden id text (m ∷ ms) h = elim (Bool-cases (is_message id m)) [
  | inl this ↦ rw (this, this) (ground (arith, set_text-hidden id text ms, this))
  | inr other ↦ rw (other, other) (ground (arith, set_text-hidden id text ms))
]

-- Where every row with the identifier is deleted, one of them is in the channel, and the session is
-- its own: the message can still be edited; the answer has the new text and says that the message
-- is not deleted, while every page goes on to hide it.
edit_message-deleted :
    (channel : String) (id owner_session : Uuid) (text : String) (store : Store) (m : MessageRow)
    (later : ℕ) (viewed : String) (cursor : Option Cursor) (limit : ℕ)
    → find (λ m. is_message id m && is_in store channel m) store.messages ≡ some m
    → (m.owner_session == owner_session) ≡ true
    → all (row_hidden id) store.messages ≡ true
    → (after : Store) × (edit_message channel id owner_session text store
        ≡ Outcome.done (edited_message store channel text m) after)
      × ((edited_message store channel text m).deleted ≡ false)
      × (all (is_hidden id) (load_messages after later viewed cursor limit) ≡ true)
unfolding edit_message
edit_message-deleted channel id owner_session text store m later viewed cursor limit found own
      hidden =
    (
      record store { messages = update (is_message id) (set_text text) store.messages },
      rw (found, own) refl,
      refl,
      load_messages-hidden id _ later viewed cursor limit
          (set_text-hidden id text store.messages hidden),
    )
