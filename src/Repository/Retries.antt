-- ===== src/Repository/Retries.antt =====
-- A message that was sent with a `client_id` is found when it is sent again.
use vussa.Base.{
  and_left, and_right, ==_refl, ◌≡◌, refl, ap, subst, String, str_eq_refl, eq_iff, Bool, true,
  false, ◌==◌, if◌then◌else◌, keep, any-append, not, ◌&&◌, ◌||◌, Option, none, some, List, [], ◌∷◌,
  ◌++◌, any, any-or_right, all, find, find-append, find-head, find-some, Distinct, arith, inl, inr,
  Bool-cases,
}
use vussa.Models.{Uuid, ChatMessage}
use vussa.Database.{ChannelRow}
use vussa.Database.Tables.{has_name, is_live, is_null}
use vussa.Services.Ownership.{same_id, find-id}
use vussa.Repository.{
  Store, Outcome, reply_count, file_ids_of, channel_name, has_parent, is_retry, conflicts, new_row,
  is_file, save_found, save_message, attach, is_message, is_there, find_message_by_client_id,
}

-- The message as it was sent, not deleted, with the replies and the files that the tables have for
-- its identifier.
abbrev as_sent : ChatMessage → Store → ChatMessage
as_sent message store = record message {
  deleted = false;
  reply_count = reply_count store message.id;
  file_ids = file_ids_of store.message_files message.id;
}

-- The message has all the files with which it was sent.
abbrev has_files : ChatMessage → ChatMessage → Bool
has_files message found = all (λ f. any (λ g. g == f) found.file_ids) message.file_ids

-- A second attempt with the same `client_id` finds what the first one saved.
abbrev pub IsFoundAgain : ChatMessage → Uuid → Uuid → String → Outcome (Unit {0}) → Type 0
IsFoundAgain message owner_session owner_user client_id (Outcome.failed e) = Unit
IsFoundAgain message owner_session owner_user client_id (Outcome.done saved after) =
    (find_message_by_client_id owner_session client_id after ≡ some (as_sent message after))
    × (has_files message (as_sent message after) ≡ true)

abbrev is_pair : Uuid → Uuid → Uuid × Uuid → Bool
is_pair id file p = p.0 == id && p.1 == file

any-attach :
    (q : Uuid × Uuid → Bool) (id : Uuid) (files : List Uuid) (pairs : List (Uuid × Uuid))
    → any q pairs ≡ true
    → any q (attach id files pairs) ≡ true
any-attach q id [] pairs h = h
any-attach q id (file ∷ rest) pairs h = elim (Bool-cases (any (is_pair id file) pairs)) [
  | inl there ↦ rw there (any-attach q id rest pairs h)
  | inr absent ↦ rw absent (
      any-attach q id rest (pairs ++ (id, file) ∷ [])
        (rw (any-append q pairs ((id, file) ∷ []), h) refl))
]

abbrev attached : Uuid → Uuid → List (Uuid × Uuid) → List (Uuid × Uuid)
attached id file pairs = if any (is_pair id file) pairs then pairs else pairs ++ (id, file) ∷ []

any-attached :
    (id file : Uuid) (pairs : List (Uuid × Uuid))
    → any (is_pair id file) (attached id file pairs) ≡ true
any-attached id file pairs = elim (Bool-cases (any (is_pair id file) pairs)) [
  | inl there ↦ rw (there, there) refl
  | inr absent ↦
      rw
        (
          absent,
          any-append (is_pair id file) pairs ((id, file) ∷ []),
          absent,
          ==_refl id,
          ==_refl file,
        )
        refl
]

attach-all :
    (id : Uuid) (files : List Uuid) (pairs : List (Uuid × Uuid))
    → all (λ f. any (is_pair id f) (attach id files pairs)) files ≡ true
attach-all id [] pairs = refl
attach-all id (file ∷ rest) pairs =
    let first =
      any-attach (is_pair id file) id rest (attached id file pairs) (any-attached id file pairs) in
    rw first (attach-all id rest (attached id file pairs))

any-file_ids :
    (id file : Uuid) (pairs : List (Uuid × Uuid))
    → any (λ g. g == file) (file_ids_of pairs id) ≡ any (is_pair id file) pairs
unfolding file_ids_of keep
any-file_ids id file [] = refl
any-file_ids id file (p ∷ pairs) = ground (arith, any-file_ids id file pairs)

all-file_ids :
    (id : Uuid) (files : List Uuid) (pairs : List (Uuid × Uuid))
    → all (λ f. any (is_pair id f) pairs) files ≡ true
    → all (λ f. any (λ g. g == f) (file_ids_of pairs id)) files ≡ true
all-file_ids id [] pairs h = refl
all-file_ids id (file ∷ rest) pairs h =
    ground (arith, any-file_ids id file pairs, all-file_ids id rest pairs)

any-and :
    {A : Type 0} (p q : A → Bool) (xs : List A)
    → any q xs ≡ false
    → any (λ x. p x && q x) xs ≡ false
any-and p q [] h = refl
any-and p q (x ∷ xs) h = ground (arith, any-and p q xs)

or_left : (a b : Bool) → (a || b) ≡ false → a ≡ false
or_left a b h = ground arith

live_channel_name :
    (channels : List ChannelRow) (name : String) (c : ChannelRow)
    → Distinct same_id channels
    → find (is_live name) channels ≡ some c
    → channel_name channels c.id ≡ some name
unfolding channel_name
live_channel_name channels name c d found =
    let live = find-some (is_live name) channels c found in
    rw (find-id (is_live name) channels c d found, and_right _ (is_null c.deleted_at) live)
      (ap some ((eq_iff c.name name).0 (and_left (has_name name c) _ live)))

module _ (message : ChatMessage) (owner_session owner_user : Uuid) (client_id : String) where
  saved_again :
      (store : Store) (c : ChannelRow)
      → message.client_id ≡ some client_id
      → channel_name store.channels c.id ≡ some message.channel
      → any (conflicts message owner_session) store.messages ≡ false
      → let after : Store = record store {
        messages = store.messages ++ new_row c.id message owner_session owner_user ∷ [];
        message_files = attach message.id message.file_ids store.message_files;
      } in
        find_message_by_client_id owner_session client_id after ≡ some (as_sent message after)
  unfolding find_message_by_client_id
  saved_again store c has_key named free =
      let row = new_row c.id message owner_session owner_user in
      let old =
        any-and (λ m. is_there (channel_name store.channels m.channel_id))
          (is_retry owner_session (some client_id)) store.messages
          (subst (λ key. any (is_retry owner_session key) store.messages ≡ false) has_key
            (any-or_right (is_message message.id) (is_retry owner_session message.client_id)
              store.messages free)) in
      rw
        (
          find-append _ store.messages (row ∷ []) old,
          find-head
              (λ m.
                is_there (channel_name store.channels m.channel_id)
                && is_retry owner_session (some client_id) m)
              row [] (rw (named, has_key, ==_refl owner_session, str_eq_refl client_id) refl),
          named,
        )
        refl

  save_found-IsFoundAgain :
      (store : Store) (o : Option ChannelRow)
      → Distinct same_id store.channels
      → message.client_id ≡ some client_id
      → find (is_live message.channel) store.channels ≡ o
      → IsFoundAgain message owner_session owner_user client_id
          (save_found message owner_session owner_user store o)
  save_found-IsFoundAgain store none d has_key found = tt
  save_found-IsFoundAgain store (some c) d has_key found =
      elim (Bool-cases (not (has_parent store c.id message.root_message_id))) [
        | inl orphan ↦ rw orphan tt
        | inr parented ↦
            rw parented
              (elim (Bool-cases (
                any (conflicts message owner_session) store.messages
                || not (all (is_file store) message.file_ids))) [
                  | inl refused ↦ rw refused tt
                  | inr saved ↦ rw saved (
                    saved_again store c has_key
                        (live_channel_name store.channels message.channel c d found)
                        (or_left _ _ saved),
                    all-file_ids message.id message.file_ids
                        (attach message.id message.file_ids store.message_files)
                        (attach-all message.id message.file_ids store.message_files),
                  )
                ])
      ]

  -- Channels have different identifiers. If a message with a `client_id` is saved, the search for the
  -- session and that `client_id` finds the message as it was sent, each of its fields, but that it is
  -- not deleted, and that its replies are counted and its files listed from the tables, which have
  -- all the files with which it was sent.
  pub save_message-IsFoundAgain :
      (store : Store)
      → Distinct same_id store.channels
      → message.client_id ≡ some client_id
      → IsFoundAgain message owner_session owner_user client_id
          (save_message message owner_session owner_user store)
  unfolding save_message
  save_message-IsFoundAgain store d has_key = save_found-IsFoundAgain store _ d has_key refl
