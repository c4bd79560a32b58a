-- ===== src/Tests/Messages.antt =====
-- A message that is deleted, one that is edited although it is deleted, and one that is sent twice.
use vussa.Base.{◌≡◌, refl, ℕ, false, ◌&&◌, Option, none, some, [], ◌∷◌, find}
use vussa.Models.{Uuid, ChatMessage, Json, Fields}
use vussa.Repository.{
  MessageRow, Store, is_message, is_in, channel_name, edit_message, delete_message, save_message,
}
use vussa.Repository.Messages.{
  IsGone, IsOwnEdit, page, delete_message-IsGone, edit_message-IsOwnEdit,
}
use vussa.Repository.Retries.{IsFoundAgain, save_message-IsFoundAgain}
use vussa.Tests.Data.{main_row, team_row}

abbrev row : Uuid → Option ℕ → MessageRow
row id deleted_at = record {
  id = id;
  channel_id = 1;
  username = "alice";
  text = "secret";
  created_at = id;
  edited = false;
  deleted_at = deleted_at;
  owner_session = 50;
  owner_user_id = some 7;
  root_message_id = none;
  client_id = none;
  metadata = Json.object Fields.end;
  mentions = [];
}

abbrev store : Store
store = record {
  channels = main_row ∷ team_row ∷ [];
  messages = row 3 none ∷ row 4 (some 900) ∷ [];
  files = 70 ∷ [];
  message_files = (3, 70) ∷ [];
}

delete_message-IsGone_example :
    IsGone (page 2000 "main" none 50) 3 50 false store (delete_message 1000 "main" 3 50 false store)
delete_message-IsGone_example =
    delete_message-IsGone 2000 "main" none 50 1000 "main" 3 50 false store

edit_message-IsOwnEdit_example : IsOwnEdit 3 50 store (edit_message "main" 3 50 "public" store)
edit_message-IsOwnEdit_example = edit_message-IsOwnEdit "main" 3 50 "public" store

found : find (λ m. is_message 4 m && is_in store "main" m) store.messages ≡ some (row 4 (some 900))
unfolding find channel_name
found = refl

abbrev sent : ChatMessage
sent = record {
  id = 9;
  channel = "main";
  username = "alice";
  text = "hello";
  created_at = 300;
  edited = false;
  deleted = false;
  root_message_id = some 3;
  reply_count = 0;
  metadata = Json.object Fields.end;
  mentions = [];
  client_id = some "key";
  file_ids = 70 ∷ [];
}

save_message-IsFoundAgain_example : IsFoundAgain sent 50 7 "key" (save_message sent 50 7 store)
save_message-IsFoundAgain_example =
    save_message-IsFoundAgain sent 50 7 "key" store (refl, (refl, tt)) refl
