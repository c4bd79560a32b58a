-- ===== src/Tests/History.antt =====
-- Messages in the hot cache and in the database, and the name of an upload.
use vussa.Base.{ℕ, ◌≤◌, ◌≡◌, refl, true, false, none, some, [], ◌∷◌, insert_sorted, keep, not, ◌==◌}
use vussa.Models.{ChatMessage, Json, Fields}
use vussa.Text.{all_chars, sanitize_upload_name}
use vussa.Text.Uploads.{is_safe, count_chars, sanitize_upload_name-safe}
use vussa.History.{Valkey, store_message}
use vussa.History.Stored.{Codec}
use vussa.History.Commands.{entry_le}
use vussa.History.Triples.{OnOk}
use vussa.History.Bounds.{IsNewest, store_message-IsNewest}
use vussa.Rooms.{Answer}
use vussa.Tests.Data.{ascii}

abbrev no_data : Json
no_data = Json.object Fields.end

-- A codec for messages without metadata.
abbrev plain : Codec
plain = record {
  to_string = λ json. some "{}";
  from_str = λ s. some no_data;
  encode = λ stored. stored.id ∷ [];
  decode = λ bytes. none;
}

abbrev message_at : ℕ → ChatMessage
message_at n = record {
  id = n;
  channel = "main";
  username = "alice";
  text = "hello";
  created_at = n;
  edited = false;
  deleted = false;
  root_message_id = none;
  reply_count = 0;
  metadata = no_data;
  mentions = [];
  client_id = none;
  file_ids = [];
}

abbrev warm : Valkey
warm = record {
  answers = Answer.done ∷ Answer.done ∷ [];
  hot = record { order = (3, 3) ∷ (4, 4) ∷ []; hash = (3, 3 ∷ []) ∷ (4, 4 ∷ []) ∷ [] };
}

store_message-IsNewest_example :
    OnOk
      (λ _ hot.
        IsNewest
          (insert_sorted entry_le (5, 5) (keep (λ e. not (5 == e.1)) warm.hot.order))
          hot.order)
      (store_message plain (message_at 5) 9 warm)
store_message-IsNewest_example =
    store_message-IsNewest plain (message_at 5) 9 warm (refl, (refl, tt)) (refl, (refl, tt))

sanitize_upload_name-safe_example :
    (all_chars (is_safe ascii) (sanitize_upload_name ascii "../etc/passwd") ≡ true)
    × (count_chars (sanitize_upload_name ascii "../etc/passwd") ≤ 255)
sanitize_upload_name-safe_example = sanitize_upload_name-safe ascii "../etc/passwd"
