-- ===== src/Tests/Recipients.antt =====
-- A message that mentions two users, one of whom is banned.
use vussa.Base.{
  ℕ, ◌≡◌, refl, sym, ◌∙◌, String, true, false, ◌&&◌, Option, none, some, [], ◌∷◌, all, find,
}
use vussa.Models.{Uuid, ChatMessage, Json, Fields}
use vussa.Database.Tables.{has_member}
use vussa.Access.{can_access}
use vussa.Accounts.{Account}
use vussa.Text.{trim, trim_start, trim_end}
use vussa.Notifications.Mentions.{
  MentionScope, extract_mentioned_usernames, mentioned_usernames, mention_scope, first_scope,
  split_whitespace, first_word,
}
use vussa.Notifications.Recipients.{
  NotifyTables, Recipient, mentions_in, select_recipients, recipients_among, recipient,
  is_recipient, is_concerned, is_mention, online_field,
}
use vussa.Notifications.Creation.{Run, recipients_at, create_message_notifications}
use vussa.Notifications.Again.{create_message_notifications-again}
use vussa.Notifications.Readers.{as_db, is_other_active, recipients_at-can_access}
use vussa.Tests.Data.{ascii, alice, main_row}

abbrev no_uuid : String → Option Uuid
no_uuid s = none

abbrev named : Uuid → String → Account
named id name = record {
  id = id;
  email = name;
  username = name;
  password_hash = "hash";
  disabled_at = none;
  deleted_at = none;
  role_version = 1;
  updated_at = 0;
}

abbrev both_mentioned : ChatMessage
both_mentioned = record {
  id = 9;
  channel = "main";
  username = "alice";
  text = "@bob, @eve: look";
  created_at = 300;
  edited = false;
  deleted = false;
  root_message_id = none;
  reply_count = 0;
  metadata = Json.object Fields.end;
  mentions = [];
  client_id = none;
  file_ids = [];
}

abbrev told_tables : NotifyTables
told_tables = record {
  lower = λ s. s;
  channels = main_row ∷ [];
  members = [];
  users = named 7 "alice" ∷ named 8 "bob" ∷ named 9 "eve" ∷ [];
  bans =
      record {
        id = 5;
        user_id = 9;
        channel_id = none;
        expires_at = some 5000;
        revoked_at = none;
        reason = "spam";
        created_by = some 1;
        created_at = 0;
      }
      ∷ [];
  preferences =
      record {
        user_id = 8;
        mentions = true;
        direct_messages = true;
        channel_messages = false;
        email_enabled = true;
        browser_push_enabled = false;
      }
      ∷ [];
  notifications = [];
  deliveries = [];
}

abbrev run_at : ℕ → ℕ → Run
run_at first t = record {
  notification_id = λ user. first;
  delivery_id = λ user channel. first;
  read_at = t;
  now = t;
}

names_in_text : extract_mentioned_usernames ascii "@bob, @eve: look" "alice" ≡ "bob" ∷ "eve" ∷ []
unfolding extract_mentioned_usernames mentioned_usernames split_whitespace first_word trim
    trim_start trim_end
names_in_text = refl

everyone_in_text : mention_scope ascii "hi @channel!" ≡ MentionScope.everyone
unfolding mention_scope first_scope split_whitespace first_word trim trim_start trim_end
everyone_in_text = refl

abbrev bob_told : Recipient
bob_told = record {
  user_id = 8;
  channel_id = 1;
  email = "bob";
  kind = "mention";
  body = "alice mentioned you in #main";
  email_enabled = true;
  browser_enabled = false;
}

told_at_1000 : recipients_at no_uuid ascii alice both_mentioned 1000 told_tables ≡ bob_told ∷ []
unfolding recipients_at select_recipients recipients_among recipient is_recipient is_concerned
    is_mention mentions_in online_field extract_mentioned_usernames mentioned_usernames
    mention_scope first_scope split_whitespace first_word trim trim_start trim_end has_member find
told_at_1000 = refl

told_at_2000 : recipients_at no_uuid ascii alice both_mentioned 2000 told_tables ≡ bob_told ∷ []
unfolding recipients_at select_recipients recipients_among recipient is_recipient is_concerned
    is_mention mentions_in online_field extract_mentioned_usernames mentioned_usernames
    mention_scope first_scope split_whitespace first_word trim trim_start trim_end has_member find
told_at_2000 = refl

create_message_notifications-again_example :
    create_message_notifications no_uuid ascii alice both_mentioned (run_at 200 2000) (
      create_message_notifications no_uuid ascii alice both_mentioned (run_at 100 1000) told_tables)
    ≡ create_message_notifications no_uuid ascii alice both_mentioned (run_at 100 1000) told_tables
create_message_notifications-again_example =
    create_message_notifications-again no_uuid ascii alice both_mentioned (run_at 100 1000)
      (run_at 200 2000) told_tables (refl, (refl, (refl, tt))) (told_at_2000 ∙ sym told_at_1000)

recipients_at-can_access_example :
    all
      (λ r.
        can_access (as_db told_tables) "main" r.user_id 1000
        && is_other_active told_tables.users 7 r.user_id)
      (recipients_at no_uuid ascii alice both_mentioned 1000 told_tables)
    ≡ true
recipients_at-can_access_example =
    recipients_at-can_access no_uuid ascii alice both_mentioned 1000 told_tables
