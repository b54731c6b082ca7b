-- ===== src/Pop3/Tests.antt =====
-- The theorems on POP3 sessions at a concrete mailbox.
use bdsmail.Base.{
  List, String, [], cut, false, if◌then◌else◌, none, refl, to_upper, trim_space, true, ◌++◌, ◌==◌,
  ◌∷◌, ◌≡◌, ◌⊎◌,
}
use bdsmail.Model.{Message, to_int64}
use bdsmail.Db.{empty_db, get_message}
use bdsmail.Store.{MailStore}
use bdsmail.Pop3.{
  Pop3Env, Pop3Session, command, handle_lines, has_index, new_session, parse_index, verb,
}
use bdsmail.Pop3.Login.{LogsIn, handle_lines-needs_login}
use bdsmail.Pop3.Marks.{are_plain, mark_by}
use bdsmail.Pop3.Expunge.{handle_lines-quit, some_with}

abbrev inbox_message : String → Message
inbox_message id = record {
  id = id;
  message_id = "<1@bds.example>";
  from = "eve@far.example";
  to = "ann@bds.example" ∷ [];
  cc = [];
  bcc = [];
  subject = "Hi";
  content_type = "text/plain";
  gcs_key = "";
  owner_user = "ann@bds.example";
  folder = "INBOX";
  seen = false;
  deleted = false;
  received_at = 7;
  body = "hello";
  attachments = [];
}

abbrev mailbox : List Message
mailbox = inbox_message "m1" ∷ inbox_message "m2" ∷ []

abbrev store : MailStore
store = record {
  db = record empty_db { mail_content = mailbox };
  has_bucket = false;
  bucket_log = [];
  next_id = 0;
}

abbrev env : Pop3Env
env = record {
  check_password = λ hash password. hash == password;
  read = λ key. none;
  date = "";
  nanos = "";
  range = λ keys. keys;
}

abbrev session : Pop3Session
session = record { username = "ann@bds.example"; authed = true; messages = mailbox; deleted = [] }

abbrev lines : List String
lines = "DELE 2" ∷ "stat" ∷ []

plain : are_plain lines ≡ true
unfolding command verb cut to_upper trim_space
plain = refl

marked : some_with (λ i. mark_by i (has_index i []) lines) 0 mailbox "m2" ≡ true
unfolding command verb cut to_upper trim_space parse_index to_int64
marked = refl

handle_lines-quit_example :
    get_message (handle_lines env store session (lines ++ "QUIT" ∷ [])).1.db "m2" ≡ (
      if some_with (λ i. mark_by i (has_index i session.deleted) lines) 0 session.messages "m2"
      then none
      else get_message store.db "m2")
handle_lines-quit_example =
    handle_lines-quit env store session lines "m2" (λ p ks. refl) refl refl plain

abbrev sent : List String
sent = "USER ann@bds.example" ∷ "PASS s3cret" ∷ "DELE 1" ∷ "QUIT" ∷ []

handle_lines-needs_login_example :
    ((handle_lines env store new_session sent).1 ≡ store)
    ⊎ LogsIn env store.db new_session.username sent
handle_lines-needs_login_example =
    handle_lines-needs_login env store new_session sent
      (record { not_authed = refl; no_messages = refl; no_marks = refl })
