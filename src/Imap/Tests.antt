-- ===== src/Imap/Tests.antt =====
-- The theorems on IMAP sessions at a concrete mailbox.
use bdsmail.Base.{
  All, Bool, List, String, [], any, arith, cut, false, if◌then◌else◌, length, none, refl, some,
  true, update, ◌&&◌, ◌==◌, ◌∷◌, ◌≡◌, ◌⊎◌,
}
use bdsmail.Model.{Message}
use bdsmail.Db.{empty_db, get_message}
use bdsmail.Store.{MailStore}
use bdsmail.Imap.Parse.{parse_sequence_set}
use bdsmail.Imap.Session.{ImapEnv, ImapSession, new_imap_session, no_mailbox}
use bdsmail.Imap.Commands.{
  flagged, handle_close, handle_imap_lines, handle_store, names_deleted, names_seen,
}
use bdsmail.Imap.Bounds.{InBounds, parse_sequence_set-InBounds}
use bdsmail.Imap.Expunge.{handle_close_lem}
use bdsmail.Imap.Flags.{handle_store_lem}
use bdsmail.Imap.Flags.Named.{is_named}
use bdsmail.Imap.Login.{SomeLogsIn, handle_imap_lines-needs_login}

abbrev inbox_message : String → Bool → Message
inbox_message id deleted = record {
  id = id;
  message_id = "<2@bds.example>";
  from = "eve@far.example";
  to = "ann@bds.example" ∷ [];
  cc = [];
  bcc = [];
  subject = "Hello";
  content_type = "text/html";
  gcs_key = "";
  owner_user = "ann@bds.example";
  folder = "INBOX";
  seen = false;
  deleted = deleted;
  received_at = 8;
  body = "<p>hi</p>";
  attachments = [];
}

abbrev mailbox : List Message
mailbox = inbox_message "m1" false ∷ inbox_message "m2" true ∷ inbox_message "m3" false ∷ []

abbrev store : MailStore
store = record {
  db = record empty_db { mail_content = mailbox };
  has_bucket = false;
  bucket_log = [];
  next_id = 4;
}

abbrev env : ImapEnv
env = record {
  check_password = λ hash password. hash == password;
  read = λ key. none;
  date = "";
  nanos = "";
  mail_time = λ t. "";
  internal_time = λ t. "";
  ilike = λ text pattern. false;
  marshal = λ addrs. "";
}

abbrev session : ImapSession
session = record {
  username = "ann@bds.example";
  authed = true;
  selected_mailbox = "INBOX";
  messages = mailbox;
}

parse_sequence_set-InBounds_example : All (InBounds 3) (parse_sequence_set "7:2,*,x" 3)
parse_sequence_set-InBounds_example = parse_sequence_set-InBounds "7:2,*,x" 3 (omega arith)

handle_close_lem_example :
    (get_message (handle_close store session "a1").1.db "m2"
      ≡ (if any (λ m. m.deleted && m.id == "m2") mailbox then none else get_message store.db "m2"))
    × (no_mailbox (handle_close store session "a1").2 ≡ true)
handle_close_lem_example = handle_close_lem store session "a1" "m2" refl

first_cut : cut b' ' "1:2 +FLAGS (\\Seen)" ≡ some ("1:2", "+FLAGS (\\Seen)")
unfolding cut
first_cut = refl

second_cut : cut b' ' "+FLAGS (\\Seen)" ≡ some ("+FLAGS", "(\\Seen)")
unfolding cut
second_cut = refl

has_mailbox : no_mailbox session ≡ false
unfolding no_mailbox
has_mailbox = refl

handle_store_lem_example :
    (handle_store store session "a2" "1:2 +FLAGS (\\Seen)").1.db.mail_content
    ≡ update
        (is_named mailbox (parse_sequence_set "1:2" (length mailbox)))
        (flagged (names_seen "(\\Seen)") (names_deleted "(\\Seen)"))
        mailbox
handle_store_lem_example =
    handle_store_lem store session "a2" "1:2 +FLAGS (\\Seen)" "1:2" "+FLAGS (\\Seen)" "+FLAGS"
      "(\\Seen)" refl has_mailbox first_cut second_cut

abbrev sent : List String
sent =
    "a LOGIN ann@bds.example s3cret"
    ∷ ("b SELECT INBOX" ∷ ("c STORE 1 +FLAGS (\\Deleted)" ∷ ("d CLOSE" ∷ [])))

handle_imap_lines-needs_login_example :
    ((handle_imap_lines env store new_imap_session sent).1 ≡ store) ⊎ SomeLogsIn env store.db sent
handle_imap_lines-needs_login_example =
    handle_imap_lines-needs_login env store new_imap_session sent
      (record { not_authed = refl; no_messages = refl })
