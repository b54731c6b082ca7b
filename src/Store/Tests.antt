-- ===== src/Store/Tests.antt =====
-- The theorems on the store at a concrete database.
use mathlib.Core.List.{Memᴰ}
use bdsmail.Base.{
  Bool, String, [], any, arith, concat, cut, false, first, has, if◌then◌else◌, keep, length, none,
  refl, show_nat, some, to_lower, true, ◌++◌, ◌==◌, ◌↔◌, ◌∷◌, ◌≡◌,
}
use bdsmail.Model.{Attachment, AutoReply, Message, User}
use bdsmail.Db.{
  Db, empty_db, get_alias, get_auto_reply, get_catch_all, get_message, has_auto_replied_recently,
  list_attachments, split_email, user_exists_by_email,
}
use bdsmail.Store.{
  Env, Mail, MailStore, OutgoingReply, add_new, collect_local_recipients, concat_map,
  delete_message_full, due_reply, is_automatic, max_calls, process_auto_reply, reply_mail,
  resolve_recipient, save_incoming_mail, send_reply, targets_of,
}
use bdsmail.Store.Routes.{Reached, resolve_recipient-Reached}
use bdsmail.Store.Recipients.{HasNoRepeats, collect_local_recipients_lem}
use bdsmail.Store.Delivery.{are_fresh, copies, message_ids, save_incoming_mail_lem}
use bdsmail.Store.Deletion.{delete_message_full_lem, deletions}
use bdsmail.Store.Cooldown.{reply-only_once}

abbrev user_named : String → User
user_named name = record {
  id = concat (name ∷ "@bds.example" ∷ []);
  username = name;
  domain = "bds.example";
  display_name = name;
  password_hash = "hash";
  status = "A";
  twofa_enabled = false;
  twofa_secret = "";
  twofa_backup_codes = "";
}

abbrev stored_message : String → Message
stored_message id = record {
  id = id;
  message_id = "<1@bds.example>";
  from = "eve@far.example";
  to = "ann@bds.example" ∷ [];
  cc = [];
  bcc = [];
  subject = "Hi";
  content_type = "text/plain";
  gcs_key = "";
  owner_user = "ann@bds.example";
  folder = "INBOX";
  seen = false;
  deleted = false;
  received_at = 7;
  body = "hello";
  attachments = [];
}

abbrev attachment : Attachment
attachment = record {
  id = "old_0";
  mail_content_id = "old";
  filename = "a.txt";
  content_type = "text/plain";
  size = 3;
  bucket_key = "old/attach_0_a.txt";
}

abbrev vacation : AutoReply
vacation = record {
  user_email = "ann@bds.example";
  enabled = true;
  subject = "";
  body = "away";
  start_date = 0;
  end_date = 0;
}

abbrev db : Db
db = record empty_db {
  user_account = user_named "ann" ∷ user_named "bob" ∷ [];
  mail_content = stored_message "old" ∷ stored_message "other" ∷ [];
  mail_attachment = attachment ∷ [];
  mail_alias =
      record {
        alias_email = "team@bds.example";
        target_emails = "ann@bds.example" ∷ "bob@bds.example" ∷ [];
        is_catch_all = false;
      }
      ∷ [];
  auto_reply = vacation ∷ [];
}

abbrev store : MailStore
store = record { db = db; has_bucket = true; bucket_log = []; next_id = 0 }

abbrev mail : Mail
mail = record {
  from = "eve@far.example";
  to = "team@bds.example" ∷ [];
  cc = "ann@bds.example" ∷ [];
  subject = "Hi";
  content_type = "text/plain";
  body = "hello";
  attachments = record { filename = "b.txt"; content_type = "text/plain"; bytes = "abc" } ∷ [];
}

abbrev env : Env
env = record { uuid = λ n. concat ("new" ∷ show_nat n ∷ []); bucket_ok = λ op. true }

recipients :
    collect_local_recipients db mail.to mail.cc [] ≡ "ann@bds.example" ∷ "bob@bds.example" ∷ []
unfolding collect_local_recipients resolve_recipient get_alias get_catch_all split_email first
    user_exists_by_email any cut has add_new concat_map concat targets_of
recipients = refl

resolve_recipient-Reached_example :
    Memᴰ "bob@bds.example" (resolve_recipient db max_calls "team@bds.example")
    ↔ Reached db max_calls "team@bds.example" "bob@bds.example"
resolve_recipient-Reached_example =
    resolve_recipient-Reached db max_calls "team@bds.example" "bob@bds.example"

collect_local_recipients_lem_example :
    ((r : String)
      → has r (collect_local_recipients db mail.to mail.cc [])
        ≡ any (λ a. has r (resolve_recipient db max_calls a)) (mail.to ++ mail.cc ++ []))
    × HasNoRepeats (collect_local_recipients db mail.to mail.cc [])
collect_local_recipients_lem_example = collect_local_recipients_lem db mail.to mail.cc []

fresh :
    are_fresh env 0
      (length (collect_local_recipients db mail.to mail.cc []))
      (message_ids store.db.mail_content)
    ≡ true
unfolding has concat show_nat
fresh = rw recipients refl

save_incoming_mail_lem_example :
    ((save_incoming_mail env store mail [] "" 9).0 ≡ true)
    × ((save_incoming_mail env store mail [] "" 9).1.db.mail_content
        ≡ store.db.mail_content
          ++ copies env 0 mail
              (collect_local_recipients db mail.to mail.cc [])
              (if "" == "" then "INBOX" else "")
              9)
save_incoming_mail_lem_example = save_incoming_mail_lem env store mail [] "" 9 refl fresh

has_attachment : list_attachments db "old" ≡ some (attachment ∷ [])
unfolding list_attachments keep
has_attachment = refl

delete_message_full_lem_example :
    ((delete_message_full store "old").0 ≡ true)
    × (get_message (delete_message_full store "old").1.db "old" ≡ none)
    × (list_attachments (delete_message_full store "old").1.db "old" ≡ some [])
    × ((other : String)
        → ("old" == other) ≡ false
        → get_message (delete_message_full store "old").1.db other ≡ get_message store.db other)
    × ((delete_message_full store "old").1.bucket_log ≡ (
        if store.has_bucket
        then store.bucket_log ++ deletions (attachment ∷ [])
        else store.bucket_log))
delete_message_full_lem_example =
    delete_message_full_lem store "old" (attachment ∷ []) has_attachment

abbrev sends : OutgoingReply → Bool
sends reply = true

abbrev the_reply : OutgoingReply
the_reply = record {
  from = "ann@bds.example";
  to = "eve@far.example" ∷ [];
  subject = "Auto-Reply";
  body = "away";
}

replies :
    (process_auto_reply (some sends) db "ann@bds.example" "eve@far.example" 1000).0 ≡ some the_reply
unfolding process_auto_reply due_reply send_reply reply_mail is_automatic any to_lower
    get_auto_reply first has_auto_replied_recently
replies = refl

reply-only_once_example :
    (process_auto_reply none
      (process_auto_reply (some sends) db "ann@bds.example" "eve@far.example" 1000).1
      "ann@bds.example"
      "eve@far.example"
      80000).0
    ≡ none
reply-only_once_example =
    reply-only_once sends none db "ann@bds.example" "eve@far.example" 1000 80000 the_reply replies
      refl (omega arith)
