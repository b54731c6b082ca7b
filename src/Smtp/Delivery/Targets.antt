-- ===== src/Smtp/Delivery/Targets.antt =====
-- A message of another server at the mailboxes that its recipients reach (handleInbound of backend.go).
use bdsmail.Base.{
  Assoc, List, String, [], false, has, if◌then◌else◌, len, map, none, some, ℕ, ◌++◌, ◌==◌, ◌∷◌,
}
use bdsmail.Model.{Message}
use bdsmail.Filter.{FilterResult, apply}
use bdsmail.Db.{Db, is_mailing_list, list_filters}
use bdsmail.Store.{
  Mail, MailStore, distribute_to_list, max_calls, process_auto_reply, resolve_recipient,
  save_incoming_mail_for_user,
}
use bdsmail.Smtp.Session.{ParsedMail, SmtpEnv, mail_of, remove_addr}

-- the lists among the recipients get the message, and leave the recipients
unfoldable pub distribute_lists :
    SmtpEnv
    → MailStore
    → ParsedMail
    → String
    → String
    → List String
    → ℕ
    → List String × List String × List String
    → (List String × List String × List String) × MailStore
distribute_lists env s parsed from subject [] now addrs = (addrs, s)
distribute_lists env s parsed from subject (addr ∷ rest) now (to, cc_addrs, bcc) =
    let is_list = is_mailing_list s.db addr in
    distribute_lists env
      (if is_list
        then (distribute_to_list env.store_env s addr (mail_of parsed from subject to cc_addrs)
            now).1
        else s)
      parsed from subject rest now
      (if is_list
        then (remove_addr to addr, remove_addr cc_addrs addr, remove_addr bcc addr)
        else (to, cc_addrs, bcc))

-- the message that the filters read
abbrev filter_message : ParsedMail → String → String → List String → List String → Message
filter_message parsed from subject to cc_addrs = record {
  id = "";
  message_id = "";
  from = from;
  to = to;
  cc = cc_addrs;
  bcc = [];
  subject = subject;
  content_type = parsed.content_type;
  gcs_key = "";
  owner_user = "";
  folder = "";
  seen = false;
  deleted = false;
  received_at = 0;
  body = parsed.text_body;
  attachments =
      map
        (λ a. record {
          id = "";
          mail_content_id = "";
          filename = a.filename;
          content_type = "";
          size = len a.bytes;
          bucket_key = "";
        })
        parsed.attachments;
}

-- what the user's filters make of the message; no filters and an error change nothing
abbrev filtered : Db → String → Message → Assoc String → FilterResult
filtered db target msg headers = elim (list_filters db target) [
  | none ↦ apply [] msg headers
  | some filters ↦ apply filters msg headers
]

-- one recipient: filters, saving, and the vacation reply
unfoldable pub deliver_to :
    SmtpEnv → MailStore → ParsedMail → Mail → String → String → ℕ → MailStore
deliver_to env s parsed m folder target now =
    let result =
      filtered s.db target (filter_message parsed m.from m.subject m.to m.cc) parsed.headers in
    let s' =
      (save_incoming_mail_for_user env.store_env s target m
        (if result.folder == "" then folder else result.folder) result.mark_read now).1 in
    let db = (process_auto_reply env.relay s'.db target m.from now).1 in
    if result.delete then s else record s' { db = db }

-- each of the resolved targets once
unfoldable pub deliver_targets :
    SmtpEnv
    → MailStore
    → ParsedMail
    → Mail
    → String
    → List String
    → ℕ
    → List String
    → List String × MailStore
deliver_targets env s parsed m folder [] now delivered = (delivered, s)
deliver_targets env s parsed m folder (target ∷ rest) now delivered =
    let again = has target delivered in
    deliver_targets env (if again then s else deliver_to env s parsed m folder target now) parsed m
      folder rest now (if again then delivered else delivered ++ target ∷ [])

unfoldable pub deliver_addrs :
    SmtpEnv → MailStore → ParsedMail → Mail → String → List String → ℕ → List String → MailStore
deliver_addrs env s parsed m folder [] now delivered = s
deliver_addrs env s parsed m folder (addr ∷ rest) now delivered =
    let (delivered', s') =
      deliver_targets env s parsed m folder (resolve_recipient s.db max_calls addr) now delivered in
    deliver_addrs env s' parsed m folder rest now delivered'
