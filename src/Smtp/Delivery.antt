-- ===== src/Smtp/Delivery.antt =====
-- What DATA does in internal/smtp/backend.go: the outbound and the inbound way of a message.
mod Targets
use bdsmail.Base.{
  Bool, List, Option, String, [], any, concat, false, if◌then◌else◌, is_nil, keep, len, ltb, map,
  none, not, some, true, ℕ, ◌++◌, ◌==◌, ◌||◌, ◌∷◌,
}
use bdsmail.Security.Checker.{CheckResult, Checker, check_inbound, check_outbound}
use bdsmail.Db.{split_email}
use bdsmail.Store.{MailStore, save_incoming_mail, save_outgoing_mail}
use bdsmail.Smtp.Session.{ParsedMail, SmtpEnv, SmtpSession, collect_bcc, mail_of}
unfoldable pub use Targets.*

-- what is given to the relay
pub record Relayed : Type 0 where
  pub sender : String
  pub external : List String
  pub message_id : String
  pub require_tls : Bool

abbrev pub outbound_check : Option Checker → ParsedMail → Bool
outbound_check none parsed = false
outbound_check (some checker) parsed =
    (check_outbound checker parsed.text_body parsed.content_type
      (map (λ a. a.bytes) parsed.attachments)).reject

unfoldable pub external_addrs : SmtpEnv → List String → List String
unfolding keep
external_addrs env addrs = keep (λ a. not (env.is_domain_served (split_email a).1)) addrs

abbrev pub no_relay {ℓ} : {A : Type ℓ} → Option A → Bool
no_relay none = true
no_relay (some relay) = false

unfoldable pub handle_outbound :
    SmtpEnv
    → MailStore
    → SmtpSession
    → ParsedMail
    → String
    → List String
    → List String
    → List String
    → ℕ
    → ℕ × Option Relayed × MailStore
handle_outbound env s sess parsed from to cc_addrs bcc now =
    if outbound_check env.checker parsed
    then (550, none, s)
    else (let (result, s') =
          save_outgoing_mail env.store_env s sess.user
            (mail_of parsed from parsed.subject to cc_addrs) bcc now in
        let external = external_addrs env (to ++ cc_addrs ++ bcc) in
        elim result [
          | none ↦ (451, none, s')
          | some message_id ↦ (
            0,
            (if is_nil external || no_relay env.relay
                then none
                else some (record {
                  sender = sess.user;
                  external = external;
                  message_id = message_id;
                  require_tls = sess.require_tls;
                })),
            s',
          )
        ])

abbrev pub inbound_check : SmtpEnv → SmtpSession → String → ParsedMail → String → Option CheckResult
inbound_check env sess raw parsed from = elim env.checker [
  | none ↦ none
  | some checker ↦ some (
      check_inbound checker raw parsed.text_body parsed.content_type sess.remote_ip from
        sess.ehlo_hostname)
]

-- from the point where the message has passed the checks
unfoldable pub accept_inbound :
    SmtpEnv
    → MailStore
    → ParsedMail
    → String
    → String
    → String
    → List String
    → List String
    → List String
    → ℕ
    → MailStore
accept_inbound env s parsed from subject folder to cc_addrs bcc now =
    let ((to', cc', bcc'), s') =
      distribute_lists env s parsed from subject (to ++ cc_addrs ++ bcc) now (to, cc_addrs, bcc) in
    deliver_addrs env s' parsed (mail_of parsed from subject to' cc') folder (to' ++ cc' ++ bcc')
      now []

-- what follows on the result of the checks, none where they are off
unfoldable pub after_checks :
    SmtpEnv
    → MailStore
    → ParsedMail
    → String
    → List String
    → List String
    → List String
    → ℕ
    → Option CheckResult
    → ℕ × MailStore
after_checks env s parsed from to cc_addrs bcc now none =
    (0, accept_inbound env s parsed from parsed.subject "INBOX" to cc_addrs bcc now)
after_checks env s parsed from to cc_addrs bcc now (some result) =
    if result.reject then (550, s) else (
      0,
      accept_inbound env s parsed from
          (if result.subject_prefix == ""
            then parsed.subject
            else concat (result.subject_prefix ∷ " " ∷ parsed.subject ∷ []))
          (if result.folder == "" then "INBOX" else result.folder) to cc_addrs bcc now,
    )

unfoldable pub handle_inbound :
    SmtpEnv
    → MailStore
    → SmtpSession
    → String
    → ParsedMail
    → String
    → List String
    → List String
    → List String
    → ℕ
    → ℕ × MailStore
handle_inbound env s sess raw parsed from to cc_addrs bcc now =
    after_checks env s parsed from to cc_addrs bcc now (inbound_check env sess raw parsed from)

-- a text that cannot be parsed is stored for the envelope's recipients, with no check; 554 is what
-- the SMTP library answers for an error without a status
unfoldable pub store_raw : SmtpEnv → MailStore → SmtpSession → String → ℕ → ℕ × MailStore
store_raw env s sess raw now =
    let (ok, s') =
      save_incoming_mail env.store_env s
        (record {
          from = sess.from;
          to = sess.to;
          cc = [];
          subject = "(no subject)";
          content_type = "text/plain";
          body = raw;
          attachments = [];
        })
        [] "INBOX" now in
    (if ok then 0 else 554, s')

-- the sender of the envelope, or else of the header
abbrev pub sender_of : SmtpSession → ParsedMail → String
sender_of sess parsed = if sess.from == "" then parsed.from else sess.from

-- the rest of DATA for a message that was parsed
unfoldable pub process_parsed :
    SmtpEnv → MailStore → SmtpSession → String → ParsedMail → ℕ → ℕ × Option Relayed × MailStore
process_parsed env s sess raw parsed now =
    let from = sender_of sess parsed in
    let to = if is_nil parsed.to then sess.to else parsed.to in
    let bcc = collect_bcc sess to parsed.cc in
    let outbound = handle_outbound env s sess parsed from to parsed.cc bcc now in
    let inbound = handle_inbound env s sess raw parsed from to parsed.cc bcc now in
    if any (λ a. ltb env.max_attachment_bytes (len a.bytes)) parsed.attachments
    then (552, none, s)
    else if sess.authed
    then outbound
    else (inbound.0, none, inbound.1)

-- DATA: the status, what is relayed, and the store
unfoldable pub smtp_data :
    SmtpEnv → MailStore → SmtpSession → String → ℕ → ℕ × Option Relayed × MailStore
smtp_data env s sess raw now =
    let raw_stored = store_raw env s sess raw now in
    elim (env.parse raw) [
      | none ↦ (raw_stored.0, none, raw_stored.1)
      | some parsed ↦ process_parsed env s sess raw parsed now
    ]
