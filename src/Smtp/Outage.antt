-- ===== src/Smtp/Outage.antt =====
-- What DATA does while the database does not answer.
use bdsmail.Base.{
  Bool, Bool-cases, List, Option, Option-cases, String, [], any, ap, arith, concat, false,
  if◌then◌else◌, inl, inr, is_nil, len, ltb, none, refl, some, suc, true, ℕ, ◌++◌, ◌+◌, ◌==◌, ◌∷◌,
  ◌≡◌,
}
use bdsmail.Model.{Message}
use bdsmail.Db.{Db, get_alias, get_catch_all, is_mailing_list, save_message, user_exists_by_email}
use bdsmail.Store.{
  Env, Mail, MailStore, add_new, collect_from, collect_local_recipients, deliver_all, new_message,
  resolve_recipient, save_and_deliver, save_incoming_mail, save_outgoing_mail, targets_of,
}
use bdsmail.Smtp.Session.{ParsedMail, SmtpEnv, SmtpSession, collect_bcc, mail_of}
use bdsmail.Smtp.Delivery.{
  Relayed, accept_inbound, after_checks, deliver_addrs, deliver_targets, distribute_lists,
  handle_inbound, handle_outbound, inbound_check, outbound_check, process_parsed, sender_of,
  smtp_data, store_raw,
}

-- the status: that of the checks, 451 for outbound mail, and success for inbound mail
abbrev pub outage_status : SmtpEnv → SmtpSession → String → Option ParsedMail → ℕ
outage_status env sess raw none = 0
outage_status env sess raw (some parsed) =
    if any (λ a. ltb env.max_attachment_bytes (len a.bytes)) parsed.attachments
    then 552
    else if sess.authed
    then (if outbound_check env.checker parsed then 550 else 451)
    else elim (inbound_check env sess raw parsed (sender_of sess parsed)) [
      | none ↦ 0
      | some result ↦ (if result.reject then 550 else 0)
    ]

resolve_recipient_outage :
    (db : Db) (left : ℕ) (addr : String)
    → db.down ≡ true
    → resolve_recipient db (suc left) addr ≡ []
unfolding resolve_recipient targets_of get_alias get_catch_all user_exists_by_email
resolve_recipient_outage db left addr down = ground (arith, down)

collect_from_outage :
    (db : Db) (addrs result : List String) → db.down ≡ true → collect_from db result addrs ≡ result
unfolding collect_from add_new
collect_from_outage db [] result down = refl
collect_from_outage db (addr ∷ rest) result down =
    rw (resolve_recipient_outage db 10 addr down) (collect_from_outage db rest result down)

is_mailing_list_outage :
    (db : Db) (addr : String) → db.down ≡ true → is_mailing_list db addr ≡ false
unfolding is_mailing_list
is_mailing_list_outage db addr down = simp down refl

save_message_outage : (db : Db) (m : Message) → db.down ≡ true → save_message db m ≡ none
unfolding save_message
save_message_outage db m down = simp down refl

save_and_deliver_outage :
    (env : Env) (s : MailStore) (m : Mail) (bcc : List String) (owner folder : String) (seen : Bool)
    (now : ℕ)
    → s.db.down ≡ true
    → save_and_deliver env s m bcc owner folder seen now
      ≡ (none, record s { next_id = s.next_id + 1 })
unfolding save_and_deliver
save_and_deliver_outage env s m bcc owner folder seen now down =
    let msg = new_message (env.uuid s.next_id) m bcc owner folder seen now in
    rw (save_and_deliver, save_message_outage s.db msg down) refl

save_outgoing_mail_outage :
    (env : Env) (s : MailStore) (sender : String) (m : Mail) (bcc : List String) (now : ℕ)
    → s.db.down ≡ true
    → save_outgoing_mail env s sender m bcc now ≡ (none, record s { next_id = s.next_id + 1 })
unfolding save_outgoing_mail
save_outgoing_mail_outage env s sender m bcc now down =
    let unsaved = save_and_deliver_outage env s m bcc sender "Sent" true now down in
    rw (save_outgoing_mail, unsaved)
      (ap (λ (out : Option String × MailStore). (none, out.1)) unsaved)

save_incoming_mail_outage :
    (env : Env) (s : MailStore) (m : Mail) (bcc : List String) (folder : String) (now : ℕ)
    → s.db.down ≡ true
    → save_incoming_mail env s m bcc folder now ≡ (true, s)
unfolding save_incoming_mail collect_local_recipients deliver_all
save_incoming_mail_outage env s m bcc folder now down =
    simp (collect_from_outage s.db (m.to ++ m.cc ++ bcc) [] down) refl

module _ (env : SmtpEnv) (s : MailStore) (parsed : ParsedMail) (now : ℕ)
    (down : s.db.down ≡ true) where
  distribute_lists_outage :
      (from subject : String) (addrs to copies bcc : List String)
      → distribute_lists env s parsed from subject addrs now (to, copies, bcc)
        ≡ ((to, copies, bcc), s)
  unfolding distribute_lists
  distribute_lists_outage from subject [] to copies bcc = refl
  distribute_lists_outage from subject (addr ∷ rest) to copies bcc =
      rw (is_mailing_list_outage s.db addr down)
        (distribute_lists_outage from subject rest to copies bcc)

  deliver_addrs_outage :
      (m : Mail) (folder : String) (addrs delivered : List String)
      → deliver_addrs env s parsed m folder addrs now delivered ≡ s
  unfolding deliver_addrs deliver_targets
  deliver_addrs_outage m folder [] delivered = refl
  deliver_addrs_outage m folder (addr ∷ rest) delivered =
      rw (resolve_recipient_outage s.db 10 addr down) (deliver_addrs_outage m folder rest delivered)

  accept_inbound_outage :
      (from subject folder : String) (to copies bcc : List String)
      → accept_inbound env s parsed from subject folder to copies bcc now ≡ s
  unfolding accept_inbound
  accept_inbound_outage from subject folder to copies bcc =
      rw (distribute_lists_outage from subject (to ++ copies ++ bcc) to copies bcc) (
        deliver_addrs_outage (mail_of parsed from subject to copies) folder (to ++ copies ++ bcc)
          [])

abbrev pub Lost : MailStore → ℕ → ℕ × Option Relayed × MailStore → Type 0
Lost s status out =
    (out.0 ≡ status) × (out.1 ≡ none) × (out.2.db ≡ s.db) × (out.2.bucket_log ≡ s.bucket_log)

handle_inbound_outage :
    (env : SmtpEnv) (s : MailStore) (sess : SmtpSession) (raw : String) (parsed : ParsedMail)
    (from : String) (to copies bcc : List String) (now : ℕ)
    → s.db.down ≡ true
    → handle_inbound env s sess raw parsed from to copies bcc now ≡ (
      elim (inbound_check env sess raw parsed from) [
        | none ↦ 0
        | some result ↦ (if result.reject then 550 else 0)
      ],
      s,
    )
unfolding handle_inbound after_checks
handle_inbound_outage env s sess raw parsed from to copies bcc now down =
    elim (Option-cases (inbound_check env sess raw parsed from)) [
      | inl e ↦
          rw
            (
              e,
              accept_inbound_outage env s parsed now down from parsed.subject "INBOX" to copies bcc,
            )
            refl
      | inr (result, e) ↦ elim (Bool-cases result.reject) [
        | inl k ↦ rw (e, k) refl
        | inr k ↦
            rw
              (
                e,
                k,
                accept_inbound_outage env s parsed now down from
                    (if result.subject_prefix == ""
                      then parsed.subject
                      else concat (result.subject_prefix ∷ " " ∷ parsed.subject ∷ []))
                    (if result.folder == "" then "INBOX" else result.folder) to copies bcc,
              )
              refl
      ]
    ]

handle_outbound_outage :
    (env : SmtpEnv) (s : MailStore) (sess : SmtpSession) (parsed : ParsedMail) (from : String)
    (to copies bcc : List String) (now : ℕ)
    → s.db.down ≡ true
    → Lost s
        (if outbound_check env.checker parsed then 550 else 451)
        (handle_outbound env s sess parsed from to copies bcc now)
unfolding handle_outbound
handle_outbound_outage env s sess parsed from to copies bcc now down =
    elim (Bool-cases (outbound_check env.checker parsed)) [
      | inl e ↦ rw e (refl, refl, refl, refl)
      | inr e ↦
          let unsaved =
            save_outgoing_mail_outage env.store_env s sess.user
              (mail_of parsed from parsed.subject to copies) bcc now down in
          rw (handle_outbound, e, unsaved)
            (
              refl,
              refl,
              ap (λ (out : Option String × MailStore). out.1.db) unsaved,
              ap (λ (out : Option String × MailStore). out.1.bucket_log) unsaved,
            )
    ]

process_parsed_outage :
    (env : SmtpEnv) (s : MailStore) (sess : SmtpSession) (raw : String) (parsed : ParsedMail)
    (now : ℕ)
    → s.db.down ≡ true
    → Lost s (outage_status env sess raw (some parsed)) (process_parsed env s sess raw parsed now)
unfolding process_parsed collect_bcc handle_outbound handle_inbound
process_parsed_outage env s sess raw parsed now down =
    let from = sender_of sess parsed in
    let to = if is_nil parsed.to then sess.to else parsed.to in
    let bcc = collect_bcc sess to parsed.cc in
    elim (Bool-cases (any (λ a. ltb env.max_attachment_bytes (len a.bytes)) parsed.attachments)) [
      | inl e ↦ rw (process_parsed, e) (refl, refl, refl, refl)
      | inr e ↦ elim (Bool-cases sess.authed) [
        | inl k ↦
            rw (process_parsed, e, k)
              (handle_outbound_outage env s sess parsed from to parsed.cc bcc now down)
        | inr k ↦
            rw
              (
                process_parsed,
                e,
                k,
                handle_inbound_outage env s sess raw parsed from to parsed.cc bcc now down,
              )
              (refl, refl, refl, refl)
      ]
    ]

-- While the database does not answer, DATA changes nothing in the database and in the bucket and
-- relays nothing, and its status is that of the limits and the checks, then 451 for a user who is
-- logged in and has sent mail that can be parsed, and success for everybody else.
pub smtp_data_outage :
    (env : SmtpEnv) (s : MailStore) (sess : SmtpSession) (raw : String) (now : ℕ)
    → s.db.down ≡ true
    → Lost s (outage_status env sess raw (env.parse raw)) (smtp_data env s sess raw now)
unfolding smtp_data process_parsed store_raw
smtp_data_outage env s sess raw now down = elim (Option-cases (env.parse raw)) [
  | inl e ↦
      rw
        (
          smtp_data,
          e,
          store_raw,
          save_incoming_mail_outage env.store_env s
              (record {
                from = sess.from;
                to = sess.to;
                cc = [];
                subject = "(no subject)";
                content_type = "text/plain";
                body = raw;
                attachments = [];
              })
              [] "INBOX" now down,
        )
        (refl, refl, refl, refl)
  | inr (parsed, e) ↦ rw (smtp_data, e) (process_parsed_outage env s sess raw parsed now down)
]
