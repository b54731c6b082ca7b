-- ===== src/Smtp/Refusal.antt =====
-- Which messages DATA refuses.
use bdsmail.Base.{
  Bool, Bool-cases, List, Option, Option-cases, String, any, ap, arith, false, if◌then◌else◌, inl,
  inr, is_nil, len, ltb, map, none, not, refl, some, subst, sym, true, ℕ, ◌<◌, ◌||◌, ◌↔◌, ◌∙◌, ◌≡◌,
  ◌⊎◌,
}
use bdsmail.Security.Checker.Verdict.{
  any_virus, auth_answer, check_inbound_verdict, check_outbound_verdict, has_virus, says,
  scan_answer, spam_answer,
}
use bdsmail.Store.{MailStore, save_outgoing_mail}
use bdsmail.Smtp.Session.{ParsedMail, SmtpEnv, SmtpSession, collect_bcc, mail_of}
use bdsmail.Smtp.Delivery.{
  Relayed, after_checks, handle_inbound, handle_outbound, inbound_check, outbound_check,
  process_parsed, sender_of, smtp_data, store_raw,
}
use bdsmail.Security.Checker.{CheckResult, Checker, check_inbound, dangerous_links}

-- what the checks say of outbound mail: a virus in the body or in an attachment, or a dangerous link
abbrev pub refuses_outbound : Option Checker → ParsedMail → Bool
refuses_outbound none parsed = false
refuses_outbound (some c) parsed =
    (has_virus (scan_answer c parsed.text_body)
      || any_virus c (map (λ a. a.bytes) parsed.attachments))
    || not (is_nil (dangerous_links c.safe_browse parsed.text_body parsed.content_type))

-- what the checks say of inbound mail: a virus, or the policy of the sender's domain, or the spam score
abbrev pub refuses_inbound : Option Checker → SmtpSession → String → ParsedMail → Bool
refuses_inbound none sess raw parsed = false
refuses_inbound (some c) sess raw parsed =
    let from = sender_of sess parsed in
    has_virus (scan_answer c raw)
    || says (λ a. a.reject) (auth_answer c sess.remote_ip from sess.ehlo_hostname raw)
    || says (λ s. s.reject) (spam_answer c sess.remote_ip from raw)

abbrev pub is_refused : SmtpEnv → SmtpSession → String → ParsedMail → Bool
unfolding any
is_refused env sess raw parsed =
    any (λ a. ltb env.max_attachment_bytes (len a.bytes)) parsed.attachments
    || (if sess.authed
        then refuses_outbound env.checker parsed
        else refuses_inbound env.checker sess raw parsed)

refuses_outbound-check :
    (c : Option Checker) (parsed : ParsedMail) → outbound_check c parsed ≡ refuses_outbound c parsed
refuses_outbound-check none parsed = refl
refuses_outbound-check (some c) parsed =
    check_outbound_verdict c parsed.text_body parsed.content_type
      (map (λ a. a.bytes) parsed.attachments)

refuses_inbound-check :
    (env : SmtpEnv) (sess : SmtpSession) (raw : String) (parsed : ParsedMail)
    → says (λ r. r.reject) (inbound_check env sess raw parsed (sender_of sess parsed))
      ≡ refuses_inbound env.checker sess raw parsed
refuses_inbound-check env sess raw parsed = go env.checker
  where
    go :
        (o : Option Checker)
        → says
            (λ r. r.reject)
            (elim o as (λ _. Option CheckResult) [
              | none ↦ none
              | some c ↦ some (
                  check_inbound c raw parsed.text_body parsed.content_type sess.remote_ip
                    (sender_of sess parsed)
                    sess.ehlo_hostname)
            ])
          ≡ refuses_inbound o sess raw parsed
    go none = refl
    go (some c) =
        (check_inbound_verdict c raw parsed.text_body parsed.content_type sess.remote_ip
          (sender_of sess parsed) sess.ehlo_hostname).0

-- nothing was relayed and nothing was stored
abbrev pub IsRefusal : MailStore → ℕ × Option Relayed × MailStore → Type 0
IsRefusal s out = (out ≡ (550, none, s)) ⊎ (out ≡ (552, none, s))

-- the message was taken, or could not be saved
abbrev IsAccepting : ℕ → Type 0
IsAccepting status = (status ≡ 0) ⊎ (status ≡ 451)

abbrev Verdict : MailStore → Bool → ℕ × Option Relayed × MailStore → Type 0
Verdict s refused out =
    ((refused ≡ true) × IsRefusal s out) ⊎ ((refused ≡ false) × IsAccepting out.0)

handle_outbound-Verdict :
    (env : SmtpEnv) (s : MailStore) (sess : SmtpSession) (parsed : ParsedMail) (from : String)
    (to cc_addrs bcc : List String) (now : ℕ)
    → Verdict s
        (refuses_outbound env.checker parsed)
        (handle_outbound env s sess parsed from to cc_addrs bcc now)
unfolding handle_outbound
handle_outbound-Verdict env s sess parsed from to cc_addrs bcc now =
    let same = sym (refuses_outbound-check env.checker parsed) in
    let saved =
      save_outgoing_mail env.store_env s sess.user (mail_of parsed from parsed.subject to cc_addrs)
        bcc now in
    elim (Bool-cases (outbound_check env.checker parsed)) [
      | inl e ↦ inl (same ∙ e, inl (rw (handle_outbound, e) refl))
      | inr e ↦ inr (
        same ∙ e,
        elim (Option-cases saved.0) [
          | inl k ↦ rw (handle_outbound, e, k) (inr refl)
          | inr (id, k) ↦ rw (handle_outbound, e, k) (inl refl)
        ],
      )
    ]

after_checks-Verdict :
    (env : SmtpEnv) (s : MailStore) (parsed : ParsedMail) (from : String)
    (to cc_addrs bcc : List String) (now : ℕ) (result : Option CheckResult)
    → let out = after_checks env s parsed from to cc_addrs bcc now result in
      Verdict s (says (λ r. r.reject) result) (out.0, none, out.1)
unfolding after_checks
after_checks-Verdict env s parsed from to cc_addrs bcc now none = inr (refl, inl refl)
after_checks-Verdict env s parsed from to cc_addrs bcc now (some result) =
    elim (Bool-cases result.reject) [
      | inl e ↦ inl (e, inl (rw e refl))
      | inr e ↦ inr (e, inl (rw e refl))
    ]

handle_inbound-Verdict :
    (env : SmtpEnv) (s : MailStore) (sess : SmtpSession) (raw : String) (parsed : ParsedMail)
    (to cc_addrs bcc : List String) (now : ℕ)
    → let out = handle_inbound env s sess raw parsed (sender_of sess parsed) to cc_addrs bcc now in
      Verdict s (refuses_inbound env.checker sess raw parsed) (out.0, none, out.1)
unfolding handle_inbound
handle_inbound-Verdict env s sess raw parsed to cc_addrs bcc now =
    let from = sender_of sess parsed in
    let out = handle_inbound env s sess raw parsed from to cc_addrs bcc now in
    subst (λ b. Verdict s b (out.0, none, out.1)) (refuses_inbound-check env sess raw parsed)
      (after_checks-Verdict env s parsed from to cc_addrs bcc now
        (inbound_check env sess raw parsed from))

-- the limit on attachments, and then the way of the message
routed-Verdict :
    (s : MailStore) (large authed out_refused in_refused : Bool)
    (outbound inbound : ℕ × Option Relayed × MailStore)
    → Verdict s out_refused outbound
    → Verdict s in_refused inbound
    → Verdict s
        (large || (if authed then out_refused else in_refused))
        (if large then (552, none, s) else if authed then outbound else inbound)
routed-Verdict s true authed out_refused in_refused outbound inbound v w = inl (refl, inr refl)
routed-Verdict s false true out_refused in_refused outbound inbound v w = v
routed-Verdict s false false out_refused in_refused outbound inbound v w = w

process_parsed-Verdict :
    (env : SmtpEnv) (s : MailStore) (sess : SmtpSession) (raw : String) (parsed : ParsedMail)
    (now : ℕ)
    → Verdict s (is_refused env sess raw parsed) (process_parsed env s sess raw parsed now)
unfolding process_parsed is_refused
process_parsed-Verdict env s sess raw parsed now =
    let from = sender_of sess parsed in
    let to = if is_nil parsed.to then sess.to else parsed.to in
    let bcc = collect_bcc sess to parsed.cc in
    let inbound = handle_inbound env s sess raw parsed from to parsed.cc bcc now in
    routed-Verdict s (any (λ a. ltb env.max_attachment_bytes (len a.bytes)) parsed.attachments)
      sess.authed (refuses_outbound env.checker parsed)
      (refuses_inbound env.checker sess raw parsed)
      (handle_outbound env s sess parsed from to parsed.cc bcc now) (inbound.0, none, inbound.1)
      (handle_outbound-Verdict env s sess parsed from to parsed.cc bcc now)
      (handle_inbound-Verdict env s sess raw parsed to parsed.cc bcc now)

smtp_data-parsed :
    (env : SmtpEnv) (s : MailStore) (sess : SmtpSession) (raw : String) (parsed : ParsedMail)
    (now : ℕ)
    → env.parse raw ≡ some parsed
    → smtp_data env s sess raw now ≡ process_parsed env s sess raw parsed now
unfolding smtp_data
smtp_data-parsed env s sess raw parsed now p =
    let raw_stored = store_raw env s sess raw now in
    λ i. elim (p i) [
      | none ↦ (raw_stored.0, none, raw_stored.1)
      | some x ↦ process_parsed env s sess raw x now
    ]

refused-IsRefusal :
    (s : MailStore) (refused : Bool) (out : ℕ × Option Relayed × MailStore)
    → Verdict s refused out
    → (refused ≡ true) ↔ IsRefusal s out
refused-IsRefusal s refused out (inl (bad, refusal)) = (λ _. refusal, λ _. bad)
refused-IsRefusal s refused out (inr (good, taken)) = (
  λ bad. absurd (ground (arith, good, bad)),
  λ refusal. absurd (elim refusal [
    | inl e ↦ clashing 550 (omega arith) (ap (λ (o : ℕ × Option Relayed × MailStore). o.0) e) taken
    | inr e ↦ clashing 552 (omega arith) (ap (λ (o : ℕ × Option Relayed × MailStore). o.0) e) taken
  ]),
)
  where
    clashing : (n : ℕ) → 451 < n → out.0 ≡ n → IsAccepting out.0 → ⊥
    clashing n large e (inl k) = omega (arith, large, e, k)
    clashing n large e (inr k) = omega (arith, large, e, k)

-- A message that can be parsed is refused, with the status 550 or 552, nothing stored and nothing
-- relayed, exactly if an attachment is too large, or the session is logged in and a virus is found in
-- the body or in an attachment or a dangerous link in the body, or the session is not and a virus is
-- found in the message, or the policy of the sender's domain or the spam score rejects it. A check
-- that is off or fails finds nothing.
pub smtp_data-IsRefusal :
    (env : SmtpEnv) (s : MailStore) (sess : SmtpSession) (raw : String) (parsed : ParsedMail)
    (now : ℕ)
    → env.parse raw ≡ some parsed
    → (is_refused env sess raw parsed ≡ true) ↔ IsRefusal s (smtp_data env s sess raw now)
smtp_data-IsRefusal env s sess raw parsed now p =
    rw (smtp_data-parsed env s sess raw parsed now p) (
      refused-IsRefusal s (is_refused env sess raw parsed)
        (process_parsed env s sess raw parsed now)
        (process_parsed-Verdict env s sess raw parsed now))
