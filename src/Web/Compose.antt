-- ===== src/Web/Compose.antt =====
-- Writing mail: HandleCompose of internal/web/handlers.go, its form and its text helpers, and
-- HandleCompose of internal/web/api_handlers.go. Time stamps are printed by a parameter.
mod Forms
use bdsmail.Base.{
  Bool, List, Option, String, [], concat, cut, if◌then◌else◌, is_nil, keep, ltb, map, none, refl,
  some, split, to_lower, trim_space, ℕ, ◌==◌, ◌∷◌, ◌≡◌,
}
use bdsmail.Model.{email}
use bdsmail.Security.Checker.{Checker, check_outbound}
use bdsmail.Store.{Env, MailStore, ParsedAttachment, save_outgoing_mail}
use bdsmail.Smtp.{Relayed}
use bdsmail.Web.Sessions.{
  Answer, Request, SessionStore, failed, get_session_user, page, redirect, status_ok,
}
use bdsmail.Web.Keys.{collect_external_addrs, from_address, to_relay}
unfoldable pub use Forms.*

-- the parts between commas that are not blank

-- a file of the form; no bytes where it cannot be read
pub record Upload : Type 0 where
  pub filename : String
  pub content_type : String
  pub size : ℕ
  pub bytes : Option String

-- the files that can be read, or the name of the first one that is too large
pub data Uploaded : Type 0 where
  too_large : String → Uploaded
  accepted : List ParsedAttachment → Uploaded

unfoldable pub with_upload : Upload → Uploaded → Uploaded
with_upload u (too_large name) = too_large name
with_upload u (accepted rest) = elim u.bytes [
  | none ↦ accepted rest
  | some bytes ↦
      accepted
        (record { filename = u.filename; content_type = u.content_type; bytes = bytes } ∷ rest)
]

unfoldable pub collect_uploads : ℕ → List Upload → Uploaded
collect_uploads limit [] = accepted []
collect_uploads limit (u ∷ rest) =
    let more = collect_uploads limit rest in
    if ltb limit u.size then too_large u.filename else with_upload u more

pub record ComposeEnv : Type 0 where
  pub checker : Option Checker
  pub store_env : Env
  pub domains : List String
  pub has_relay : Bool
  pub max_attachment_bytes : ℕ

pub data Composed : Type 0 where
  file_too_large : String → Composed
  no_recipient : Composed
  blocked : String → Composed
  not_saved : Composed
  sent : Composed

-- the reason for which the check refuses the mail
unfoldable pub outbound_reason :
    ComposeEnv → String → String → List ParsedAttachment → Option String
outbound_reason env body content_type attachments = elim env.checker [
  | none ↦ none
  | some checker ↦
      (let result = check_outbound checker body content_type (map (λ a. a.bytes) attachments) in
        if result.reject then some result.reason else none)
]

-- saving, and what is given to the relay in the background
unfoldable pub save_and_relay :
    ComposeEnv
    → MailStore
    → String
    → Request
    → List ParsedAttachment
    → ℕ
    → Composed × Option Relayed × MailStore
save_and_relay env s email r attachments now =
    let to = parse_addresses (r.value "to") in
    let copies = parse_addresses (r.value "cc") in
    let bcc = parse_addresses (r.value "bcc") in
    let (result, s') =
      save_outgoing_mail env.store_env s email
        (record {
          from = from_address s.db email;
          to = to;
          cc = copies;
          subject = r.value "subject";
          content_type = r.value "content_type";
          body = r.value "body";
          attachments = attachments;
        })
        bcc now in
    elim result [
      | none ↦ (not_saved, none, s')
      | some message_id ↦ (
        sent,
        to_relay env.has_relay email (collect_external_addrs env.domains to copies bcc) message_id,
        s',
      )
    ]

-- what both handlers do with the form
unfoldable pub compose :
    ComposeEnv
    → MailStore
    → String
    → Request
    → List Upload
    → ℕ
    → Composed × Option Relayed × MailStore
compose env s email r uploads now = elim (collect_uploads env.max_attachment_bytes uploads) [
  | too_large name ↦ (file_too_large name, none, s)
  | accepted attachments ↦
      (if is_nil (parse_addresses (r.value "to"))
        then (no_recipient, none, s)
        else elim (outbound_reason env (r.value "body") (r.value "content_type") attachments) [
          | some reason ↦ (blocked reason, none, s)
          | none ↦ save_and_relay env s email r attachments now
        ])
]

-- the page, and its form with what was written
unfoldable pub compose_page : Request → Composed → Answer × ComposeForm
compose_page r result =
    let again : ComposeForm = record {
      to = r.value "to";
      cc = r.value "cc";
      bcc = r.value "bcc";
      subject = r.value "subject";
      body = r.value "body";
    } in
    elim result [
      | file_too_large name ↦
          (page (concat ("Attachment " ∷ name ∷ " exceeds maximum size" ∷ [])) "", again)
      | no_recipient ↦ (page "At least one recipient is required" "", again)
      | blocked reason ↦ (page (concat ("Message blocked: " ∷ reason ∷ [])) "", again)
      | not_saved ↦ (page "Failed to send message" "", again)
      | sent ↦ (page "" "Message sent successfully", empty_form)
    ]

unfoldable pub handle_compose :
    ComposeEnv
    → (ℕ → String)
    → SessionStore
    → MailStore
    → Request
    → List Upload
    → ℕ
    → (Answer × ComposeForm) × Option Relayed × MailStore
handle_compose env format ss s r uploads now =
    let email = get_session_user r.session ss in
    let (result, relayed, s') = compose env s email r uploads now in
    if email == ""
    then ((redirect "/login", empty_form), none, s)
    else if r.method == "GET"
    then ((page "" "", compose_form format s.db email r), none, s)
    else (compose_page r result, relayed, s')

unfoldable pub composed_json : Composed → Answer
composed_json (file_too_large name) = failed 400
composed_json no_recipient = failed 400
composed_json (blocked reason) = failed 400
composed_json not_saved = failed 500
composed_json sent = status_ok

unfoldable pub api_compose :
    ComposeEnv
    → SessionStore
    → MailStore
    → Request
    → List Upload
    → ℕ
    → Answer × Option Relayed × MailStore
api_compose env ss s r uploads now =
    let email = get_session_user r.session ss in
    let (result, relayed, s') = compose env s email r uploads now in
    if email == "" then (failed 401, none, s) else (composed_json result, relayed, s')

helper_tests :
    (parse_addresses " a@x, ,b@y " ≡ "a@x" ∷ "b@y" ∷ [])
    × (extract_email_addr "Ann <a@x>" ≡ "a@x")
    × (extract_email_addr " a@x " ≡ "a@x")
    × (prefixed "re:" "Re:" "RE: hi" ≡ "RE: hi")
    × (prefixed "re:" "Re:" "hi" ≡ "Re: hi")
unfolding parse_addresses extract_email_addr prefixed trim_space split cut to_lower concat keep
helper_tests = (refl, refl, refl, refl, refl)
