-- ===== src/Smtp/Session.antt =====
-- The session of internal/smtp/backend.go: what it holds, its login and its envelope.
use bdsmail.Base.{
  Assoc, Bool, List, Option, String, [], false, has, if◌then◌else◌, keep, len, none, not, slice,
  some, starts_with, true, without, ℕ, ◌++◌, ◌==◌, ◌∷◌,
}
use bdsmail.Model.{User, email}
use bdsmail.Security.RateLimit.{
  RateLimiter, is_locked_out, record_auth_failure, record_auth_success,
}
use bdsmail.Security.Checker.{Checker}
use bdsmail.Db.{Db, get_app_token_by_hash, get_user_by_email, or_same, update_token_last_used}
use bdsmail.Store.{Env, Mail, OutgoingReply, ParsedAttachment}

-- what the libraries give for the text of a message
pub record ParsedMail : Type 0 where
  pub subject : String
  pub from : String
  pub to : List String
  pub cc : List String
  pub headers : Assoc String
  pub text_body : String
  pub content_type : String
  pub attachments : List ParsedAttachment

-- What comes from elsewhere: bcrypt, SHA-256, the parser (none where it fails), the store's
-- environment, the checks and the rate limiter where security is on, whether a domain is served, the
-- maximal size of an attachment, and the relay of vacation replies.
pub record SmtpEnv : Type 0 where
  pub check_password : String → String → Bool
  pub sha256_hex : String → String
  pub parse : String → Option ParsedMail
  pub store_env : Env
  pub checker : Option Checker
  pub is_domain_served : String → Bool
  pub max_attachment_bytes : ℕ
  pub relay : Option (OutgoingReply → Bool)

pub record SmtpSession : Type 0 where
  pub from : String
  pub to : List String
  pub authed : Bool
  pub user : String
  pub remote_ip : Option String
  pub ehlo_hostname : String
  pub require_tls : Bool

-- an app token in place of the password; its use is noted
unfoldable pub check_app_token : SmtpEnv → Db → String → String → ℕ → Bool × Db
check_app_token env db sender_email password now =
    if not (starts_with password "bds_ak_")
    then (false, db)
    else elim (get_app_token_by_hash db (env.sha256_hex (slice password 7 (len password)))) [
      | none ↦ (false, db)
      | some token ↦
          (if not (token.sender_email == sender_email)
            then (false, db)
            else (true, or_same db (update_token_last_used db token.id now)))
    ]

-- the check of the two secrets, where the user was found or not
unfoldable pub credentials_fit : SmtpEnv → Db → String → String → Option User → ℕ → Bool × Db
credentials_fit env db username password none now = (false, db)
credentials_fit env db username password (some user) now =
    if env.check_password user.password_hash password
    then (true, db)
    else check_app_token env db username password now

abbrev pub user_email : Option User → String
user_email none = ""
user_email (some user) = email user

abbrev pub locked_now :
    {L : Type 0} → Option (RateLimiter L) → Option String → ℕ → Bool × Option (RateLimiter L)
locked_now none ip now = (false, none)
locked_now (some rl) ip now = let (locked, rl') = is_locked_out rl ip now in (locked, some rl')

-- RecordAuthResult of internal/security/checker.go
abbrev pub record_auth_result :
    {L : Type 0} → Option (RateLimiter L) → Option String → Bool → ℕ → Option (RateLimiter L)
record_auth_result none ip success now = none
record_auth_result (some rl) ip true now = some (record_auth_success rl ip)
record_auth_result (some rl) ip false now = some (record_auth_failure rl ip now)

-- The status of the answer (0 where there is no error), the limiter, which may be off, the database
-- and the session.
unfoldable pub auth_plain :
    {L : Type 0}
    → SmtpEnv
    → Option (RateLimiter L)
    → Db
    → SmtpSession
    → String
    → String
    → ℕ
    → ℕ × Option (RateLimiter L) × Db × SmtpSession
auth_plain env rl db sess username password now =
    let (locked, rl') = locked_now rl sess.remote_ip now in
    let found = get_user_by_email db username in
    let (fit, db') = credentials_fit env db username password found now in
    if locked
    then (421, rl', db, sess)
    else if not fit
    then (535, record_auth_result rl' sess.remote_ip false now, db', sess)
    else (
      0,
      record_auth_result rl' sess.remote_ip true now,
      db',
      record sess { authed = true; user = user_email found },
    )

unfoldable pub mail_from : SmtpSession → String → Option Bool → SmtpSession
mail_from sess from none = record sess { from = from }
mail_from sess from (some require_tls) = record sess { from = from; require_tls = require_tls }

unfoldable pub rcpt_to : SmtpSession → String → SmtpSession
rcpt_to sess to = record sess { to = sess.to ++ to ∷ [] }

unfoldable pub reset : SmtpSession → SmtpSession
reset sess = record sess { from = ""; to = [] }

unfoldable pub collect_bcc : SmtpSession → List String → List String → List String
unfolding keep
collect_bcc sess to cc = keep (λ a. not (has a (to ++ cc))) sess.to

unfoldable pub remove_addr : List String → String → List String
remove_addr addrs target = without target addrs

-- a message as `handleOutbound` and `handleInbound` get it
abbrev pub mail_of : ParsedMail → String → String → List String → List String → Mail
mail_of parsed from subject to cc = record {
  from = from;
  to = to;
  cc = cc;
  subject = subject;
  content_type = parsed.content_type;
  body = parsed.text_body;
  attachments = parsed.attachments;
}
