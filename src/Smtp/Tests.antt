-- ===== src/Smtp/Tests.antt =====
-- The theorems on SMTP sessions at concrete input.
use bdsmail.Base.{
  Bool, [], any, cut, false, first, if◌then◌else◌, lookup, none, refl, show_nat, some, true, ◌==◌,
  ◌↔◌, ◌∷◌, ◌≡◌,
}
use bdsmail.Model.{User}
use bdsmail.Security.RateLimit.{RateLimiter, is_locked_out}
use bdsmail.Security.Checker.{Checker}
use bdsmail.Db.{empty_db, get_user, get_user_by_email, split_email}
use bdsmail.Store.{MailStore}
use bdsmail.Smtp.Session.{ParsedMail, SmtpEnv, SmtpSession, auth_plain, credentials_fit, locked_now}
use bdsmail.Smtp.Delivery.{smtp_data}
use bdsmail.Smtp.Outage.{Lost, smtp_data_outage}
use bdsmail.Smtp.Access.{Identified, auth_plain-Identified}
use bdsmail.Smtp.Refusal.{IsRefusal, is_refused, smtp_data-IsRefusal}

abbrev scanner : Checker
scanner = record {
  clamav = some (λ bytes. some (if bytes == "virus" then some "Eicar" else none));
  safe_browse = none;
  auth_verify = none;
  rspamd = none;
}

abbrev infected : ParsedMail
infected = record {
  subject = "Hi";
  from = "eve@far.example";
  to = "ann@bds.example" ∷ [];
  cc = [];
  headers = [];
  text_body = "virus";
  content_type = "text/plain";
  attachments = [];
}

abbrev env : SmtpEnv
env = record {
  check_password = λ hash password. hash == password;
  sha256_hex = λ text. text;
  parse = λ raw. some infected;
  store_env = record { uuid = λ n. show_nat n; bucket_ok = λ op. true };
  checker = some scanner;
  is_domain_served = λ domain. domain == "bds.example";
  max_attachment_bytes = 1000;
  relay = none;
}

abbrev ann : User
ann = record {
  id = "ann@bds.example";
  username = "ann";
  domain = "bds.example";
  display_name = "Ann";
  password_hash = "s3cret";
  status = "A";
  twofa_enabled = false;
  twofa_secret = "";
  twofa_backup_codes = "";
}

abbrev store : MailStore
store = record {
  db = record empty_db { user_account = ann ∷ [] };
  has_bucket = false;
  bucket_log = [];
  next_id = 0;
}

abbrev session : SmtpSession
session = record {
  from = "eve@far.example";
  to = "ann@bds.example" ∷ "bob@bds.example" ∷ [];
  authed = false;
  user = "";
  remote_ip = some "10.0.0.7";
  ehlo_hostname = "mx.far.example";
  require_tls = false;
}

abbrev limiter : RateLimiter Bool
limiter = record { conn_limiter = []; auth_fails = []; max_auth_fail = 3; lockout_dur = 900 }

logged_in :
    (auth_plain env (some limiter) store.db session "ann@bds.example" "s3cret" 10).3.authed ≡ true
unfolding auth_plain credentials_fit get_user_by_email get_user split_email cut first is_locked_out
    lookup
logged_in = refl

auth_plain-Identified_example :
    ((locked_now (some limiter) session.remote_ip 10).0 ≡ false)
    × Identified env store.db "ann@bds.example" "s3cret"
auth_plain-Identified_example =
    auth_plain-Identified env (some limiter) store.db session "ann@bds.example" "s3cret" 10 refl
      logged_in

smtp_data-IsRefusal_example :
    (is_refused env session "virus" infected ≡ true)
    ↔ IsRefusal store (smtp_data env store session "virus" 5)
smtp_data-IsRefusal_example = smtp_data-IsRefusal env store session "virus" infected 5 refl

-- the sender is told that the mail was taken
abbrev down_store : MailStore
down_store = record store { db = record empty_db { down = true } }

smtp_data_outage_example :
    Lost down_store 0 (smtp_data (record env { checker = none }) down_store session "hi" 10)
unfolding any
smtp_data_outage_example =
    smtp_data_outage (record env { checker = none }) down_store session "hi" 10 refl
