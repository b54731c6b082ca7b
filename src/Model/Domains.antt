-- ===== src/Model/Domains.antt =====
-- internal/model/domain.go, dns_record.go, contact.go, history.go, signup.go and the one-time
-- passwords of auth.go.
use bdsmail.Base.{Bool, String, leb, ℕ}

pub record Domain : Type 0 where
  pub name : String
  pub api_key_hash : String
  pub ses_status : String
  pub dkim_status : String
  pub status : String
  pub created_by : String

pub record DomainDnsRecord : Type 0 where
  pub domain : String
  pub record_type : String
  pub name : String
  pub value : String
  pub priority : String

pub record Contact : Type 0 where
  pub id : String
  pub owner_email : String
  pub vcard_data : String
  pub etag : String
  pub updated_at : ℕ

pub record UserHistory : Type 0 where
  pub user_email : String
  pub action_time : ℕ
  pub action_type : String
  pub performed_by : String
  pub client_ip : String
  pub detail : String

abbrev pub action_suspend : String
action_suspend = "SUSPEND"

abbrev pub action_activate : String
action_activate = "ACTIVATE"

abbrev pub action_password_change : String
action_password_change = "PASSWORD_CHANGE"

abbrev pub action_created : String
action_created = "CREATED"

abbrev pub action_role_change : String
action_role_change = "ROLE_CHANGE"

pub record DomainSignup : Type 0 where
  pub id : String
  pub domain : String
  pub username : String
  pub display_name : String
  pub password_hash : String
  pub status : String
  pub expires_at : ℕ

pub record Otp : Type 0 where
  pub id : String
  pub user_email : String
  pub code : String
  pub purpose : String
  pub expires_at : ℕ
  pub attempts : ℕ

unfoldable pub max_attempts_reached : Otp → Bool
max_attempts_reached o = leb 5 o.attempts
