-- ===== src/Model.antt =====
-- internal/model: the records that the other parts share. A time is a number of seconds; the zero
-- time is 0. Fields that no modelled operation reads are kept where the code writes them.
mod Domains
pub use Domains.{
  Domain, DomainDnsRecord, Contact, UserHistory, DomainSignup, Otp, action_suspend, action_activate,
  action_password_change, action_created, action_role_change,
}
unfoldable pub use Domains.{max_attempts_reached}
use bdsmail.Base.{
  Bool, List, String, [], concat, if◌then◌else◌, is_nil, ltb, negsuc, not, pos, ℕ, ℤ, ◌%◌, ◌&&◌,
  ◌+◌, ◌-◌, ◌==◌, ◌^◌, ◌∷◌,
}

-- message.go. The size is an int64 below 2^63, the length of what was stored.
pub record Attachment : Type 0 where
  pub id : String
  pub mail_content_id : String
  pub filename : String
  pub content_type : String
  pub size : ℕ
  pub bucket_key : String

pub record Message : Type 0 where
  pub id : String
  pub message_id : String
  pub from : String
  pub to : List String
  pub cc : List String
  pub bcc : List String
  pub subject : String
  pub content_type : String
  pub gcs_key : String
  pub owner_user : String
  pub folder : String
  pub seen : Bool
  pub deleted : Bool
  pub received_at : ℕ
  pub body : String
  pub attachments : List Attachment

-- the int64 whose bits are those of `n`
unfoldable pub to_int64 : ℕ → ℤ
to_int64 n = let m = n % 2 ^ 64 in if ltb m (2 ^ 63) then pos m else negsuc (2 ^ 64 - 1 - m)

unfoldable pub has_attachments : Message → Bool
has_attachments m = not (is_nil m.attachments)

sum_sizes : ℕ → List Attachment → ℕ
sum_sizes total [] = total
sum_sizes total (a ∷ rest) = sum_sizes ((total + a.size) % 2 ^ 64) rest

unfoldable pub total_attachment_size : Message → ℤ
unfolding sum_sizes to_int64
total_attachment_size m = to_int64 (sum_sizes 0 m.attachments)

-- filter.go
pub record FilterCondition : Type 0 where
  pub field : String
  pub operator : String
  pub value : String
  pub header : String

pub record FilterAction : Type 0 where
  pub type : String
  pub value : String

pub record Filter : Type 0 where
  pub id : String
  pub user_email : String
  pub name : String
  pub priority : ℤ
  pub conditions : List FilterCondition
  pub actions : List FilterAction
  pub enabled : Bool

-- user.go
pub record User : Type 0 where
  pub id : String
  pub username : String
  pub domain : String
  pub display_name : String
  pub password_hash : String
  pub status : String
  pub twofa_enabled : Bool
  pub twofa_secret : String
  pub twofa_backup_codes : String

-- user@domain
unfoldable pub email : User → String
email u = concat (u.username ∷ "@" ∷ u.domain ∷ [])

unfoldable pub formatted_from : User → String
unfolding email
formatted_from u =
    if u.display_name == "" then email u else concat (u.display_name ∷ " <" ∷ email u ∷ ">" ∷ [])

-- history.go
abbrev pub status_active : String
status_active = "A"

abbrev pub status_locked : String
status_locked = "L"

abbrev pub status_suspended : String
status_suspended = "S"

-- alias.go
pub record Alias : Type 0 where
  pub alias_email : String
  pub target_emails : List String
  pub is_catch_all : Bool

-- mailinglist.go
pub record MailingList : Type 0 where
  pub list_address : String
  pub name : String
  pub description : String
  pub owner_email : String

-- autoreply.go; a date is 0 where it is not set
pub record AutoReply : Type 0 where
  pub user_email : String
  pub enabled : Bool
  pub subject : String
  pub body : String
  pub start_date : ℕ
  pub end_date : ℕ

-- app_token.go
pub record AppToken : Type 0 where
  pub id : String
  pub name : String
  pub token_hash : String
  pub domain : String
  pub sender_email : String
  pub created_by : String
  pub last_used_at : ℕ

-- auth.go
pub record TrustedDevice : Type 0 where
  pub id : String
  pub user_email : String
  pub fingerprint : String
  pub name : String
  pub expires_at : ℕ

pub record LoginToken : Type 0 where
  pub token : String
  pub user_email : String
  pub expires_at : ℕ

-- time.Now().After(t.ExpiresAt)
unfoldable pub is_expired : ℕ → ℕ → Bool
is_expired expires_at now = ltb expires_at now

-- oauth.go
pub record OauthClient : Type 0 where
  pub id : String
  pub name : String
  pub client_id : String
  pub secret_hash : String
  pub redirect_uri : String
  pub domain : String
  pub created_by : String

pub record OauthCode : Type 0 where
  pub code : String
  pub client_id : String
  pub user_email : String
  pub redirect_uri : String
  pub scope : String
  pub nonce : String
  pub expires_at : ℕ
  pub used : Bool

pub record OauthToken : Type 0 where
  pub token : String
  pub client_id : String
  pub user_email : String
  pub scope : String
  pub expires_at : ℕ

-- permission.go
pub record UserPermission : Type 0 where
  pub id : String
  pub user_email : String
  pub role : String
  pub domain : String
  pub start_date : ℕ
  pub end_date : ℕ
  pub created_by : String

unfoldable pub is_active : UserPermission → ℕ → Bool
is_active p now = ltb p.start_date now && ltb now p.end_date

-- the last second of 2099, in UTC
abbrev pub default_end_date : ℕ
default_end_date = 4102444799
