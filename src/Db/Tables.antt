-- ===== src/Db/Tables.antt =====
-- The tables of sql/bdsmail_pgsql.sql that the modelled queries use. While the connection is down
-- each query returns an error; the code never sees another failure but a missing row or a key that
-- is taken.
use Prim.Native.Nat.{Ordering}
use Prim.Native.String.{compare}
use bdsmail.Base.{
  All, Bool, Bool-cases, List, Option, String, [], false, if◌then◌else◌, inl, inr, lt_ℤ, none, refl,
  some, true, ℕ, ℤ, ◌++◌, ◌∷◌, ◌≡◌,
}
use bdsmail.Model.{
  Alias, AppToken, Attachment, AutoReply, Contact, Domain, DomainDnsRecord, DomainSignup, Filter,
  LoginToken, MailingList, Message, OauthClient, OauthCode, OauthToken, Otp, TrustedDevice, User,
  UserHistory, UserPermission,
}

pub record ReplyLog : Type 0 where
  pub user_email : String
  pub sender_email : String
  pub sent_at : ℕ

pub record Db : Type 0 where
  pub down : Bool
  pub user_account : List User
  pub mail_content : List Message
  pub mail_attachment : List Attachment
  pub mail_alias : List Alias
  pub mailing_list : List MailingList
  pub list_member : List (String × String)
  pub mail_filter : List Filter
  pub auto_reply : List AutoReply
  pub auto_reply_log : List ReplyLog
  pub app_token : List AppToken
  pub user_trusted_device : List TrustedDevice
  pub login_token : List LoginToken
  pub oauth_client : List OauthClient
  pub oauth_code : List OauthCode
  pub oauth_token : List OauthToken
  pub domain : List Domain
  pub domain_dns : List DomainDnsRecord
  pub domain_signup : List DomainSignup
  pub user_permission : List UserPermission
  pub user_history : List UserHistory
  pub user_contact : List Contact
  pub user_otp : List Otp

abbrev pub empty_db : Db
empty_db = record {
  down = false;
  user_account = [];
  mail_content = [];
  mail_attachment = [];
  mail_alias = [];
  mailing_list = [];
  list_member = [];
  mail_filter = [];
  auto_reply = [];
  auto_reply_log = [];
  app_token = [];
  user_trusted_device = [];
  login_token = [];
  oauth_client = [];
  oauth_code = [];
  oauth_token = [];
  domain = [];
  domain_dns = [];
  domain_signup = [];
  user_permission = [];
  user_history = [];
  user_contact = [];
  user_otp = [];
}

-- A statement that the database refuses changes nothing; a caller that drops the error goes on.
abbrev pub or_same : Db → Option Db → Db
or_same db none = db
or_same db (some db') = db'

abbrev pub is_ok : Option Db → Bool
is_ok none = false
is_ok (some db) = true

-- ORDER BY created_at DESC, where rows are added at the end
unfoldable pub newest_first {ℓ} : {A : Type ℓ} → List A → List A
newest_first [] = []
newest_first (a ∷ rest) = newest_first rest ++ a ∷ []

-- ORDER BY a number, the greatest first; rows with one number keep their order
insert_desc {ℓ} : {A : Type ℓ} → (A → ℤ) → A → List A → List A
insert_desc key a [] = a ∷ []
insert_desc key a (b ∷ rest) =
    if lt_ℤ (key a) (key b) then b ∷ insert_desc key a rest else a ∷ b ∷ rest

unfoldable pub sort_desc {ℓ} : {A : Type ℓ} → (A → ℤ) → List A → List A
unfolding insert_desc
sort_desc key [] = []
sort_desc key (a ∷ rest) = insert_desc key a (sort_desc key rest)

-- ORDER BY a text, as bytes; rows with one text keep their order
insert_text {ℓ} : {A : Type ℓ} → (A → String) → A → List A → List A
insert_text key a [] = a ∷ []
insert_text key a (b ∷ rest) = elim (compare (key a) (key b)) [
  | Ordering.gt ↦ b ∷ insert_text key a rest
  | _ ↦ a ∷ (b ∷ rest)
]

unfoldable pub sort_text {ℓ} : {A : Type ℓ} → (A → String) → List A → List A
unfolding insert_text
sort_text key [] = []
sort_text key (a ∷ rest) = insert_text key a (sort_text key rest)

sort_test : sort_text (λ (s : String). s) ("b" ∷ "c" ∷ "a" ∷ "b" ∷ []) ≡ "a" ∷ "b" ∷ "b" ∷ "c" ∷ []
unfolding sort_text
sort_test = refl

-- Sorting keeps which rows there are.
insert_desc-All {ℓ κ} :
    {A : Type ℓ} (P : A → Type κ) (key : A → ℤ) (a : A) (xs : List A)
    → P a
    → All P xs
    → All P (insert_desc key a xs)
unfolding insert_desc
insert_desc-All P key a [] p h = (p, tt)
insert_desc-All P key a (b ∷ rest) p (q, h) = elim (Bool-cases (lt_ℤ (key a) (key b))) [
  | inl e ↦ rw e (q, insert_desc-All P key a rest p h)
  | inr e ↦ rw e (p, (q, h))
]

pub sort_desc-All {ℓ κ} :
    {A : Type ℓ} (P : A → Type κ) (key : A → ℤ) (xs : List A) → All P xs → All P (sort_desc key xs)
unfolding sort_desc
sort_desc-All P key [] h = tt
sort_desc-All P key (a ∷ rest) (p, h) =
    insert_desc-All P key a (sort_desc key rest) p (sort_desc-All P key rest h)
