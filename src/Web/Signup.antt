-- ===== src/Web/Signup.antt =====
-- internal/web/signup_handlers.go: a domain is signed up, its DNS is checked, and it is provisioned
-- with its first owner. The served domains of the configuration are part of the state.
pub mod Verified
use bdsmail.Base.{
  Bool, List, Option, String, [], concat, contains, false, if◌then◌else◌, len, ltb, none, not, some,
  to_lower, trim_space, true, ℕ, ◌*◌, ◌+◌, ◌==◌, ◌||◌, ◌∷◌,
}
use bdsmail.Model.{DomainDnsRecord, DomainSignup, is_expired}
use bdsmail.Db.{
  Db, create_domain, create_signup, create_user, delete_signup, get_domain, get_signup, or_same,
  save_dns_record, user_exists_by_email,
}
use bdsmail.Config.{is_domain_served}
use bdsmail.Dns.{verify_domain_ownership}
use bdsmail.Web.Sessions.{
  Answer, Request, SessionStore, create_session, failed, json, page, redirect,
}
use bdsmail.Web.Roles.{grant_role}
use bdsmail.Web.Users.{Passwords}
use bdsmail.Web.UsersApi.{is_platform_host, refresh_domains}

-- bcrypt, the MX hosts of a domain and the platform's host
pub record SignupEnv : Type 0 where
  pub passwords : Passwords
  pub lookup_mx : String → Option (List String)
  pub mail_hostname : String

pub record SignupState : Type 0 where
  pub db : Db
  pub domains : List String
  pub sessions : SessionStore

-- What is generated for a request: the identifier of a sign-up and the token of a session, none where
-- the generator fails, the hash of a domain's API key and the identifier of a permission.
pub record Generated : Type 0 where
  pub signup_id : Option String
  pub session : Option String
  pub api_key_hash : String
  pub permission_id : String

-- the error, or the identifier
pub data SignupResult : Type 0 where
  refused : String → SignupResult
  signed_up : String → SignupResult

unfoldable pub sign_up :
    SignupEnv
    → SignupState
    → String
    → String
    → String
    → String
    → Generated
    → ℕ
    → SignupResult × SignupState
sign_up env st domain' username' display_name password new now =
    let domain = trim_space (to_lower domain') in
    let username = trim_space (to_lower username') in
    let address = concat (username ∷ "@" ∷ domain ∷ []) in
    if domain == "" || not (contains domain ".")
    then (refused "invalid domain", st)
    else if username == ""
    then (refused "username is required", st)
    else if ltb (len password) 8
    then (refused "password must be at least 8 characters", st)
    else if is_domain_served st.domains domain
    then (refused (concat ("domain " ∷ domain ∷ " is already registered" ∷ [])), st)
    else if user_exists_by_email st.db address
    then (refused (concat ("user " ∷ address ∷ " already exists" ∷ [])), st)
    else elim (env.passwords.hash_password password) [
      | none ↦ (refused "password hashing failed", st)
      | some hash ↦ elim new.signup_id [
        | none ↦ (refused "failed to generate signup ID", st)
        | some id ↦
            elim (create_signup st.db (record {
              id = id;
              domain = domain;
              username = username;
              display_name = display_name;
              password_hash = hash;
              status = "pending";
              expires_at = now + 24 * 3600;
            })) [
              | none ↦ (refused "failed to create signup", st)
              | some db' ↦ (signed_up id, record st { db = db' })
            ]
      ]
    ]

dns_record : String → String → String → String → String → DomainDnsRecord
dns_record domain record_type name value priority = record {
  domain = domain;
  record_type = record_type;
  name = name;
  value = value;
  priority = priority;
}

unfoldable pub build_signup_dns_records : String → String → List DomainDnsRecord
unfolding dns_record
build_signup_dns_records domain mail_hostname =
    dns_record domain "CNAME" "mail" mail_hostname ""
    ∷ (dns_record domain "MX" "@" mail_hostname "10"
        ∷ (dns_record domain "TXT" "@" "v=spf1 include:amazonses.com ~all" ""
            ∷ (dns_record domain "TXT" "_dmarc"
                  (concat ("v=DMARC1; p=none; rua=mailto:postmaster@" ∷ domain ∷ [])) ""
                ∷ (dns_record domain "TXT" "bounce" "v=spf1 include:amazonses.com ~all" "" ∷ []))))

-- the errors are dropped
unfoldable pub save_all : Db → List DomainDnsRecord → Db
save_all db [] = db
save_all db (r ∷ rest) = save_all (or_same db (save_dns_record db r)) rest

-- the domain's row, unless it is there from an attempt before; none for an error
unfoldable pub with_domain : Db → DomainSignup → String → String → Option Db
with_domain db signup address api_key_hash = elim (get_domain db signup.domain) [
  | some existing ↦ some db
  | none ↦ create_domain db (record {
    name = signup.domain;
    api_key_hash = api_key_hash;
    ses_status = "";
    dkim_status = "";
    status = "active";
    created_by = address;
  })
]

-- the owner's account, unless it is there
unfoldable pub with_owner : Db → DomainSignup → String → String → ℕ → Option Db
with_owner db signup address permission_id now =
    if user_exists_by_email db address
    then some db
    else elim (create_user db signup.username signup.domain signup.display_name
        signup.password_hash) [
          | none ↦ none
          | some db' ↦ some (grant_role db' address "owner" signup.domain address permission_id now)
        ]

abbrev signup_email : DomainSignup → String
signup_email s = concat (s.username ∷ "@" ∷ s.domain ∷ [])

-- whether there is no error; what was written before an error stays
unfoldable pub provision_domain :
    SignupEnv → SignupState → DomainSignup → Generated → ℕ → Bool × SignupState
provision_domain env st signup new now =
    let address = signup_email signup in
    elim (with_domain st.db signup address new.api_key_hash) [
      | none ↦ (false, st)
      | some db1 ↦ elim (with_owner db1 signup address new.permission_id now) [
        | none ↦ (false, record st { db = db1 })
        | some db2 ↦
            (let db3 = save_all db2 (build_signup_dns_records signup.domain env.mail_hostname) in
              (
                true,
                record st {
                  db = or_same db3 (delete_signup db3 signup.id);
                  domains = refresh_domains db2 st.domains;
                },
              ))
      ]
    ]

-- The session is opened where its token can be generated.
unfoldable pub verified :
    SignupEnv → Answer → Answer → SignupState → DomainSignup → Generated → ℕ → Answer × SignupState
verified env failure success st signup new now =
    let (ok, st') = provision_domain env st signup new now in
    if ok
    then (
      success,
      record st' { sessions = (create_session st'.sessions new.session (signup_email signup)).1 },
    )
    else (failure, st')

-- the sign-up, if it is there and has not expired
unfoldable pub pending_signup : Db → String → ℕ → Option DomainSignup
pending_signup db id now = elim (get_signup db id) [
  | none ↦ none
  | some s ↦ (if is_expired s.expires_at now then none else some s)
]

unfoldable pub handle_signup :
    SignupEnv → SignupState → Request → Generated → ℕ → Answer × SignupState
handle_signup env st r new now =
    let (result, st') =
      sign_up env st (trim_space (to_lower (r.value "domain"))) (trim_space (r.value "username"))
        (trim_space (r.value "display_name")) (r.value "password") new now in
    if not (is_platform_host env.mail_hostname r)
    then (failed 403, st)
    else if r.method == "GET"
    then (page "" "", st)
    else elim result [
      | refused error ↦ (page error "", st')
      | signed_up id ↦ (redirect (concat ("/signup/verify?id=" ∷ id ∷ [])), st')
    ]

unfoldable pub handle_signup_verify :
    SignupEnv → SignupState → Request → Generated → ℕ → Answer × SignupState
handle_signup_verify env st r new now =
    if not (is_platform_host env.mail_hostname r)
    then (failed 403, st)
    else if r.value "id" == ""
    then (redirect "/signup", st)
    else elim (pending_signup st.db (r.value "id") now) [
      | none ↦ (page "Signup expired or not found. Please start again." "", st)
      | some signup ↦
          (if not (r.method == "POST")
            then (page "" "", st)
            else if not (verify_domain_ownership env.lookup_mx signup.domain env.mail_hostname)
            then (page "DNS verification failed" "", st)
            else verified env (page "Provisioning failed" "") (page "" "Domain is ready") st signup
                new now)
    ]

unfoldable pub api_create_signup :
    SignupEnv → SignupState → Request → Generated → ℕ → Answer × SignupState
api_create_signup env st r new now =
    let (result, st') =
      sign_up env st (r.value "domain") (r.value "username") (r.value "displayName")
        (r.value "password") new now in
    if not (is_platform_host env.mail_hostname r)
    then (failed 403, st)
    else if not r.decodes
    then (failed 400, st)
    else elim result [
      | refused error ↦ (failed 400, st')
      | signed_up id ↦ (json (("signupId", id) ∷ (("domain", r.value "domain") ∷ [])), st')
    ]

unfoldable pub api_verify_signup :
    SignupEnv → SignupState → Request → Generated → ℕ → Answer × SignupState
api_verify_signup env st r new now = elim (pending_signup st.db (r.value "signupId") now) [
  | none ↦ (failed 400, st)
  | some signup ↦
      (if not (verify_domain_ownership env.lookup_mx signup.domain env.mail_hostname)
        then (failed 400, st)
        else verified env (failed 500) (json (("status", "verified") ∷ [])) st signup new now)
]
