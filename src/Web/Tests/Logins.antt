-- ===== src/Web/Tests/Logins.antt =====
-- The theorems on logins and sign-ups at concrete requests.
use bdsmail.Base.{
  String, [], any, concat, cut, first, if◌then◌else◌, insert, lookup, none, refl, some, to_lower,
  trim_space, true, ◌==◌, ◌∷◌, ◌≡◌, ◌⊎◌,
}
use bdsmail.Model.{Domain, email, is_expired}
use bdsmail.Db.{
  Db, add_history, create_domain, create_user, delete_login_token, delete_signup, get_2fa_status,
  get_domain, get_login_token, get_signup, get_user, grant_permission, save_dns_record, split_email,
  user_exists_by_email,
}
use bdsmail.Auth.{AuthEnv, check_login_token, consume_login_token, validate_login_token, verify_2fa}
use bdsmail.Config.{host_to_domain}
use bdsmail.Dns.{verify_domain_ownership, verify_mx}
use bdsmail.Web.Sessions.{create_session, get}
use bdsmail.Web.Sessions.Refines.{closed, opened, run_owned, run_sessions, view, view-run}
use bdsmail.Web.Roles.{grant_role, log_history}
use bdsmail.Web.UsersApi.{host_name, is_platform_host}
use bdsmail.Web.Login.{
  LoginEnv, LoginState, Random, checked_user, handle_login, logged_in, needs_2fa, open_session,
}
use bdsmail.Web.Login.Opened.{IsChecked, handle_login-IsChecked}
use bdsmail.Web.SecondFactor.{code_is_valid, handle_verify_2fa, second_step, trust_device}
use bdsmail.Web.SecondFactor.Opened.{HasSecondFactor, handle_verify_2fa-HasSecondFactor}
use bdsmail.Web.Signup.{
  Generated, SignupEnv, SignupState, build_signup_dns_records, handle_signup_verify, pending_signup,
  provision_domain, save_all, verified, with_domain, with_owner,
}
use bdsmail.Web.Signup.Verified.{IsVerified, on_page, verify_signup-IsVerified}
use bdsmail.Web.Tests.{bob, db, passwords, post}

abbrev credentials : String → String
credentials name = if name == "username" then "bob" else if name == "password" then "s3cret" else ""

abbrev login_env : LoginEnv
login_env = record { passwords = passwords; auth = none; domains = "bds.example" ∷ [] }

abbrev login_state : LoginState (Unit {0})
login_state = record { limiter = none; db = db; sessions = [] }

abbrev random : Random
random = record { login_token = some "l"; session = some "c2"; device = some "d" }

logs_in :
    get (handle_login login_env login_state (post credentials) random 10).1.sessions "c2"
    ≡ some "bob@bds.example"
unfolding get handle_login host_to_domain cut concat get_user first trim_space checked_user
    logged_in needs_2fa open_session create_session lookup insert email log_history add_history
logs_in = refl

handle_login-IsChecked_example :
    (get login_state.sessions "c2" ≡ some "bob@bds.example")
    ⊎ IsChecked login_env login_state (post credentials) 10 "bob@bds.example"
handle_login-IsChecked_example =
    handle_login-IsChecked login_env login_state (post credentials) random 10 "c2" "bob@bds.example"
      logs_in

abbrev auth_env : AuthEnv
auth_env = record {
  totp_generate = λ issuer address. some ("123456", "otpauth:");
  totp_validate = λ code secret. code == secret;
  hash_code = λ code. code;
  code_fits = λ hash code. hash == code;
}

abbrev db_2fa : Db
db_2fa = record db {
  user_account = record bob { twofa_enabled = true; twofa_secret = "123456" } ∷ [];
}

abbrev code_form : String → String
code_form name = if name == "login_token" then "t" else if name == "code" then "123456" else ""

verifies :
    get (handle_verify_2fa auth_env db_2fa [] (post code_form) random 10).2 "c2"
    ≡ some "bob@bds.example"
unfolding get handle_verify_2fa consume_login_token validate_login_token check_login_token
    get_login_token delete_login_token second_step code_is_valid verify_2fa get_2fa_status
    split_email cut trust_device create_session lookup insert first is_expired concat
verifies = refl

handle_verify_2fa-HasSecondFactor_example :
    (get [] "c2" ≡ some "bob@bds.example")
    ⊎ HasSecondFactor auth_env db_2fa (post code_form) 10 "bob@bds.example"
handle_verify_2fa-HasSecondFactor_example =
    handle_verify_2fa-HasSecondFactor auth_env db_2fa [] (post code_form) random 10 "c2"
      "bob@bds.example" verifies

abbrev signup_env : SignupEnv
signup_env = record {
  passwords = passwords;
  lookup_mx = λ domain. some ("mail.bds.example." ∷ []);
  mail_hostname = "mail.bds.example";
}

abbrev signup_state : SignupState
signup_state = record { db = db; domains = "bds.example" ∷ []; sessions = [] }

abbrev generated : Generated
generated = record {
  signup_id = some "s2";
  session = some "c2";
  api_key_hash = "h";
  permission_id = "p3";
}

abbrev verify_form : String → String
verify_form name = if name == "id" then "s1" else ""

abbrev new_domain : Domain
new_domain = record {
  name = "new.example";
  api_key_hash = "h";
  ses_status = "";
  dkim_status = "";
  status = "active";
  created_by = "eve@new.example";
}

absent : get_domain signup_state.db "new.example" ≡ none
unfolding get_domain first
absent = refl

provisioned :
    get_domain
      (handle_signup_verify signup_env signup_state (post verify_form) generated 10).1.db
      "new.example"
    ≡ some new_domain
unfolding get_domain first handle_signup_verify is_platform_host host_name pending_signup get_signup
    is_expired verify_domain_ownership verify_mx verified provision_domain with_domain create_domain
    with_owner user_exists_by_email split_email create_user grant_role grant_permission save_all
    build_signup_dns_records save_dns_record delete_signup any cut concat to_lower
provisioned = refl

verify_signup-IsVerified_example : IsVerified signup_env signup_state.db "s1" 10 "new.example"
verify_signup-IsVerified_example =
    verify_signup-IsVerified on_page signup_env signup_state (post verify_form) generated 10
      "new.example" new_domain absent provisioned

view-run_example :
    view (run_sessions [] (opened (some "c1") "bob@bds.example" ∷ closed (some "c1") ∷ []))
    ≡ run_owned (view []) (opened (some "c1") "bob@bds.example" ∷ closed (some "c1") ∷ [])
view-run_example = view-run [] (opened (some "c1") "bob@bds.example" ∷ closed (some "c1") ∷ [])
