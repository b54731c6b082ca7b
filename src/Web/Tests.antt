-- ===== src/Web/Tests.antt =====
-- The theorems on the web interface at concrete requests: users and keys.
mod Logins
mod Pages
use mathlib.Core.List.{Memᴰ}
use bdsmail.Base.{
  String, [], any, arith, cut, false, if◌then◌else◌, none, refl, some, trim_space, true, ◌==◌, ◌∷◌,
  ◌≡◌, ◌⊎◌,
}
use bdsmail.Model.{AppToken, User, UserPermission, default_end_date, email, status_active}
use bdsmail.Db.{
  Db, add_history, create_app_token, empty_db, grant_permission, has_permission, split_email,
  user_exists_by_email,
}
use bdsmail.Web.Sessions.{Request, SessionStore, get_session_user}
use bdsmail.Web.Roles.{grant_role, is_admin, is_owner, log_history}
use bdsmail.Web.Users.{Passwords, change_role_action, handle_domain_users, user_action}
use bdsmail.Web.Users.Owners.{handle_domain_users-no_new_owner}
use bdsmail.Web.Users.Roles.{change_role_granted}
use bdsmail.Web.Keys.{KeysEnv, NewKey, create_key, handle_api_keys}
use bdsmail.Web.Keys.Senders.{IsOwnSender, handle_api_keys-IsOwnSender}

abbrev pub passwords : Passwords
passwords = record { hash_password = λ p. some p; check_password = λ hash p. hash == p }

abbrev permission : String → String → UserPermission
permission email role = record {
  id = email;
  user_email = email;
  role = role;
  domain = "bds.example";
  start_date = 0;
  end_date = default_end_date;
  created_by = "";
}

abbrev pub bob : User
bob = record {
  id = "bob@bds.example";
  username = "bob";
  domain = "bds.example";
  display_name = "Bob";
  password_hash = "s3cret";
  status = status_active;
  twofa_enabled = false;
  twofa_secret = "";
  twofa_backup_codes = "";
}

abbrev pub db : Db
db = record empty_db {
  user_account = bob ∷ [];
  user_permission =
      permission "ann@bds.example" "owner" ∷ (permission "bob@bds.example" "admin" ∷ []);
  login_token = record { token = "t"; user_email = "bob@bds.example"; expires_at = 100 } ∷ [];
  domain_signup =
      record {
        id = "s1";
        domain = "new.example";
        username = "eve";
        display_name = "Eve";
        password_hash = "h";
        status = "pending";
        expires_at = 100;
      }
      ∷ [];
}

-- bob, who is an admin, makes himself a super admin
abbrev form : String → String
form name =
    if name == "action"
    then "change_role"
    else if name == "email"
    then "bob@bds.example"
    else if name == "role"
    then "superadmin"
    else ""

abbrev pub post : (String → String) → Request
post value = record {
  method = "POST";
  host = "mail.bds.example";
  path = "";
  session = some "c1";
  admin = none;
  authorization = "";
  value = value;
  values = λ name. [];
  flag = λ name. false;
  decodes = true;
  client_ip = none;
}

abbrev pub sessions : SessionStore
sessions = ("c1", "bob@bds.example") ∷ []

no_owner : is_owner db (get_session_user (post form).session sessions) 10 ≡ false
unfolding is_owner has_permission any get_session_user
no_owner = refl

still_owner :
    is_owner (handle_domain_users passwords sessions db (post form) "p9" 10).1 "ann@bds.example" 10
    ≡ true
unfolding is_owner has_permission any get_session_user handle_domain_users is_admin user_action
    change_role_action grant_role grant_permission log_history add_history split_email
still_owner = refl

handle_domain_users-no_new_owner_example : is_owner db "ann@bds.example" 10 ≡ true
handle_domain_users-no_new_owner_example =
    handle_domain_users-no_new_owner passwords sessions db (post form) "p9" 10 "ann@bds.example" 10
      no_owner still_owner

known : (get_session_user (post form).session sessions == "") ≡ false
unfolding get_session_user
known = refl

bob_is_admin : is_admin db (get_session_user (post form).session sessions) 10 ≡ true
unfolding is_admin has_permission any get_session_user
bob_is_admin = refl

new_id : any (λ p. p.id == "p9") db.user_permission ≡ false
unfolding any
new_id = refl

change_role_granted_example :
    has_permission
      (handle_domain_users passwords sessions db (post form) "p9" 10).1
      "bob@bds.example"
      "superadmin"
      90
    ≡ true
change_role_granted_example =
    change_role_granted passwords sessions db (post form) "p9" 10 90 known bob_is_admin refl refl
      refl refl refl new_id (omega arith) (omega arith)

abbrev key_form : String → String
key_form name =
    if name == "action"
    then "create"
    else if name == "name"
    then "app"
    else if name == "sender_email"
    then "bob@bds.example"
    else ""

abbrev keys_env : KeysEnv
keys_env = record {
  sha256_hex = λ s. s;
  store_env = record { uuid = λ n. "id"; bucket_ok = λ op. true };
  has_relay = true;
}

abbrev key : NewKey
key = record { token = "k"; id = "k1" }

abbrev app_token : AppToken
app_token = record {
  id = "k1";
  name = "app";
  token_hash = "k";
  domain = "bds.example";
  sender_email = "bob@bds.example";
  created_by = "bob@bds.example";
  last_used_at = 0;
}

created_key :
    Memᴰ app_token (handle_api_keys keys_env sessions db (post key_form) key 10).1.app_token
unfolding handle_api_keys get_session_user is_admin has_permission any create_key trim_space
    user_exists_by_email split_email create_app_token cut
created_key = Memᴰ.head refl

handle_api_keys-IsOwnSender_example :
    Memᴰ app_token db.app_token
    ⊎ IsOwnSender db (get_session_user (post key_form).session sessions) app_token
handle_api_keys-IsOwnSender_example =
    handle_api_keys-IsOwnSender keys_env sessions db (post key_form) key 10 app_token created_key
