-- ===== src/Auth/Tests.antt =====
-- The theorems on login tokens and backup codes at concrete rows.
use bdsmail.Base.{
  List, String, [], concat, first, join, none, refl, some, split, true, ◌==◌, ◌∷◌, ◌≡◌, ◌≤◌,
}
use bdsmail.Model.{LoginToken, User, is_expired}
use bdsmail.Db.{Db, empty_db, get_2fa_status, get_login_token}
use bdsmail.Auth.{
  AuthEnv, check_login_token, consume_code, consume_login_token, use_backup_code,
  validate_login_token, verify_backup_code,
}
use bdsmail.Auth.Once.{Removed, consume_login_token_once, verify_backup_code_once}

abbrev env : AuthEnv
env = record {
  totp_generate = λ issuer address. none;
  totp_validate = λ code secret. code == secret;
  hash_code = λ text. text;
  code_fits = λ hash text. hash == text;
}

abbrev ann : User
ann = record {
  id = "ann@bds.example";
  username = "ann";
  domain = "bds.example";
  display_name = "Ann";
  password_hash = "hash";
  status = "A";
  twofa_enabled = true;
  twofa_secret = "seed";
  twofa_backup_codes = "aa|bb|cc";
}

abbrev db : Db
db = record empty_db {
  user_account = ann ∷ [];
  login_token = record { token = "t1"; user_email = "ann@bds.example"; expires_at = 400 } ∷ [];
}

consumed : (consume_login_token db "t1" 300).0 ≡ some "ann@bds.example"
unfolding consume_login_token validate_login_token check_login_token get_login_token first
    is_expired
consumed = refl

consume_login_token_once_example :
    ((t : LoginToken) × (get_login_token db "t1" ≡ some t)
      × (t.user_email ≡ "ann@bds.example")
      × (300 ≤ t.expires_at))
    × ((consume_login_token (consume_login_token db "t1" 300).1 "t1" 301).0 ≡ none)
consume_login_token_once_example =
    consume_login_token_once db "t1" "ann@bds.example" 300 301 consumed

accepted : (verify_backup_code env db "ann@bds.example" "bb").0 ≡ some true
unfolding verify_backup_code use_backup_code consume_code get_2fa_status first split concat
accepted = refl

verify_backup_code_once_example :
    (secret : String) × (backup : String) × (remaining : List String) × (get_2fa_status db
        "ann@bds.example"
      ≡ some (true, secret, backup))
    × Removed env "bb" (split b'|' backup) remaining
    × (get_2fa_status (verify_backup_code env db "ann@bds.example" "bb").1 "ann@bds.example"
        ≡ some (true, secret, join "|" remaining))
verify_backup_code_once_example = verify_backup_code_once env db "ann@bds.example" "bb" accepted
