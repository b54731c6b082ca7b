-- ===== src/Auth.antt =====
-- internal/auth/auth.go: second factors, backup codes, trusted devices and login tokens. TOTP, bcrypt
-- and random texts are parameters; a time is in seconds.
pub mod Once
mod Tests
use bdsmail.Base.{
  Bool, List, Option, String, [], code, false, if◌then◌else◌, join, map, none, not, some, split,
  true, ℕ, ◌*◌, ◌+◌, ◌==◌, ◌||◌, ◌∷◌,
}
use bdsmail.Model.{LoginToken, is_expired}
use bdsmail.Db.{
  Db, create_login_token, create_trusted_device, delete_login_token, disable_2fa, enable_2fa,
  get_2fa_status, get_login_token, or_same,
}

pub record AuthEnv : Type 0 where
  pub totp_generate : String → String → Option (String × String)
  pub totp_validate : String → String → Bool
  pub hash_code : String → String
  pub code_fits : String → String → Bool

-- The secret, the address for a QR code and the codes; the random codes are given.
unfoldable pub setup_2fa :
    AuthEnv → Db → String → String → List String → Option (String × String × List String) × Db
setup_2fa env db issuer address codes = elim (env.totp_generate issuer address) [
  | none ↦ (none, db)
  | some (secret, url) ↦ elim (enable_2fa db address secret (join "|" (map env.hash_code codes))) [
    | none ↦ (none, db)
    | some db' ↦ (some (secret, url, codes), db')
  ]
]

-- none for an error
unfoldable pub verify_2fa : AuthEnv → Db → String → String → Option Bool
verify_2fa env db address code = elim (get_2fa_status db address) [
  | none ↦ none
  | some (enabled, secret, backup) ↦
      (if not enabled || secret == "" then none else some (env.totp_validate code secret))
]

-- the database, none for an error
unfoldable pub service_disable_2fa : AuthEnv → Db → String → String → Option Db
service_disable_2fa env db address code = elim (verify_2fa env db address code) [
  | none ↦ none
  | some valid ↦ (if not valid then none else disable_2fa db address)
]

-- the hashes without the first one that the code fits, none where there is no such
unfoldable pub consume_code : AuthEnv → String → List String → Option (List String)
consume_code env code [] = none
consume_code env code (hash ∷ rest) =
    let more = consume_code env code rest in
    if env.code_fits hash code
    then some rest
    else elim more [ none ↦ none | some remaining ↦ some (hash ∷ remaining) ]

-- from the point where the status was read
unfoldable pub use_backup_code :
    AuthEnv → Db → String → String → Option (Bool × String × String) → Option Bool × Db
use_backup_code env db address code none = (none, db)
use_backup_code env db address code (some (enabled, secret, backup)) =
    if not enabled || backup == ""
    then (some false, db)
    else elim (consume_code env code (split b'|' backup)) [
      | none ↦ (some false, db)
      | some remaining ↦ (some true, or_same db (enable_2fa db address secret (join "|" remaining)))
    ]

unfoldable pub verify_backup_code : AuthEnv → Db → String → String → Option Bool × Db
verify_backup_code env db address code =
    use_backup_code env db address code (get_2fa_status db address)

abbrev trusted_device_ttl : ℕ
trusted_device_ttl = 30 * 24 * 3600

unfoldable pub register_trusted_device :
    Db → Option String → String → String → String → ℕ → Option Db
register_trusted_device db none address fingerprint name now = none
register_trusted_device db (some id) address fingerprint name now =
    create_trusted_device db (record {
      id = id;
      user_email = address;
      fingerprint = fingerprint;
      name = name;
      expires_at = now + trusted_device_ttl;
    })

abbrev login_token_ttl : ℕ
login_token_ttl = 5 * 60

unfoldable pub new_login_token : Db → Option String → String → ℕ → Option String × Db
new_login_token db none address now = (none, db)
new_login_token db (some token) address now =
    elim (create_login_token db
      (record { token = token; user_email = address; expires_at = now + login_token_ttl })) [
        | none ↦ (none, db)
        | some db' ↦ (some token, db')
      ]

-- the email of the token, none for an error; an expired one is deleted
unfoldable pub check_login_token : Db → String → ℕ → Option LoginToken → Option String × Db
check_login_token db token now none = (none, db)
check_login_token db token now (some lt) =
    if is_expired lt.expires_at now
    then (none, or_same db (delete_login_token db token))
    else (some lt.user_email, db)

unfoldable pub validate_login_token : Db → String → ℕ → Option String × Db
validate_login_token db token now = check_login_token db token now (get_login_token db token)

unfoldable pub consume_login_token : Db → String → ℕ → Option String × Db
consume_login_token db token now =
    let (result, db') = validate_login_token db token now in
    elim result [
      | none ↦ (none, db')
      | some address ↦ (some address, or_same db' (delete_login_token db' token))
    ]
