-- ===== src/Db/Auth.antt =====
-- The two-factor, trusted device and login token operations of database.go.
use bdsmail.Base.{
  Bool, List, Option, String, [], any, concat, false, first, if◌then◌else◌, keep, ltb, none, not,
  some, true, update, ℕ, ◌&&◌, ◌++◌, ◌==◌, ◌||◌, ◌∷◌,
}
use bdsmail.Model.{LoginToken, TrustedDevice, User}
use bdsmail.Db.Tables.{Db}

-- WHERE username || '@' || domain = $n
abbrev pub has_email : String → User → Bool
has_email address u = concat (u.username ∷ "@" ∷ u.domain ∷ []) == address

unfoldable pub enable_2fa : Db → String → String → String → Option Db
unfolding update
enable_2fa db address secret backup_codes =
    if db.down
    then none
    else some (record db {
      user_account =
          update (has_email address)
            (λ u. record u {
              twofa_enabled = true;
              twofa_secret = secret;
              twofa_backup_codes = backup_codes;
            })
            db.user_account;
    })

unfoldable pub disable_2fa : Db → String → Option Db
unfolding update
disable_2fa db address =
    if db.down
    then none
    else some (record db {
      user_account =
          update (has_email address)
            (λ u. record u { twofa_enabled = false; twofa_secret = ""; twofa_backup_codes = "" })
            db.user_account;
    })

-- enabled, the secret and the backup codes
unfoldable pub get_2fa_status : Db → String → Option (Bool × String × String)
unfolding first
get_2fa_status db address =
    if db.down then none else elim (first (has_email address) db.user_account) [
      | none ↦ none
      | some u ↦ some (u.twofa_enabled, u.twofa_secret, u.twofa_backup_codes)
    ]

unfoldable pub create_trusted_device : Db → TrustedDevice → Option Db
create_trusted_device db device =
    if db.down || any (λ d. d.id == device.id) db.user_trusted_device
    then none
    else some (record db { user_trusted_device = db.user_trusted_device ++ device ∷ [] })

-- expires_at > NOW(); `none` for the error
unfoldable pub is_trusted_device : Db → String → String → ℕ → Option Bool
is_trusted_device db address fingerprint now =
    if db.down
    then none
    else some (
        any (λ d. d.user_email == address && d.fingerprint == fingerprint && ltb now d.expires_at)
          db.user_trusted_device)

unfoldable pub list_trusted_devices : Db → String → ℕ → Option (List TrustedDevice)
unfolding keep
list_trusted_devices db address now =
    if db.down
    then none
    else some (keep (λ d. d.user_email == address && ltb now d.expires_at) db.user_trusted_device)

unfoldable pub revoke_trusted_device : Db → String → Option Db
unfolding keep
revoke_trusted_device db id =
    if db.down
    then none
    else some
        (record db { user_trusted_device = keep (λ d. not (d.id == id)) db.user_trusted_device })

unfoldable pub create_login_token : Db → LoginToken → Option Db
create_login_token db t =
    if db.down || any (λ u. u.token == t.token) db.login_token
    then none
    else some (record db { login_token = db.login_token ++ t ∷ [] })

unfoldable pub get_login_token : Db → String → Option LoginToken
unfolding first
get_login_token db token = if db.down then none else first (λ t. t.token == token) db.login_token

unfoldable pub delete_login_token : Db → String → Option Db
unfolding keep
delete_login_token db token =
    if db.down
    then none
    else some (record db { login_token = keep (λ t. not (t.token == token)) db.login_token })
