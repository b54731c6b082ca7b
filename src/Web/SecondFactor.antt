-- ===== src/Web/SecondFactor.antt =====
-- internal/web/auth_2fa_handlers.go: the second step of a login, and the settings for it.
pub mod Opened
use bdsmail.Base.{
  Bool, List, Option, String, [], code, if◌then◌else◌, join, map, none, not, some, true, ℕ, ◌&&◌,
  ◌==◌, ◌∷◌,
}
use bdsmail.Model.{TrustedDevice}
use bdsmail.Db.{Db, list_trusted_devices, or_same, revoke_trusted_device}
use bdsmail.Auth.{
  AuthEnv, consume_login_token, new_login_token, register_trusted_device, service_disable_2fa,
  setup_2fa, verify_2fa, verify_backup_code,
}
use bdsmail.Web.Sessions.{
  Answer, Request, SessionStore, create_session, failed, get_session_user, json, page, redirect,
  rows, status_ok,
}
use bdsmail.Web.Login.{Random, is_true}

-- Verify2FA, then VerifyBackupCode; errors count as a wrong code
unfoldable pub code_is_valid : AuthEnv → Db → String → String → Bool × Db
code_is_valid env db address code =
    let (backup, db') = verify_backup_code env db address code in
    if is_true (verify_2fa env db address code) then (true, db) else (is_true backup, db')

-- RegisterTrustedDevice where the user asks for it; its error is dropped
unfoldable pub trust_device : Db → Option String → String → Request → ℕ → Db
trust_device db id address r now =
    if r.value "trust_device" == "true" && not (r.value "device_fingerprint" == "")
    then or_same db (
        register_trusted_device db id address (r.value "device_fingerprint") (r.value "device_name")
          now)
    else db

-- from the point where the login token was used up: the answers for a wrong code (which takes the new
-- login token), for no session, and for a session
unfoldable pub second_step :
    AuthEnv
    → (Option String → Answer)
    → Answer
    → Answer
    → Db
    → SessionStore
    → String
    → Request
    → Random
    → ℕ
    → Answer × Db × SessionStore
second_step env wrong no_session welcome db ss address r random now =
    let (valid, db') = code_is_valid env db address (r.value "code") in
    let (again, db'') = new_login_token db' random.login_token address now in
    let trusted = trust_device db' random.device address r now in
    if not valid
    then (wrong again, db'', ss)
    else elim (create_session ss random.session address).0 [
      | none ↦ (no_session, trusted, ss)
      | some cookie ↦ (welcome, trusted, (create_session ss random.session address).1)
    ]

abbrev token_text : Option String → String
token_text none = ""
token_text (some token) = token

unfoldable pub handle_verify_2fa :
    AuthEnv → Db → SessionStore → Request → Random → ℕ → Answer × Db × SessionStore
handle_verify_2fa env db ss r random now =
    let (result, db') = consume_login_token db (r.value "login_token") now in
    if r.method == "GET" then (page "" "", db, ss) else elim result [
      | none ↦ (page "Login session expired. Please log in again." "", db', ss)
      | some address ↦
          second_step env (λ again. page "Invalid code. Please try again." "")
            (page "Failed to create session" "") (redirect "/inbox") db' ss address r random now
    ]

-- The fields of the JSON body have other names, which `value` maps to those of the form.
unfoldable pub api_verify_2fa :
    AuthEnv → Db → SessionStore → Request → Random → ℕ → Answer × Db × SessionStore
api_verify_2fa env db ss r random now =
    let (result, db') = consume_login_token db (r.value "login_token") now in
    elim result [
      | none ↦ (failed 401, db', ss)
      | some address ↦
          second_step env
            (λ again. json (("error", "Invalid code") ∷ (("loginToken", token_text again) ∷ [])))
            (failed 500) (json (("email", address) ∷ [])) db' ss address r random now
    ]

-- the actions of HandleSetup2FA; the backup codes are given
unfoldable pub handle_setup_2fa :
    AuthEnv → String → List String → Db → SessionStore → Request → Answer × Db
handle_setup_2fa env issuer codes db ss r =
    let address = get_session_user r.session ss in
    let (result, db') = setup_2fa env db issuer address codes in
    if address == ""
    then (redirect "/login", db)
    else if not (r.method == "POST")
    then (page "" "", db)
    else if r.value "action" == "setup"
    then elim result [
      | none ↦ (page "Failed to set up 2FA" "", db')
      | some shown ↦ (page "" "2FA enabled. Scan the QR code and save your backup codes.", db')
    ]
    else if r.value "action" == "disable"
    then elim (service_disable_2fa env db address (r.value "code")) [
      | none ↦ (page "Failed to disable 2FA" "", db)
      | some off ↦ (page "" "2FA has been disabled", off)
    ]
    else (page "" "", db)

unfoldable pub api_setup_2fa :
    AuthEnv → String → List String → Db → SessionStore → Request → Answer × Db
api_setup_2fa env issuer codes db ss r =
    let address = get_session_user r.session ss in
    let (result, db') = setup_2fa env db issuer address codes in
    if address == "" then (failed 401, db) else elim result [
      | none ↦ (failed 500, db')
      | some (secret, url, shown) ↦ (
        json (("secret", secret) ∷ (("qrUri", url) ∷ (("backupCodes", join " " shown) ∷ []))),
        db',
      )
    ]

unfoldable pub api_disable_2fa : AuthEnv → Db → SessionStore → Request → Answer × Db
api_disable_2fa env db ss r =
    let address = get_session_user r.session ss in
    if address == ""
    then (failed 401, db)
    else elim (service_disable_2fa env db address (r.value "code")) [
      | none ↦ (failed 400, db)
      | some off ↦ (status_ok, off)
    ]

abbrev devices_or_nil : Option (List TrustedDevice) → List TrustedDevice
devices_or_nil none = []
devices_or_nil (some devices) = devices

unfoldable pub api_list_trusted_devices : Db → SessionStore → Request → ℕ → Answer
api_list_trusted_devices db ss r now =
    let address = get_session_user r.session ss in
    if address == ""
    then failed 401
    else rows (
        map (λ d. ("id", d.id) ∷ (("fingerprint", d.fingerprint) ∷ (("name", d.name) ∷ [])))
          (devices_or_nil (list_trusted_devices db address now)))

-- The device need not be the user's.
unfoldable pub api_revoke_trusted_device : Db → SessionStore → Request → Answer × Db
api_revoke_trusted_device db ss r =
    if get_session_user r.session ss == ""
    then (failed 401, db)
    else (status_ok, or_same db (revoke_trusted_device db (r.value "id")))
