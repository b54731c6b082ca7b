-- ===== src/Web/Login.antt =====
-- The logins of internal/web/handlers.go and api_handlers.go, and auth_2fa_handlers.go. The host of a
-- request is mapped to its domain, and random texts are given, none where the generator fails.
pub mod Opened
use bdsmail.Base.{
  Bool, List, Option, String, [], concat, false, if◌then◌else◌, none, not, some, trim_space, true,
  ℕ, ◌&&◌, ◌==◌, ◌∷◌,
}
use bdsmail.Model.{User, email}
use bdsmail.Security.RateLimit.{RateLimiter}
use bdsmail.Db.{Db, get_user, is_trusted_device}
use bdsmail.Auth.{AuthEnv, new_login_token}
use bdsmail.Smtp.{locked_now, record_auth_result}
use bdsmail.Config.{host_to_domain}
use bdsmail.Web.Sessions.{
  Answer, Request, SessionStore, clear_session, create_session, failed, json, page, redirect,
  status_ok,
}
use bdsmail.Web.Roles.{log_history}
use bdsmail.Web.Users.{Passwords}

-- bcrypt, the authentication service if there is one, and the served domains
pub record LoginEnv : Type 0 where
  pub passwords : Passwords
  pub auth : Option AuthEnv
  pub domains : List String

-- the rate limiter if security is on, the database and the sessions
pub record LoginState (L : Type 0) : Type 0 where
  pub limiter : Option (RateLimiter L)
  pub db : Db
  pub sessions : SessionStore

-- the random texts of a request
pub record Random : Type 0 where
  pub login_token : Option String
  pub session : Option String
  pub device : Option String

-- clientIP.String()
abbrev ip_text : Option String → String
ip_text none = "<nil>"
ip_text (some ip) = ip

-- the user whose password it is
unfoldable pub checked_user : Passwords → Option User → String → Option User
checked_user env none password = none
checked_user env (some u) password =
    if env.check_password u.password_hash password then some u else none

-- a wrong password is noted where the user exists
failed_login : Db → Option User → Option String → ℕ → Db
failed_login db none ip now = db
failed_login db (some u) ip now =
    log_history db (email u) "FAILED_LOGIN" "system" (ip_text ip) "" now

abbrev pub is_true : Option Bool → Bool
is_true (some b) = b
is_true none = false

-- whether a second factor is asked for
unfoldable pub needs_2fa : LoginEnv → User → Bool
needs_2fa env u = u.twofa_enabled && elim env.auth [ none ↦ false | some service ↦ true ]

module _ {L : Type 0} (env : LoginEnv) where
  -- the session of the user and the note of the login
  unfoldable pub open_session :
      LoginState L → String → Option String → Request → ℕ → Answer × LoginState L
  open_session st address token r now = elim (create_session st.sessions token address).0 [
    | none ↦ (page "Failed to create session" "", st)
    | some cookie ↦ (
      redirect "/inbox",
      record st {
        sessions = (create_session st.sessions token address).1;
        db = log_history st.db address "LOGIN" address (ip_text r.client_ip) "" now;
      },
    )
  ]

  -- from the point where the password was checked
  unfoldable pub logged_in : LoginState L → User → Request → Random → ℕ → Answer × LoginState L
  logged_in st u r random now =
      let (result, db') = new_login_token st.db random.login_token (email u) now in
      let opened = open_session st (email u) random.session r now in
      if needs_2fa env u
        && not (is_true (is_trusted_device st.db (email u) (r.value "device_fingerprint") now))
      then elim result [
        | none ↦ (page "Failed to initiate 2FA" "", record st { db = db' })
        | some token ↦
            (redirect (concat ("/verify-2fa?token=" ∷ token ∷ [])), record st { db = db' })
      ]
      else opened

  unfoldable pub handle_login : LoginState L → Request → Random → ℕ → Answer × LoginState L
  unfolding failed_login
  handle_login st r random now =
      let domain = host_to_domain env.domains r.host in
      let found = get_user st.db (trim_space (r.value "username")) domain in
      let (locked, limiter) = locked_now st.limiter r.client_ip now in
      if r.method == "GET"
      then (page "" "", st)
      else if locked
      then (
        page "Too many failed login attempts, try again later" "",
        record st { limiter = limiter },
      )
      else elim (checked_user env.passwords found (r.value "password")) [
        | none ↦ (
          page "Invalid username or password" "",
          record st {
            limiter = record_auth_result limiter r.client_ip false now;
            db = failed_login st.db found r.client_ip now;
          },
        )
        | some u ↦
            logged_in (record st { limiter = record_auth_result limiter r.client_ip true now }) u r
              random now
      ]

  -- HandleAuthLogin from the point where the password was checked: trusted devices do not count
  unfoldable pub api_logged_in : LoginState L → User → Random → ℕ → Answer × LoginState L
  api_logged_in st u random now =
      let (result, db') = new_login_token st.db random.login_token (email u) now in
      if needs_2fa env u
      then elim result [
        | none ↦ (failed 500, record st { db = db' })
        | some token ↦ (
          json (("twoFactorRequired", "true") ∷ (("loginToken", token) ∷ [])),
          record st { db = db' },
        )
      ]
      else elim (create_session st.sessions random.session (email u)).0 [
        | none ↦ (failed 500, st)
        | some cookie ↦ (
          json (("email", email u) ∷ (("displayName", u.display_name) ∷ [])),
          record st { sessions = (create_session st.sessions random.session (email u)).1 },
        )
      ]

  unfoldable pub handle_auth_login : LoginState L → Request → Random → ℕ → Answer × LoginState L
  handle_auth_login st r random now =
      let found = get_user st.db (r.value "username") (host_to_domain env.domains r.host) in
      let (locked, limiter) = locked_now st.limiter r.client_ip now in
      if not r.decodes
      then (failed 400, st)
      else if locked
      then (failed 429, record st { limiter = limiter })
      else elim (checked_user env.passwords found (r.value "password")) [
        | none ↦
            (failed 401, record st { limiter = record_auth_result limiter r.client_ip false now })
        | some u ↦
            api_logged_in (record st { limiter = record_auth_result limiter r.client_ip true now })
              u random now
      ]

unfoldable pub handle_logout : SessionStore → Request → Answer × SessionStore
handle_logout ss r = (redirect "/login", clear_session r.session ss)

unfoldable pub handle_auth_logout : SessionStore → Request → Answer × SessionStore
handle_auth_logout ss r = (status_ok, clear_session r.session ss)
