-- ===== src/Web/Login/Opened.antt =====
-- For whom a login opens a session.
use bdsmail.Base.{
  Bool-cases, Option, Option-cases, String, ap, arith, false, if_intro, inl, inr, none, not, some,
  subst, trim_space, true, ℕ, ◌&&◌, ◌==◌, ◌≡◌, ◌⊎◌,
}
use bdsmail.Model.{User, email}
use bdsmail.Db.{Db, get_user, is_trusted_device}
use bdsmail.Auth.{new_login_token}
use bdsmail.Smtp.{locked_now, record_auth_result}
use bdsmail.Config.{host_to_domain}
use bdsmail.Web.Sessions.{Answer, Request, create_session, get, get-create}
use bdsmail.Web.Users.{Passwords}
use bdsmail.Web.Login.{
  LoginEnv, LoginState, Random, checked_user, handle_login, is_true, logged_in, needs_2fa,
  open_session,
}

-- the user's password was given by a client that is not locked out, and no second factor is asked for
-- or the device is a trusted one
pub record IsChecked {L : Type 0} (env : LoginEnv) (st : LoginState L) (r : Request) (now : ℕ)
    (address : String) : Type 0 where
  pub user : User
  pub address_of : address ≡ email user
  pub found :
      get_user st.db (trim_space (r.value "username")) (host_to_domain env.domains r.host)
      ≡ some user
  pub fits : env.passwords.check_password user.password_hash (r.value "password") ≡ true
  pub unlocked : (locked_now st.limiter r.client_ip now).0 ≡ false
  pub factor :
      (needs_2fa env user ≡ false)
      ⊎ (is_true (is_trusted_device st.db (email user) (r.value "device_fingerprint") now) ≡ true)

checked_user_sound :
    (env : Passwords) (found : Option User) (password : String) (u : User)
    → checked_user env found password ≡ some u
    → (found ≡ some u) × (env.check_password u.password_hash password ≡ true)
unfolding checked_user
checked_user_sound env none password u h = absurd (ground (arith, h))
checked_user_sound env (some v) password u h =
    elim (Bool-cases (env.check_password v.password_hash password)) [
      | inl e ↦
          let same : v ≡ u = ground (arith, e, h) in
          (ap some same, subst (λ w. env.check_password w.password_hash password ≡ true) same e)
      | inr e ↦ absurd (ground (arith, e, h))
    ]

-- every session in the second state is one of the first, or its address meets the condition
abbrev Opens : {L : Type 0} → LoginState L → (String → Type 0) → Answer × LoginState L → Type 0
Opens st C out =
    (token address : String)
    → get out.1.sessions token ≡ some address
    → (get st.sessions token ≡ some address) ⊎ C address

-- the second factor of the user
abbrev HasFactor : LoginEnv → Request → ℕ → Db → User → Type 0
HasFactor env r now db u =
    (needs_2fa env u ≡ false)
    ⊎ (is_true (is_trusted_device db (email u) (r.value "device_fingerprint") now) ≡ true)

module _ {L : Type 0} (env : LoginEnv) (r : Request) (random : Random) (now : ℕ) where
  open_session-Opens :
      (st : LoginState L) (address : String)
      → Opens st (λ other. other ≡ address) (open_session env st address random.session r now)
  unfolding open_session
  open_session-Opens st address =
      elim (Option-cases (create_session st.sessions random.session address).0) [
        | inl e ↦ rw (e, open_session) (λ token other h. inl h)
        | inr (cookie, e) ↦
            rw (e, open_session)
              (λ token other h. get-create st.sessions random.session address token other h)
      ]

  logged_in-Opens :
      (st : LoginState L) (u : User)
      → Opens st
          (λ address. (address ≡ email u) × HasFactor env r now st.db u)
          (logged_in env st u r random now)
  unfolding logged_in
  logged_in-Opens st u =
      let P = Opens st (λ address. (address ≡ email u) × HasFactor env r now st.db u) in
      let trusted =
        is_true (is_trusted_device st.db (email u) (r.value "device_fingerprint") now) in
      if_intro P (needs_2fa env u && not trusted)
        (λ _. elim (Option-cases (new_login_token st.db random.login_token (email u) now).0) [
          | inl e ↦ rw e (λ token address h. inl h)
          | inr (login_token, e) ↦ rw e (λ token address h. inl h)
        ])
        (λ e token address h. elim (open_session-Opens st (email u) token address h) [
          | inl old ↦ inl old
          | inr new ↦ inr (
            new,
            elim (Bool-cases (needs_2fa env u)) [
              | inl asked ↦ inr (ground (arith, e, asked))
              | inr free ↦ inl free
            ],
          )
        ])

-- After a request to the login page each session was there before, or it is the session of the user
-- whose name and password were given: the client is not locked out then, and the user needs no second
-- factor or the device is trusted.
pub handle_login-IsChecked :
    {L : Type 0} (env : LoginEnv) (st : LoginState L) (r : Request) (random : Random) (now : ℕ)
    (token address : String)
    → get (handle_login env st r random now).1.sessions token ≡ some address
    → (get st.sessions token ≡ some address) ⊎ IsChecked env st r now address
unfolding handle_login
handle_login-IsChecked {L} env st r random now =
    let P = Opens st (IsChecked env st r now) in
    let found =
      get_user st.db (trim_space (r.value "username")) (host_to_domain env.domains r.host) in
    if_intro P (r.method == "GET") (λ _ token address h. inl h)
      (λ _.
        if_intro P (locked_now st.limiter r.client_ip now).0 (λ _ token address h. inl h)
          (λ unlocked. elim (Option-cases (checked_user env.passwords found (r.value "password"))) [
            | inl e ↦ rw e (λ token address h. inl h)
            | inr (u, e) ↦
                let (known, fits) =
                  checked_user_sound env.passwords found (r.value "password") u e in
                let limiter =
                  record_auth_result (locked_now st.limiter r.client_ip now).1 r.client_ip true
                    now in
                rw e (λ token address h.
                  elim (logged_in-Opens env r random now (record st { limiter = limiter }) u token
                    address h) [
                      | inl old ↦ inl old
                      | inr (same, factor) ↦ inr (record {
                        user = u;
                        address_of = same;
                        found = known;
                        fits = fits;
                        unlocked = unlocked;
                        factor = factor;
                      })
                    ])
          ]))
