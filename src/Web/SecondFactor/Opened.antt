-- ===== src/Web/SecondFactor/Opened.antt =====
-- For whom the second step of a login opens a session.
use mathlib.Core.List.{Memᴰ}
use bdsmail.Base.{
  Bool-cases, List, Option, Option-cases, String, [], ap, arith, eq_iff, if_intro, inl, inr, not,
  refl, some, split, subst, sym, true, ℕ, ◌==◌, ◌∙◌, ◌∷◌, ◌≡◌, ◌≢◌, ◌≤◌, ◌⊎◌,
}
use bdsmail.Model.{LoginToken}
use bdsmail.Db.{Db, delete_login_token, get_2fa_status, get_login_token, or_same}
use bdsmail.Auth.{
  AuthEnv, consume_login_token, validate_login_token, verify_2fa, verify_backup_code,
}
use bdsmail.Auth.Once.{Removed, consume_deletes, validated, verify_backup_code_once}
use bdsmail.Web.Sessions.{
  Answer, Request, SessionStore, create_session, get, get-create, page, redirect,
}
use bdsmail.Web.Login.{Random, is_true}
use bdsmail.Web.SecondFactor.{code_is_valid, handle_verify_2fa, second_step}

-- The user has a second factor, and the code is the one of its secret or fits a hash of a backup code.
pub record FitsCode (env : AuthEnv) (db : Db) (address code : String) : Type 0 where
  pub secret : String
  pub backup : String
  pub enabled : get_2fa_status db address ≡ some (true, secret, backup)
  pub fits :
      ((secret ≢ "") × (env.totp_validate code secret ≡ true))
      ⊎ ((hash : String) × Memᴰ hash (split b'|' backup) × (env.code_fits hash code ≡ true))

-- a login token of this address that has not expired, and a code that is valid
pub record HasSecondFactor (env : AuthEnv) (db : Db) (r : Request) (now : ℕ) (address : String)
    : Type 0 where
  pub token : LoginToken
  pub issued : get_login_token db (r.value "login_token") ≡ some token
  pub in_time : now ≤ token.expires_at
  pub address_of : token.user_email ≡ address
  pub code : FitsCode env db address (r.value "code")

Removed-fits :
    (env : AuthEnv) (code : String) (hashes remaining : List String)
    → Removed env code hashes remaining
    → (hash : String) × Memᴰ hash hashes × (env.code_fits hash code ≡ true)
Removed-fits env code [] remaining m = elim m [ ]
Removed-fits env code (hash ∷ rest) remaining (Removed.here e) = (hash, Memᴰ.head refl, e)
Removed-fits env code (h ∷ rest) (k ∷ remaining) (Removed.there e m) =
    let (hash, n, f) = Removed-fits env code rest remaining m in (hash, Memᴰ.tail n, f)

verify_2fa-FitsCode :
    (env : AuthEnv) (db : Db) (address code : String)
    → is_true (verify_2fa env db address code) ≡ true
    → FitsCode env db address code
unfolding verify_2fa
verify_2fa-FitsCode env db address code h = elim (Option-cases (get_2fa_status db address)) [
  | inl e ↦ absurd (ground (arith, h, e))
  | inr ((enabled, secret, backup), e) ↦
      let on : enabled ≡ true = ground (arith, h, e) in
      record {
        secret = secret;
        backup = backup;
        enabled = e ∙ ap (λ b. some (b, secret, backup)) on;
        fits = inl (ground (arith, h, e, eq_iff secret ""), ground (arith, h, e));
      }
]

code_is_valid-FitsCode :
    (env : AuthEnv) (db : Db) (address code : String)
    → (code_is_valid env db address code).0 ≡ true
    → FitsCode env db address code
unfolding code_is_valid
code_is_valid-FitsCode env db address code h =
    elim (Bool-cases (is_true (verify_2fa env db address code))) [
      | inl e ↦ verify_2fa-FitsCode env db address code e
      | inr e ↦
          let used : (verify_backup_code env db address code).0 ≡ some true =
            ground (arith, h, e) in
          let (secret, backup, remaining, enabled, removed, _) =
            verify_backup_code_once env db address code used in
          record {
            secret = secret;
            backup = backup;
            enabled = enabled;
            fits = inr (Removed-fits env code (split b'|' backup) remaining removed);
          }
    ]

-- the use of a login token leaves the second factors as they are
consume_keeps_status :
    (db : Db) (token owner address : String) (now : ℕ)
    → (consume_login_token db token now).0 ≡ some owner
    → get_2fa_status (consume_login_token db token now).1 address ≡ get_2fa_status db address
unfolding get_2fa_status delete_login_token
consume_keeps_status db token owner address now h =
    let (valid, after) = consume_deletes db token owner now h in
    let (t, found, in_time, same, db_same) =
      validated db token owner now (get_login_token db token)
        (unfold validate_login_token in valid) in
    let same_db : (validate_login_token db token now).1 ≡ db =
      unfold validate_login_token in db_same in
    ap (λ (d : Db). get_2fa_status d address)
      (after ∙ ap (λ (d : Db). or_same d (delete_login_token d token)) same_db)
    ∙ elim (Bool-cases db.down) [ inl e ↦ rw e refl | inr e ↦ rw e refl ]

moved :
    (env : AuthEnv) (db db' : Db) (address code : String)
    → get_2fa_status db' address ≡ get_2fa_status db address
    → FitsCode env db' address code
    → FitsCode env db address code
moved env db db' address code e f = record {
  secret = f.secret;
  backup = f.backup;
  enabled = sym e ∙ f.enabled;
  fits = f.fits;
}

abbrev Adds : SessionStore → (String → Type 0) → Answer × Db × SessionStore → Type 0
Adds ss C out =
    (token address : String)
    → get out.2 token ≡ some address
    → (get ss token ≡ some address) ⊎ C address

second_step-Adds :
    (env : AuthEnv) (wrong : Option String → Answer) (no_session welcome : Answer) (db : Db)
    (ss : SessionStore) (address : String) (r : Request) (random : Random) (now : ℕ)
    → Adds ss
        (λ other. (other ≡ address) × ((code_is_valid env db address (r.value "code")).0 ≡ true))
        (second_step env wrong no_session welcome db ss address r random now)
unfolding second_step
second_step-Adds env wrong no_session welcome db ss address r random now =
    let P =
      Adds ss
        (λ other. (other ≡ address) × ((code_is_valid env db address (r.value "code")).0 ≡ true)) in
    if_intro P (not (code_is_valid env db address (r.value "code")).0) (λ _ token other h. inl h)
      (λ valid. elim (Option-cases (create_session ss random.session address).0) [
        | inl e ↦ rw (e, second_step) (λ token other h. inl h)
        | inr (cookie, e) ↦
            rw (e, second_step)
              (λ token other h. elim (get-create ss random.session address token other h) [
                | inl old ↦ inl old
                | inr new ↦ inr (new, ground (arith, valid))
              ])
      ])

-- After a request to the page for the second factor each session was there before, or it is that of the
-- user of the login token that was sent: the token was issued and has not expired, the user's second
-- factor is on, and the code that was sent is the one of the user's secret or fits the stored hash of
-- a backup code.
pub handle_verify_2fa-HasSecondFactor :
    (env : AuthEnv) (db : Db) (ss : SessionStore) (r : Request) (random : Random) (now : ℕ)
    (token address : String)
    → get (handle_verify_2fa env db ss r random now).2 token ≡ some address
    → (get ss token ≡ some address) ⊎ HasSecondFactor env db r now address
unfolding handle_verify_2fa
handle_verify_2fa-HasSecondFactor env db ss r random now =
    let P = Adds ss (HasSecondFactor env db r now) in
    let sent = r.value "login_token" in
    let db' = (consume_login_token db sent now).1 in
    if_intro P (r.method == "GET") (λ _ token address h. inl h)
      (λ _. elim (Option-cases (consume_login_token db sent now).0) [
        | inl e ↦ rw e (λ token address h. inl h)
        | inr (owner, e) ↦
            let valid = (consume_deletes db sent owner now e).0 in
            let (t, found, in_time, owner_of, same) =
              validated db sent owner now (get_login_token db sent)
                (unfold validate_login_token in valid) in
            rw e (λ token address h.
              elim (second_step-Adds env (λ again. page "Invalid code. Please try again." "")
                (page "Failed to create session" "") (redirect "/inbox") db' ss owner r random now
                token address h) [
                  | inl old ↦ inl old
                  | inr (same_user, code) ↦ inr (record {
                    token = t;
                    issued = found;
                    in_time = in_time;
                    address_of = owner_of ∙ sym same_user;
                    code =
                        subst (λ a. FitsCode env db a (r.value "code")) (sym same_user)
                          (moved env db db' owner (r.value "code")
                            (consume_keeps_status db sent owner owner now e)
                            (code_is_valid-FitsCode env db' owner (r.value "code") code));
                  })
                ])
      ])
