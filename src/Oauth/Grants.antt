-- ===== src/Oauth/Grants.antt =====
-- When an authorization code is redeemed, and that it is redeemed once.
use bdsmail.Base.{
  Bool, Bool-cases, Option, Option-cases, String, any, ap, arith, code, eq_iff, false, false≢true,
  first, first-update, inl, inr, none, refl, some, subst, sym, true, update, ℕ, ◌+◌, ◌==◌, ◌||◌,
  ◌∙◌, ◌≡◌, ◌≤◌, ◌⊎◌,
}
use bdsmail.Model.{OauthClient, OauthCode, OauthToken, is_expired}
use bdsmail.Db.{
  Db, create_oauth_token, get_oauth_client, get_oauth_code, mark_oauth_code_used, or_same,
}
use bdsmail.Oauth.{
  Answer, OauthEnv, TokenRequest, TokenResponse, client_is_verified, granted, handle_token,
  issue_token, redeem, refused,
}

-- the code's conditions for a token, as propositions
pub record IsGrantable (env : OauthEnv) (db : Db) (req : TokenRequest) (now : ℕ) (c : OauthCode)
    : Type 0 where
  pub client : OauthClient
  pub known : get_oauth_client db req.client_id ≡ some client
  pub secret_fits : env.check_secret client.secret_hash req.client_secret ≡ true
  pub issued : get_oauth_code db req.code ≡ some c
  pub unused : c.used ≡ false
  pub in_time : now ≤ c.expires_at
  pub same_client : c.client_id ≡ req.client_id
  pub same_redirect : (req.redirect_uri ≡ "") ⊎ (c.redirect_uri ≡ req.redirect_uri)

-- the tests of `redeem`
record Redeemed (db : Db) (req : TokenRequest) (random : Option String) (now : ℕ) (c : OauthCode)
    (answer : Answer × Db) : Type 0 where
  pub unused : c.used ≡ false
  pub in_time : now ≤ c.expires_at
  pub same_client : c.client_id ≡ req.client_id
  pub same_redirect : (req.redirect_uri ≡ "") ⊎ (c.redirect_uri ≡ req.redirect_uri)
  pub issues : answer ≡ issue_token db req c random now

redeem-Redeemed :
    (db : Db) (req : TokenRequest) (c : OauthCode) (random : Option String) (now : ℕ)
    (resp : TokenResponse)
    → (redeem db req (some c) random now).0 ≡ granted resp
    → Redeemed db req random now c (redeem db req (some c) random now)
unfolding redeem is_expired
redeem-Redeemed db req c random now resp h = record {
  unused = ground (arith, h);
  in_time = ground (arith, h);
  same_client = ground (arith, h, eq_iff c.client_id req.client_id);
  same_redirect =
      ground (arith, h, eq_iff req.redirect_uri "", eq_iff c.redirect_uri req.redirect_uri);
  issues = ground (arith, h);
}

handle_token-redeem :
    (env : OauthEnv) (db : Db) (req : TokenRequest) (random : Option String) (now : ℕ)
    (resp : TokenResponse)
    → (handle_token env db req random now).0 ≡ granted resp
    → (client_is_verified env (get_oauth_client db req.client_id) req.client_secret ≡ true)
      × (handle_token env db req random now ≡ redeem db req (get_oauth_code db req.code) random now)
unfolding handle_token
handle_token-redeem env db req random now resp h = (ground (arith, h), ground (arith, h))

verified_client :
    (env : OauthEnv) (found : Option OauthClient) (secret : String)
    → client_is_verified env found secret ≡ true
    → (client : OauthClient) × (found ≡ some client)
      × (env.check_secret client.secret_hash secret ≡ true)
unfolding client_is_verified
verified_client env none secret h = absurd (false≢true h)
verified_client env (some client) secret h = (client, refl, h)

redeem-none :
    (db : Db) (req : TokenRequest) (random : Option String) (now : ℕ) (resp : TokenResponse)
    → (redeem db req none random now).0 ≡ granted resp
    → ⊥
unfolding redeem
redeem-none db req random now resp h = ground (arith, h)

-- A token is granted only where the client is known and its secret fits, and the code was issued to
-- this client, is unused and not expired, and the redirect address is the code's or is left out. The
-- answer and the database are then those of the code's user and scope.
pub handle_token-IsGrantable :
    (env : OauthEnv) (db : Db) (req : TokenRequest) (random : Option String) (now : ℕ)
    (resp : TokenResponse)
    → (handle_token env db req random now).0 ≡ granted resp
    → (c : OauthCode) × IsGrantable env db req now c
      × (handle_token env db req random now ≡ issue_token db req c random now)
handle_token-IsGrantable env db req random now resp h =
    let (verified, same) = handle_token-redeem env db req random now resp h in
    let (client, known, fits) =
      verified_client env (get_oauth_client db req.client_id) req.client_secret verified in
    let redeemed = sym (ap (λ (a : Answer × Db). a.0) same) ∙ h in
    elim (Option-cases (get_oauth_code db req.code)) [
      | inl e ↦ absurd (redeem-none db req random now resp (rw e at redeemed))
      | inr (c, e) ↦
          let r = redeem-Redeemed db req c random now resp (rw e at redeemed) in
          (
            c,
            record {
              client = client;
              known = known;
              secret_fits = fits;
              issued = e;
              unused = r.unused;
              in_time = r.in_time;
              same_client = r.same_client;
              same_redirect = r.same_redirect;
            },
            same ∙ ap (λ (o : Option OauthCode). redeem db req o random now) e ∙ r.issues,
          )
    ]

pub code_found :
    (db : Db) (code : String) (c : OauthCode)
    → get_oauth_code db code ≡ some c
    → (db.down ≡ false) × (first (λ x. x.code == code) db.oauth_code ≡ some c)
unfolding get_oauth_code
code_found db code c h = elim (Bool-cases db.down) [
  | inl e ↦ absurd (ground (arith, e, h))
  | inr e ↦ (e, rw e at h)
]

-- an issued code stays known, as a used one
get_oauth_code-used :
    (db : Db) (code : String) (c : OauthCode)
    → get_oauth_code db code ≡ some c
    → (d : OauthCode) × (get_oauth_code (or_same db (mark_oauth_code_used db code)) code ≡ some d)
      × (d.used ≡ true)
get_oauth_code-used db code c h =
    let (up, found) = code_found db code c h in
    let e : mark_oauth_code_used db code
        ≡ some (record db {
          oauth_code = update (λ x. x.code == code) (λ x. record x { used = true }) db.oauth_code;
        }) =
      unfold mark_oauth_code_used in simp up in
    (
      record c { used = true },
      rw e (
          unfold get_oauth_code in
          rw up (
            first-update (λ x. x.code == code) (λ x. record x { used = true }) db.oauth_code c
              (λ x. refl) found)),
      refl,
    )

-- the tokens do not matter to the codes
get_oauth_code-create :
    (db : Db) (token : OauthToken) (code : String)
    → get_oauth_code (or_same db (create_oauth_token db token)) code ≡ get_oauth_code db code
unfolding get_oauth_code create_oauth_token
get_oauth_code-create db token code =
    elim (Bool-cases (db.down || any (λ t. t.token == token.token) db.oauth_token)) [
      | inl e ↦ rw e refl
      | inr e ↦ rw e refl
    ]

issue_token-codes :
    (db : Db) (req : TokenRequest) (c : OauthCode) (random : Option String) (now : ℕ)
    (code : String)
    → get_oauth_code (issue_token db req c random now).1 code
      ≡ get_oauth_code (or_same db (mark_oauth_code_used db req.code)) code
unfolding issue_token
issue_token-codes db req c none now code = refl
issue_token-codes db req c (some token) now code =
    get_oauth_code-create (or_same db (mark_oauth_code_used db req.code))
      (record {
        token = token;
        client_id = req.client_id;
        user_email = c.user_email;
        scope = c.scope;
        expires_at = now + 3600;
      })
      code

abbrev pub is_granted : Answer → Bool
is_granted (refused status error) = false
is_granted (granted resp) = true

not_granted : (a : Answer) → ((resp : TokenResponse) → a ≡ granted resp → ⊥) → is_granted a ≡ false
not_granted (refused status error) h = refl
not_granted (granted resp) h = absurd (h resp refl)

granted_twice :
    (env env' : OauthEnv) (db : Db) (req later : TokenRequest) (random random' : Option String)
    (now now' : ℕ) (resp resp' : TokenResponse)
    → (handle_token env db req random now).0 ≡ granted resp
    → later.code ≡ req.code
    → (handle_token env' (handle_token env db req random now).1 later random' now').0
      ≡ granted resp'
    → ⊥
granted_twice env env' db req later random random' now now' resp resp' h same again =
    let db' = (handle_token env db req random now).1 in
    let (c, grantable, issues) = handle_token-IsGrantable env db req random now resp h in
    let (d, grantable', issues') =
      handle_token-IsGrantable env' db' later random' now' resp' again in
    let (used, found, is_used) = get_oauth_code-used db req.code c grantable.issued in
    let known : get_oauth_code db' req.code ≡ some used =
      ap (λ (a : Answer × Db). get_oauth_code a.1 req.code) issues
      ∙ issue_token-codes db req c random now req.code
      ∙ found in
    let known' : get_oauth_code db' req.code ≡ some d =
      subst (λ x. get_oauth_code db' x ≡ some d) same grantable'.issued in
    let both : some used ≡ some d = sym known ∙ known' in
    clash_used used d both is_used grantable'.unused
  where
    clash_used : (a b : OauthCode) → some a ≡ some b → a.used ≡ true → b.used ≡ false → ⊥
    clash_used a b e u v = ground (arith, e, u, v)

-- Once a request has been granted a token for a code, no later request with this code is granted one,
-- from whatever client and at whatever time.
pub handle_token-only_once :
    (env env' : OauthEnv) (db : Db) (req later : TokenRequest) (random random' : Option String)
    (now now' : ℕ) (resp : TokenResponse)
    → (handle_token env db req random now).0 ≡ granted resp
    → later.code ≡ req.code
    → is_granted (handle_token env' (handle_token env db req random now).1 later random' now').0
      ≡ false
handle_token-only_once env env' db req later random random' now now' resp h same =
    not_granted (handle_token env' (handle_token env db req random now).1 later random' now').0
      (λ resp' again.
        granted_twice env env' db req later random random' now now' resp resp' h same again)
