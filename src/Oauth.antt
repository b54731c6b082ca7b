-- ===== src/Oauth.antt =====
-- internal/oauth/oauth.go: the OAuth 2.0 provider. HTTP requests are records of their parameters,
-- JSON and the signature of an ID token are left to parameters; a time is in seconds.
pub mod Grants
pub mod Access
mod Tests
use bdsmail.Base.{
  Bool, Option, String, contains, false, if◌then◌else◌, len, none, not, slice, some, starts_with, ℕ,
  ◌&&◌, ◌+◌, ◌==◌, ◌||◌,
}
use bdsmail.Model.{OauthClient, OauthCode, is_expired}
use bdsmail.Db.{
  Db, create_oauth_client, create_oauth_code, create_oauth_token, delete_oauth_client,
  get_oauth_client, get_oauth_code, get_oauth_token, mark_oauth_code_used, or_same, split_email,
}

-- bcrypt's comparison of a hash and a secret, and its hash
pub record OauthEnv : Type 0 where
  pub check_secret : String → String → Bool
  pub hash_secret : String → Option String

-- what RegisterClient answers
pub record NewClient : Type 0 where
  pub id : String
  pub name : String
  pub client_id : String
  pub redirect_uri : String
  pub client_secret : String

-- the three random texts, each none where the generator fails
unfoldable pub register_client :
    OauthEnv
    → Db
    → Option String
    → Option String
    → Option String
    → String
    → String
    → String
    → String
    → Option NewClient × Db
register_client env db (some client_id) (some secret) (some id) name redirect_uri domain
      created_by =
    elim (env.hash_secret secret) [
      | none ↦ (none, db)
      | some secret_hash ↦
          elim (create_oauth_client db (record {
            id = id;
            name = name;
            client_id = client_id;
            secret_hash = secret_hash;
            redirect_uri = redirect_uri;
            domain = domain;
            created_by = created_by;
          })) [
            | none ↦ (none, db)
            | some db' ↦ (
              some (record {
                id = id;
                name = name;
                client_id = client_id;
                redirect_uri = redirect_uri;
                client_secret = secret;
              }),
              db',
            )
          ]
    ]
register_client env db _ _ _ name redirect_uri domain created_by = (none, db)

unfoldable pub delete_client : Db → String → Option Db
delete_client db id = delete_oauth_client db id

pub record AuthorizeParams : Type 0 where
  pub client_id : String
  pub redirect_uri : String
  pub response_type : String
  pub scope : String
  pub state : String
  pub nonce : String
  pub client_name : String

-- The parameters of the query are in a record whose `client_name` is not read.
unfoldable pub validate_authorize : Db → AuthorizeParams → Option AuthorizeParams
validate_authorize db q =
    if not (q.response_type == "code")
    then none
    else if q.client_id == ""
    then none
    else elim (get_oauth_client db q.client_id) [
      | none ↦ none
      | some client ↦
          (let uri = if q.redirect_uri == "" then client.redirect_uri else q.redirect_uri in
            if not (uri == client.redirect_uri)
            then none
            else some (record q { redirect_uri = uri; client_name = client.name }))
    ]

unfoldable pub issue_code :
    Db → Option String → String → String → String → String → String → ℕ → Option String × Db
issue_code db none client_id user_email redirect_uri scope nonce now = (none, db)
issue_code db (some code) client_id user_email redirect_uri scope nonce now =
    elim (create_oauth_code db (record {
      code = code;
      client_id = client_id;
      user_email = user_email;
      redirect_uri = redirect_uri;
      scope = scope;
      nonce = nonce;
      expires_at = now + 600;
      used = false;
    })) [ none ↦ (none, db) | some db' ↦ (some code, db') ]

pub record TokenRequest : Type 0 where
  pub method : String
  pub grant_type : String
  pub code : String
  pub redirect_uri : String
  pub client_id : String
  pub client_secret : String

-- an ID token is for a user, an audience and a nonce; its signature is not modelled
pub record TokenResponse : Type 0 where
  pub access_token : String
  pub expires_in : ℕ
  pub scope : String
  pub id_token : Option (String × String × String)

-- the status and the kind of an error, or the token
pub data Answer : Type 0 where
  refused : ℕ → String → Answer
  granted : TokenResponse → Answer

unfoldable pub client_is_verified : OauthEnv → Option OauthClient → String → Bool
client_is_verified env none secret = false
client_is_verified env (some client) secret = env.check_secret client.secret_hash secret

-- from the point where the code is marked as used
unfoldable pub issue_token : Db → TokenRequest → OauthCode → Option String → ℕ → Answer × Db
issue_token db req c random now =
    let db' = or_same db (mark_oauth_code_used db req.code) in
    elim random [
      | none ↦ (refused 500 "server_error", db')
      | some token ↦ (
        granted (record {
          access_token = token;
          expires_in = 3600;
          scope = c.scope;
          id_token =
              if contains c.scope "openid"
              then some (c.user_email, req.client_id, c.nonce)
              else none;
        }),
        or_same db' (
            create_oauth_token db' (record {
              token = token;
              client_id = req.client_id;
              user_email = c.user_email;
              scope = c.scope;
              expires_at = now + 3600;
            })),
      )
    ]

-- from the point where the code was looked up
unfoldable pub redeem : Db → TokenRequest → Option OauthCode → Option String → ℕ → Answer × Db
redeem db req none random now = (refused 400 "invalid_grant", db)
redeem db req (some c) random now =
    if c.used || is_expired c.expires_at now
    then (refused 400 "invalid_grant", db)
    else if not (c.client_id == req.client_id)
    then (refused 400 "invalid_grant", db)
    else if not (req.redirect_uri == "") && not (c.redirect_uri == req.redirect_uri)
    then (refused 400 "invalid_grant", db)
    else issue_token db req c random now

unfoldable pub handle_token : OauthEnv → Db → TokenRequest → Option String → ℕ → Answer × Db
handle_token env db req random now =
    if not (req.method == "POST")
    then (refused 405 "method_not_allowed", db)
    else if not (req.grant_type == "authorization_code")
    then (refused 400 "unsupported_grant_type", db)
    else if not (client_is_verified env (get_oauth_client db req.client_id) req.client_secret)
    then (refused 401 "invalid_client", db)
    else redeem db req (get_oauth_code db req.code) random now

unfoldable pub extract_bearer_token : String → String
extract_bearer_token header =
    if starts_with header "Bearer " then slice header 7 (len header) else ""

-- the email, the name and the domain of the token's user, none for the error 401
unfoldable pub handle_user_info : Db → String → ℕ → Option (String × String × String)
handle_user_info db header now =
    if extract_bearer_token header == ""
    then none
    else elim (get_oauth_token db (extract_bearer_token header)) [
      | none ↦ none
      | some t ↦
          (if is_expired t.expires_at now
            then none
            else some (t.user_email, (split_email t.user_email).0, (split_email t.user_email).1))
    ]
