-- ===== src/Db/Oauth.antt =====
-- The OAuth operations of database.go.
use bdsmail.Base.{
  Option, String, [], any, code, false, first, if◌then◌else◌, keep, none, not, some, true, update,
  ◌++◌, ◌==◌, ◌||◌, ◌∷◌,
}
use bdsmail.Model.{OauthClient, OauthCode, OauthToken}
use bdsmail.Db.Tables.{Db}

unfoldable pub create_oauth_client : Db → OauthClient → Option Db
create_oauth_client db client =
    if db.down || any (λ c. c.id == client.id || c.client_id == client.client_id) db.oauth_client
    then none
    else some (record db { oauth_client = db.oauth_client ++ client ∷ [] })

unfoldable pub get_oauth_client : Db → String → Option OauthClient
unfolding first
get_oauth_client db client_id =
    if db.down then none else first (λ c. c.client_id == client_id) db.oauth_client

unfoldable pub delete_oauth_client : Db → String → Option Db
unfolding keep
delete_oauth_client db id =
    if db.down
    then none
    else some (record db { oauth_client = keep (λ c. not (c.id == id)) db.oauth_client })

-- The row starts unused.
unfoldable pub create_oauth_code : Db → OauthCode → Option Db
create_oauth_code db code =
    if db.down || any (λ c. c.code == code.code) db.oauth_code
    then none
    else some (record db { oauth_code = db.oauth_code ++ record code { used = false } ∷ [] })

unfoldable pub get_oauth_code : Db → String → Option OauthCode
unfolding first
get_oauth_code db code = if db.down then none else first (λ c. c.code == code) db.oauth_code

unfoldable pub mark_oauth_code_used : Db → String → Option Db
unfolding update
mark_oauth_code_used db code =
    if db.down
    then none
    else some (record db {
      oauth_code = update (λ c. c.code == code) (λ c. record c { used = true }) db.oauth_code;
    })

unfoldable pub create_oauth_token : Db → OauthToken → Option Db
create_oauth_token db token =
    if db.down || any (λ t. t.token == token.token) db.oauth_token
    then none
    else some (record db { oauth_token = db.oauth_token ++ token ∷ [] })

unfoldable pub get_oauth_token : Db → String → Option OauthToken
unfolding first
get_oauth_token db token = if db.down then none else first (λ t. t.token == token) db.oauth_token

unfoldable pub delete_oauth_token : Db → String → Option Db
unfolding keep
delete_oauth_token db token =
    if db.down
    then none
    else some (record db { oauth_token = keep (λ t. not (t.token == token)) db.oauth_token })
