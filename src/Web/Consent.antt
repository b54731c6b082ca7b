-- ===== src/Web/Consent.antt =====
-- internal/web/oauth_handlers.go and the OAuth clients of internal/web/api_handlers.go, with
-- ListClients of internal/oauth/oauth.go. Adding parameters to a redirect URI is net/url's.
use bdsmail.Base.{
  List, Option, String, [], code, if◌then◌else◌, map, none, not, some, trim_prefix, ℕ, ◌==◌, ◌∷◌,
}
use bdsmail.Model.{OauthClient}
use bdsmail.Db.{Db, list_oauth_clients, split_email}
use bdsmail.Oauth.{
  AuthorizeParams, NewClient, OauthEnv, delete_client, issue_code, register_client,
  validate_authorize,
}
use bdsmail.Web.Sessions.{
  Answer, Request, SessionStore, failed, get_session_user, json, page, redirect, rows, status_ok,
}

-- what is generated for a client, none where the generator fails
pub record NewSecrets : Type 0 where
  pub client_id : Option String
  pub secret : Option String
  pub id : Option String

abbrev clients_or_nil : Option (List OauthClient) → List OauthClient
clients_or_nil none = []
clients_or_nil (some clients) = clients

-- An application is registered for the domain of the user, with the secret in the second part.
unfoldable pub handle_developer :
    OauthEnv → SessionStore → Db → Request → NewSecrets → (Answer × Option NewClient) × Db
handle_developer env ss db r new =
    let email = get_session_user r.session ss in
    let (client, db') =
      register_client env db new.client_id new.secret new.id (r.value "name")
        (r.value "redirect_uri") (split_email email).1 email in
    if email == ""
    then ((redirect "/login", none), db)
    else if not (r.method == "POST")
    then ((page "" "", none), db)
    else if r.value "action" == "create"
    then elim client [
      | none ↦ ((page "Failed to register app" "", none), db')
      | some c ↦ ((page "" "Application registered", some c), db')
    ]
    else if r.value "action" == "delete"
    then elim (delete_client db (r.value "client_db_id")) [
      | none ↦ ((page "Failed to delete app" "", none), db)
      | some gone ↦ ((page "" "Application deleted", none), gone)
    ]
    else ((page "" "", none), db)

-- the parameters that the page asks the user about
unfoldable pub show_consent :
    SessionStore → Db → Request → AuthorizeParams → Answer × Option AuthorizeParams
show_consent ss db r params =
    if get_session_user r.session ss == ""
    then (redirect "/login", none)
    else elim (validate_authorize db params) [
      | none ↦ (failed 400, none)
      | some valid ↦ (page "" "", some valid)
    ]

-- the parameters of the redirect, with the state if there is one
abbrev with_state : String → String × String → List (String × String)
with_state state p = p ∷ (if state == "" then [] else ("state", state) ∷ [])

-- The fields of the form are not compared with the client again. `to_uri` puts parameters on a URI.
unfoldable pub process_consent :
    (String → List (String × String) → String)
    → SessionStore
    → Db
    → Request
    → Option String
    → ℕ
    → Answer × Db
process_consent to_uri ss db r random now =
    let email = get_session_user r.session ss in
    let uri = r.value "redirect_uri" in
    let (result, db') =
      issue_code db random (r.value "client_id") email uri (r.value "scope") (r.value "nonce")
        now in
    if email == ""
    then (redirect "/login", db)
    else if not (r.value "action" == "approve")
    then (redirect (to_uri uri (with_state (r.value "state") ("error", "access_denied"))), db)
    else elim result [
      | none ↦ (failed 500, db')
      | some code ↦ (redirect (to_uri uri (with_state (r.value "state") ("code", code))), db')
    ]

unfoldable pub handle_authorize :
    (String → List (String × String) → String)
    → SessionStore
    → Db
    → Request
    → AuthorizeParams
    → Option String
    → ℕ
    → Answer × Db
handle_authorize to_uri ss db r params random now =
    if r.method == "GET"
    then ((show_consent ss db r params).0, db)
    else process_consent to_uri ss db r random now

-- The clients are asked for by the email of the user where the database has domains.
unfoldable pub api_oauth_clients :
    OauthEnv → SessionStore → Db → Request → NewSecrets → (Answer × Option NewClient) × Db
api_oauth_clients env ss db r new =
    let email = get_session_user r.session ss in
    let (client, db') =
      register_client env db new.client_id new.secret new.id (r.value "name")
        (r.value "redirectUri") (split_email email).1 email in
    if email == ""
    then ((failed 401, none), db)
    else if r.method == "GET"
    then elim (list_oauth_clients db email) [
      | none ↦ ((failed 500, none), db)
      | some clients ↦ (
        (
          rows (
              map
                (λ c.
                  ("id", c.id)
                  ∷ (("name", c.name)
                      ∷ (("clientId", c.client_id) ∷ (("redirectUri", c.redirect_uri) ∷ []))))
                clients),
          none,
        ),
        db,
      )
    ]
    else if r.method == "POST"
    then elim client [ none ↦ ((failed 500, none), db') | some c ↦ ((json [], some c), db') ]
    else if r.method == "DELETE"
    then elim (delete_client db (trim_prefix r.path "/api/oauth/clients/")) [
      | none ↦ ((failed 500, none), db)
      | some gone ↦ ((status_ok, none), gone)
    ]
    else ((json [], none), db)
