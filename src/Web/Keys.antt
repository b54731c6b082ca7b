-- ===== src/Web/Keys.antt =====
-- internal/web/apptoken_handlers.go: the API keys of a domain, and the mail that is sent with one.
pub mod Senders
use bdsmail.Base.{
  Bool, List, Option, String, [], concat, false, has, if◌then◌else◌, is_nil, keep, len, map, none,
  not, slice, some, starts_with, trim_prefix, trim_space, ℕ, ◌&&◌, ◌++◌, ◌==◌, ◌||◌, ◌∷◌,
}
use bdsmail.Model.{AppToken, email}
use bdsmail.Db.{
  Db, create_app_token, delete_app_token, get_app_token_by_hash, get_user_by_email, list_app_tokens,
  or_same, split_email, update_token_last_used, user_exists_by_email,
}
use bdsmail.Store.{Env, MailStore, save_outgoing_mail}
use bdsmail.Smtp.{Relayed}
use bdsmail.Web.Sessions.{
  Answer, Request, SessionStore, failed, get_session_user, json, page, redirect, rows, status_ok,
}
use bdsmail.Web.Roles.{is_admin}

-- SHA-256 as a hexadecimal text, the store's environment, and whether there is a relay
pub record KeysEnv : Type 0 where
  pub sha256_hex : String → String
  pub store_env : Env
  pub has_relay : Bool

-- the random texts, each the empty text where the generator fails
pub record NewKey : Type 0 where
  pub token : String
  pub id : String

new_app_token : KeysEnv → NewKey → String → String → String → String → AppToken
new_app_token env key name domain sender_email created_by = record {
  id = key.id;
  name = name;
  token_hash = env.sha256_hex key.token;
  domain = domain;
  sender_email = sender_email;
  created_by = created_by;
  last_used_at = 0;
}

abbrev tokens_or_nil : Option (List AppToken) → List AppToken
tokens_or_nil none = []
tokens_or_nil (some tokens) = tokens

token_view : AppToken → List (String × String)
token_view t =
    ("id", t.id)
    ∷ (("name", t.name) ∷ (("senderEmail", t.sender_email) ∷ (("createdBy", t.created_by) ∷ [])))

-- The page shows the new token once, behind its success.
unfoldable pub create_key : KeysEnv → Db → String → (String → String) → NewKey → Answer × Db
unfolding new_app_token
create_key env db email value key =
    let domain = (split_email email).1 in
    let name = trim_space (value "name") in
    let sender = trim_space (value "sender_email") in
    if name == "" || sender == ""
    then (page "Name and sender email are required" "", db)
    else if not (user_exists_by_email db sender)
    then (page (concat ("Sender " ∷ sender ∷ " does not exist" ∷ [])) "", db)
    else if not ((split_email sender).1 == domain)
    then (page "Sender must be in your domain" "", db)
    else elim (create_app_token db (new_app_token env key name domain sender email)) [
      | none ↦ (page "Failed to create token" "", db)
      | some db' ↦ (page "" "API key created", db')
    ]

unfoldable pub handle_api_keys : KeysEnv → SessionStore → Db → Request → NewKey → ℕ → Answer × Db
handle_api_keys env ss db r key now =
    let email = get_session_user r.session ss in
    if email == ""
    then (redirect "/login", db)
    else if not (is_admin db email now)
    then (failed 403, db)
    else if not (r.method == "POST")
    then (page "" "", db)
    else if r.value "action" == "create"
    then create_key env db email r.value key
    else if r.value "action" == "delete"
    then (page "" "API key deleted", or_same db (delete_app_token db (r.value "token_id")))
    else (page "" "", db)

unfoldable pub handle_api_keys_api :
    KeysEnv → SessionStore → Db → Request → NewKey → ℕ → Answer × Db
unfolding new_app_token token_view
handle_api_keys_api env ss db r key now =
    let email = get_session_user r.session ss in
    let domain = (split_email email).1 in
    if email == "" || not (is_admin db email now)
    then (failed 403, db)
    else if r.method == "GET"
    then (rows (map token_view (tokens_or_nil (list_app_tokens db domain))), db)
    else if r.method == "POST"
    then elim (create_app_token db
        (new_app_token env key (r.value "name") domain (r.value "senderEmail") email)) [
          | none ↦ (failed 500, db)
          | some db' ↦
              (json (("token", concat ("bds_ak_" ∷ key.token ∷ [])) ∷ (("id", key.id) ∷ [])), db')
        ]
    else if r.method == "DELETE"
    then (status_ok, or_same db (delete_app_token db (r.value "id")))
    else (json [], db)

-- none for an error
unfoldable pub validate_app_token : KeysEnv → Db → String → Option AppToken
validate_app_token env db bearer =
    get_app_token_by_hash db (env.sha256_hex (trim_prefix bearer "bds_ak_"))

-- collectExternalAddrs of handlers.go
unfoldable pub collect_external_addrs :
    List String → List String → List String → List String → List String
collect_external_addrs domains to cc bcc =
    keep (λ a. not (has (split_email a).1 domains)) (to ++ (cc ++ bcc))

-- the sender with the display name of its user
unfoldable pub from_address : Db → String → String
from_address db address = elim (get_user_by_email db address) [
  | none ↦ address
  | some user ↦
      (if user.display_name == ""
        then address
        else concat (user.display_name ∷ " <" ∷ address ∷ ">" ∷ []))
]

-- what the relay gets, if there is one and a recipient is elsewhere
unfoldable pub to_relay : Bool → String → List String → String → Option Relayed
to_relay has_relay sender external message_id =
    if not has_relay || is_nil external
    then none
    else some (record {
      sender = sender;
      external = external;
      message_id = message_id;
      require_tls = false;
    })

-- from the point where the sender is allowed
unfoldable pub api_send :
    KeysEnv → List String → MailStore → AppToken → Request → ℕ → Answer × Option Relayed × MailStore
api_send env domains s token r now =
    let sender = token.sender_email in
    let to = r.values "to" in
    let cc = r.values "cc" in
    let (result, s') =
      save_outgoing_mail env.store_env s sender
        (record {
          from = from_address s.db sender;
          to = to;
          cc = cc;
          subject = r.value "subject";
          content_type = if r.flag "html" then "text/html" else "text/plain";
          body = r.value "body";
          attachments = [];
        })
        [] now in
    elim result [
      | none ↦ (failed 500, none, s')
      | some message_id ↦ (
        json (("status", "ok") ∷ (("messageId", message_id) ∷ [])),
        to_relay env.has_relay sender (collect_external_addrs domains to cc []) message_id,
        record s' { db = or_same s'.db (update_token_last_used s'.db token.id now) },
      )
    ]

unfoldable pub handle_api_send :
    KeysEnv → List String → MailStore → Request → ℕ → Answer × Option Relayed × MailStore
handle_api_send env domains s r now =
    if not (r.method == "POST")
    then (failed 405, none, s)
    else if not (starts_with r.authorization "Bearer ")
    then (failed 401, none, s)
    else elim (validate_app_token env s.db (slice r.authorization 7 (len r.authorization))) [
      | none ↦ (failed 401, none, s)
      | some token ↦
          (if not r.decodes
            then (failed 400, none, s)
            else if is_nil (r.values "to")
            then (failed 400, none, s)
            else if not (r.value "from" == "") && not (r.value "from" == token.sender_email)
            then (failed 403, none, s)
            else api_send env domains s token r now)
    ]
