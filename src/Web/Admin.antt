-- ===== src/Web/Admin.antt =====
-- Administration behind the secret: internal/web/admin.go and the admin part of
-- internal/web/api_handlers.go. Registering a domain is that of internal/admin, which is left out.
pub mod Secret
use bdsmail.Base.{
  Bool, List, Option, String, [], concat, false, if◌then◌else◌, join, map, none, some, trim_space,
  ◌&&◌, ◌==◌, ◌||◌, ◌∷◌,
}
use bdsmail.Model.{Alias, MailingList, User, email}
use bdsmail.Db.{
  Db, add_list_member, create_alias, create_mailing_list, create_user, delete_alias,
  delete_mailing_list, delete_user, delete_user_messages, list_aliases, list_mailing_lists,
  list_users, or_same, split_email,
}
use bdsmail.Web.Sessions.{Answer, Request, failed, json, page, redirect, rows, status_ok}
use bdsmail.Web.Users.{Passwords, hash_or_empty}
use bdsmail.Web.Compose.{parse_addresses}

-- the cookie of the client is the secret
unfoldable pub is_admin_authed : String → Request → Bool
is_admin_authed secret r = elim r.admin [ none ↦ false | some value ↦ value == secret ]

-- the answer where the request is not let in
unfoldable pub handle_admin_auth : String → Request → String → Option Answer
handle_admin_auth secret r redirect_path =
    if secret == ""
    then some (failed 403)
    else if is_admin_authed secret r
    then none
    else if r.method == "POST" && r.value "admin_action" == "login"
    then (if r.value "admin_secret" == secret
        then some (redirect redirect_path)
        else some (page "Invalid admin secret" ""))
    else some (page "" "")

unfoldable pub require_admin : String → Request → Option Answer
require_admin secret r = if is_admin_authed secret r then none else some (failed 401)

-- the actions write the database, or not: the error and the success message
abbrev acted : Db → Option Db → String → String → Answer × Db
acted db none error done = (page error "", db)
acted db (some db') error done = (page "" done, db')

unfoldable pub create_user_action : Passwords → Db → (String → String) → Answer × Db
create_user_action env db value =
    let address = trim_space (value "email") in
    let (username, domain) = split_email address in
    if username == "" || domain == ""
    then (page "Invalid email format" "", db)
    else elim (env.hash_password (value "password")) [
      | none ↦ (page "Failed to hash password" "", db)
      | some hash ↦
          acted db (create_user db username domain (trim_space (value "display_name")) hash)
            "Failed to create user" (concat ("User " ∷ address ∷ " created" ∷ []))
    ]

unfoldable pub delete_user_action : Db → (String → String) → Answer × Db
delete_user_action db value =
    let address = value "email" in
    let db' = or_same db (delete_user_messages db address) in
    acted db' (delete_user db' address) "Failed to delete user"
      (concat ("User " ∷ address ∷ " deleted" ∷ []))

unfoldable pub admin_user_action : Passwords → Db → (String → String) → Answer × Db
admin_user_action env db value =
    if value "admin_action" == "create_user"
    then create_user_action env db value
    else if value "admin_action" == "delete_user"
    then delete_user_action db value
    else (page "" "", db)

unfoldable pub admin_alias_action : Db → (String → String) → Answer × Db
admin_alias_action db value =
    if value "admin_action" == "create_alias"
    then acted db
        (create_alias db (trim_space (value "alias_email"))
          (parse_addresses (value "target_emails")))
        "Failed to create alias" "Alias created"
    else if value "admin_action" == "delete_alias"
    then acted db (delete_alias db (value "alias_email")) "Failed to delete alias" "Alias deleted"
    else (page "" "", db)

unfoldable pub admin_list_action : Db → (String → String) → Answer × Db
admin_list_action db value =
    if value "admin_action" == "create_list"
    then acted db
        (create_mailing_list db (trim_space (value "list_address")) (trim_space (value "name")) ""
          (trim_space (value "owner_email")))
        "Failed to create list" "List created"
    else if value "admin_action" == "delete_list"
    then acted db (delete_mailing_list db (value "list_address")) "Failed to delete list"
        "List deleted"
    else if value "admin_action" == "add_member"
    then acted db (add_list_member db (value "list_address") (trim_space (value "member_email")))
        "Failed to add member" "Member added"
    else (page "" "", db)

-- a page for an action behind the secret
abbrev pub behind_secret :
    String → Db → Request → String → (Db → (String → String) → Answer × Db) → Answer × Db
behind_secret secret db r path action = elim (handle_admin_auth secret r path) [
  | some refusal ↦ (refusal, db)
  | none ↦ (if r.method == "POST" then action db r.value else (page "" "", db))
]

unfoldable pub handle_admin_users : Passwords → String → Db → Request → Answer × Db
handle_admin_users env secret db r =
    behind_secret secret db r "/admin/users" (admin_user_action env)

unfoldable pub handle_admin_aliases : String → Db → Request → Answer × Db
handle_admin_aliases secret db r = behind_secret secret db r "/admin/aliases" admin_alias_action

unfoldable pub handle_admin_lists : String → Db → Request → Answer × Db
handle_admin_lists secret db r = behind_secret secret db r "/admin/lists" admin_list_action

-- --- the API; the secret may be empty here ---

-- the answer, and the cookie that is set
unfoldable pub handle_admin_login : String → Request → Answer × Option String
handle_admin_login secret r =
    if r.value "secret" == secret then (status_ok, some (r.value "secret")) else (failed 401, none)

abbrev done_or_500 : Db → Option Db → Answer × Db
done_or_500 db none = (failed 500, db)
done_or_500 db (some db') = (status_ok, db')

abbrev users_or_nil : Option (List User) → List User
users_or_nil none = []
users_or_nil (some users) = users

unfoldable pub api_admin_users : Passwords → String → Db → Request → Answer × Db
api_admin_users env secret db r =
    let (username, domain) = split_email (r.value "email") in
    let db' = or_same db (delete_user_messages db (r.value "email")) in
    elim (require_admin secret r) [
      | some refusal ↦ (refusal, db)
      | none ↦
          (if r.method == "GET"
            then (
              rows (
                  map
                    (λ u.
                      ("email", email u)
                      ∷ (("displayName", u.display_name) ∷ (("domain", u.domain) ∷ [])))
                    (users_or_nil (list_users db))),
              db,
            )
            else if r.method == "POST"
            then done_or_500 db (
                create_user db username domain (r.value "displayName")
                  (hash_or_empty env (r.value "password")))
            else if r.method == "DELETE"
            then done_or_500 db' (delete_user db' (r.value "email"))
            else (json [], db))
    ]

abbrev aliases_or_nil : Option (List Alias) → List Alias
aliases_or_nil none = []
aliases_or_nil (some aliases) = aliases

unfoldable pub api_admin_aliases : String → Db → Request → Answer × Db
api_admin_aliases secret db r = elim (require_admin secret r) [
  | some refusal ↦ (refusal, db)
  | none ↦
      (if r.method == "GET"
        then (
          rows (
              map
                (λ a.
                  ("AliasEmail", a.alias_email) ∷ (("TargetEmails", join "," a.target_emails) ∷ []))
                (aliases_or_nil (list_aliases db))),
          db,
        )
        else if r.method == "POST"
        then done_or_500 db
            (create_alias db (r.value "aliasEmail") (parse_addresses (r.value "targetEmails")))
        else if r.method == "DELETE"
        then done_or_500 db (delete_alias db (r.value "aliasEmail"))
        else (json [], db))
]

abbrev lists_or_nil : Option (List MailingList) → List MailingList
lists_or_nil none = []
lists_or_nil (some lists) = lists

unfoldable pub api_admin_lists : String → Db → Request → Answer × Db
api_admin_lists secret db r = elim (require_admin secret r) [
  | some refusal ↦ (refusal, db)
  | none ↦
      (if r.method == "GET"
        then (
          rows (
              map (λ l. ("ListAddress", l.list_address) ∷ (("Name", l.name) ∷ []))
                (lists_or_nil (list_mailing_lists db))),
          db,
        )
        else if r.method == "POST"
        then done_or_500 db (
            create_mailing_list db (r.value "listAddress") (r.value "name") ""
              (r.value "ownerEmail"))
        else if r.method == "DELETE"
        then done_or_500 db (delete_mailing_list db (r.value "listAddress"))
        else (json [], db))
]

unfoldable pub api_admin_list_members : String → Db → Request → Answer × Db
api_admin_list_members secret db r = elim (require_admin secret r) [
  | some refusal ↦ (refusal, db)
  | none ↦ done_or_500 db (add_list_member db (r.value "listAddress") (r.value "memberEmail"))
]
