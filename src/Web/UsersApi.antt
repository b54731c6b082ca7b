-- ===== src/Web/UsersApi.antt =====
-- The JSON side of internal/web/domain_user_handlers.go and superadmin_handlers.go.
use bdsmail.Base.{
  Bool, List, Option, String, [], concat, cut, if◌then◌else◌, map, none, not, some, ℕ, ◌&&◌, ◌==◌,
  ◌||◌, ◌∷◌,
}
use bdsmail.Model.{Domain, User, email}
use bdsmail.Db.{
  Db, create_user, delete_dns_records, delete_domain, delete_user, delete_user_messages,
  list_domains, list_users, list_users_by_domain, or_same, split_email, update_domain_status,
}
use bdsmail.Web.Sessions.{
  Answer, Request, SessionStore, failed, get_session_user, json, page, redirect, rows, status_ok,
}
use bdsmail.Web.Roles.{grant_role, is_admin, is_owner, is_super_admin, role_name}
use bdsmail.Web.Users.{Passwords, hash_or_empty}

abbrev users_or_nil : Option (List User) → List User
users_or_nil none = []
users_or_nil (some users) = users

user_view : Db → ℕ → User → List (String × String)
user_view db now u =
    ("email", email u)
    ∷ (("displayName", u.display_name)
        ∷ (("role", role_name db (email u) now) ∷ (("status", u.status) ∷ [])))

unfoldable pub api_create_user :
    Passwords → Db → String → (String → String) → String → ℕ → Answer × Db
api_create_user env db email value id now =
    let domain = (split_email email).1 in
    let new_email = concat (value "username" ∷ "@" ∷ domain ∷ []) in
    let role = value "role" in
    if role == "owner" && not (is_owner db email now)
    then (failed 403, db)
    else elim (create_user db (value "username") domain (value "displayName")
        (hash_or_empty env (value "password"))) [
          | none ↦ (failed 400, db)
          | some db' ↦ (
            json (("status", "ok") ∷ (("email", new_email) ∷ [])),
            if role == "owner" || role == "admin"
                then grant_role db' new_email role domain email id now
                else db',
          )
        ]

unfoldable pub api_delete_user : Db → String → String → ℕ → Answer × Db
api_delete_user db email target now =
    let db' = or_same db (delete_user_messages db target) in
    if is_owner db target now && not (is_owner db email now)
    then (failed 403, db)
    else (status_ok, or_same db' (delete_user db' target))

-- another method gets an empty answer
unfoldable pub api_domain_users : Passwords → SessionStore → Db → Request → String → ℕ → Answer × Db
unfolding user_view
api_domain_users env ss db r id now =
    let email = get_session_user r.session ss in
    if email == ""
    then (failed 401, db)
    else if not (is_admin db email now)
    then (failed 403, db)
    else if r.method == "GET"
    then (
      rows (map (user_view db now) (users_or_nil (list_users_by_domain db (split_email email).1))),
      db,
    )
    else if r.method == "POST"
    then api_create_user env db email r.value id now
    else if r.method == "DELETE"
    then api_delete_user db email (r.value "email") now
    else (json [], db)

-- the host of a request without its port
unfoldable pub host_name : String → String
host_name host = elim (cut b':' host) [ none ↦ host | some (name, port) ↦ name ]

unfoldable pub is_platform_host : String → Request → Bool
unfolding host_name
is_platform_host mail_hostname r = host_name r.host == mail_hostname

-- RefreshDomains of store.go with LoadDomainsFromDB of config.go: the served domains
unfoldable pub refresh_domains : Db → List String → List String
refresh_domains db domains = elim (list_domains db) [
  | none ↦ domains
  | some found ↦ map (λ d. d.name) found
]

unfoldable pub remove_domain : Db → List String → String → Db × List String
remove_domain db domains name =
    let db' = or_same db (delete_dns_records db name) in
    let db'' = or_same db' (delete_domain db' name) in (db'', refresh_domains db'' domains)

abbrev domains_or_nil : Option (List Domain) → List Domain
domains_or_nil none = []
domains_or_nil (some domains) = domains

-- the switch of HandleSuperAdmin
unfoldable pub super_admin_action : Db → List String → (String → String) → Answer × Db × List String
super_admin_action db domains value =
    let name = value "domain" in
    if value "action" == "suspend_domain"
    then (
      page "" (concat ("Domain " ∷ name ∷ " suspended" ∷ [])),
      or_same db (update_domain_status db name "" ""),
      domains,
    )
    else if value "action" == "delete_domain"
    then (let (db', domains') = remove_domain db domains name in
        (page "" (concat ("Domain " ∷ name ∷ " deleted" ∷ [])), db', domains'))
    else (page "" "", db, domains)

unfoldable pub handle_super_admin :
    String → SessionStore → Db → List String → Request → ℕ → Answer × Db × List String
handle_super_admin mail_hostname ss db domains r now =
    let email = get_session_user r.session ss in
    if not (is_platform_host mail_hostname r)
    then (failed 403, db, domains)
    else if email == ""
    then (redirect "/login", db, domains)
    else if not (is_super_admin db email now)
    then (failed 403, db, domains)
    else if r.method == "POST"
    then super_admin_action db domains r.value
    else (page "" "", db, domains)

unfoldable pub api_super_admin_domains :
    String → SessionStore → Db → List String → Request → ℕ → Answer × Db × List String
api_super_admin_domains mail_hostname ss db domains r now =
    let email = get_session_user r.session ss in
    let (db', domains') = remove_domain db domains (r.value "domain") in
    if not (is_platform_host mail_hostname r)
    then (failed 403, db, domains)
    else if email == "" || not (is_super_admin db email now)
    then (failed 403, db, domains)
    else if r.method == "GET"
    then (
      rows (
          map (λ d. ("Name", d.name) ∷ (("Status", d.status) ∷ (("CreatedBy", d.created_by) ∷ [])))
            (domains_or_nil (list_domains db))),
      db,
      domains,
    )
    else if r.method == "DELETE"
    then (status_ok, db', domains')
    else (json [], db, domains)

unfoldable pub api_super_admin_users : String → SessionStore → Db → Request → ℕ → Answer
api_super_admin_users mail_hostname ss db r now =
    let user_email = get_session_user r.session ss in
    if not (is_platform_host mail_hostname r)
    then failed 403
    else if user_email == "" || not (is_super_admin db user_email now)
    then failed 403
    else rows (
        map
          (λ u.
            ("email", email u)
            ∷ (("displayName", u.display_name)
                ∷ (("domain", u.domain) ∷ (("status", u.status) ∷ []))))
          (users_or_nil (list_users db)))
