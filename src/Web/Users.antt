-- ===== src/Web/Users.antt =====
-- internal/web/domain_user_handlers.go: the page on which owners and admins manage their domain's
-- users.

pub mod Owners
pub mod Roles
use bdsmail.Base.{
  Bool, List, Option, String, [], concat, if◌then◌else◌, len, ltb, none, not, some, to_lower,
  trim_space, ℕ, ◌&&◌, ◌==◌, ◌||◌, ◌∷◌,
}
use bdsmail.Model.{
  UserPermission, action_activate, action_created, action_password_change, action_role_change,
  action_suspend, email, status_active, status_suspended,
}
use bdsmail.Db.{
  Db, create_user, delete_user, delete_user_messages, get_user_permissions, or_same,
  revoke_permission, split_email, update_user, update_user_status, user_exists_by_email,
}
use bdsmail.Web.Sessions.{Answer, Request, SessionStore, failed, get_session_user, page, redirect}
use bdsmail.Web.Roles.{grant_role, is_admin, is_owner, log_history}

-- bcrypt's hash of a password, none for an error, and its comparison of a hash with a password
pub record Passwords : Type 0 where
  pub hash_password : String → Option String
  pub check_password : String → String → Bool

-- hash, _ := model.HashPassword(password)
abbrev pub hash_or_empty : Passwords → String → String
hash_or_empty env password = elim (env.hash_password password) [ none ↦ "" | some hash ↦ hash ]

-- the part that follows CreateUser
pub created_user : Db → String → String → String → String → String → ℕ → Db
created_user db email domain new_email role id now =
    log_history
      (if role == "owner" || role == "admin"
        then log_history (grant_role db new_email role domain email id now) new_email
            action_role_change email "" (concat ("role=" ∷ role ∷ [])) now
        else db)
      new_email action_created email "" "" now

unfoldable pub delete_action : Db → String → (String → String) → ℕ → Answer × Db
delete_action db email value now =
    let target = value "email" in
    let db' = or_same db (delete_user_messages db target) in
    if is_owner db target now && not (is_owner db email now)
    then (page "Only owners can delete other owners" "", db)
    else if target == email
    then (page "Cannot delete yourself" "", db)
    else (
      page "" (concat ("User " ∷ target ∷ " deleted" ∷ [])),
      or_same db' (delete_user db' target),
    )

-- the loop over the permissions in force
unfoldable pub revoke_all : Db → List UserPermission → Db
revoke_all db [] = db
revoke_all db (p ∷ rest) = revoke_all (or_same db (revoke_permission db p.id)) rest

-- perms, _ := GetUserPermissions(targetEmail)
abbrev pub perms_or_nil : Option (List UserPermission) → List UserPermission
perms_or_nil none = []
perms_or_nil (some perms) = perms

unfoldable pub change_role_action : Db → String → (String → String) → String → ℕ → Answer × Db
change_role_action db email value id now =
    let domain = (split_email email).1 in
    let target = value "email" in
    let role = value "role" in
    if role == "owner" && not (is_owner db email now)
    then (page "Only owners can assign owner role" "", db)
    else if role == "user"
    then (
      page "" "Role changed to user",
      log_history (revoke_all db (perms_or_nil (get_user_permissions db target now))) target
          action_role_change email "" "role=user" now,
    )
    else (
      page "" "Role updated",
      log_history (grant_role db target role domain email id now) target action_role_change email ""
          (concat ("role=" ∷ role ∷ [])) now,
    )

unfoldable pub suspend_action : Db → String → (String → String) → ℕ → Answer × Db
suspend_action db email value now =
    let target = value "email" in
    if target == email then (page "Cannot suspend yourself" "", db) else (
      page "" (concat ("User " ∷ target ∷ " suspended" ∷ [])),
      log_history (or_same db (update_user_status db target status_suspended)) target action_suspend
          email "" "" now,
    )

unfoldable pub activate_action : Db → String → (String → String) → ℕ → Answer × Db
activate_action db email value now =
    let target = value "email" in
    (
      page "" (concat ("User " ∷ target ∷ " activated" ∷ [])),
      log_history (or_same db (update_user_status db target status_active)) target action_activate
          email "" "" now,
    )

module _ (env : Passwords) where
  unfoldable pub create_action : Db → String → (String → String) → String → ℕ → Answer × Db
  unfolding created_user
  create_action db email value id now =
      let domain = (split_email email).1 in
      let username = trim_space (to_lower (value "username")) in
      let password = value "password" in
      let role = value "role" in
      let new_email = concat (username ∷ "@" ∷ domain ∷ []) in
      if username == "" || ltb (len password) 8
      then (page "Username required, password must be 8+ characters" "", db)
      else if role == "owner" && not (is_owner db email now)
      then (page "Only owners can assign owner role" "", db)
      else if user_exists_by_email db new_email
      then (page (concat ("User " ∷ new_email ∷ " already exists" ∷ [])) "", db)
      else elim (create_user db username domain (trim_space (value "display_name"))
          (hash_or_empty env password)) [
            | none ↦ (page "Failed to create user" "", db)
            | some db' ↦ (
              page "" (concat ("User " ∷ new_email ∷ " created" ∷ [])),
              created_user db' email domain new_email role id now,
            )
          ]

  unfoldable pub save_edit_action : Db → String → (String → String) → ℕ → Answer × Db
  save_edit_action db email value now =
      let target = value "email" in
      let display_name = trim_space (value "display_name") in
      let password = value "password" in
      let pass_hash = if password == "" then "" else hash_or_empty env password in
      let db' = or_same db (update_user db target display_name pass_hash) in
      if not (password == "") && ltb (len password) 8
      then (page "Password must be at least 8 characters" "", db)
      else if display_name == "" && pass_hash == ""
      then (page "" "", db)
      else (
        page "" (concat ("User " ∷ target ∷ " updated" ∷ [])),
        if pass_hash == ""
            then db'
            else log_history db' target action_password_change email "" "changed by admin" now,
      )

  -- the switch on the action; "edit" only fills the form
  unfoldable pub user_action : Db → String → (String → String) → String → ℕ → Answer × Db
  user_action db email value id now =
      if value "action" == "create"
      then create_action db email value id now
      else if value "action" == "delete"
      then delete_action db email value now
      else if value "action" == "change_role"
      then change_role_action db email value id now
      else if value "action" == "suspend"
      then suspend_action db email value now
      else if value "action" == "activate"
      then activate_action db email value now
      else if value "action" == "save_edit"
      then save_edit_action db email value now
      else (page "" "", db)

  unfoldable pub handle_domain_users : SessionStore → Db → Request → String → ℕ → Answer × Db
  handle_domain_users ss db r id now =
      let email = get_session_user r.session ss in
      if email == ""
      then (redirect "/login", db)
      else if not (is_admin db email now)
      then (failed 403, db)
      else if r.method == "POST"
      then user_action db email r.value id now
      else (page "" "", db)
