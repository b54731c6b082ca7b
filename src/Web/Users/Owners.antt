-- ===== src/Web/Users/Owners.antt =====
-- Who can become an owner on the page for a domain's users.
mod Keeps
use bdsmail.Base.{
  Bool-cases, Option-cases, String, [], arith, concat, false, if◌then◌else◌, inl, inr, len, ltb,
  not, to_lower, trim_space, true, ℕ, ◌&&◌, ◌==◌, ◌||◌, ◌∷◌, ◌≡◌,
}
use bdsmail.Model.{
  action_activate, action_password_change, action_role_change, action_suspend, email, status_active,
  status_suspended,
}
use bdsmail.Db.{
  Db, create_user, delete_user, delete_user_messages, get_user_permissions, or_same, split_email,
  update_user, update_user_status, user_exists_by_email,
}
use bdsmail.Web.Sessions.{Request, SessionStore, get_session_user}
use bdsmail.Web.Roles.{grant_role, is_admin, is_owner, log_history}
use bdsmail.Web.Users.{
  Passwords, activate_action, change_role_action, create_action, created_user, delete_action,
  handle_domain_users, hash_or_empty, perms_or_nil, revoke_all, save_edit_action, suspend_action,
  user_action,
}
use bdsmail.Web.Users.Owners.Keeps.{
  KeepsOwners, SameRoles-KeepsOwners, create_user-SameRoles, created_user-KeepsOwners,
  delete_user-SameRoles, delete_user_messages-SameRoles, grant_role-KeepsOwners, if_keep,
  revoke_all-KeepsOwners, then_logged, trans_keep, update_user-SameRoles,
  update_user_status-SameRoles,
}

-- the cases of a request by someone who is no owner
module _ (env : Passwords) (db : Db) (email : String) (value : String → String) (id : String)
    (now : ℕ) (no_owner : is_owner db email now ≡ false) where
  not_owner :
      (value "role" == "owner" && not (is_owner db email now)) ≡ false
      → (value "role" == "owner") ≡ false
  not_owner h = ground (arith, no_owner, h)

  create_action-KeepsOwners : KeepsOwners db (create_action env db email value id now).1
  unfolding create_action
  create_action-KeepsOwners =
      let domain = (split_email email).1 in
      let username = trim_space (to_lower (value "username")) in
      let display_name = trim_space (value "display_name") in
      let hash = hash_or_empty env (value "password") in
      let new_email = concat (username ∷ "@" ∷ domain ∷ []) in
      if_keep db (username == "" || ltb (len (value "password")) 8) _ _ (λ _ x t h. h)
        (λ _.
          if_keep db (value "role" == "owner" && not (is_owner db email now)) _ _ (λ _ x t h. h)
            (λ role.
              if_keep db (user_exists_by_email db new_email) _ _ (λ _ x t h. h)
                (λ _. elim (Option-cases (create_user db username domain display_name hash)) [
                  | inl e ↦ rw e (λ x t h. h)
                  | inr (db', e) ↦ rw e (
                      trans_keep db db'
                        (created_user db' email domain new_email (value "role") id now)
                        (SameRoles-KeepsOwners db db'
                          (rw e at (create_user-SameRoles db username domain display_name hash)))
                        (created_user-KeepsOwners db' email domain new_email (value "role") id now
                          (not_owner role)))
                ])))

  change_role_action-KeepsOwners : KeepsOwners db (change_role_action db email value id now).1
  unfolding change_role_action
  change_role_action-KeepsOwners =
      let domain = (split_email email).1 in
      let target = value "email" in
      if_keep db (value "role" == "owner" && not (is_owner db email now)) _ _ (λ _ x t h. h)
        (λ role.
          if_keep db (value "role" == "user") _ _
            (λ _.
              then_logged db (revoke_all db (perms_or_nil (get_user_permissions db target now)))
                target action_role_change email "" "role=user" now
                (revoke_all-KeepsOwners (perms_or_nil (get_user_permissions db target now)) db))
            (λ _.
              then_logged db (grant_role db target (value "role") domain email id now) target
                action_role_change email "" (concat ("role=" ∷ value "role" ∷ [])) now
                (grant_role-KeepsOwners db target (value "role") domain email id now
                  (not_owner role))))

  delete_action-KeepsOwners : KeepsOwners db (delete_action db email value now).1
  unfolding delete_action
  delete_action-KeepsOwners =
      let target = value "email" in
      let db' = or_same db (delete_user_messages db target) in
      if_keep db (is_owner db target now && not (is_owner db email now)) _ _ (λ _ x t h. h)
        (λ _.
          if_keep db (target == email) _ _ (λ _ x t h. h)
            (λ _.
              trans_keep db db' (or_same db' (delete_user db' target))
                (SameRoles-KeepsOwners db db' (delete_user_messages-SameRoles db target))
                (SameRoles-KeepsOwners db' (or_same db' (delete_user db' target))
                  (delete_user-SameRoles db' target))))

  new_status-KeepsOwners :
      (status action : String)
      → KeepsOwners db (
          log_history
            (or_same db (update_user_status db (value "email") status))
            (value "email")
            action
            email
            ""
            ""
            now)
  new_status-KeepsOwners status action =
      let db' = or_same db (update_user_status db (value "email") status) in
      then_logged db db' (value "email") action email "" "" now
        (SameRoles-KeepsOwners db db' (update_user_status-SameRoles db (value "email") status))

  save_edit_action-KeepsOwners : KeepsOwners db (save_edit_action env db email value now).1
  unfolding save_edit_action
  save_edit_action-KeepsOwners =
      let target = value "email" in
      let display_name = trim_space (value "display_name") in
      let password = value "password" in
      let pass_hash = if password == "" then "" else hash_or_empty env password in
      let db' = or_same db (update_user db target display_name pass_hash) in
      let kept =
        SameRoles-KeepsOwners db db' (update_user-SameRoles db target display_name pass_hash) in
      if_keep db (not (password == "") && ltb (len password) 8) _ _ (λ _ x t h. h)
        (λ _.
          if_keep db (display_name == "" && pass_hash == "") _ _ (λ _ x t h. h)
            (λ _. elim (Bool-cases (pass_hash == "")) [
              | inl e ↦ rw e kept
              | inr e ↦ rw e (
                  then_logged db db' target action_password_change email "" "changed by admin" now
                    kept)
            ]))

  user_action-KeepsOwners : KeepsOwners db (user_action env db email value id now).1
  unfolding user_action suspend_action activate_action
  user_action-KeepsOwners =
      if_keep db (value "action" == "create") _ _ (λ _. create_action-KeepsOwners)
        (λ _.
          if_keep db (value "action" == "delete") _ _ (λ _. delete_action-KeepsOwners)
            (λ _.
              if_keep db (value "action" == "change_role") _ _ (λ _. change_role_action-KeepsOwners)
                (λ _.
                  if_keep db (value "action" == "suspend") _ _
                    (λ _.
                      if_keep db (value "email" == email) _ _ (λ _ x t h. h)
                        (λ _. new_status-KeepsOwners status_suspended action_suspend))
                    (λ _.
                      if_keep db (value "action" == "activate") _ _
                        (λ _. new_status-KeepsOwners status_active action_activate)
                        (λ _.
                          if_keep db (value "action" == "save_edit") _ _
                            (λ _. save_edit_action-KeepsOwners) (λ _ x t h. h))))))

-- No request to the page for a domain's users by someone who is not an owner makes anyone an owner who
-- was none, at any time.
pub handle_domain_users-no_new_owner :
    (env : Passwords) (ss : SessionStore) (db : Db) (r : Request) (id : String) (now : ℕ)
    (x : String) (t : ℕ)
    → is_owner db (get_session_user r.session ss) now ≡ false
    → is_owner (handle_domain_users env ss db r id now).1 x t ≡ true
    → is_owner db x t ≡ true
unfolding handle_domain_users
handle_domain_users-no_new_owner env ss db r id now x t no_owner =
    let email = get_session_user r.session ss in
    if_keep db (email == "") _ _ (λ _ x t h. h)
      (λ _.
        if_keep db (not (is_admin db email now)) _ _ (λ _ x t h. h)
          (λ _.
            if_keep db (r.method == "POST") _ _
              (λ _. user_action-KeepsOwners env db email r.value id now no_owner) (λ _ x t h. h)))
      x t
