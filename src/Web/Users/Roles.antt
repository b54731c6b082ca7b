-- ===== src/Web/Users/Roles.antt =====
-- What a change of role on the page for a domain's users does.
use bdsmail.Base.{
  Bool, String, [], any, any-append, arith, concat, eq_refl, false, true, ℕ, ◌&&◌, ◌==◌, ◌∙◌, ◌∷◌,
  ◌≡◌, ◌≤◌,
}
use bdsmail.Model.{UserPermission, action_role_change, default_end_date, email}
use bdsmail.Db.{Db, add_history, grant_permission, has_permission, in_force, split_email}
use bdsmail.Web.Sessions.{Request, SessionStore, get_session_user}
use bdsmail.Web.Roles.{grant_role, is_admin, log_history}
use bdsmail.Web.Users.{Passwords, change_role_action, handle_domain_users, user_action}

abbrev holds : String → String → ℕ → UserPermission → Bool
holds email role now p = p.user_email == email && p.role == role && in_force now p

logged_permission :
    (db : Db) (user_email action by ip detail email role : String) (now t : ℕ)
    → has_permission (log_history db user_email action by ip detail now) email role t
      ≡ has_permission db email role t
unfolding log_history add_history has_permission
logged_permission db user_email action by ip detail email role now t = ground arith

granted_permission :
    (db : Db) (email role domain created_by id : String) (now t : ℕ)
    → db.down ≡ false
    → any (λ p. p.id == id) db.user_permission ≡ false
    → now ≤ t
    → t ≤ default_end_date
    → has_permission (grant_role db email role domain created_by id now) email role t ≡ true
unfolding grant_role grant_permission has_permission any
granted_permission db email role domain created_by id now t up new begun long = ground (
  arith,
  up,
  new,
  begun,
  long,
  eq_refl email,
  eq_refl role,
  any-append (holds email role t) db.user_permission (
      record {
        id = id;
        user_email = email;
        role = role;
        domain = domain;
        start_date = now;
        end_date = default_end_date;
        created_by = created_by;
      }
      ∷ []),
)

-- Whoever is an owner or an admin can give any user of any domain every role but owner and user, the
-- super admin's included: after the request the user has the role at each time from the request to the
-- default end date, where the database answers and the new identifier is that of no permission.
pub change_role_granted :
    (env : Passwords) (ss : SessionStore) (db : Db) (r : Request) (id : String) (now t : ℕ)
    → (get_session_user r.session ss == "") ≡ false
    → is_admin db (get_session_user r.session ss) now ≡ true
    → r.method ≡ "POST"
    → r.value "action" ≡ "change_role"
    → (r.value "role" == "owner") ≡ false
    → (r.value "role" == "user") ≡ false
    → db.down ≡ false
    → any (λ p. p.id == id) db.user_permission ≡ false
    → now ≤ t
    → t ≤ default_end_date
    → has_permission (handle_domain_users env ss db r id now).1 (r.value "email") (r.value "role") t
      ≡ true
unfolding handle_domain_users user_action change_role_action
change_role_granted env ss db r id now t known admin post action owner user up new begun long =
    let email = get_session_user r.session ss in
    let target = r.value "email" in
    let role = r.value "role" in
    rw (known, admin, post, action, owner, user)
      (logged_permission (grant_role db target role (split_email email).1 email id now) target
          action_role_change email "" (concat ("role=" ∷ role ∷ [])) target role now t
        ∙ granted_permission db target role (split_email email).1 email id now t up new begun long)
