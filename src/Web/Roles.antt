-- ===== src/Web/Roles.antt =====
-- The roles of internal/web/domain_user_handlers.go and superadmin_handlers.go, and the history.
use bdsmail.Base.{Bool, String, if◌then◌else◌, ℕ, ◌||◌}
use bdsmail.Model.{default_end_date, email}
use bdsmail.Db.{Db, add_history, grant_permission, has_permission, or_same}

unfoldable pub is_owner : Db → String → ℕ → Bool
is_owner db email now = has_permission db email "owner" now

unfoldable pub is_admin : Db → String → ℕ → Bool
unfolding is_owner
is_admin db email now = is_owner db email now || has_permission db email "admin" now

unfoldable pub is_super_admin : Db → String → ℕ → Bool
is_super_admin db email now = has_permission db email "superadmin" now

-- An error of the database is dropped.
unfoldable pub log_history : Db → String → String → String → String → String → ℕ → Db
log_history db user_email action_type performed_by client_ip detail now = or_same db (
    add_history db (record {
      user_email = user_email;
      action_time = now;
      action_type = action_type;
      performed_by = performed_by;
      client_ip = client_ip;
      detail = detail;
    }))

-- The handlers give no end date and drop the error. The random identifier is given, the empty text
-- where the generator fails.
unfoldable pub grant_role : Db → String → String → String → String → String → ℕ → Db
grant_role db user_email role domain created_by id now = or_same db (
    grant_permission db (record {
      id = id;
      user_email = user_email;
      role = role;
      domain = domain;
      start_date = now;
      end_date = default_end_date;
      created_by = created_by;
    }))

-- the role that the lists of users show
unfoldable pub role_name : Db → String → ℕ → String
role_name db email now =
    if is_owner db email now then "owner" else if is_admin db email now then "admin" else "user"
