-- ===== src/Web/Users/Owners/Keeps.antt =====
-- No operation of the database but a grant makes an owner.
use bdsmail.Base.{
  Bool, Bool-cases, List, String, [], any, any-append, any-keep, arith, concat, false,
  if◌then◌else◌, inl, inr, not, refl, true, ℕ, ◌&&◌, ◌==◌, ◌||◌, ◌∷◌, ◌≡◌,
}
use bdsmail.Model.{UserPermission, action_created, action_role_change, default_end_date, email}
use bdsmail.Db.{
  Db, add_history, clashes, create_user, delete_user, delete_user_messages, grant_permission,
  has_permission, in_force, or_same, revoke_permission, update_user, update_user_status,
}
use bdsmail.Web.Sessions.{Answer}
use bdsmail.Web.Roles.{grant_role, is_owner, log_history}
use bdsmail.Web.Users.{created_user, revoke_all}

-- whoever is an owner in the second database is one in the first, at any time
abbrev pub KeepsOwners : Db → Db → Type 0
KeepsOwners db db' = (x : String) (t : ℕ) → is_owner db' x t ≡ true → is_owner db x t ≡ true

-- the fields that the roles are read from
abbrev SameRoles : Db → Db → Type 0
SameRoles db db' = (db'.down ≡ db.down) × (db'.user_permission ≡ db.user_permission)

pub SameRoles-KeepsOwners : (db db' : Db) → SameRoles db db' → KeepsOwners db db'
unfolding is_owner has_permission
SameRoles-KeepsOwners db db' (down, perms) x t h = rw (← down, ← perms) h

pub create_user-SameRoles :
    (db : Db) (username domain display_name hash : String)
    → SameRoles db (or_same db (create_user db username domain display_name hash))
unfolding create_user
create_user-SameRoles db username domain display_name hash =
    elim (Bool-cases (db.down || any (clashes username domain) db.user_account)) [
      | inl e ↦ simp e (refl, refl)
      | inr e ↦ simp e (refl, refl)
    ]

module _ (db : Db) where
  pub delete_user_messages-SameRoles :
      (email : String) → SameRoles db (or_same db (delete_user_messages db email))
  unfolding delete_user_messages
  delete_user_messages-SameRoles email = elim (Bool-cases db.down) [
    | inl e ↦ simp e (refl, refl)
    | inr e ↦ simp e (refl, refl)
  ]

  pub delete_user-SameRoles : (email : String) → SameRoles db (or_same db (delete_user db email))
  unfolding delete_user
  delete_user-SameRoles email = elim (Bool-cases db.down) [
    | inl e ↦ simp e (refl, refl)
    | inr e ↦ simp e (refl, refl)
  ]

  pub update_user-SameRoles :
      (email display_name hash : String)
      → SameRoles db (or_same db (update_user db email display_name hash))
  unfolding update_user
  update_user-SameRoles email display_name hash = elim (Bool-cases db.down) [
    | inl e ↦ simp e (refl, refl)
    | inr e ↦ simp e (refl, refl)
  ]

  pub update_user_status-SameRoles :
      (email status : String) → SameRoles db (or_same db (update_user_status db email status))
  unfolding update_user_status
  update_user_status-SameRoles email status = elim (Bool-cases db.down) [
    | inl e ↦ simp e (refl, refl)
    | inr e ↦ simp e (refl, refl)
  ]

  log_history-SameRoles :
      (user_email action by ip detail : String) (now : ℕ)
      → SameRoles db (log_history db user_email action by ip detail now)
  unfolding log_history add_history
  log_history-SameRoles user_email action by ip detail now = elim (Bool-cases db.down) [
    | inl e ↦ simp e (refl, refl)
    | inr e ↦ simp e (refl, refl)
  ]

pub trans_keep : (a b c : Db) → KeepsOwners a b → KeepsOwners b c → KeepsOwners a c
trans_keep a b c f g x t h = f x t (g x t h)

abbrev owns : String → ℕ → UserPermission → Bool
owns x t p = p.user_email == x && p.role == "owner" && in_force t p

pub grant_role-KeepsOwners :
    (db : Db) (user_email role domain created_by id : String) (now : ℕ)
    → (role == "owner") ≡ false
    → KeepsOwners db (grant_role db user_email role domain created_by id now)
unfolding grant_role grant_permission is_owner has_permission any
grant_role-KeepsOwners db user_email role domain created_by id now other x t h = ground (
  arith,
  other,
  h,
  any-append (owns x t) db.user_permission (
      record {
        id = id;
        user_email = user_email;
        role = role;
        domain = domain;
        start_date = now;
        end_date = default_end_date;
        created_by = created_by;
      }
      ∷ []),
)

revoke_permission-KeepsOwners :
    (db : Db) (id : String) → KeepsOwners db (or_same db (revoke_permission db id))
unfolding revoke_permission is_owner has_permission
revoke_permission-KeepsOwners db id x t h =
    ground (arith, h, any-keep (owns x t) (λ p. not (p.id == id)) db.user_permission)

pub revoke_all-KeepsOwners :
    (perms : List UserPermission) (db : Db) → KeepsOwners db (revoke_all db perms)
unfolding revoke_all
revoke_all-KeepsOwners [] db x t h = h
revoke_all-KeepsOwners (p ∷ rest) db x t h =
    revoke_permission-KeepsOwners db p.id x t
      (revoke_all-KeepsOwners rest (or_same db (revoke_permission db p.id)) x t h)

pub then_logged :
    (db db' : Db) (user_email action by ip detail : String) (now : ℕ)
    → KeepsOwners db db'
    → KeepsOwners db (log_history db' user_email action by ip detail now)
then_logged db db' user_email action by ip detail now k =
    trans_keep db db' (log_history db' user_email action by ip detail now) k (
      SameRoles-KeepsOwners db' (log_history db' user_email action by ip detail now)
        (log_history-SameRoles db' user_email action by ip detail now))

pub created_user-KeepsOwners :
    (db : Db) (email domain new_email role id : String) (now : ℕ)
    → (role == "owner") ≡ false
    → KeepsOwners db (created_user db email domain new_email role id now)
unfolding created_user
created_user-KeepsOwners db email domain new_email role id now other =
    elim (Bool-cases (role == "admin")) [
      | inl e ↦
          rw (other, e)
            (then_logged db
              (log_history (grant_role db new_email role domain email id now) new_email
                action_role_change email "" (concat ("role=" ∷ role ∷ [])) now)
              new_email action_created email "" "" now
              (then_logged db (grant_role db new_email role domain email id now) new_email
                action_role_change email "" (concat ("role=" ∷ role ∷ [])) now
                (grant_role-KeepsOwners db new_email role domain email id now other)))
      | inr e ↦
          rw (other, e) (then_logged db db new_email action_created email "" "" now (λ x t h. h))
    ]

pub if_keep :
    (db : Db) (b : Bool) (r r' : Answer × Db)
    → (b ≡ true → KeepsOwners db r.1)
    → (b ≡ false → KeepsOwners db r'.1)
    → KeepsOwners db (if b then r else r').1
if_keep db true r r' f g = f refl
if_keep db false r r' f g = g refl
