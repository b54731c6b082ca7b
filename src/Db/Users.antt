-- ===== src/Db/Users.antt =====
-- The user operations of database.go.
use bdsmail.Base.{
  Bool, Option, String, [], any, concat, cut, false, first, if◌then◌else◌, keep, none, not, some,
  update, ◌&&◌, ◌++◌, ◌==◌, ◌||◌, ◌∷◌,
}
use bdsmail.Model.{User, email, status_active}
use bdsmail.Db.Tables.{Db}

-- SplitEmail: the user and the domain, split at the first `@`
unfoldable pub split_email : String → String × String
split_email email = elim (cut b'@' email) [
  | none ↦ (email, "")
  | some (user, domain) ↦ (user, domain)
]

-- WHERE username = $1 AND domain = $2
abbrev pub is_user : String → String → User → Bool
is_user username domain u = u.username == username && u.domain == domain

-- the keys that a new user must not share: the name at the domain, and the id that is made of them
abbrev pub clashes : String → String → User → Bool
clashes username domain u =
    is_user username domain u || u.id == concat (username ∷ "@" ∷ domain ∷ [])

unfoldable pub create_user : Db → String → String → String → String → Option Db
create_user db username domain display_name password_hash =
    if db.down || any (clashes username domain) db.user_account
    then none
    else some (record db { user_account = db.user_account ++ user ∷ [] })
  where
    user : User
    user = record {
      id = concat (username ∷ "@" ∷ domain ∷ []);
      username = username;
      domain = domain;
      display_name = display_name;
      password_hash = password_hash;
      status = status_active;
      twofa_enabled = false;
      twofa_secret = "";
      twofa_backup_codes = "";
    }

unfoldable pub get_user : Db → String → String → Option User
get_user db username domain =
    if db.down then none else first (is_user username domain) db.user_account

unfoldable pub get_user_by_email : Db → String → Option User
unfolding get_user split_email
get_user_by_email db email =
    let (username, domain) = split_email email in get_user db username domain

unfoldable pub user_exists_by_email : Db → String → Bool
unfolding split_email
user_exists_by_email db email =
    let (username, domain) = split_email email in
    not db.down && any (is_user username domain) db.user_account

unfoldable pub update_user : Db → String → String → String → Option Db
unfolding split_email update
update_user db email display_name password_hash =
    let (username, domain) = split_email email in
    if db.down
    then none
    else some (record db {
      user_account =
          update (is_user username domain)
            (λ u. record u { display_name = display_name; password_hash = password_hash })
            db.user_account;
    })

-- WHERE id = $2
unfoldable pub update_user_status : Db → String → String → Option Db
unfolding update
update_user_status db email status =
    if db.down
    then none
    else some (record db {
      user_account =
          update (λ u. u.id == email) (λ u. record u { status = status }) db.user_account;
    })

unfoldable pub delete_user : Db → String → Option Db
unfolding split_email keep
delete_user db email =
    let (username, domain) = split_email email in
    if db.down
    then none
    else some
        (record db { user_account = keep (λ u. not (is_user username domain u)) db.user_account })
