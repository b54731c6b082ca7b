-- ===== src/Db/Accounts.antt =====
-- The permission, history, app token, contact and one-time password operations of database.go, and
-- the lists of users and OAuth clients. A time is in seconds, and no two rows of the history have one
-- time. Rows that are listed by a name stand in the table's order: the collation is the database's.
use bdsmail.Base.{
  Bool, List, Option, String, [], any, first, if◌then◌else◌, keep, leb, none, not, pos, some, take,
  update, ℕ, ◌&&◌, ◌++◌, ◌+◌, ◌==◌, ◌||◌, ◌∷◌,
}
use bdsmail.Model.{AppToken, Contact, OauthClient, Otp, User, UserHistory, UserPermission, email}
use bdsmail.Db.Tables.{Db, newest_first, sort_desc, sort_text}

unfoldable pub list_users : Db → Option (List User)
list_users db =
    if db.down
    then none
    else some (sort_text (λ u. u.domain) (sort_text (λ u. u.username) db.user_account))

unfoldable pub list_users_by_domain : Db → String → Option (List User)
unfolding keep
list_users_by_domain db domain =
    if db.down
    then none
    else some (sort_text (λ u. u.username) (keep (λ u. u.domain == domain) db.user_account))

unfoldable pub create_app_token : Db → AppToken → Option Db
create_app_token db token =
    if db.down || any (λ t. t.id == token.id) db.app_token
    then none
    else some (record db { app_token = db.app_token ++ token ∷ [] })

unfoldable pub list_app_tokens : Db → String → Option (List AppToken)
unfolding keep newest_first
list_app_tokens db domain =
    if db.down then none else some (newest_first (keep (λ t. t.domain == domain) db.app_token))

unfoldable pub get_app_token_by_id : Db → String → Option AppToken
unfolding first
get_app_token_by_id db id = if db.down then none else first (λ t. t.id == id) db.app_token

unfoldable pub delete_app_token : Db → String → Option Db
unfolding keep
delete_app_token db id =
    if db.down
    then none
    else some (record db { app_token = keep (λ t. not (t.id == id)) db.app_token })

unfoldable pub add_history : Db → UserHistory → Option Db
add_history db h =
    if db.down then none else some (record db { user_history = db.user_history ++ h ∷ [] })

-- LIMIT 50
unfoldable pub get_history : Db → String → Option (List UserHistory)
unfolding keep newest_first
get_history db email =
    if db.down
    then none
    else some (take 50 (newest_first (keep (λ h. h.user_email == email) db.user_history)))

unfoldable pub grant_permission : Db → UserPermission → Option Db
grant_permission db perm =
    if db.down || any (λ p. p.id == perm.id) db.user_permission
    then none
    else some (record db { user_permission = db.user_permission ++ perm ∷ [] })

unfoldable pub revoke_permission : Db → String → Option Db
unfolding keep
revoke_permission db id =
    if db.down
    then none
    else some (record db { user_permission = keep (λ p. not (p.id == id)) db.user_permission })

-- start_date <= NOW() AND end_date >= NOW()
abbrev pub in_force : ℕ → UserPermission → Bool
in_force now p = leb p.start_date now && leb now p.end_date

unfoldable pub get_user_permissions : Db → String → ℕ → Option (List UserPermission)
unfolding keep
get_user_permissions db email now =
    if db.down
    then none
    else some (
        sort_text (λ p. p.role)
          (keep (λ p. p.user_email == email && in_force now p) db.user_permission))

-- the Boolean that HasPermission gives, also with its error
unfoldable pub has_permission : Db → String → String → ℕ → Bool
has_permission db email role now =
    not db.down
    && any (λ p. p.user_email == email && p.role == role && in_force now p) db.user_permission

unfoldable pub create_contact : Db → Contact → ℕ → Option Db
create_contact db contact now =
    if db.down || any (λ c. c.id == contact.id) db.user_contact
    then none
    else some
        (record db { user_contact = db.user_contact ++ record contact { updated_at = now } ∷ [] })

unfoldable pub get_contact : Db → String → Option Contact
unfolding first
get_contact db id = if db.down then none else first (λ c. c.id == id) db.user_contact

-- ORDER BY updated_at DESC
unfoldable pub list_contacts : Db → String → Option (List Contact)
unfolding keep sort_desc
list_contacts db owner_email =
    if db.down
    then none
    else some (
        sort_desc (λ c. pos c.updated_at)
          (keep (λ c. c.owner_email == owner_email) db.user_contact))

unfoldable pub update_contact : Db → Contact → ℕ → Option Db
unfolding update
update_contact db contact now =
    if db.down
    then none
    else some (record db {
      user_contact =
          update (λ c. c.id == contact.id)
            (λ c. record c {
              vcard_data = contact.vcard_data;
              etag = contact.etag;
              updated_at = now;
            })
            db.user_contact;
    })

unfoldable pub delete_contact : Db → String → Option Db
unfolding keep
delete_contact db id =
    if db.down
    then none
    else some (record db { user_contact = keep (λ c. not (c.id == id)) db.user_contact })

unfoldable pub create_otp : Db → Otp → Option Db
create_otp db otp =
    if db.down || any (λ o. o.id == otp.id) db.user_otp
    then none
    else some (record db { user_otp = db.user_otp ++ record otp { attempts = 0 } ∷ [] })

-- ORDER BY expires_at DESC LIMIT 1
unfoldable pub get_otp : Db → String → Option Otp
unfolding first keep sort_desc
get_otp db email =
    if db.down
    then none
    else first (λ o. o.user_email == email)
        (sort_desc (λ o. pos o.expires_at) (keep (λ o. o.user_email == email) db.user_otp))

unfoldable pub increment_otp_attempts : Db → String → Option Db
unfolding update
increment_otp_attempts db email =
    if db.down
    then none
    else some (record db {
      user_otp =
          update (λ o. o.user_email == email) (λ o. record o { attempts = o.attempts + 1 })
            db.user_otp;
    })

unfoldable pub clear_otp : Db → String → Option Db
unfolding keep
clear_otp db email =
    if db.down
    then none
    else some (record db { user_otp = keep (λ o. not (o.user_email == email)) db.user_otp })

unfoldable pub list_oauth_clients : Db → String → Option (List OauthClient)
unfolding keep newest_first
list_oauth_clients db domain =
    if db.down then none else some (newest_first (keep (λ c. c.domain == domain) db.oauth_client))
