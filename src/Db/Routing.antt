-- ===== src/Db/Routing.antt =====
-- The alias and mailing list operations of database.go.
use bdsmail.Base.{
  Bool, List, Option, String, [], any, concat, first, if◌then◌else◌, keep, map, none, not, some,
  starts_with, update, ◌&&◌, ◌++◌, ◌==◌, ◌||◌, ◌∷◌,
}
use bdsmail.Model.{Alias, MailingList, email}
use bdsmail.Db.Tables.{Db, sort_text}

unfoldable pub create_alias : Db → String → List String → Option Db
create_alias db alias_email target_emails =
    if db.down || any (λ a. a.alias_email == alias_email) db.mail_alias
    then none
    else some (record db {
      mail_alias =
          db.mail_alias
          ++ record {
            alias_email = alias_email;
            target_emails = target_emails;
            is_catch_all = starts_with alias_email "@";
          }
            ∷ [];
    })

unfoldable pub get_alias : Db → String → Option (List String)
unfolding first
get_alias db alias_email =
    if db.down then none else elim (first (λ a. a.alias_email == alias_email) db.mail_alias) [
      | none ↦ none
      | some a ↦ some a.target_emails
    ]

unfoldable pub list_aliases : Db → Option (List Alias)
list_aliases db = if db.down then none else some (sort_text (λ a. a.alias_email) db.mail_alias)

unfoldable pub update_alias : Db → String → List String → Option Db
unfolding update
update_alias db alias_email target_emails =
    if db.down
    then none
    else some (record db {
      mail_alias =
          update (λ a. a.alias_email == alias_email)
            (λ a. record a { target_emails = target_emails }) db.mail_alias;
    })

unfoldable pub delete_alias : Db → String → Option Db
unfolding keep
delete_alias db alias_email =
    if db.down
    then none
    else some
        (record db { mail_alias = keep (λ a. not (a.alias_email == alias_email)) db.mail_alias })

unfoldable pub get_catch_all : Db → String → Option (List String)
unfolding get_alias
get_catch_all db domain = get_alias db (concat ("@" ∷ domain ∷ []))

unfoldable pub get_mailing_list : Db → String → Option MailingList
unfolding first
get_mailing_list db list_addr =
    if db.down then none else first (λ l. l.list_address == list_addr) db.mailing_list

unfoldable pub list_mailing_lists : Db → Option (List MailingList)
list_mailing_lists db =
    if db.down then none else some (sort_text (λ l. l.list_address) db.mailing_list)

unfoldable pub is_mailing_list : Db → String → Bool
is_mailing_list db email = not db.down && any (λ l. l.list_address == email) db.mailing_list

unfoldable pub create_mailing_list : Db → String → String → String → String → Option Db
create_mailing_list db list_addr name description owner_email =
    if db.down || any (λ l. l.list_address == list_addr) db.mailing_list
    then none
    else some (record db {
      mailing_list =
          db.mailing_list
          ++ record {
            list_address = list_addr;
            name = name;
            description = description;
            owner_email = owner_email;
          }
            ∷ [];
    })

-- The members go first, and their deletion's error is dropped.
unfoldable pub delete_mailing_list : Db → String → Option Db
unfolding keep
delete_mailing_list db list_addr =
    if db.down
    then none
    else some (record db {
      list_member = keep (λ m. not (m.0 == list_addr)) db.list_member;
      mailing_list = keep (λ l. not (l.list_address == list_addr)) db.mailing_list;
    })

abbrev is_member : String → String → String × String → Bool
is_member list_addr member_email m = m.0 == list_addr && m.1 == member_email

-- ON CONFLICT DO NOTHING
unfoldable pub add_list_member : Db → String → String → Option Db
add_list_member db list_addr member_email =
    if db.down
    then none
    else if any (is_member list_addr member_email) db.list_member
    then some db
    else some (record db { list_member = db.list_member ++ (list_addr, member_email) ∷ [] })

unfoldable pub remove_list_member : Db → String → String → Option Db
unfolding keep
remove_list_member db list_addr member_email =
    if db.down
    then none
    else some (record db {
      list_member = keep (λ m. not (is_member list_addr member_email m)) db.list_member;
    })

unfoldable pub get_list_members : Db → String → Option (List String)
unfolding keep
get_list_members db list_addr =
    if db.down
    then none
    else some (sort_text (λ m. m) (map (λ m. m.1) (keep (λ m. m.0 == list_addr) db.list_member)))
