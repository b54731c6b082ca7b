-- ===== src/Db/Messages.antt =====
-- The message and attachment operations of database.go.
use bdsmail.Base.{
  Bool, List, Option, String, [], any, concat, false, first, if◌then◌else◌, keep, length, map, none,
  not, pos, some, take, true, update, without, ℕ, ℤ, ◌&&◌, ◌++◌, ◌==◌, ◌||◌, ◌∷◌,
}
use bdsmail.Model.{Attachment, Message, email}
use bdsmail.Db.Tables.{Db, sort_desc, sort_text}

-- The row holds neither the attachments nor a deletion mark.
unfoldable pub save_message : Db → Message → Option Db
save_message db msg =
    if db.down || any (λ m. m.id == msg.id) db.mail_content
    then none
    else some (record db {
      mail_content = db.mail_content ++ record msg { deleted = false; attachments = [] } ∷ [];
    })

abbrev received : Message → ℤ
received m = pos m.received_at

-- the error of a query that cannot run is `none`
unfoldable pub list_messages : Db → String → String → Option (List Message)
unfolding keep sort_desc
list_messages db owner_email folder =
    if db.down
    then none
    else some (
        sort_desc received (
          keep (λ m. m.owner_user == owner_email && m.folder == folder && not m.deleted)
            db.mail_content))

unfoldable pub list_all_messages : Db → String → Option (List Message)
unfolding keep sort_desc
list_all_messages db owner_email =
    if db.down
    then none
    else some (
        sort_desc received
          (keep (λ m. m.owner_user == owner_email && not m.deleted) db.mail_content))

unfoldable pub list_attachments : Db → String → Option (List Attachment)
unfolding keep
list_attachments db mail_content_id =
    if db.down
    then none
    else some (keep (λ a. a.mail_content_id == mail_content_id) db.mail_attachment)

abbrev or_nil {ℓ} : {A : Type ℓ} → Option (List A) → List A
or_nil none = []
or_nil (some xs) = xs

unfoldable pub get_message : Db → String → Option Message
unfolding first list_attachments
get_message db id = if db.down then none else elim (first (λ m. m.id == id) db.mail_content) [
  | none ↦ none
  | some m ↦ some (record m { attachments = or_nil (list_attachments db id) })
]

unfoldable pub mark_seen : Db → String → Option Db
unfolding update
mark_seen db id =
    if db.down
    then none
    else some (record db {
      mail_content = update (λ m. m.id == id) (λ m. record m { seen = true }) db.mail_content;
    })

unfoldable pub mark_deleted : Db → String → Option Db
unfolding update
mark_deleted db id =
    if db.down
    then none
    else some (record db {
      mail_content = update (λ m. m.id == id) (λ m. record m { deleted = true }) db.mail_content;
    })

unfoldable pub delete_message : Db → String → Option Db
unfolding keep
delete_message db id =
    if db.down
    then none
    else some (record db { mail_content = keep (λ m. not (m.id == id)) db.mail_content })

unfoldable pub delete_user_messages : Db → String → Option Db
unfolding keep
delete_user_messages db email =
    if db.down
    then none
    else some (record db { mail_content = keep (λ m. not (m.owner_user == email)) db.mail_content })

unfoldable pub count_unread : Db → String → String → ℕ
unfolding keep
count_unread db owner_email folder =
    if db.down
    then 0
    else length (
        keep (λ m. m.owner_user == owner_email && m.folder == folder && not m.seen && not m.deleted)
          db.mail_content)

unfoldable pub save_attachment : Db → Attachment → Option Db
save_attachment db att =
    if db.down || any (λ a. a.id == att.id) db.mail_attachment
    then none
    else some (record db { mail_attachment = db.mail_attachment ++ att ∷ [] })

unfoldable pub get_attachment : Db → String → Option Attachment
unfolding first
get_attachment db id = if db.down then none else first (λ a. a.id == id) db.mail_attachment

unfoldable pub delete_attachments_by_message : Db → String → Option Db
unfolding keep
delete_attachments_by_message db mail_content_id =
    if db.down
    then none
    else some (record db {
      mail_attachment = keep (λ a. not (a.mail_content_id == mail_content_id)) db.mail_attachment;
    })

-- SELECT DISTINCT
distinct : List String → List String
distinct [] = []
distinct (x ∷ xs) = x ∷ without x (distinct xs)

-- the folders of a user's mail, each once; SQL sorts them, the model keeps the order of the rows
unfoldable pub list_user_folders : Db → String → Option (List String)
unfolding keep distinct
list_user_folders db owner_email =
    if db.down
    then none
    else some (
        sort_text (λ f. f)
          (distinct (
            map (λ m. m.folder)
              (keep (λ m. m.owner_user == owner_email && not m.deleted) db.mail_content))))

-- The ILIKE of SQL and the JSON text of a list of addresses are parameters.
unfoldable pub search_messages :
    (String → String → Bool) → (List String → String) → Db → String → String → Option (List Message)
unfolding keep sort_desc
search_messages ilike marshal db owner_email query =
    let pattern = concat ("%" ∷ query ∷ "%" ∷ []) in
    if db.down
    then none
    else some (
        take 100 (
          sort_desc received (
            keep
              (λ m.
                m.owner_user == owner_email
                && not m.deleted
                && (ilike m.subject pattern
                    || ilike m.body pattern
                    || ilike m.from pattern
                    || ilike (marshal m.to) pattern))
              db.mail_content)))
