-- ===== src/Web/Mail.antt =====
-- The mail pages of internal/web/handlers.go and the mail part of internal/web/api_handlers.go: folders,
-- single messages, attachments, search and folders. A page is modelled by what it shows, not by the
-- user's own data around it.
pub mod Owned
use bdsmail.Base.{
  Bool, List, Option, String, [], cut, false, first, has_suffix, if◌then◌else◌, map, none, not, pos,
  show_nat, some, trim_prefix, trim_suffix, true, ℕ, ℤ, ◌==◌, ◌∷◌,
}
use bdsmail.Model.{Message, email}
use bdsmail.Db.{
  Db, count_unread, get_message, get_user_by_email, list_messages, list_user_folders, mark_seen,
  or_same, split_email,
}
use bdsmail.Store.{MailStore, delete_message_full}
use bdsmail.Web.Sessions.{
  Answer, Request, SessionStore, failed, get_session_user, json, page, redirect, rows, status_ok,
}
use bdsmail.Web.Roles.{is_admin, is_owner, is_super_admin}
use bdsmail.Web.Paging.{paginate_messages}

-- Messages come with the page, the number of pages and the number of unread messages.
pub data MailAnswer : Type 0 where
  answer : Answer → MailAnswer
  shows : Message → MailAnswer
  lists : Option (List Message) → ℤ → ℕ → ℕ → MailAnswer
  file : String → String → String → MailAnswer

unfoldable pub handle_index : SessionStore → Request → Answer
handle_index ss r =
    if not (r.path == "/")
    then failed 404
    else if get_session_user r.session ss == ""
    then redirect "/login"
    else redirect "/inbox"

-- strings.TrimPrefix, then up to the first `/`
unfoldable pub extract_message_id : String → String → String
extract_message_id path prefix =
    let s = trim_prefix path prefix in elim (cut b'/' s) [ none ↦ s | some (id, rest) ↦ id ]

-- The page that was asked for is the number in the query as Atoi gives it, 0 for a text that is none.
unfoldable pub handle_folder_view : SessionStore → Db → Request → String → ℤ → MailAnswer
handle_folder_view ss db r folder asked =
    let email = get_session_user r.session ss in
    if email == "" then answer (redirect "/login") else elim (list_messages db email folder) [
      | none ↦ answer (failed 500)
      | some messages ↦
          (let (paged, current, pages) = paginate_messages messages asked in
            lists paged current pages (count_unread db email "INBOX"))
    ]

unfoldable pub handle_inbox : SessionStore → Db → Request → ℤ → MailAnswer
handle_inbox ss db r asked = handle_folder_view ss db r "INBOX" asked

unfoldable pub handle_sent : SessionStore → Db → Request → ℤ → MailAnswer
handle_sent ss db r asked = handle_folder_view ss db r "Sent" asked

unfoldable pub handle_folder : SessionStore → Db → Request → ℤ → MailAnswer
handle_folder ss db r asked =
    let folder = trim_prefix r.path "/folder/" in
    handle_folder_view ss db r (if folder == "" then "INBOX" else folder) asked

-- from the point where the message was looked up
unfoldable pub show_message : Db → String → String → Answer → Option Message → MailAnswer × Db
show_message db email id missing none = (answer missing, db)
show_message db email id missing (some msg) =
    if not (msg.owner_user == email)
    then (answer (failed 403), db)
    else (shows msg, or_same db (mark_seen db id))

unfoldable pub handle_read_message : SessionStore → Db → Request → MailAnswer × Db
handle_read_message ss db r =
    let email = get_session_user r.session ss in
    let id = extract_message_id r.path "/message/" in
    if email == ""
    then (answer (redirect "/login"), db)
    else if id == ""
    then (answer (failed 404), db)
    else show_message db email id (failed 404) (get_message db id)

-- The answers are those for a message that is missing or somebody else's, and for a deletion with and
-- without an error.
unfoldable pub delete_own :
    MailStore → String → String → Answer → Answer → Answer → Answer × MailStore
delete_own s email id missing error done = elim (get_message s.db id) [
  | none ↦ (missing, s)
  | some msg ↦
      (if not (msg.owner_user == email)
        then (missing, s)
        else (if (delete_message_full s id).0 then done else error, (delete_message_full s id).1))
]

unfoldable pub handle_delete_message : SessionStore → MailStore → Request → Answer × MailStore
handle_delete_message ss s r =
    let email = get_session_user r.session ss in
    let id = trim_suffix (trim_prefix r.path "/message/") "/delete" in
    if email == ""
    then (redirect "/login", s)
    else if id == ""
    then (failed 404, s)
    else delete_own s email id (failed 404) (redirect "/inbox") (redirect "/inbox")

-- from the point where the message was looked up; `read` is the bucket
unfoldable pub attachment_of : (String → Option String) → Message → String → MailAnswer
attachment_of read msg id = elim (first (λ a. a.id == id) msg.attachments) [
  | none ↦ answer (failed 404)
  | some found ↦ elim (read found.bucket_key) [
    | none ↦ answer (failed 500)
    | some bytes ↦ file found.content_type found.filename bytes
  ]
]

unfoldable pub handle_attachment :
    (String → Option String) → SessionStore → Db → Request → MailAnswer
handle_attachment read ss db r =
    let email = get_session_user r.session ss in
    if email == ""
    then answer (redirect "/login")
    else elim (cut b'/' (trim_prefix r.path "/attachment/")) [
      | none ↦ answer (failed 404)
      | some (msg_id, att_id) ↦ elim (get_message db msg_id) [
        | none ↦ answer (failed 404)
        | some msg ↦
            (if not (msg.owner_user == email)
              then answer (failed 404)
              else attachment_of read msg att_id)
      ]
    ]

-- The page lists nothing for an empty query; the search of SQL is given.
unfoldable pub handle_search :
    (Db → String → String → Option (List Message)) → SessionStore → Db → Request → MailAnswer
handle_search search ss db r =
    let email = get_session_user r.session ss in
    if email == ""
    then answer (redirect "/login")
    else if r.value "q" == ""
    then lists (some []) (pos 0) 0 0
    else elim (search db email (r.value "q")) [
      | none ↦ answer (page "Search failed" "")
      | some messages ↦ lists (some messages) (pos 0) 0 0
    ]

-- --- the API ---

unfoldable pub api_messages : SessionStore → Db → Request → ℤ → MailAnswer
api_messages ss db r asked =
    let email = get_session_user r.session ss in
    let folder = r.value "folder" in
    if email == ""
    then answer (failed 401)
    else elim (list_messages db email (if folder == "" then "INBOX" else folder)) [
      | none ↦ answer (failed 500)
      | some messages ↦
          (let (paged, current, pages) = paginate_messages messages asked in
            lists paged current pages (count_unread db email "INBOX"))
    ]

unfoldable pub api_message : SessionStore → MailStore → Request → MailAnswer × MailStore
api_message ss s r =
    let email = get_session_user r.session ss in
    let id = trim_prefix r.path "/api/messages/" in
    let deleted =
      delete_own s email (trim_suffix id "/delete") (failed 404) (failed 500) status_ok in
    let shown = show_message s.db email id (failed 404) (get_message s.db id) in
    if email == ""
    then (answer (failed 401), s)
    else if has_suffix id "/delete"
    then (answer deleted.0, deleted.1)
    else (shown.0, record s { db = shown.1 })

unfoldable pub api_search :
    (Db → String → String → Option (List Message)) → SessionStore → Db → Request → MailAnswer
api_search search ss db r =
    let email = get_session_user r.session ss in
    if email == ""
    then answer (failed 401)
    else if r.value "q" == ""
    then lists (some []) (pos 0) 0 0
    else elim (search db email (r.value "q")) [
      | none ↦ answer (failed 500)
      | some messages ↦ lists (some messages) (pos 1) 1 0
    ]

unfoldable pub api_folders : SessionStore → Db → Request → Answer
api_folders ss db r =
    let email = get_session_user r.session ss in
    if email == "" then failed 401 else elim (list_user_folders db email) [
      | none ↦ rows []
      | some folders ↦ rows (map (λ f. ("folder", f) ∷ []) folders)
    ]

unfoldable pub api_unread : SessionStore → Db → Request → Answer
api_unread ss db r =
    let email = get_session_user r.session ss in
    if email == ""
    then failed 401
    else json (("count", show_nat (count_unread db email "INBOX")) ∷ [])

abbrev yes_no : Bool → String
yes_no true = "true"
yes_no false = "false"

unfoldable pub api_auth_me : SessionStore → Db → Request → ℕ → Answer
api_auth_me ss db r now =
    let email = get_session_user r.session ss in
    if email == ""
    then failed 401
    else json (
        ("username", (split_email email).0)
        ∷ ((
          "displayName",
          elim (get_user_by_email db email) [ none ↦ "" | some user ↦ user.display_name ],
        )
            ∷ (("email", email)
                ∷ (("domain", (split_email email).1)
                    ∷ (("isOwner", yes_no (is_owner db email now))
                        ∷ (("isAdmin", yes_no (is_admin db email now))
                            ∷ (("isSuperAdmin", yes_no (is_super_admin db email now)) ∷ [])))))))
