-- ===== src/Imap/Session.antt =====
-- The session of internal/imap/server.go: its handlers and its loop over lines. A session's input is
-- its lines, its output the lines it sends. The lock around the messages changes nothing in a session.
use bdsmail.Base.{
  Bool, List, Option, String, [], concat, cut, false, get_elem?, if◌then◌else◌, join, len, length,
  ltb, map, negsuc, none, not, pos, show_nat, some, to_upper, trim_space, true, ℕ, ℤ, ◌&&◌, ◌++◌,
  ◌+◌, ◌==◌, ◌||◌, ◌∷◌,
}
use bdsmail.Model.{Message, User, email}
use bdsmail.Db.{Db, get_user_by_email, list_messages, list_user_folders, mark_seen, or_same}
use bdsmail.Store.{MailStore, load_attachments}
use bdsmail.Mime.{build_full_message, build_headers}
use bdsmail.Imap.Parse.{
  escape_imap_string, parse_data_items, parse_imap_args, parse_sequence_set, unquote,
}

pub record ImapSession : Type 0 where
  pub username : String
  pub authed : Bool
  pub selected_mailbox : String
  pub messages : List Message

abbrev pub new_imap_session : ImapSession
new_imap_session = record { username = ""; authed = false; selected_mailbox = ""; messages = [] }

-- What comes from elsewhere: bcrypt, reading an object of the bucket, the clock's texts, the two
-- formats of a time, and SQL's ILIKE with the JSON text that it searches.
pub record ImapEnv : Type 0 where
  pub check_password : String → String → Bool
  pub read : String → Option String
  pub date : String
  pub nanos : String
  pub mail_time : ℕ → String
  pub internal_time : ℕ → String
  pub ilike : String → String → Bool
  pub marshal : List String → String

-- the tag, a space and the rest
abbrev pub tagged : String → String → List String
tagged tag text = concat (tag ∷ " " ∷ text ∷ []) ∷ []

-- the answer to the user that was found and the password
unfoldable pub login_as :
    ImapEnv → ImapSession → String → String → Option User → List String × ImapSession
login_as env sess tag password none = (tagged tag "NO authentication failed", sess)
login_as env sess tag password (some user) =
    if not (env.check_password user.password_hash password)
    then (tagged tag "NO authentication failed", sess)
    else (tagged tag "OK LOGIN completed", record sess { username = email user; authed = true })

unfoldable pub login_with :
    ImapEnv → Db → ImapSession → String → List String → List String × ImapSession
login_with env db sess tag (user_part ∷ (password_part ∷ more)) =
    login_as env sess tag (unquote password_part) (get_user_by_email db (unquote user_part))
login_with env db sess tag parts = (tagged tag "BAD invalid arguments", sess)

unfoldable pub handle_login :
    ImapEnv → Db → ImapSession → String → String → List String × ImapSession
handle_login env db sess tag args = login_with env db sess tag (parse_imap_args args)

-- "%q" of a printable ASCII text
go_quote : String → String
go_quote s = concat ("\"" ∷ escape_imap_string s ∷ "\"" ∷ [])

folder_lines : List String → List String
folder_lines [] = []
folder_lines (f ∷ rest) =
    let more = folder_lines rest in
    if not (f == "INBOX") && not (f == "Sent")
    then concat ("* LIST (\\HasNoChildren) \"/\" " ∷ go_quote f ∷ []) ∷ more
    else more

unfoldable pub handle_imap_list : Db → ImapSession → String → List String
unfolding folder_lines go_quote
handle_imap_list db sess tag =
    if not sess.authed
    then tagged tag "NO not authenticated"
    else "* LIST (\\HasNoChildren) \"/\" \"INBOX\""
      ∷ "* LIST (\\HasNoChildren) \"/\" \"Sent\""
      ∷ (elim (list_user_folders db sess.username) [
        | none ↦ []
        | some folders ↦ folder_lines folders
      ]
          ++ tagged tag "OK LIST completed")

-- sort.Slice by ReceivedAt; messages of the same time keep their order
insert_asc : Message → List Message → List Message
insert_asc m [] = m ∷ []
insert_asc m (n ∷ rest) =
    if ltb n.received_at m.received_at then n ∷ insert_asc m rest else m ∷ n ∷ rest

unfoldable pub sort_asc : List Message → List Message
unfolding insert_asc
sort_asc [] = []
sort_asc (m ∷ rest) = insert_asc m (sort_asc rest)

unseen : List Message → ℕ
unseen [] = 0
unseen (m ∷ rest) = (if m.seen then 0 else 1) + unseen rest

first_unseen_from : ℕ → List Message → ℕ
first_unseen_from i [] = 1
first_unseen_from i (m ∷ rest) = if not m.seen then i + 1 else first_unseen_from (i + 1) rest

find_first_unseen : List Message → ℕ
unfolding first_unseen_from
find_first_unseen msgs = first_unseen_from 0 msgs

select_lines : String → List Message → List String
unfolding unseen find_first_unseen
select_lines tag msgs =
    concat ("* " ∷ show_nat (length msgs) ∷ " EXISTS" ∷ [])
    ∷ "* 0 RECENT"
    ∷ ((if ltb 0 (unseen msgs)
          then concat ("* OK [UNSEEN " ∷ show_nat (find_first_unseen msgs) ∷ "]" ∷ []) ∷ []
          else [])
        ++ "* FLAGS (\\Seen \\Deleted)"
          ∷ "* OK [PERMANENTFLAGS (\\Seen \\Deleted)]"
          ∷ tagged tag "OK [READ-WRITE] SELECT completed")

mailbox_name : String → String
mailbox_name args = let name = unquote (trim_space args) in if name == "" then "INBOX" else name

unfoldable pub handle_select : Db → ImapSession → String → String → List String × ImapSession
unfolding select_lines mailbox_name
handle_select db sess tag args =
    if not sess.authed
    then (tagged tag "NO not authenticated", sess)
    else elim (list_messages db sess.username (mailbox_name args)) [
      | none ↦ (tagged tag "NO failed to select mailbox", sess)
      | some msgs ↦ (
        select_lines tag (sort_asc msgs),
        record sess { selected_mailbox = mailbox_name args; messages = sort_asc msgs },
      )
    ]

estimate_rfc822_size : ImapEnv → Message → ℕ
estimate_rfc822_size env msg = len (build_headers env.mail_time msg) + 500

envelope : ImapEnv → Message → String
envelope env msg = concat (
    "ENVELOPE (\""
    ∷ env.mail_time msg.received_at
    ∷ "\" \""
    ∷ escape_imap_string msg.subject
    ∷ "\" ((\""
    ∷ escape_imap_string msg.from
    ∷ "\" NIL \"\" \"\")) NIL NIL ((\""
    ∷ escape_imap_string (join ", " msg.to)
    ∷ "\" NIL \"\" \"\")) NIL NIL NIL \""
    ∷ escape_imap_string msg.message_id
    ∷ "\")"
    ∷ [])

-- a literal: its length and its text
literal : String → String → String
literal name text = concat (name ∷ " {" ∷ show_nat (len text) ∷ "}\r\n" ∷ text ∷ [])

is_full_body : String → Bool
is_full_body item = item == "BODY[]" || item == "BODY.PEEK[]" || item == "RFC822"

fetch_item : ImapEnv → MailStore → ℕ → Message → String → String
unfolding is_full_body envelope literal estimate_rfc822_size
fetch_item env s idx msg item =
    if item == "FLAGS"
    then concat ("FLAGS (" ∷ (if msg.seen then "\\Seen" else "") ∷ ")" ∷ [])
    else if item == "UID"
    then concat ("UID " ∷ show_nat (idx + 1) ∷ [])
    else if item == "ENVELOPE"
    then envelope env msg
    else if item == "BODY[HEADER]" || item == "BODY.PEEK[HEADER]" || item == "RFC822.HEADER"
    then literal "BODY[HEADER]" (build_headers env.mail_time msg)
    else if is_full_body item
    then literal "BODY[]"
        (build_full_message env.date env.nanos msg (load_attachments env.read s msg))
    else if item == "BODY[TEXT]" || item == "BODY.PEEK[TEXT]" || item == "RFC822.TEXT"
    then literal "BODY[TEXT]" msg.body
    else if item == "INTERNALDATE"
    then concat ("INTERNALDATE \"" ∷ env.internal_time msg.received_at ∷ "\"" ∷ [])
    else if item == "RFC822.SIZE"
    then concat ("RFC822.SIZE " ∷ show_nat (estimate_rfc822_size env msg) ∷ [])
    else concat (item ∷ " NIL" ∷ [])

-- MarkSeen for each item that gives the whole message; its error is dropped
mark_fetched : Db → String → List String → Db
mark_fetched db id [] = db
mark_fetched db id (item ∷ rest) =
    mark_fetched (if is_full_body item then or_same db (mark_seen db id) else db) id rest

fetch_line : ImapEnv → MailStore → ℕ → Message → List String → String
unfolding fetch_item
fetch_line env s idx msg items = concat (
    "* "
    ∷ show_nat (idx + 1)
    ∷ " FETCH ("
    ∷ join " " (map (fetch_item env s idx msg) items)
    ∷ ")"
    ∷ [])

-- the message of an index, none where the code passes over it
unfoldable pub message_at : List Message → ℤ → Option (ℕ × Message)
message_at msgs (negsuc n) = none
message_at msgs (pos i) = elim (get_elem? msgs i) [ none ↦ none | some m ↦ some (i, m) ]

fetch_all : ImapEnv → MailStore → List Message → List String → List ℤ → List String × MailStore
unfolding message_at fetch_line mark_fetched
fetch_all env s msgs items [] = ([], s)
fetch_all env s msgs items (index ∷ rest) =
    let (out, s') = elim (message_at msgs index) as (λ found. List String × MailStore) [
      | none ↦ ([], s)
      | some (idx, msg) ↦
          (fetch_line env s idx msg items ∷ [], record s { db = mark_fetched s.db msg.id items })
    ] in
    let (more, s'') = fetch_all env s' msgs items rest in (out ++ more, s'')

unfoldable pub no_mailbox : ImapSession → Bool
no_mailbox sess = not sess.authed || sess.selected_mailbox == ""

unfoldable pub handle_fetch :
    ImapEnv → MailStore → ImapSession → String → String → List String × MailStore
unfolding fetch_all no_mailbox
handle_fetch env s sess tag args =
    if no_mailbox sess then (tagged tag "NO no mailbox selected", s) else elim (cut b' ' args) [
      | none ↦ (tagged tag "BAD invalid arguments", s)
      | some (seq_set, data_items) ↦
          (let (out, s') =
              fetch_all env s sess.messages (parse_data_items (to_upper data_items))
                (parse_sequence_set seq_set (length sess.messages)) in
            (out ++ tagged tag "OK FETCH completed", s'))
    ]
