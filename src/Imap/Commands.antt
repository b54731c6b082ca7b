-- ===== src/Imap/Commands.antt =====
-- The handlers of internal/imap/server.go that change flags, search and expunge, and the loop.
use bdsmail.Base.{
  Bool, List, Option, String, [], any, concat, contains, cut, false, if◌then◌else◌, join, length,
  none, not, set, show_nat, some, to_upper, trim_space, true, ℕ, ℤ, ◌&&◌, ◌++◌, ◌+◌, ◌==◌, ◌||◌,
  ◌∷◌,
}
use bdsmail.Model.{Message}
use bdsmail.Db.{Db, mark_deleted, mark_seen, or_same, search_messages}
use bdsmail.Store.{MailStore, delete_message_full}
use bdsmail.Imap.Parse.{extract_search_query, parse_sequence_set}
use bdsmail.Imap.Session.{
  ImapEnv, ImapSession, handle_fetch, handle_imap_list, handle_login, handle_select, message_at,
  no_mailbox, tagged,
}

-- the flags that the text of a STORE names; its action, +FLAGS or -FLAGS, is not read
unfoldable pub names_seen : String → Bool
names_seen flags_str = contains (to_upper flags_str) "\\SEEN"

unfoldable pub names_deleted : String → Bool
names_deleted flags_str = contains (to_upper flags_str) "\\DELETED"

-- a message of the session with the named flags set
abbrev pub flagged : Bool → Bool → Message → Message
flagged seen deleted m = record m { seen = seen || m.seen; deleted = deleted || m.deleted }

unfoldable pub flags_text : Message → String
flags_text m = concat (
    (if m.seen then "\\Seen" else "")
    ∷ (if m.deleted then (if m.seen then " \\Deleted" else "\\Deleted") else "")
    ∷ [])

-- the database after the two tests of the loop; errors are dropped
unfoldable pub store_flags : Db → String → Bool → Bool → Db
store_flags db id seen deleted =
    let db' = if seen then or_same db (mark_seen db id) else db in
    if deleted then or_same db' (mark_deleted db' id) else db'

-- The loop of handleStore over the indices. The messages are shared with the session.
unfoldable pub store_all :
    Bool → Bool → Db → List Message → List ℤ → List String × Db × List Message
unfolding store_flags flags_text
store_all seen deleted db msgs [] = ([], db, msgs)
store_all seen deleted db msgs (index ∷ rest) =
    let (out, db', msgs') =
      elim (message_at msgs index) as (λ found. List String × Db × List Message) [
        | none ↦ ([], db, msgs)
        | some (idx, msg) ↦ (
          concat (
                "* "
                ∷ show_nat (idx + 1)
                ∷ " FETCH (FLAGS ("
                ∷ flags_text (flagged seen deleted msg)
                ∷ "))"
                ∷ [])
              ∷ [],
          store_flags db msg.id seen deleted,
          set msgs idx (flagged seen deleted msg),
        )
      ] in
    let (more, db'', msgs'') = store_all seen deleted db' msgs' rest in (out ++ more, db'', msgs'')

unfoldable pub handle_store :
    MailStore → ImapSession → String → String → List String × MailStore × ImapSession
handle_store s sess tag args =
    if no_mailbox sess
    then (tagged tag "NO no mailbox selected", s, sess)
    else elim (cut b' ' args) [
      | none ↦ (tagged tag "BAD invalid arguments", s, sess)
      | some (seq_set, action_and_flags) ↦ elim (cut b' ' action_and_flags) [
        | none ↦ (tagged tag "BAD invalid arguments", s, sess)
        | some (action, flags_str) ↦
            (let (out, db, msgs) =
                store_all (names_seen flags_str) (names_deleted flags_str) s.db sess.messages
                  (parse_sequence_set seq_set (length sess.messages)) in
              (
                out ++ tagged tag "OK STORE completed",
                record s { db = db },
                record sess { messages = msgs },
              ))
      ]
    ]

-- the numbers of the messages that a test picks
numbers_from : ℕ → (Message → Bool) → List Message → List String
numbers_from i p [] = []
numbers_from i p (m ∷ rest) =
    let more = numbers_from (i + 1) p rest in if p m then show_nat (i + 1) ∷ more else more

abbrev search_lines : String → List String → List String
search_lines tag result =
    concat ("* SEARCH " ∷ join " " result ∷ []) ∷ tagged tag "OK SEARCH completed"

flag_match : String → Message → Bool
flag_match upper_args m =
    not (contains upper_args "UNSEEN" && m.seen)
    && not (contains upper_args "SEEN" && not (contains upper_args "UNSEEN") && not m.seen)

-- the messages that a TEXT search finds, none where there is no such search or it fails
text_hits : ImapEnv → Db → String → String → Option (List Message)
text_hits env db username args =
    if contains (to_upper args) "TEXT"
    then (let query = extract_search_query args "TEXT" in
        if not (query == "") then search_messages env.ilike env.marshal db username query else none)
    else none

handle_search : ImapEnv → Db → ImapSession → String → String → List String
unfolding text_hits numbers_from flag_match
handle_search env db sess tag args =
    if no_mailbox sess
    then tagged tag "NO no mailbox selected"
    else elim (text_hits env db sess.username args) [
      | some hits ↦
          search_lines tag (numbers_from 0 (λ m. any (λ h. h.id == m.id) hits) sess.messages)
      | none ↦ search_lines tag (numbers_from 0 (flag_match (to_upper args)) sess.messages)
    ]

unfoldable pub expunge : MailStore → List Message → MailStore
expunge s [] = s
expunge s (m ∷ rest) = expunge (if m.deleted then (delete_message_full s m.id).1 else s) rest

unfoldable pub handle_close :
    MailStore → ImapSession → String → List String × MailStore × ImapSession
handle_close s sess tag = (
  tagged tag "OK CLOSE completed",
  expunge s sess.messages,
  record sess { selected_mailbox = ""; messages = [] },
)

pub data ImapVerb : Type 0 where
  capability login list_folders select examine fetch store_verb search : ImapVerb
  noop logout close unsupported : ImapVerb

unfoldable pub imap_verb : String → ImapVerb
imap_verb cmd =
    if cmd == "CAPABILITY"
    then capability
    else if cmd == "LOGIN"
    then login
    else if cmd == "LIST"
    then list_folders
    else if cmd == "SELECT"
    then select
    else if cmd == "EXAMINE"
    then examine
    else if cmd == "FETCH"
    then fetch
    else if cmd == "STORE"
    then store_verb
    else if cmd == "SEARCH"
    then search
    else if cmd == "NOOP"
    then noop
    else if cmd == "LOGOUT"
    then logout
    else if cmd == "CLOSE"
    then close
    else unsupported

-- what a command leaves: the answer, the store, the session, and whether the session goes on
pub record ImapTurn : Type 0 where
  pub answer : List String
  pub store : MailStore
  pub session : ImapSession
  pub goes_on : Bool

abbrev pub turn : List String → MailStore → ImapSession → ImapTurn
turn answer s sess = record { answer = answer; store = s; session = sess; goes_on = true }

unfoldable pub imap_dispatch :
    ImapEnv → MailStore → ImapSession → String → ImapVerb → String → ImapTurn
unfolding handle_search
imap_dispatch env s sess tag capability args =
    turn ("* CAPABILITY IMAP4rev1 AUTH=PLAIN" ∷ tagged tag "OK CAPABILITY completed") s sess
imap_dispatch env s sess tag login args =
    let (answer, sess') = handle_login env s.db sess tag args in turn answer s sess'
imap_dispatch env s sess tag list_folders args = turn (handle_imap_list s.db sess tag) s sess
imap_dispatch env s sess tag select args =
    let (answer, sess') = handle_select s.db sess tag args in turn answer s sess'
imap_dispatch env s sess tag examine args =
    let (answer, sess') = handle_select s.db sess tag args in turn answer s sess'
imap_dispatch env s sess tag fetch args =
    let (answer, s') = handle_fetch env s sess tag args in turn answer s' sess
imap_dispatch env s sess tag store_verb args =
    let (answer, s', sess') = handle_store s sess tag args in turn answer s' sess'
imap_dispatch env s sess tag search args = turn (handle_search env s.db sess tag args) s sess
imap_dispatch env s sess tag noop args = turn (tagged tag "OK NOOP completed") s sess
imap_dispatch env s sess tag logout args = record {
  answer = "* BYE BDS Mail server logging out" ∷ tagged tag "OK LOGOUT completed";
  store = s;
  session = sess;
  goes_on = false;
}
imap_dispatch env s sess tag close args =
    let (answer, s', sess') = handle_close s sess tag in turn answer s' sess'
imap_dispatch env s sess tag unsupported args = turn (tagged tag "BAD command not supported") s sess

-- the tag, the command and its arguments, none where there is only one word
unfoldable pub imap_command : String → Option (String × ImapVerb × String)
imap_command line = elim (cut b' ' line) [
  | none ↦ none
  | some (tag, rest) ↦ elim (cut b' ' rest) [
    | none ↦ some (tag, imap_verb (to_upper rest), "")
    | some (cmd, args) ↦ some (tag, imap_verb (to_upper cmd), args)
  ]
]

-- one round of the loop in handleConnection
unfoldable pub handle_imap_line : ImapEnv → MailStore → ImapSession → String → ImapTurn
handle_imap_line env s sess line =
    if trim_space line == "" then turn [] s sess else elim (imap_command (trim_space line)) [
      | none ↦ turn ("* BAD invalid command" ∷ []) s sess
      | some (tag, cmd, args) ↦ imap_dispatch env s sess tag cmd args
    ]

-- the session over its lines, up to LOGOUT or the end of the input
unfoldable pub handle_imap_lines :
    ImapEnv → MailStore → ImapSession → List String → ImapSession × MailStore
handle_imap_lines env s sess [] = (sess, s)
handle_imap_lines env s sess (line ∷ rest) =
    let t = handle_imap_line env s sess line in
    let more = handle_imap_lines env t.store t.session rest in
    if t.goes_on then more else (t.session, t.store)
