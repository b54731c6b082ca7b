-- ===== src/Pop3.antt =====
-- internal/pop3/server.go: a POP3 session. Listening, TLS and the connection's deadline are not
-- modelled; a session's input is its lines, its output the lines it sends.
pub mod Marks
pub mod Expunge
pub mod Login
mod Tests
use Prim.Native.String
use bdsmail.Base.{
  Bool, List, Option, String, [], code, concat, cut, false, get_elem?, if◌then◌else◌, len, length,
  ltb, map, nat_beq, negsuc, none, not, pos, show_nat, some, to_upper, trim_space, true, ℕ, ℤ, ◌%◌,
  ◌*◌, ◌++◌, ◌+◌, ◌-◌, ◌==◌, ◌^◌, ◌||◌, ◌∷◌,
}
use bdsmail.Model.{Message, email, to_int64}
use bdsmail.Db.{Db, get_user_by_email, list_messages}
use bdsmail.Store.{MailStore, delete_message_full, load_attachments}
use bdsmail.Mime.{build_full_message}

pub record Pop3Session : Type 0 where
  pub username : String
  pub authed : Bool
  pub messages : List Message
  pub deleted : List ℕ  -- the keys of the map

abbrev pub new_session : Pop3Session
new_session = record { username = ""; authed = false; messages = []; deleted = [] }

-- What comes from elsewhere: bcrypt, reading an object of the bucket, the clock's texts, and the order
-- in which Go ranges over the keys of a map.
pub record Pop3Env : Type 0 where
  pub check_password : String → String → Bool
  pub read : String → Option String
  pub date : String
  pub nanos : String
  pub range : List ℕ → List ℕ

-- The bits of the `int` that the loop computes; it wraps around.
parse_digits : ℕ → String → Option ℕ
parse_digits n String.[] = some n
parse_digits n (String.◌∷◌ c s) =
    if ltb (code c) b'0' || ltb b'9' (code c)
    then none
    else parse_digits ((n * 10 + (code c - b'0')) % 2 ^ 64) s

unfoldable pub parse_index : String → ℤ
unfolding parse_digits
parse_index s = elim (parse_digits 0 (trim_space s)) [
  | none ↦ negsuc 0
  | some n ↦ to_int64 ((n + 2 ^ 64 - 1) % 2 ^ 64)
]

abbrev pub has_index : ℕ → List ℕ → Bool
has_index i [] = false
has_index i (k ∷ ks) = nat_beq k i || has_index i ks

-- the message that an index names, where it is in bounds and not marked
unfoldable pub named : Pop3Session → ℤ → Option (ℕ × Message)
named sess (negsuc n) = none
named sess (pos i) = elim (get_elem? sess.messages i) [
  | none ↦ none
  | some m ↦ (if has_index i sess.deleted then none else some (i, m))
]

estimate_size : Message → ℕ
estimate_size msg = 500

unfoldable pub handle_user : Pop3Session → String → List String × Pop3Session
handle_user sess username = ("+OK" ∷ [], record sess { username = trim_space username })

unfoldable pub handle_pass : Pop3Env → Db → Pop3Session → String → List String × Pop3Session
handle_pass env db sess password =
    if sess.username == ""
    then ("-ERR send USER first" ∷ [], sess)
    else elim (get_user_by_email db sess.username) [
      | none ↦ ("-ERR authentication failed" ∷ [], sess)
      | some user ↦
          (if not (env.check_password user.password_hash (trim_space password))
            then ("-ERR authentication failed" ∷ [], sess)
            else elim (list_messages db (email user) "INBOX") [
              | none ↦ ("-ERR internal error" ∷ [], record sess { username = email user })
              | some msgs ↦ (
                concat ("+OK " ∷ show_nat (length msgs) ∷ " messages" ∷ []) ∷ [],
                record sess { username = email user; messages = msgs; authed = true },
              )
            ])
    ]

-- the messages that are not marked, with their indices
unmarked : ℕ → List Message → List ℕ → List (ℕ × Message)
unmarked i [] deleted = []
unmarked i (m ∷ rest) deleted =
    let more = unmarked (i + 1) rest deleted in if has_index i deleted then more else (i, m) ∷ more

total_key_length : List (ℕ × Message) → ℕ
total_key_length [] = 0
total_key_length ((i, m) ∷ rest) = len m.gcs_key + total_key_length rest

handle_stat : Pop3Session → List String
unfolding unmarked total_key_length
handle_stat sess =
    if not sess.authed
    then "-ERR not authenticated" ∷ []
    else (let left = unmarked 0 sess.messages sess.deleted in
        concat ("+OK " ∷ show_nat (length left) ∷ " " ∷ show_nat (total_key_length left) ∷ []) ∷ [])

no_such_message : List String
no_such_message = "-ERR no such message" ∷ []

size_line : String → ℕ × Message → String
unfolding estimate_size
size_line prefix (i, m) = concat (prefix ∷ show_nat (i + 1) ∷ " " ∷ show_nat (estimate_size m) ∷ [])

handle_list : Pop3Session → String → List String
unfolding named unmarked size_line no_such_message
handle_list sess arg =
    if not sess.authed
    then "-ERR not authenticated" ∷ []
    else if not (arg == "")
    then elim (named sess (parse_index arg)) [
      | none ↦ no_such_message
      | some entry ↦ size_line "+OK " entry ∷ []
    ]
    else (concat ("+OK " ∷ show_nat (length sess.messages) ∷ " messages" ∷ [])
        ∷ map (size_line "") (unmarked 0 sess.messages sess.deleted))
      ++ "." ∷ []

id_line : String → ℕ × Message → String
id_line prefix (i, m) = concat (prefix ∷ show_nat (i + 1) ∷ " " ∷ m.id ∷ [])

handle_uidl : Pop3Session → String → List String
unfolding named unmarked id_line no_such_message
handle_uidl sess arg =
    if not sess.authed
    then "-ERR not authenticated" ∷ []
    else if not (arg == "")
    then elim (named sess (parse_index arg)) [
      | none ↦ no_such_message
      | some entry ↦ id_line "+OK " entry ∷ []
    ]
    else ("+OK" ∷ map (id_line "") (unmarked 0 sess.messages sess.deleted)) ++ "." ∷ []

handle_retr : Pop3Env → MailStore → Pop3Session → String → List String
unfolding named no_such_message
handle_retr env s sess arg =
    if not sess.authed then "-ERR not authenticated" ∷ [] else elim (named sess (parse_index arg)) [
      | none ↦ no_such_message
      | some (i, msg) ↦
          (let content =
              build_full_message env.date env.nanos msg (load_attachments env.read s msg) in
            concat ("+OK " ∷ show_nat (len content) ∷ " octets" ∷ []) ∷ content ∷ "." ∷ [])
    ]

unfoldable pub handle_dele : Pop3Session → String → List String × Pop3Session
unfolding no_such_message
handle_dele sess arg =
    if not sess.authed
    then ("-ERR not authenticated" ∷ [], sess)
    else elim (named sess (parse_index arg)) [
      | none ↦ (no_such_message, sess)
      | some (i, msg) ↦ ("+OK deleted" ∷ [], record sess { deleted = sess.deleted ++ i ∷ [] })
    ]

unfoldable pub handle_rset : Pop3Session → List String × Pop3Session
handle_rset sess = ("+OK" ∷ [], record sess { deleted = [] })

abbrev pub delete_found : MailStore → Option Message → MailStore
delete_found s none = s
delete_found s (some m) = (delete_message_full s m.id).1

unfoldable pub delete_marked : MailStore → List Message → List ℕ → MailStore
delete_marked s messages [] = s
delete_marked s messages (i ∷ rest) =
    delete_marked (delete_found s (get_elem? messages i)) messages rest

unfoldable pub handle_quit : Pop3Env → MailStore → Pop3Session → List String × MailStore
handle_quit env s sess = (
  "+OK bye" ∷ [],
  if sess.authed then delete_marked s sess.messages (env.range sess.deleted) else s,
)

-- what a line leaves: the answer, the session, the store, and whether the session goes on
pub record Turn : Type 0 where
  pub answer : List String
  pub session : Pop3Session
  pub store : MailStore
  pub goes_on : Bool

-- a handler that leaves the store as it is
abbrev stays : MailStore → List String × Pop3Session → Turn
stays s (answer, sess) = record { answer = answer; session = sess; store = s; goes_on = true }

-- the cases of the switch in handleConnection
pub data Verb : Type 0 where
  user_cmd pass_cmd stat_cmd list_cmd uidl_cmd retr_cmd : Verb
  dele_cmd noop_cmd rset_cmd quit_cmd other_cmd : Verb

unfoldable pub verb : String → Verb
verb cmd =
    if cmd == "USER"
    then user_cmd
    else if cmd == "PASS"
    then pass_cmd
    else if cmd == "STAT"
    then stat_cmd
    else if cmd == "LIST"
    then list_cmd
    else if cmd == "UIDL"
    then uidl_cmd
    else if cmd == "RETR"
    then retr_cmd
    else if cmd == "DELE"
    then dele_cmd
    else if cmd == "NOOP"
    then noop_cmd
    else if cmd == "RSET"
    then rset_cmd
    else if cmd == "QUIT"
    then quit_cmd
    else other_cmd

unfoldable pub dispatch : Pop3Env → MailStore → Pop3Session → Verb → String → Turn
unfolding handle_stat handle_list handle_uidl handle_retr
dispatch env s sess user_cmd arg = stays s (handle_user sess arg)
dispatch env s sess pass_cmd arg = stays s (handle_pass env s.db sess arg)
dispatch env s sess stat_cmd arg = stays s (handle_stat sess, sess)
dispatch env s sess list_cmd arg = stays s (handle_list sess arg, sess)
dispatch env s sess uidl_cmd arg = stays s (handle_uidl sess arg, sess)
dispatch env s sess retr_cmd arg = stays s (handle_retr env s sess arg, sess)
dispatch env s sess dele_cmd arg = stays s (handle_dele sess arg)
dispatch env s sess noop_cmd arg = stays s ("+OK" ∷ [], sess)
dispatch env s sess rset_cmd arg = stays s (handle_rset sess)
dispatch env s sess quit_cmd arg =
    let (answer, s') = handle_quit env s sess in
    record { answer = answer; session = sess; store = s'; goes_on = false }
dispatch env s sess other_cmd arg = stays s ("-ERR unknown command" ∷ [], sess)

-- the command and the rest of a line
unfoldable pub command : String → Verb × String
command line = elim (cut b' ' line) [
  | none ↦ (verb (to_upper line), "")
  | some (cmd, arg) ↦ (verb (to_upper cmd), arg)
]

-- one round of the loop in handleConnection
unfoldable pub handle_line : Pop3Env → MailStore → Pop3Session → String → Turn
handle_line env s sess line =
    if trim_space line == ""
    then stays s ([], sess)
    else (let (cmd, arg) = command (trim_space line) in dispatch env s sess cmd arg)

-- the session over its lines, up to QUIT or the end of the input
unfoldable pub handle_lines :
    Pop3Env → MailStore → Pop3Session → List String → Pop3Session × MailStore
handle_lines env s sess [] = (sess, s)
handle_lines env s sess (line ∷ rest) =
    let turn = handle_line env s sess line in
    let more = handle_lines env turn.store turn.session rest in
    if turn.goes_on then more else (turn.session, turn.store)
