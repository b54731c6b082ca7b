-- ===== src/Imap/Login.antt =====
-- What an IMAP session can do without a login.
use mathlib.Core.List.{Memᴰ}
use bdsmail.Base.{
  Bool-cases, List, Option, Option-cases, String, [], ap, false, inl, inr, none, refl, some, subst,
  trim_space, true, ◌==◌, ◌∙◌, ◌∷◌, ◌≡◌, ◌⊎◌,
}
use bdsmail.Model.{Message, User}
use bdsmail.Db.{Db, get_user_by_email}
use bdsmail.Store.{MailStore}
use bdsmail.Imap.Parse.{parse_imap_args, unquote}
use bdsmail.Imap.Session.{
  ImapEnv, ImapSession, handle_fetch, handle_login, handle_select, login_as, login_with, no_mailbox,
  tagged,
}
use bdsmail.Imap.Commands.{
  ImapTurn, ImapVerb, capability, close, examine, expunge, fetch, handle_close, handle_imap_line,
  handle_imap_lines, handle_store, imap_command, imap_dispatch, list_folders, login, logout, noop,
  search, select, store_verb, unsupported,
}

-- a session in which nobody has logged in
pub record IsFresh (sess : ImapSession) : Type 0 where
  pub not_authed : sess.authed ≡ false
  pub no_messages : sess.messages ≡ []

-- arguments of LOGIN that name a user of the database and give a password that fits the user's hash
pub record GivesPassword (env : ImapEnv) (db : Db) (args : String) : Type 0 where
  pub user_part : String
  pub password_part : String
  pub more : List String
  pub parts : parse_imap_args args ≡ user_part ∷ (password_part ∷ more)
  pub user : User
  pub found : get_user_by_email db (unquote user_part) ≡ some user
  pub checked : env.check_password user.password_hash (unquote password_part) ≡ true

-- a line that is such a LOGIN
pub record LogsIn (env : ImapEnv) (db : Db) (line : String) : Type 0 where
  pub tag : String
  pub args : String
  pub is_login : imap_command (trim_space line) ≡ some (tag, login, args)
  pub gives : GivesPassword env db args

login_as-outcome :
    (env : ImapEnv) (db : Db) (sess : ImapSession) (tag args user_part password_part : String)
    (more : List String) (found : Option User)
    → parse_imap_args args ≡ user_part ∷ (password_part ∷ more)
    → get_user_by_email db (unquote user_part) ≡ found
    → IsFresh sess
    → IsFresh (login_as env sess tag (unquote password_part) found).1 ⊎ GivesPassword env db args
unfolding login_as
login_as-outcome env db sess tag args user_part password_part more none p e f = inl f
login_as-outcome env db sess tag args user_part password_part more (some user) p e f =
    elim (Bool-cases (env.check_password user.password_hash (unquote password_part))) [
      | inl k ↦ inr (record {
        user_part = user_part;
        password_part = password_part;
        more = more;
        parts = p;
        user = user;
        found = e;
        checked = k;
      })
      | inr k ↦ inl (rw k f)
    ]

login_with-outcome :
    (env : ImapEnv) (db : Db) (sess : ImapSession) (tag args : String) (parts : List String)
    → parse_imap_args args ≡ parts
    → IsFresh sess
    → IsFresh (login_with env db sess tag parts).1 ⊎ GivesPassword env db args
unfolding login_with
login_with-outcome env db sess tag args [] p f = inl f
login_with-outcome env db sess tag args (user_part ∷ []) p f = inl f
login_with-outcome env db sess tag args (user_part ∷ (password_part ∷ more)) p f =
    login_as-outcome env db sess tag args user_part password_part more
      (get_user_by_email db (unquote user_part)) p refl f

handle_login-outcome :
    (env : ImapEnv) (db : Db) (sess : ImapSession) (tag args : String)
    → IsFresh sess
    → IsFresh (handle_login env db sess tag args).1 ⊎ GivesPassword env db args
unfolding handle_login
handle_login-outcome env db sess tag args f =
    login_with-outcome env db sess tag args (parse_imap_args args) refl f

handle_select-refused :
    (db : Db) (sess : ImapSession) (tag args : String)
    → sess.authed ≡ false
    → handle_select db sess tag args ≡ (tagged tag "NO not authenticated", sess)
unfolding handle_select
handle_select-refused db sess tag args h = simp h

handle_fetch-refused :
    (env : ImapEnv) (s : MailStore) (sess : ImapSession) (tag args : String)
    → sess.authed ≡ false
    → handle_fetch env s sess tag args ≡ (tagged tag "NO no mailbox selected", s)
unfolding handle_fetch no_mailbox
handle_fetch-refused env s sess tag args h = simp h

handle_store-refused :
    (s : MailStore) (sess : ImapSession) (tag args : String)
    → sess.authed ≡ false
    → handle_store s sess tag args ≡ (tagged tag "NO no mailbox selected", s, sess)
unfolding handle_store no_mailbox
handle_store-refused s sess tag args h = simp h

-- what a line or a command leaves of a session in which nobody had logged in
abbrev Outcome : Type 0 → MailStore → ImapTurn → Type 0
Outcome Gives s t = (t.store ≡ s) × (IsFresh t.session ⊎ Gives)

abbrev Login : ImapEnv → Db → ImapVerb → String → Type 0
Login env db cmd args = (cmd ≡ login) × GivesPassword env db args

close_same : (s : MailStore) (msgs : List Message) → msgs ≡ [] → expunge s msgs ≡ s
unfolding expunge
close_same s msgs e = ap (λ (l : List Message). expunge s l) e

dispatch-outcome :
    (env : ImapEnv) (s : MailStore) (sess : ImapSession) (tag : String) (cmd : ImapVerb)
    (args : String)
    → IsFresh sess
    → Outcome (Login env s.db cmd args) s (imap_dispatch env s sess tag cmd args)
unfolding imap_dispatch handle_close
dispatch-outcome env s sess tag capability args f = (refl, inl f)
dispatch-outcome env s sess tag login args f = (
  refl,
  elim (handle_login-outcome env s.db sess tag args f) [ inl k ↦ inl k | inr g ↦ inr (refl, g) ],
)
dispatch-outcome env s sess tag list_folders args f = (refl, inl f)
dispatch-outcome env s sess tag select args f =
    rw (handle_select-refused s.db sess tag args f.not_authed) (refl, inl f)
dispatch-outcome env s sess tag examine args f =
    rw (handle_select-refused s.db sess tag args f.not_authed) (refl, inl f)
dispatch-outcome env s sess tag fetch args f =
    rw (handle_fetch-refused env s sess tag args f.not_authed) (refl, inl f)
dispatch-outcome env s sess tag store_verb args f =
    rw (handle_store-refused s sess tag args f.not_authed) (refl, inl f)
dispatch-outcome env s sess tag search args f = (refl, inl f)
dispatch-outcome env s sess tag noop args f = (refl, inl f)
dispatch-outcome env s sess tag logout args f = (refl, inl f)
dispatch-outcome env s sess tag close args f = (
  close_same s sess.messages f.no_messages,
  inl (record { not_authed = f.not_authed; no_messages = refl }),
)
dispatch-outcome env s sess tag unsupported args f = (refl, inl f)

handle_imap_line-outcome :
    (env : ImapEnv) (s : MailStore) (sess : ImapSession) (line : String)
    → IsFresh sess
    → Outcome (LogsIn env s.db line) s (handle_imap_line env s sess line)
unfolding handle_imap_line
handle_imap_line-outcome env s sess line f = elim (Bool-cases (trim_space line == "")) [
  | inl e ↦ rw e (refl, inl f)
  | inr e ↦ elim (Option-cases (imap_command (trim_space line))) [
    | inl k ↦ rw (e, k) (refl, inl f)
    | inr ((tag, cmd, args), k) ↦
        let (same, after) = dispatch-outcome env s sess tag cmd args f in
        rw (e, k)
          (
            same,
            elim after [
              | inl fresh ↦ inl fresh
              | inr (is_login, g) ↦ inr (record {
                tag = tag;
                args = args;
                is_login = k ∙ ap (λ v. some (tag, v, args)) is_login;
                gives = g;
              })
            ],
          )
  ]
]

abbrev pub SomeLogsIn : ImapEnv → Db → List String → Type 0
SomeLogsIn env db lines = (line : String) × Memᴰ line lines × LogsIn env db line

onward :
    (env : ImapEnv) (s between end : MailStore) (line : String) (rest : List String)
    → between ≡ s
    → (end ≡ between) ⊎ SomeLogsIn env between.db rest
    → (end ≡ s) ⊎ SomeLogsIn env s.db (line ∷ rest)
onward env s between end line rest e (inl k) = inl (k ∙ e)
onward env s between end line rest e (inr (later, m, g)) =
    inr (later, Memᴰ.tail m, subst (λ (x : MailStore). LogsIn env x.db later) e g)

-- Whatever lines a client sends in an IMAP session in which nobody has logged in, mail is touched
-- only if one of the lines is a LOGIN whose arguments name a user of the database and give a password
-- that fits the user's hash.
pub handle_imap_lines-needs_login :
    (env : ImapEnv) (s : MailStore) (sess : ImapSession) (lines : List String)
    → IsFresh sess
    → ((handle_imap_lines env s sess lines).1 ≡ s) ⊎ SomeLogsIn env s.db lines
unfolding handle_imap_lines
handle_imap_lines-needs_login env s sess [] f = inl refl
handle_imap_lines-needs_login env s sess (line ∷ rest) f =
    let t = handle_imap_line env s sess line in
    let (same, after) = handle_imap_line-outcome env s sess line f in
    elim after [
      | inr g ↦ inr (line, Memᴰ.head refl, g)
      | inl k ↦ elim (Bool-cases t.goes_on) [
        | inl e ↦ rw e (
            onward env s t.store (handle_imap_lines env t.store t.session rest).1 line rest same
              (handle_imap_lines-needs_login env t.store t.session rest k))
        | inr e ↦ rw e (inl same)
      ]
    ]
