-- ===== src/Pop3/Login.antt =====
-- What a POP3 session can do before and without a login.
use bdsmail.Base.{
  Bool-cases, List, Option-cases, String, [], arith, cut, eq_iff, false, inl, inr, refl, some,
  subst, sym, to_upper, trim_space, true, ◌==◌, ◌∙◌, ◌∷◌, ◌≡◌, ◌⊎◌,
}
use bdsmail.Model.{User}
use bdsmail.Db.{Db, get_user_by_email}
use bdsmail.Pop3.{
  Pop3Env, Pop3Session, Turn, Verb, command, dele_cmd, dispatch, handle_dele, handle_line,
  handle_lines, handle_pass, handle_quit, handle_rset, handle_user, list_cmd, noop_cmd, other_cmd,
  pass_cmd, quit_cmd, retr_cmd, rset_cmd, stat_cmd, uidl_cmd, user_cmd, verb,
}
use bdsmail.Store.{MailStore}

-- what holds of a session in which nobody has logged in
pub record IsFresh (sess : Pop3Session) : Type 0 where
  pub not_authed : sess.authed ≡ false
  pub no_messages : sess.messages ≡ []
  pub no_marks : sess.deleted ≡ []

-- the user name of a session after a command
abbrev pub name_after : String → Verb × String → String
name_after username (cmd, arg) = elim cmd [ user_cmd ↦ trim_space arg | _ ↦ username ]

-- a PASS whose password fits the hash that the database has for the user name
pub record GivesPassword (env : Pop3Env) (db : Db) (username : String) (command : Verb × String)
    : Type 0 where
  pub is_pass : command.0 ≡ pass_cmd
  pub user : User
  pub found : get_user_by_email db username ≡ some user
  pub checked : env.check_password user.password_hash (trim_space command.1) ≡ true

-- some line gives the password of the user whom the last USER before it names
abbrev pub LogsIn : Pop3Env → Db → String → List String → Type 0
LogsIn env db username [] = ⊥
LogsIn env db username (line ∷ rest) =
    GivesPassword env db username (command (trim_space line))
    ⊎ LogsIn env db (name_after username (command (trim_space line))) rest

-- nobody has logged in, and this is the user name
abbrev Waits : Pop3Session → String → Type 0
Waits sess username = IsFresh sess × (sess.username ≡ username)

handle_pass-outcome :
    (env : Pop3Env) (db : Db) (sess : Pop3Session) (password : String)
    → IsFresh sess
    → Waits (handle_pass env db sess password).1 sess.username
      ⊎ GivesPassword env db sess.username (pass_cmd, password)
unfolding handle_pass
handle_pass-outcome env db sess password f =
    elim (Option-cases (get_user_by_email db sess.username)) [
      | inl e ↦ inl (
        record {
          not_authed = ground (arith, e, f.not_authed);
          no_messages = ground (arith, e, f.no_messages);
          no_marks = ground (arith, e, f.no_marks);
        },
        ground (arith, e),
      )
      | inr (user, e) ↦
          elim (Bool-cases (env.check_password user.password_hash (trim_space password))) [
            | inl k ↦ inr (record { is_pass = refl; user = user; found = e; checked = k })
            | inr k ↦ inl (
              record {
                not_authed = ground (arith, e, k, f.not_authed);
                no_messages = ground (arith, e, k, f.no_messages);
                no_marks = ground (arith, e, k, f.no_marks);
              },
              ground (arith, e, k),
            )
          ]
    ]

-- DELE and RSET mark nothing
dele_refused : (sess : Pop3Session) (arg : String) → IsFresh sess → IsFresh (handle_dele sess arg).1
unfolding handle_dele
dele_refused sess arg f = record {
  not_authed = ground (arith, f.not_authed);
  no_messages = ground (arith, f.not_authed, f.no_messages);
  no_marks = ground (arith, f.not_authed, f.no_marks);
}

-- the session after a command, where nobody had logged in before it
abbrev Outcome : Pop3Env → MailStore → Pop3Session → Verb × String → Turn → Type 0
Outcome env s sess command turn =
    (turn.store ≡ s)
    × (Waits turn.session (name_after sess.username command)
        ⊎ GivesPassword env s.db sess.username command)

dispatch-Outcome :
    (env : Pop3Env) (s : MailStore) (sess : Pop3Session) (cmd : Verb) (arg : String)
    → IsFresh sess
    → Outcome env s sess (cmd, arg) (dispatch env s sess cmd arg)
unfolding dispatch handle_user handle_rset handle_quit handle_dele
dispatch-Outcome env s sess user_cmd arg f = (
  refl,
  inl (
    record { not_authed = f.not_authed; no_messages = f.no_messages; no_marks = f.no_marks },
    refl,
  ),
)
dispatch-Outcome env s sess pass_cmd arg f = (refl, handle_pass-outcome env s.db sess arg f)
dispatch-Outcome env s sess stat_cmd arg f = (refl, inl (f, refl))
dispatch-Outcome env s sess list_cmd arg f = (refl, inl (f, refl))
dispatch-Outcome env s sess uidl_cmd arg f = (refl, inl (f, refl))
dispatch-Outcome env s sess retr_cmd arg f = (refl, inl (f, refl))
dispatch-Outcome env s sess dele_cmd arg f =
    (refl, inl (dele_refused sess arg f, ground (arith, f.not_authed)))
dispatch-Outcome env s sess noop_cmd arg f = (refl, inl (f, refl))
dispatch-Outcome env s sess rset_cmd arg f = (
  refl,
  inl (record { not_authed = f.not_authed; no_messages = f.no_messages; no_marks = refl }, refl),
)
dispatch-Outcome env s sess quit_cmd arg f = (ground (arith, f.not_authed), inl (f, refl))
dispatch-Outcome env s sess other_cmd arg f = (refl, inl (f, refl))

no_name : (username : String) → name_after username (command "") ≡ username
unfolding command verb cut to_upper
no_name username = refl

handle_line-Outcome :
    (env : Pop3Env) (s : MailStore) (sess : Pop3Session) (line : String)
    → IsFresh sess
    → Outcome env s sess (command (trim_space line)) (handle_line env s sess line)
unfolding handle_line
handle_line-Outcome env s sess line f = elim (Bool-cases (trim_space line == "")) [
  | inl e ↦
      let blank : trim_space line ≡ "" = ground (arith, e, eq_iff (trim_space line) "") in
      rw e (refl, inl (f, rw blank (sym (no_name sess.username))))
  | inr e ↦
      rw e
        (dispatch-Outcome env s sess (command (trim_space line)).0 (command (trim_space line)).1 f)
]

onward :
    (env : Pop3Env) (s between end : MailStore) (username name : String) (lines : List String)
    → between ≡ s
    → username ≡ name
    → (end ≡ between) ⊎ LogsIn env between.db username lines
    → (end ≡ s) ⊎ LogsIn env s.db name lines
onward env s between end username name lines e n (inl k) = inl (k ∙ e)
onward env s between end username name lines e n (inr c) = inr (
    subst (λ (x : MailStore). LogsIn env x.db name lines) e
      (subst (λ x. LogsIn env between.db x lines) n c))

-- Whatever lines a client sends in a session in which nobody has logged in, mail is touched only if
-- one of the lines is a PASS with a password that fits the hash which the database has for the user
-- whom the last USER before it names, or the session where no USER was sent.
pub handle_lines-needs_login :
    (env : Pop3Env) (s : MailStore) (sess : Pop3Session) (lines : List String)
    → IsFresh sess
    → ((handle_lines env s sess lines).1 ≡ s) ⊎ LogsIn env s.db sess.username lines
unfolding handle_lines
handle_lines-needs_login env s sess [] f = inl refl
handle_lines-needs_login env s sess (line ∷ rest) f =
    let turn = handle_line env s sess line in
    let (same, after) = handle_line-Outcome env s sess line f in
    elim after [
      | inr gives ↦ inr (inl gives)
      | inl (fresh, name) ↦ elim (Bool-cases turn.goes_on) [
        | inl e ↦
            let end = (handle_lines env turn.store turn.session rest).1 in
            rw e
              (elim (onward env s turn.store end turn.session.username
                (name_after sess.username (command (trim_space line))) rest same name
                (handle_lines-needs_login env turn.store turn.session rest fresh)) [
                  | inl k ↦ inl k
                  | inr later ↦ inr (inr later)
                ])
        | inr e ↦ rw e (inl same)
      ]
    ]
