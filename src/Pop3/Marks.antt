-- ===== src/Pop3/Marks.antt =====
-- Which messages a POP3 session deletes: DELE marks, RSET, and what QUIT makes of the marks.
use bdsmail.Base.{
  Bool, Bool-cases, List, Option, Option-cases, String, [], ap, arith, cut, eq_iff, false,
  false≢true, get_elem?, get_elem?_below, inl, inr, length, nat_beq, negsuc, none, pos, refl, some,
  sym, to_upper, trim_space, true, ℕ, ℤ, ◌&&◌, ◌++◌, ◌<◌, ◌==◌, ◌||◌, ◌∙◌, ◌∷◌, ◌≡◌,
}
use bdsmail.Store.{MailStore}
use bdsmail.Pop3.{
  Pop3Env, Pop3Session, Turn, Verb, command, dele_cmd, dispatch, handle_dele, handle_line,
  handle_rset, handle_user, has_index, list_cmd, named, noop_cmd, other_cmd, parse_index, pass_cmd,
  quit_cmd, retr_cmd, rset_cmd, stat_cmd, uidl_cmd, user_cmd, verb,
}
use bdsmail.Model.{Message}

abbrev pub is_index : ℤ → ℕ → Bool
is_index (negsuc n) i = false
is_index (pos j) i = nat_beq j i

-- the mark of the message `i` after a command, from the mark before it
abbrev pub mark_after : ℕ → Bool → Verb × String → Bool
mark_after i mark (rset_cmd, arg) = false
mark_after i mark (dele_cmd, arg) = is_index (parse_index arg) i || mark
mark_after i mark (cmd, arg) = mark

abbrev pub mark_by : ℕ → Bool → List String → Bool
mark_by i mark [] = mark
mark_by i mark (line ∷ rest) = mark_by i (mark_after i mark (command (trim_space line))) rest

-- a command that neither logs in again nor ends the session
abbrev pub is_plain : Verb → Bool
is_plain pass_cmd = false
is_plain quit_cmd = false
is_plain cmd = true

abbrev pub are_plain : List String → Bool
are_plain [] = true
are_plain (line ∷ rest) = is_plain (command (trim_space line)).0 && are_plain rest

has_index-append :
    (i k : ℕ) (ks : List ℕ) → has_index i (ks ++ k ∷ []) ≡ (has_index i ks || nat_beq k i)
has_index-append i k [] = ground arith
has_index-append i k (x ∷ ks) = ground (arith, has_index-append i k ks)

at_same : (msgs : List Message) (j i : ℕ) → nat_beq j i ≡ true → get_elem? msgs j ≡ get_elem? msgs i
at_same msgs j i d = ap (λ (n : ℕ). get_elem? msgs n) (ground (arith, d))

marked_same : (ks : List ℕ) (j i : ℕ) → nat_beq j i ≡ true → has_index j ks ≡ has_index i ks
marked_same ks j i d = ap (λ (n : ℕ). has_index n ks) (ground (arith, d))

nothing : {m : Message} → ◌≡◌ {A = Option Message} none (some m) → ⊥
nothing e = ground (arith, e)

-- DELE marks the message that the argument names, and no other
handle_dele-mark :
    (sess : Pop3Session) (arg : String) (i : ℕ) (index : ℤ)
    → parse_index arg ≡ index
    → sess.authed ≡ true
    → i < length sess.messages
    → has_index i (handle_dele sess arg).1.deleted ≡ (is_index index i || has_index i sess.deleted)
unfolding handle_dele named
handle_dele-mark sess arg i (negsuc n) e on h = ground (arith, e, on)
handle_dele-mark sess arg i (pos j) e on h =
    let (m, found) = get_elem?_below sess.messages i h in
    elim (Option-cases (get_elem? sess.messages j)) [
      | inl gone ↦
          let other : nat_beq j i ≡ false = elim (Bool-cases (nat_beq j i)) [
            | inr d ↦ d
            | inl d ↦ absurd (nothing (sym gone ∙ at_same sess.messages j i d ∙ found))
          ] in
          ground (arith, e, on, gone, other)
      | inr (x, there) ↦ elim (Bool-cases (has_index j sess.deleted)) [
        | inl k ↦ ground (arith, e, on, there, k, marked_same sess.deleted j i)
        | inr k ↦ ground (arith, e, on, there, k, has_index-append i j sess.deleted)
      ]
    ]

-- a plain command of a logged-in session leaves all but the marks as it is
pub record IsPlain (s : MailStore) (sess : Pop3Session) (turn : Turn) : Type 0 where
  pub same_store : turn.store ≡ s
  pub same_messages : turn.session.messages ≡ sess.messages
  pub same_authed : turn.session.authed ≡ sess.authed
  pub goes_on : turn.goes_on ≡ true

nothing_changed :
    (s : MailStore) (sess : Pop3Session) (turn : Turn)
    → turn.store ≡ s
    → turn.session.messages ≡ sess.messages
    → turn.session.authed ≡ sess.authed
    → turn.goes_on ≡ true
    → IsPlain s sess turn
nothing_changed s sess turn a b c d = record {
  same_store = a;
  same_messages = b;
  same_authed = c;
  goes_on = d;
}

handle_dele-same :
    (sess : Pop3Session) (arg : String)
    → ((handle_dele sess arg).1.messages ≡ sess.messages)
      × ((handle_dele sess arg).1.authed ≡ sess.authed)
unfolding handle_dele
handle_dele-same sess arg = (ground arith, ground arith)

module _ (env : Pop3Env) (s : MailStore) (sess : Pop3Session) where
  dispatch-IsPlain :
      (cmd : Verb) (arg : String)
      → is_plain cmd ≡ true
      → IsPlain s sess (dispatch env s sess cmd arg)
  unfolding dispatch handle_user handle_rset
  dispatch-IsPlain user_cmd arg h =
      nothing_changed s sess (dispatch env s sess user_cmd arg) refl refl refl refl
  dispatch-IsPlain pass_cmd arg h = absurd (false≢true h)
  dispatch-IsPlain stat_cmd arg h =
      nothing_changed s sess (dispatch env s sess stat_cmd arg) refl refl refl refl
  dispatch-IsPlain list_cmd arg h =
      nothing_changed s sess (dispatch env s sess list_cmd arg) refl refl refl refl
  dispatch-IsPlain uidl_cmd arg h =
      nothing_changed s sess (dispatch env s sess uidl_cmd arg) refl refl refl refl
  dispatch-IsPlain retr_cmd arg h =
      nothing_changed s sess (dispatch env s sess retr_cmd arg) refl refl refl refl
  dispatch-IsPlain dele_cmd arg h =
      let (a, b) = handle_dele-same sess arg in
      nothing_changed s sess (dispatch env s sess dele_cmd arg) refl a b refl
  dispatch-IsPlain noop_cmd arg h =
      nothing_changed s sess (dispatch env s sess noop_cmd arg) refl refl refl refl
  dispatch-IsPlain rset_cmd arg h =
      nothing_changed s sess (dispatch env s sess rset_cmd arg) refl refl refl refl
  dispatch-IsPlain quit_cmd arg h = absurd (false≢true h)
  dispatch-IsPlain other_cmd arg h =
      nothing_changed s sess (dispatch env s sess other_cmd arg) refl refl refl refl

  dispatch-mark :
      (cmd : Verb) (arg : String) (i : ℕ)
      → sess.authed ≡ true
      → i < length sess.messages
      → is_plain cmd ≡ true
      → has_index i (dispatch env s sess cmd arg).session.deleted
        ≡ mark_after i (has_index i sess.deleted) (cmd, arg)
  unfolding dispatch handle_user handle_rset
  dispatch-mark user_cmd arg i on h p = refl
  dispatch-mark pass_cmd arg i on h p = absurd (false≢true p)
  dispatch-mark stat_cmd arg i on h p = refl
  dispatch-mark list_cmd arg i on h p = refl
  dispatch-mark uidl_cmd arg i on h p = refl
  dispatch-mark retr_cmd arg i on h p = refl
  dispatch-mark dele_cmd arg i on h p = handle_dele-mark sess arg i (parse_index arg) refl on h
  dispatch-mark noop_cmd arg i on h p = refl
  dispatch-mark rset_cmd arg i on h p = refl
  dispatch-mark quit_cmd arg i on h p = absurd (false≢true p)
  dispatch-mark other_cmd arg i on h p = refl

  pub handle_line-IsPlain :
      (line : String)
      → is_plain (command (trim_space line)).0 ≡ true
      → IsPlain s sess (handle_line env s sess line)
  unfolding handle_line
  handle_line-IsPlain line p = elim (Bool-cases (trim_space line == "")) [
    | inl e ↦
        rw e
          (record { same_store = refl; same_messages = refl; same_authed = refl; goes_on = refl })
    | inr e ↦ rw e (dispatch-IsPlain (command (trim_space line)).0 (command (trim_space line)).1 p)
  ]

blank_mark :
    (line : String) (i : ℕ) (mark : Bool)
    → (line == "") ≡ true
    → mark_after i mark (command line) ≡ mark
unfolding command cut to_upper verb
blank_mark line i mark e =
    let empty : line ≡ "" = ground (arith, e, eq_iff line "") in
    ap (λ (l : String). mark_after i mark (command l)) empty

module _ (env : Pop3Env) (s : MailStore) (sess : Pop3Session) where
  pub handle_line-mark :
      (line : String) (i : ℕ)
      → sess.authed ≡ true
      → i < length sess.messages
      → is_plain (command (trim_space line)).0 ≡ true
      → has_index i (handle_line env s sess line).session.deleted
        ≡ mark_after i (has_index i sess.deleted) (command (trim_space line))
  unfolding handle_line
  handle_line-mark line i on h p = elim (Bool-cases (trim_space line == "")) [
    | inl e ↦ rw (blank_mark (trim_space line) i (has_index i sess.deleted) e, e) refl
    | inr e ↦ rw e (
        dispatch-mark env s sess (command (trim_space line)).0 (command (trim_space line)).1 i on h
          p)
  ]
