-- ===== src/Pop3/Expunge.antt =====
-- What QUIT deletes: exactly the messages that the session's lines have marked.
use bdsmail.Base.{
  Bool, List, Option, String, [], any, ap, arith, cut, false, get_elem?, if◌then◌else◌, length,
  nat_beq, none, refl, some, subst, suc, sym, to_upper, trim_space, true, zero, ℕ, ◌&&◌, ◌++◌, ◌+◌,
  ◌<◌, ◌==◌, ◌||◌, ◌∙◌, ◌∷◌, ◌≡◌, ◌≤◌,
}
use bdsmail.Model.{Message}
use bdsmail.Db.{Db, get_message}
use bdsmail.Store.{MailStore}
use bdsmail.Pop3.{
  Pop3Env, Pop3Session, command, delete_found, delete_marked, dispatch, handle_line, handle_lines,
  handle_quit, has_index, verb,
}
use bdsmail.Store.Deletion.{after_deletion, either_gone, one_gone}
use bdsmail.Pop3.Marks.{
  IsPlain, are_plain, handle_line-IsPlain, handle_line-mark, is_plain, mark_by,
}

-- the message with an index has an id
abbrev has_id : String → Option Message → Bool
has_id id none = false
has_id id (some m) = m.id == id

abbrev at_is : List Message → String → ℕ → Bool
at_is msgs id i = has_id id (get_elem? msgs i)

-- Of the messages, which are numbered from `i` on, some one that `p` holds of has the id.
abbrev pub some_with : (ℕ → Bool) → ℕ → List Message → String → Bool
some_with p i [] id = false
some_with p i (m ∷ rest) id = p i && m.id == id || some_with p (i + 1) rest id

some_with-ext :
    (p q : ℕ → Bool) (i : ℕ) (msgs : List Message) (id : String)
    → ((j : ℕ) → i ≤ j → j < i + length msgs → p j ≡ q j)
    → some_with p i msgs id ≡ some_with q i msgs id
some_with-ext p q i [] id h = refl
some_with-ext p q i (m ∷ rest) id h =
    let e = h i (omega arith) (omega arith) in
    let f =
      some_with-ext p q (i + 1) rest id (λ j a b. h j (omega (arith, a)) (omega (arith, b))) in
    λ k. e k && m.id == id || f k

some_with-or :
    (p q : ℕ → Bool) (i : ℕ) (msgs : List Message) (id : String)
    → some_with (λ j. p j || q j) i msgs id ≡ (some_with p i msgs id || some_with q i msgs id)
some_with-or p q i [] id = refl
some_with-or p q i (m ∷ rest) id = ground (arith, some_with-or p q (i + 1) rest id)

some_with-past :
    (k i : ℕ) (msgs : List Message) (id : String)
    → k < i
    → some_with (λ j. nat_beq k j) i msgs id ≡ false
some_with-past k i [] id h = refl
some_with-past k i (m ∷ rest) id h =
    ground (arith, some_with-past k (i + 1) rest id (omega (arith, h)))

some_with-at :
    (d i : ℕ) (msgs : List Message) (id : String)
    → some_with (λ j. nat_beq (i + d) j) i msgs id ≡ at_is msgs id d
some_with-at d i [] id = refl
some_with-at zero i (m ∷ rest) id =
    ground (arith, some_with-past (i + zero) (i + 1) rest id (omega arith))
some_with-at (suc d) i (m ∷ rest) id =
    let e : i + suc d ≡ (i + 1) + d = omega arith in
    ground (
      arith,
      ap (λ (n : ℕ). some_with (λ j. nat_beq n j) (i + 1) rest id) e,
      some_with-at d (i + 1) rest id,
    )

none_with : (i : ℕ) (msgs : List Message) (id : String) → some_with (λ j. false) i msgs id ≡ false
none_with i [] id = refl
none_with i (m ∷ rest) id = none_with (i + 1) rest id

any-some_with :
    (ks : List ℕ) (msgs : List Message) (id : String)
    → any (at_is msgs id) ks ≡ some_with (λ j. has_index j ks) 0 msgs id
unfolding any
any-some_with [] msgs id = sym (none_with 0 msgs id)
any-some_with (k ∷ ks) msgs id =
    let zero_plus : 0 + k ≡ k = omega arith in
    let e =
      ap (λ (n : ℕ). some_with (λ j. nat_beq n j) 0 msgs id) (sym zero_plus)
      ∙ some_with-at k 0 msgs id in
    let f = some_with-or (λ j. nat_beq k j) (λ j. has_index j ks) 0 msgs id in
    sym (f ∙ (λ i. e i || sym (any-some_with ks msgs id) i))

found_gone :
    (s : MailStore) (found : Option Message) (id : String)
    → s.db.down ≡ false
    → (get_message (delete_found s found).db id
        ≡ (if has_id id found then none else get_message s.db id))
      × ((delete_found s found).db.down ≡ false)
found_gone s none id up = (refl, up)
found_gone s (some m) id up =
    (one_gone s m.id id up, ap (λ (db : Db). db.down) (after_deletion s m.id up) ∙ up)

delete_marked_lem :
    (msgs : List Message) (ks : List ℕ) (s : MailStore) (id : String)
    → s.db.down ≡ false
    → get_message (delete_marked s msgs ks).db id
      ≡ (if any (at_is msgs id) ks then none else get_message s.db id)
unfolding delete_marked any
delete_marked_lem msgs [] s id up = refl
delete_marked_lem msgs (k ∷ ks) s id up =
    let s' = delete_found s (get_elem? msgs k) in
    let (gone, up') = found_gone s (get_elem? msgs k) id up in
    either_gone (at_is msgs id k) (any (at_is msgs id) ks) (get_message s.db id)
      (get_message s'.db id) (get_message (delete_marked s' msgs ks).db id) gone
      (delete_marked_lem msgs ks s' id up')

-- a session to which plain lines lead
record Led (sess sess' : Pop3Session) (lines : List String) : Type 0 where
  pub authed : sess'.authed ≡ true
  pub messages : sess'.messages ≡ sess.messages
  pub marks :
      (i : ℕ)
      → i < length sess.messages
      → has_index i sess'.deleted ≡ mark_by i (has_index i sess.deleted) lines

handle_lines-step :
    (env : Pop3Env) (s : MailStore) (sess : Pop3Session) (line : String) (rest : List String)
    → IsPlain s sess (handle_line env s sess line)
    → handle_lines env s sess (line ∷ rest)
      ≡ handle_lines env s (handle_line env s sess line).session rest
unfolding handle_lines
handle_lines-step env s sess line rest p = rw p.goes_on (
    ap (λ (x : MailStore). handle_lines env x (handle_line env s sess line).session rest)
      p.same_store)

session_marks :
    (env : Pop3Env) (s : MailStore) (sess : Pop3Session) (lines last : List String)
    → sess.authed ≡ true
    → are_plain lines ≡ true
    → (sess' : Pop3Session) × (handle_lines env s sess (lines ++ last)
        ≡ handle_lines env s sess' last)
      × Led sess sess' lines
session_marks env s sess [] last on p =
    (sess, refl, record { authed = on; messages = refl; marks = λ i h. refl })
session_marks env s sess (line ∷ rest) last on p =
    let here : is_plain (command (trim_space line)).0 ≡ true = ground (arith, p) in
    let turn = handle_line env s sess line in
    let k = handle_line-IsPlain env s sess line here in
    let (sess', same, led) =
      session_marks env s turn.session rest last (k.same_authed ∙ on) (ground (arith, p)) in
    (
      sess',
      handle_lines-step env s sess line (rest ++ last) k ∙ same,
      record {
        authed = led.authed;
        messages = led.messages ∙ k.same_messages;
        marks = λ i h.
            led.marks i (subst (λ (l : List Message). i < length l) (sym k.same_messages) h)
            ∙ ap (λ (b : Bool). mark_by i b rest) (handle_line-mark env s sess line i on h here);
      },
    )

quit_deletes :
    (env : Pop3Env) (s : MailStore) (sess : Pop3Session)
    → sess.authed ≡ true
    → (handle_lines env s sess ("QUIT" ∷ [])).1
      ≡ delete_marked s sess.messages (env.range sess.deleted)
unfolding handle_lines handle_line dispatch handle_quit command verb cut to_upper trim_space
quit_deletes env s sess on = ground (arith, on)

-- Take a logged-in session whose lines neither log in again nor end it, and then QUIT. While the
-- database answers, a message can no longer be read exactly where it is one of the session's messages
-- that is marked: by a DELE that names its number, with no RSET after it. All others are as before.
-- Go ranges over the marks in any order.
pub handle_lines-quit :
    (env : Pop3Env) (s : MailStore) (sess : Pop3Session) (lines : List String) (id : String)
    → ((p : ℕ → Bool) (ks : List ℕ) → any p (env.range ks) ≡ any p ks)
    → s.db.down ≡ false
    → sess.authed ≡ true
    → are_plain lines ≡ true
    → get_message (handle_lines env s sess (lines ++ "QUIT" ∷ [])).1.db id ≡ (
        if some_with (λ i. mark_by i (has_index i sess.deleted) lines) 0 sess.messages id
        then none
        else get_message s.db id)
handle_lines-quit env s sess lines id ranges up on p =
    let (sess', same, led) = session_marks env s sess lines ("QUIT" ∷ []) on p in
    let marked =
      ranges (at_is sess'.messages id) sess'.deleted
      ∙ any-some_with sess'.deleted sess'.messages id
      ∙ ap (λ (l : List Message). some_with (λ j. has_index j sess'.deleted) 0 l id) led.messages
      ∙ some_with-ext (λ j. has_index j sess'.deleted)
          (λ j. mark_by j (has_index j sess.deleted) lines) 0 sess.messages id
          (λ j a b. led.marks j (omega (arith, b))) in
    ap (λ (r : Pop3Session × MailStore). get_message r.1.db id) same
    ∙ ap (λ (x : MailStore). get_message x.db id) (quit_deletes env s sess' led.authed)
    ∙ delete_marked_lem sess'.messages (env.range sess'.deleted) s id up
    ∙ ap (λ (b : Bool). if b then none else get_message s.db id) marked
