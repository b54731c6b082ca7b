-- ===== src/Imap/Flags.antt =====
-- What STORE writes to the database.
mod Updates
pub mod Named
use mathlib.Core.Path.{fun_ext}
use bdsmail.Base.{
  Bool, List, Option, Option-cases, String, [], ap, arith, cut, false, first, get_elem?, inl, inr,
  length, negsuc, none, pos, refl, set, some, subst, sym, update, ℕ, ℤ, ◌==◌, ◌||◌, ◌∙◌, ◌∷◌, ◌≡◌,
}
use bdsmail.Model.{Message}
use bdsmail.Db.{Db}
use bdsmail.Store.{MailStore}
use bdsmail.Imap.Parse.{parse_sequence_set}
use bdsmail.Imap.Session.{ImapSession, message_at, no_mailbox}
use bdsmail.Imap.Commands.{flagged, handle_store, names_deleted, names_seen, store_all, store_flags}
use bdsmail.Imap.Flags.Named.{
  Rows, flagged_twice, is_named, is_named-flagged, is_named-set, is_row_of, store_flags-Rows,
}
use bdsmail.Imap.Flags.Updates.{update-update_or, update_none}

message_at-found :
    (msgs : List Message) (index : ℤ) (i : ℕ) (m : Message)
    → message_at msgs index ≡ some (i, m)
    → get_elem? msgs i ≡ some m
unfolding message_at
message_at-found msgs (negsuc n) i m e = ground (arith, e)
message_at-found msgs (pos j) i m e = elim (Option-cases (get_elem? msgs j)) [
  | inl k ↦ absurd (ground (arith, e, k))
  | inr (x, k) ↦
      let same : j ≡ i = ground (arith, e, k) in
      let same_message : x ≡ m = ground (arith, e, k) in
      subst (λ n. get_elem? msgs n ≡ some m) same (k ∙ ap some same_message)
]

module _ (seen deleted : Bool) (db : Db) (msgs : List Message) (index : ℤ) (rest : List ℤ) where
  store_all_passed :
      message_at msgs index ≡ none
      → (store_all seen deleted db msgs (index ∷ rest)).1 ≡ (store_all seen deleted db msgs rest).1
  unfolding store_all
  store_all_passed e = rw e refl

  store_all_found :
      (i : ℕ) (m : Message)
      → message_at msgs index ≡ some (i, m)
      → (store_all seen deleted db msgs (index ∷ rest)).1
        ≡ (store_all seen deleted
            (store_flags db m.id seen deleted)
            (set msgs i (flagged seen deleted m))
            rest).1
  unfolding store_all
  store_all_found i m e = rw e refl

  -- the messages that an index and the rest name
  named_more :
      (found : Option (ℕ × Message))
      → message_at msgs index ≡ found
      → (λ r. is_row_of found r || is_named msgs rest r) ≡ is_named msgs (index ∷ rest)
  named_more found e = fun_ext (λ (r : Message). λ k. is_row_of (sym e k) r || is_named msgs rest r)

store_all-Rows :
    (seen deleted : Bool) (db : Db) (msgs : List Message) (indices : List ℤ)
    → db.down ≡ false
    → Rows
        (store_all seen deleted db msgs indices).1
        (update (is_named msgs indices) (flagged seen deleted) db.mail_content)
store_all-Rows seen deleted db msgs [] up =
    unfold store_all in (sym (update_none (flagged seen deleted) db.mail_content), up)
store_all-Rows seen deleted db msgs (index ∷ rest) up =
    elim (Option-cases (message_at msgs index)) [
      | inl e ↦
          let (rows, up') = store_all-Rows seen deleted db msgs rest up in
          let same = store_all_passed seen deleted db msgs index rest e in
          let named = named_more seen deleted db msgs index rest none e in
          (
            ap (λ (d : Db). d.mail_content) same
                ∙ rows
                ∙ (λ k. update (named k) (flagged seen deleted) db.mail_content),
            ap (λ (d : Db). d.down) same ∙ up',
          )
      | inr ((i, m), e) ↦
          let db' = store_flags db m.id seen deleted in
          let msgs' = set msgs i (flagged seen deleted m) in
          let here = message_at-found msgs index i m e in
          let (rows, up') = store_flags-Rows db m.id seen deleted up in
          let (rows', up'') = store_all-Rows seen deleted db' msgs' rest up' in
          let same = store_all_found seen deleted db msgs index rest i m e in
          let named = fun_ext (λ (r : Message). is_named-set msgs i seen deleted m rest r here) in
          let more = named_more seen deleted db msgs index rest (some (i, m)) e in
          (
            ap (λ (d : Db). d.mail_content) same
                ∙ rows'
                ∙ (λ k. update (named k) (flagged seen deleted) (rows k))
                ∙ update-update_or (λ r. r.id == m.id) (is_named msgs rest) (flagged seen deleted)
                    db.mail_content (flagged_twice seen deleted)
                    (is_named-flagged msgs seen deleted rest)
                ∙ (λ k. update (more k) (flagged seen deleted) db.mail_content),
            ap (λ (d : Db). d.down) same ∙ up'',
          )
    ]

-- A STORE with the arguments `seq_set action flags_str` in a selected mailbox, while the database
-- answers: the rows of the messages that the sequence set names get \Seen and \Deleted where the text
-- of the flags names them, every other row stays as it was, and no flag is ever taken away, whatever
-- the action is.
pub handle_store_lem :
    (s : MailStore) (sess : ImapSession) (tag args seq_set rest action flags_str : String)
    → s.db.down ≡ false
    → no_mailbox sess ≡ false
    → cut b' ' args ≡ some (seq_set, rest)
    → cut b' ' rest ≡ some (action, flags_str)
    → (handle_store s sess tag args).1.db.mail_content
      ≡ update
          (is_named sess.messages (parse_sequence_set seq_set (length sess.messages)))
          (flagged (names_seen flags_str) (names_deleted flags_str))
          s.db.mail_content
unfolding handle_store
handle_store_lem s sess tag args seq_set rest action flags_str up mailbox first second =
    let (rows, up') =
      store_all-Rows (names_seen flags_str) (names_deleted flags_str) s.db sess.messages
        (parse_sequence_set seq_set (length sess.messages)) up in
    rw (mailbox, first, second) rows
