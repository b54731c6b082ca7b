-- ===== src/Imap/Expunge.antt =====
-- What CLOSE deletes.
use bdsmail.Base.{
  Bool-cases, List, String, [], any, ap, arith, false, if◌then◌else◌, inl, inr, none, refl, true,
  ◌&&◌, ◌==◌, ◌∙◌, ◌∷◌, ◌≡◌,
}
use bdsmail.Model.{Message}
use bdsmail.Db.{Db, get_message}
use bdsmail.Store.{MailStore, delete_message_full}
use bdsmail.Store.Deletion.{after_deletion, either_gone, one_gone}
use bdsmail.Imap.Session.{ImapSession, no_mailbox}
use bdsmail.Imap.Commands.{expunge, handle_close}

-- one step of the loop
step_gone :
    (s : MailStore) (m : Message) (id : String)
    → s.db.down ≡ false
    → (get_message (if m.deleted then (delete_message_full s m.id).1 else s).db id
        ≡ (if m.deleted && m.id == id then none else get_message s.db id))
      × ((if m.deleted then (delete_message_full s m.id).1 else s).db.down ≡ false)
step_gone s m id up = elim (Bool-cases m.deleted) [
  | inl e ↦ rw e (one_gone s m.id id up, ap (λ (db : Db). db.down) (after_deletion s m.id up) ∙ up)
  | inr e ↦ rw e (refl, up)
]

expunge_lem :
    (s : MailStore) (msgs : List Message) (id : String)
    → s.db.down ≡ false
    → get_message (expunge s msgs).db id
      ≡ (if any (λ m. m.deleted && m.id == id) msgs then none else get_message s.db id)
unfolding expunge any
expunge_lem s [] id up = refl
expunge_lem s (m ∷ rest) id up =
    let s' : MailStore = if m.deleted then (delete_message_full s m.id).1 else s in
    let (gone, up') = step_gone s m id up in
    either_gone (m.deleted && m.id == id) (any (λ x. x.deleted && x.id == id) rest)
      (get_message s.db id) (get_message s'.db id) (get_message (expunge s' rest).db id) gone
      (expunge_lem s' rest id up')

-- While the database answers, CLOSE deletes exactly the messages that carry the \Deleted mark in the
-- session: these can no longer be read, and all others are as before. No mailbox is selected then.
pub handle_close_lem :
    (s : MailStore) (sess : ImapSession) (tag id : String)
    → s.db.down ≡ false
    → (get_message (handle_close s sess tag).1.db id
        ≡ (if any (λ m. m.deleted && m.id == id) sess.messages then none else get_message s.db id))
      × (no_mailbox (handle_close s sess tag).2 ≡ true)
unfolding handle_close no_mailbox
handle_close_lem s sess tag id up = (expunge_lem s sess.messages id up, ground arith)
