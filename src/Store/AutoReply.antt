-- ===== src/Store/AutoReply.antt =====
-- Vacation replies (store.go). A time is in seconds, the zero time is 0.
use bdsmail.Base.{
  Bool, List, Option, String, [], any, contains, if◌then◌else◌, ltb, nat_beq, none, not, some,
  to_lower, ℕ, ◌&&◌, ◌*◌, ◌==◌, ◌∷◌,
}
use bdsmail.Model.{AutoReply}
use bdsmail.Db.{Db, get_auto_reply, has_auto_replied_recently, or_same, record_auto_reply_sent}

-- what `SendSimple` of the relay is called with
pub record OutgoingReply : Type 0 where
  pub from : String
  pub to : List String
  pub subject : String
  pub body : String

abbrev pub no_reply_marks : List String
no_reply_marks = "noreply" ∷ "no-reply" ∷ "donotreply" ∷ "do-not-reply" ∷ "mailer-daemon" ∷ []

unfoldable pub is_automatic : String → Bool
unfolding any
is_automatic sender_email = any (λ skip. contains (to_lower sender_email) skip) no_reply_marks

abbrev pub cooldown : ℕ
cooldown = 24 * 3600

-- the reply that is due, none where a test of the code returns early
unfoldable pub due_reply : Db → String → String → ℕ → Option AutoReply → Option AutoReply
due_reply db recipient sender now none = none
due_reply db recipient sender now (some reply) =
    if not reply.enabled
    then none
    else if not (nat_beq reply.start_date 0) && ltb now reply.start_date
    then none
    else if not (nat_beq reply.end_date 0) && ltb reply.end_date now
    then none
    else if is_automatic sender
    then none
    else if has_auto_replied_recently db recipient sender cooldown now
    then none
    else some reply

unfoldable pub reply_mail : String → String → AutoReply → OutgoingReply
reply_mail recipient sender reply = record {
  from = recipient;
  to = sender ∷ [];
  subject = if reply.subject == "" then "Auto-Reply" else reply.subject;
  body = reply.body;
}

-- `relay` is none where there is no relay, and else says whether a mail is sent. The result is what
-- the relay is called with, and the database.
unfoldable pub send_reply :
    Option (OutgoingReply → Bool)
    → Db
    → String
    → String
    → ℕ
    → Option AutoReply
    → Option OutgoingReply × Db
send_reply relay db recipient sender now none = (none, db)
send_reply none db recipient sender now (some reply) =
    (none, or_same db (record_auto_reply_sent db recipient sender now))
send_reply (some sends) db recipient sender now (some reply) =
    let mail = reply_mail recipient sender reply in
    if sends mail
    then (some mail, or_same db (record_auto_reply_sent db recipient sender now))
    else (some mail, db)

unfoldable pub process_auto_reply :
    Option (OutgoingReply → Bool) → Db → String → String → ℕ → Option OutgoingReply × Db
unfolding due_reply send_reply reply_mail is_automatic
process_auto_reply relay db recipient sender now =
    send_reply relay db recipient sender now
      (due_reply db recipient sender now (get_auto_reply db recipient))
