-- ===== src/Store/Cooldown.antt =====
-- Correctness of the vacation replies: when one is sent, and that it is not sent again too soon.
use bdsmail.Base.{
  Bool, List, Option, String, [], any, ap, arith, eq_refl, false, inl, inr, keep, ltb, nat_beq,
  none, not, refl, some, subst, true, ℕ, ◌&&◌, ◌++◌, ◌+◌, ◌<◌, ◌∙◌, ◌∷◌, ◌≡◌, ◌≤◌, ◌⊎◌,
}
use bdsmail.Model.{AutoReply}
use bdsmail.Db.{
  Db, get_auto_reply, has_auto_replied_recently, is_log_of, or_same, record_auto_reply_sent,
}
use bdsmail.Store.AutoReply.{
  OutgoingReply, cooldown, due_reply, is_automatic, process_auto_reply, reply_mail, send_reply,
}

-- the code's conditions for a reply, as propositions
pub record IsDue (db : Db) (recipient sender : String) (now : ℕ) (reply : AutoReply) : Type 0 where
  pub found : get_auto_reply db recipient ≡ some reply
  pub is_on : reply.enabled ≡ true
  pub has_begun : (reply.start_date ≡ 0) ⊎ (reply.start_date ≤ now)
  pub has_not_ended : (reply.end_date ≡ 0) ⊎ (now ≤ reply.end_date)
  pub by_person : is_automatic sender ≡ false
  pub is_cool : has_auto_replied_recently db recipient sender cooldown now ≡ false

zero_or : (n : ℕ) (c : Bool) → (not (nat_beq n 0) && c) ≡ false → (n ≡ 0) ⊎ (c ≡ false)
zero_or n c h = ground (arith, h)

at_least : (n m : ℕ) → (n ≡ 0) ⊎ (ltb m n ≡ false) → (n ≡ 0) ⊎ (n ≤ m)
at_least n m (inl h) = inl h
at_least n m (inr h) = inr (ground (arith, h))

at_most : (n m : ℕ) → (n ≡ 0) ⊎ (ltb n m ≡ false) → (n ≡ 0) ⊎ (m ≤ n)
at_most n m (inl h) = inl h
at_most n m (inr h) = inr (ground (arith, h))

due_reply_sound :
    (db : Db) (recipient sender : String) (now : ℕ) (found : Option AutoReply) (reply : AutoReply)
    → get_auto_reply db recipient ≡ found
    → due_reply db recipient sender now found ≡ some reply
    → IsDue db recipient sender now reply
unfolding due_reply
due_reply_sound db recipient sender now none reply e h = ground (arith, h)
due_reply_sound db recipient sender now (some r) reply e h =
    let same : r ≡ reply = ground (arith, h) in
    subst (λ x. IsDue db recipient sender now x) same
      (record {
        found = e;
        is_on = ground (arith, h);
        has_begun =
            at_least r.start_date now
              (zero_or r.start_date (ltb now r.start_date) (ground (arith, h)));
        has_not_ended =
            at_most r.end_date now (zero_or r.end_date (ltb r.end_date now) (ground (arith, h)));
        by_person = ground (arith, h);
        is_cool = ground (arith, h);
      })

send_reply_sound :
    (relay : Option (OutgoingReply → Bool)) (db : Db) (recipient sender : String) (now : ℕ)
    (due : Option AutoReply) (mail : OutgoingReply)
    → (send_reply relay db recipient sender now due).0 ≡ some mail
    → (reply : AutoReply) × (due ≡ some reply) × (mail ≡ reply_mail recipient sender reply)
unfolding send_reply
send_reply_sound relay db recipient sender now none mail h = ground (arith, h)
send_reply_sound none db recipient sender now (some reply) mail h = ground (arith, h)
send_reply_sound (some sends) db recipient sender now (some reply) mail h =
    (reply, refl, ground (arith, h))

-- A mail that goes to the relay answers the sender in the recipient's name with the text of the
-- recipient's stored reply, and that reply is enabled, inside its dates, not to an automatic
-- sender, and not inside the cooldown of an earlier one.
reply-IsDue :
    (relay : Option (OutgoingReply → Bool)) (db : Db) (recipient sender : String) (now : ℕ)
    (mail : OutgoingReply)
    → (process_auto_reply relay db recipient sender now).0 ≡ some mail
    → (reply : AutoReply) × IsDue db recipient sender now reply
      × (mail ≡ reply_mail recipient sender reply)
unfolding process_auto_reply
reply-IsDue relay db recipient sender now mail h =
    let (reply, due, e) =
      send_reply_sound relay db recipient sender now
        (due_reply db recipient sender now (get_auto_reply db recipient)) mail h in
    (reply, due_reply_sound db recipient sender now (get_auto_reply db recipient) reply refl due, e)

any-append {ℓ} :
    {A : Type ℓ} (p : A → Bool) (xs : List A) (y : A) → p y ≡ true → any p (xs ++ y ∷ []) ≡ true
unfolding any
any-append p [] y h = ground (arith, h)
any-append p (x ∷ xs) y h = ground (arith, any-append p xs y h)

-- what is recorded counts until the cooldown is over
recorded_recently :
    (db : Db) (recipient sender : String) (now later : ℕ)
    → later < now + cooldown
    → db.down ≡ false
    → has_auto_replied_recently
        (or_same db (record_auto_reply_sent db recipient sender now))
        recipient
        sender
        cooldown
        later
      ≡ true
unfolding has_auto_replied_recently record_auto_reply_sent
recorded_recently db recipient sender now later h up = rw up (
    any-append (λ l. is_log_of recipient sender l && ltb later (l.sent_at + cooldown))
      (keep (λ l. not (is_log_of recipient sender l)) db.auto_reply_log)
      (record { user_email = recipient; sender_email = sender; sent_at = now })
      (ground (arith, eq_refl recipient, eq_refl sender)))

get_auto_reply-up :
    (db : Db) (user : String) (reply : AutoReply)
    → get_auto_reply db user ≡ some reply
    → db.down ≡ false
unfolding get_auto_reply
get_auto_reply-up db user reply h = ground (arith, h)

not_due_again :
    (db : Db) (recipient sender : String) (now : ℕ) (found : Option AutoReply)
    → has_auto_replied_recently db recipient sender cooldown now ≡ true
    → due_reply db recipient sender now found ≡ none
unfolding due_reply
not_due_again db recipient sender now none h = refl
not_due_again db recipient sender now (some r) h = ground (arith, h)

send_reply_records :
    (sends : OutgoingReply → Bool) (db : Db) (recipient sender : String) (now : ℕ)
    (due : Option AutoReply) (mail : OutgoingReply)
    → (send_reply (some sends) db recipient sender now due).0 ≡ some mail
    → sends mail ≡ true
    → (send_reply (some sends) db recipient sender now due).1
      ≡ or_same db (record_auto_reply_sent db recipient sender now)
unfolding send_reply
send_reply_records sends db recipient sender now none mail h ok = ground (arith, h)
send_reply_records sends db recipient sender now (some reply) mail h ok =
    let same : reply_mail recipient sender reply ≡ mail = ground (arith, h) in
    let accepted : sends (reply_mail recipient sender reply) ≡ true = ap sends same ∙ ok in
    ground (arith, accepted)

silent_again :
    (relay : Option (OutgoingReply → Bool)) (db : Db) (recipient sender : String) (now : ℕ)
    → has_auto_replied_recently db recipient sender cooldown now ≡ true
    → (process_auto_reply relay db recipient sender now).0 ≡ none
unfolding process_auto_reply send_reply
silent_again relay db recipient sender now h =
    rw (not_due_again db recipient sender now (get_auto_reply db recipient) h) refl

replied_records :
    (sends : OutgoingReply → Bool) (db : Db) (recipient sender : String) (now : ℕ)
    (mail : OutgoingReply)
    → (process_auto_reply (some sends) db recipient sender now).0 ≡ some mail
    → sends mail ≡ true
    → (process_auto_reply (some sends) db recipient sender now).1
      ≡ or_same db (record_auto_reply_sent db recipient sender now)
unfolding process_auto_reply
replied_records sends db recipient sender now mail h ok =
    send_reply_records sends db recipient sender now
      (due_reply db recipient sender now (get_auto_reply db recipient)) mail h ok

-- After a reply that the relay accepted, no later call within 24 hours sends the same sender another
-- reply, whatever the relay is then.
pub reply-only_once :
    (sends : OutgoingReply → Bool) (relay : Option (OutgoingReply → Bool)) (db : Db)
    (recipient sender : String) (now later : ℕ) (mail : OutgoingReply)
    → (process_auto_reply (some sends) db recipient sender now).0 ≡ some mail
    → sends mail ≡ true
    → later < now + cooldown
    → (process_auto_reply relay
        (process_auto_reply (some sends) db recipient sender now).1
        recipient
        sender
        later).0
      ≡ none
reply-only_once sends relay db recipient sender now later mail h ok near =
    let (reply, due, e) = reply-IsDue (some sends) db recipient sender now mail h in
    rw (replied_records sends db recipient sender now mail h ok) (
      silent_again relay (or_same db (record_auto_reply_sent db recipient sender now)) recipient
        sender later
        (recorded_recently db recipient sender now later near
          (get_auto_reply-up db recipient reply due.found)))
