-- ===== src/Store/Delivery.antt =====
-- Correctness of the delivery of an incoming message to its local recipients.
use bdsmail.Base.{
  Bool, Bool-cases, List, String, [], any, ap, arith, false, has, if◌then◌else◌, inl, inr, is_nil,
  length, none, not, refl, some, suc, sym, true, zero, ℕ, ◌&&◌, ◌++◌, ◌+◌, ◌==◌, ◌||◌, ◌∙◌, ◌∷◌,
  ◌≡◌,
}
use bdsmail.Model.{Attachment, Message}
use bdsmail.Db.{Db, or_same, save_attachment, save_message}
use bdsmail.Store.Resolve.{collect_local_recipients}
use bdsmail.Store.Save.{
  Env, Mail, MailStore, ParsedAttachment, deliver_all, keep_attachments, new_message,
  save_and_deliver, save_attachments, save_incoming_mail, save_metadata,
}
use mathlib.Core.List.{append_assoc, append-nil}

abbrev pub message_ids : List Message → List String
message_ids [] = []
message_ids (m ∷ rest) = m.id ∷ message_ids rest

-- the next `k` identifiers differ from each other and from those that are taken
abbrev pub are_fresh : Env → ℕ → ℕ → List String → Bool
are_fresh env next zero taken = true
are_fresh env next (suc k) taken =
    not (has (env.uuid next) taken) && are_fresh env (next + 1) k (taken ++ env.uuid next ∷ [])

-- the rows that a delivery adds, one for each recipient
abbrev pub copies : Env → ℕ → Mail → List String → String → ℕ → List Message
copies env next m [] folder now = []
copies env next m (r ∷ rest) folder now =
    new_message (env.uuid next) m [] r folder false now ∷ copies env (next + 1) m rest folder now

id_taken :
    (id : String) (rows : List Message) → any (λ r. r.id == id) rows ≡ has id (message_ids rows)
unfolding any has
id_taken id [] = refl
id_taken id (r ∷ rest) = ap (λ (b : Bool). (r.id == id) || b) (id_taken id rest)

ids-append :
    (rows : List Message) (m : Message)
    → message_ids (rows ++ m ∷ []) ≡ message_ids rows ++ m.id ∷ []
ids-append [] m = refl
ids-append (r ∷ rest) m = ap (λ (l : List String). r.id ∷ l) (ids-append rest m)

-- what storing attachments leaves alone
abbrev Spares : Db → Db → Type 0
Spares db db' = (db'.mail_content ≡ db.mail_content) × (db'.down ≡ db.down)

save_attachment-Spares : (db : Db) (a : Attachment) → Spares db (or_same db (save_attachment db a))
unfolding save_attachment
save_attachment-Spares db a =
    elim (Bool-cases (db.down || any (λ x. x.id == a.id) db.mail_attachment)) [
      | inl e ↦ rw e (refl, refl)
      | inr e ↦ rw e (refl, refl)
    ]

save_metadata-Spares :
    (env : Env) (db : Db) (id : String) (attachments : List Attachment)
    → Spares db (save_metadata env db id attachments)
unfolding save_metadata
save_metadata-Spares env db id [] = (refl, refl)
save_metadata-Spares env db id (a ∷ rest) =
    let att : Attachment = record a { mail_content_id = id } in
    let (p, q) = save_attachment-Spares db att in
    let (p', q') = save_metadata-Spares env (or_same db (save_attachment db att)) id rest in
    (p' ∙ p, q' ∙ q)

save_attachments-same :
    (env : Env) (s : MailStore) (id : String) (parsed : List ParsedAttachment)
    → ((save_attachments env s id parsed).1.db ≡ s.db)
      × ((save_attachments env s id parsed).1.next_id ≡ s.next_id)
unfolding save_attachments
save_attachments-same env s id parsed = elim (Bool-cases (not s.has_bucket || is_nil parsed)) [
  | inl e ↦ rw e (refl, refl)
  | inr e ↦ rw e (refl, refl)
]

keep_attachments-Spares :
    (env : Env) (s : MailStore) (id : String) (parsed : List ParsedAttachment)
    → Spares s.db (keep_attachments env s id parsed).db
      × ((keep_attachments env s id parsed).next_id ≡ s.next_id)
unfolding keep_attachments
keep_attachments-Spares env s id parsed =
    let (same, next) = save_attachments-same env s id parsed in
    let (p, q) =
      save_metadata-Spares env (save_attachments env s id parsed).1.db id
        (save_attachments env s id parsed).0 in
    ((p ∙ ap (λ (d : Db). d.mail_content) same, q ∙ ap (λ (d : Db). d.down) same), next)

save_message_free :
    (db : Db) (msg : Message)
    → db.down ≡ false
    → any (λ r. r.id == msg.id) db.mail_content ≡ false
    → save_message db msg
      ≡ some (record db {
        mail_content = db.mail_content ++ record msg { deleted = false; attachments = [] } ∷ [];
      })
unfolding save_message
save_message_free db msg up free = simp (up, free)

-- the store with a new row, before the attachments
abbrev stored : Env → MailStore → Message → MailStore
stored env s msg = record s {
  db = record s.db { mail_content = s.db.mail_content ++ msg ∷ [] };
  next_id = s.next_id + 1;
}

module _ (env : Env) (s : MailStore) (m : Mail) (bcc : List String) (owner folder : String)
    (seen : Bool) (now : ℕ) (up : s.db.down ≡ false)
    (fresh : has (env.uuid s.next_id) (message_ids s.db.mail_content) ≡ false) where
  save_and_deliver-keep : save_and_deliver env s m bcc owner folder seen now ≡ (
    some (new_message (env.uuid s.next_id) m bcc owner folder seen now).message_id,
    keep_attachments env
        (stored env s (new_message (env.uuid s.next_id) m bcc owner folder seen now))
        (env.uuid s.next_id)
        m.attachments,
  )
  unfolding save_and_deliver new_message
  save_and_deliver-keep =
      let id = env.uuid s.next_id in
      let msg = new_message id m bcc owner folder seen now in
      let e = save_message_free s.db msg up (id_taken id s.db.mail_content ∙ fresh) in
      λ i. elim (e i) [
        | none ↦ (none, record s { next_id = s.next_id + 1 })
        | some db ↦ (
          some msg.message_id,
          keep_attachments env (record s { db = db; next_id = s.next_id + 1 }) id m.attachments,
        )
      ]

  -- one copy: it is stored, and the store is ready for the next
  save_step :
      ((save_and_deliver env s m bcc owner folder seen now).0
        ≡ some (new_message (env.uuid s.next_id) m bcc owner folder seen now).message_id)
      × ((save_and_deliver env s m bcc owner folder seen now).1.db.mail_content
          ≡ s.db.mail_content ++ new_message (env.uuid s.next_id) m bcc owner folder seen now ∷ [])
      × ((save_and_deliver env s m bcc owner folder seen now).1.db.down ≡ false)
      × ((save_and_deliver env s m bcc owner folder seen now).1.next_id ≡ s.next_id + 1)
  save_step =
      let msg = new_message (env.uuid s.next_id) m bcc owner folder seen now in
      let ((p, q), n) =
        keep_attachments-Spares env (stored env s msg) (env.uuid s.next_id) m.attachments in
      rw save_and_deliver-keep (refl, p, q ∙ up, n)

deliver_all-step :
    (env : Env) (s : MailStore) (m : Mail) (r : String) (rest : List String) (folder : String)
    (now : ℕ) (id : String)
    → (save_and_deliver env s m [] r folder false now).0 ≡ some id
    → deliver_all env s m (r ∷ rest) folder now
      ≡ deliver_all env (save_and_deliver env s m [] r folder false now).1 m rest folder now
unfolding deliver_all
deliver_all-step env s m r rest folder now id e =
    let s' = (save_and_deliver env s m [] r folder false now).1 in
    λ i. elim (e i) [ none ↦ (false, s') | some x ↦ deliver_all env s' m rest folder now ]

fresh_parts : (a b : Bool) → (not a && b) ≡ true → (a ≡ false) × (b ≡ true)
fresh_parts a b h = (ground (arith, h), ground (arith, h))

deliver_all_lem :
    (env : Env) (s : MailStore) (m : Mail) (recipients : List String) (folder : String) (now : ℕ)
    → s.db.down ≡ false
    → are_fresh env s.next_id (length recipients) (message_ids s.db.mail_content) ≡ true
    → ((deliver_all env s m recipients folder now).0 ≡ true)
      × ((deliver_all env s m recipients folder now).1.db.mail_content
          ≡ s.db.mail_content ++ copies env s.next_id m recipients folder now)
unfolding new_message
deliver_all_lem env s m [] folder now up fresh =
    unfold deliver_all in (refl, sym (append-nil s.db.mail_content))
deliver_all_lem env s m (r ∷ rest) folder now up fresh =
    let (free, later) =
      fresh_parts (has (env.uuid s.next_id) (message_ids s.db.mail_content))
        (are_fresh env (s.next_id + 1) (length rest)
          (message_ids s.db.mail_content ++ env.uuid s.next_id ∷ []))
        fresh in
    let msg = new_message (env.uuid s.next_id) m [] r folder false now in
    let s' = (save_and_deliver env s m [] r folder false now).1 in
    let (ok, rows, down, next) = save_step env s m [] r folder false now up free in
    let ids = ap message_ids rows ∙ ids-append s.db.mail_content msg in
    let later' : are_fresh env s'.next_id (length rest) (message_ids s'.db.mail_content) ≡ true =
      (λ i. are_fresh env (next i) (length rest) (ids i)) ∙ later in
    let (good, all) = deliver_all_lem env s' m rest folder now down later' in
    rw (deliver_all-step env s m r rest folder now msg.message_id ok) (
      good,
      all
          ∙ (λ i. rows i ++ copies env (next i) m rest folder now)
          ∙ append_assoc s.db.mail_content (msg ∷ [])
              (copies env (s.next_id + 1) m rest folder now),
    )

-- While the database answers and identifiers are fresh, an incoming message is stored without an error
-- as exactly one new row for each local recipient, in the folder asked for or else in the INBOX, unread,
-- without Bcc; all rows that were there stay as they are. This holds whatever happens to attachments.
pub save_incoming_mail_lem :
    (env : Env) (s : MailStore) (m : Mail) (bcc : List String) (folder : String) (now : ℕ)
    → s.db.down ≡ false
    → are_fresh env s.next_id
        (length (collect_local_recipients s.db m.to m.cc bcc))
        (message_ids s.db.mail_content)
      ≡ true
    → ((save_incoming_mail env s m bcc folder now).0 ≡ true)
      × ((save_incoming_mail env s m bcc folder now).1.db.mail_content
          ≡ s.db.mail_content
            ++ copies env s.next_id m
                (collect_local_recipients s.db m.to m.cc bcc)
                (if folder == "" then "INBOX" else folder)
                now)
unfolding save_incoming_mail
save_incoming_mail_lem env s m bcc folder now up fresh =
    deliver_all_lem env s m (collect_local_recipients s.db m.to m.cc bcc)
      (if folder == "" then "INBOX" else folder) now up fresh
