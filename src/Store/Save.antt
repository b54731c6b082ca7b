-- ===== src/Store/Save.antt =====
-- Saving and deleting messages with their attachments (store.go, and ToAttachmentMeta of
-- internal/mimeutil/parse.go). Bytes are a text.
use bdsmail.Base.{
  Bool, List, Option, String, [], concat, contains, false, if◌then◌else◌, is_nil, len, none, not,
  show_nat, some, true, ℕ, ◌&&◌, ◌++◌, ◌+◌, ◌==◌, ◌||◌, ◌∷◌,
}
use bdsmail.Model.{Attachment, Message, email}
use bdsmail.Db.{
  Db, delete_attachments_by_message, delete_message, get_list_members, get_mailing_list, is_ok,
  list_attachments, or_same, save_attachment, save_message, split_email, user_exists_by_email,
}
use bdsmail.Store.Resolve.{collect_local_recipients}

pub record ParsedAttachment : Type 0 where
  pub filename : String
  pub content_type : String
  pub bytes : String

-- the calls on the object store
pub data BucketOp : Type 0 where
  write : String → String → BucketOp
  delete : String → BucketOp

-- What the code gets from elsewhere: `uuid.New()` on its n-th call, and whether a call on the object
-- store succeeds.
pub record Env : Type 0 where
  pub uuid : ℕ → String
  pub bucket_ok : BucketOp → Bool

pub record MailStore : Type 0 where
  pub db : Db
  pub has_bucket : Bool
  pub bucket_log : List BucketOp  -- the calls so far
  pub next_id : ℕ

-- a message as it is sent
pub record Mail : Type 0 where
  pub from : String
  pub to : List String
  pub cc : List String
  pub subject : String
  pub content_type : String
  pub body : String
  pub attachments : List ParsedAttachment

unfoldable pub new_message : String → Mail → List String → String → String → Bool → ℕ → Message
unfolding split_email
new_message id m bcc owner_user folder seen now = record {
  id = id;
  message_id = concat ("<" ∷ id ∷ "@" ∷ (split_email m.from).1 ∷ ">" ∷ []);
  from = m.from;
  to = m.to;
  cc = m.cc;
  bcc = bcc;
  subject = m.subject;
  content_type = m.content_type;
  gcs_key = "";
  owner_user = owner_user;
  folder = folder;
  seen = seen;
  deleted = false;
  received_at = now;
  body = m.body;
  attachments = [];
}

unfoldable pub meta_from : String → ℕ → List ParsedAttachment → List Attachment
meta_from prefix i [] = []
meta_from prefix i (pa ∷ rest) =
    record {
      id = concat (prefix ∷ "_" ∷ show_nat i ∷ []);
      mail_content_id = "";
      filename = pa.filename;
      content_type = pa.content_type;
      size = len pa.bytes;
      bucket_key = concat (prefix ∷ "/attach_" ∷ show_nat i ∷ "_" ∷ pa.filename ∷ []);
    }
    ∷ meta_from prefix (i + 1) rest

unfoldable pub to_attachment_meta : List ParsedAttachment → String → List Attachment
unfolding meta_from
to_attachment_meta parsed key_prefix = meta_from key_prefix 0 parsed

module _ (env : Env) where
  -- the loop that writes; it ends at the first write that fails
  unfoldable pub write_all :
      List Attachment → List ParsedAttachment → List BucketOp → Bool × List BucketOp
  write_all (a ∷ metas) (pa ∷ rest) log =
      let op = write a.bucket_key pa.bytes in
      let more = write_all metas rest (log ++ op ∷ []) in
      if env.bucket_ok op then more else (false, log ++ op ∷ [])
  write_all metas parsed log = (true, log)

  -- the metadata of what was written, none on an error
  unfoldable pub save_attachments :
      MailStore → String → List ParsedAttachment → List Attachment × MailStore
  unfolding write_all to_attachment_meta
  save_attachments s msg_id parsed =
      if not s.has_bucket || is_nil parsed
      then ([], s)
      else (let meta = to_attachment_meta parsed msg_id in
          let (ok, log) = write_all meta parsed s.bucket_log in
          (if ok then meta else [], record s { bucket_log = log }))

  unfoldable pub save_metadata : Db → String → List Attachment → Db
  save_metadata db msg_id [] = db
  save_metadata db msg_id (att ∷ rest) =
      save_metadata (or_same db (save_attachment db (record att { mail_content_id = msg_id })))
        msg_id rest

  -- after the message is saved
  unfoldable pub keep_attachments : MailStore → String → List ParsedAttachment → MailStore
  unfolding save_attachments save_metadata
  keep_attachments s msg_id parsed =
      let (attachments, s') = save_attachments s msg_id parsed in
      record s' { db = save_metadata s'.db msg_id attachments }

  -- The message id, `none` for an error; an identifier is used up in any case.
  unfoldable pub save_and_deliver :
      MailStore → Mail → List String → String → String → Bool → ℕ → Option String × MailStore
  unfolding new_message keep_attachments
  save_and_deliver s m bcc owner_user folder seen now =
      let id = env.uuid s.next_id in
      let msg = new_message id m bcc owner_user folder seen now in
      elim (save_message s.db msg) [
        | none ↦ (none, record s { next_id = s.next_id + 1 })
        | some db ↦ (
          some msg.message_id,
          keep_attachments (record s { db = db; next_id = s.next_id + 1 }) id m.attachments,
        )
      ]

  -- the loop over the local recipients, which ends at the first error
  unfoldable pub deliver_all : MailStore → Mail → List String → String → ℕ → Bool × MailStore
  unfolding save_and_deliver
  deliver_all s m [] folder now = (true, s)
  deliver_all s m (email ∷ rest) folder now =
      let (result, s') = save_and_deliver s m [] email folder false now in
      let more = deliver_all s' m rest folder now in
      elim result [ none ↦ (false, s') | some id ↦ more ]

  -- whether there was no error
  unfoldable pub save_incoming_mail : MailStore → Mail → List String → String → ℕ → Bool × MailStore
  unfolding deliver_all collect_local_recipients
  save_incoming_mail s m bcc folder now =
      deliver_all s m (collect_local_recipients s.db m.to m.cc bcc)
        (if folder == "" then "INBOX" else folder) now

  -- The recipients are read after the sender's copy is saved, which changes no alias and no user.
  unfoldable pub save_outgoing_mail :
      MailStore → String → Mail → List String → ℕ → Option String × MailStore
  unfolding save_and_deliver deliver_all collect_local_recipients
  save_outgoing_mail s sender_email m bcc now =
      let (result, s') = save_and_deliver s m bcc sender_email "Sent" true now in
      elim result [
        | none ↦ (none, s')
        | some message_id ↦
            (let (ok, s'') =
                deliver_all s' m (collect_local_recipients s'.db m.to m.cc bcc) "INBOX" now in
              (if ok then some message_id else none, s''))
      ]

  unfoldable pub save_incoming_mail_for_user :
      MailStore → String → Mail → String → Bool → ℕ → Option String × MailStore
  unfolding save_and_deliver
  save_incoming_mail_for_user s owner_email m folder seen now =
      save_and_deliver s m [] owner_email folder seen now

  -- the loop over the members of a list
  unfoldable pub distribute : MailStore → Mail → String → List String → ℕ → MailStore
  unfolding save_and_deliver
  distribute s m from [] now = s
  distribute s m from (member ∷ rest) now =
      distribute
        (if member == from || not (user_exists_by_email s.db member)
          then s
          else (save_and_deliver s m [] member "INBOX" false now).1)
        m from rest now

  unfoldable pub list_subject : String → String → String
  list_subject name subject =
      if not (name == "") && not (contains subject (concat ("[" ∷ name ∷ "]" ∷ [])))
      then concat ("[" ∷ name ∷ "] " ∷ subject ∷ [])
      else subject

  -- whether there was no error
  unfoldable pub distribute_to_list : MailStore → String → Mail → ℕ → Bool × MailStore
  unfolding distribute list_subject
  distribute_to_list s list_addr m now = elim (get_list_members s.db list_addr) [
    | none ↦ (false, s)
    | some members ↦ elim (get_mailing_list s.db list_addr) [
      | none ↦ (false, s)
      | some list ↦ (
        true,
        distribute s
            (record m { to = list_addr ∷ []; cc = []; subject = list_subject list.name m.subject })
            m.from members now,
      )
    ]
  ]

unfoldable pub delete_objects : List BucketOp → List Attachment → List BucketOp
delete_objects log [] = log
delete_objects log (att ∷ rest) = delete_objects (log ++ delete att.bucket_key ∷ []) rest

unfoldable pub attachments_or_nil : Option (List Attachment) → List Attachment
attachments_or_nil none = []
attachments_or_nil (some attachments) = attachments

-- whether the message's deletion gave no error; the other errors are dropped
unfoldable pub delete_message_full : MailStore → String → Bool × MailStore
unfolding delete_objects attachments_or_nil
delete_message_full s id =
    let attachments = attachments_or_nil (list_attachments s.db id) in
    let log = if s.has_bucket then delete_objects s.bucket_log attachments else s.bucket_log in
    let db = or_same s.db (delete_attachments_by_message s.db id) in
    (
      is_ok (delete_message db id),
      record s { db = or_same db (delete_message db id); bucket_log = log },
    )

-- the data of a message's attachments that can be read
read_all : (String → Option String) → List Attachment → List (Attachment × String)
read_all read [] = []
read_all read (att ∷ rest) =
    let more = read_all read rest in
    elim (read att.bucket_key) [ none ↦ more | some bytes ↦ (att, bytes) ∷ more ]

unfoldable pub load_attachments :
    (String → Option String) → MailStore → Message → List (Attachment × String)
unfolding read_all
load_attachments read s msg =
    if not s.has_bucket || is_nil msg.attachments then [] else read_all read msg.attachments
