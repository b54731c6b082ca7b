-- ===== src/Store/Deletion.antt =====
-- Correctness of the full deletion of a message.
use bdsmail.Base.{
  Bool, Bool-cases, List, Option, String, [], ap, arith, eq_iff, false, first-keep_apart,
  first-keep_gone, if◌then◌else◌, inl, inr, keep, keep-keep_apart, keep-keep_gone, none, not, refl,
  some, subst, sym, true, ◌++◌, ◌==◌, ◌||◌, ◌∙◌, ◌∷◌, ◌≡◌,
}
use bdsmail.Model.{Attachment, Message}
use bdsmail.Db.{Db, delete_attachments_by_message, delete_message, get_message, list_attachments}
use bdsmail.Store.Save.{
  BucketOp, MailStore, attachments_or_nil, delete, delete_message_full, delete_objects,
}

-- the objects of a list of attachments, each deleted once
abbrev pub deletions : List Attachment → List BucketOp
deletions [] = []
deletions (a ∷ rest) = delete a.bucket_key ∷ deletions rest

append_step :
    (xs : List BucketOp) (y : BucketOp) (ys : List BucketOp) → (xs ++ y ∷ []) ++ ys ≡ xs ++ y ∷ ys
append_step [] y ys = refl
append_step (x ∷ xs) y ys = ap (λ (l : List BucketOp). x ∷ l) (append_step xs y ys)

append_nothing : (xs : List BucketOp) → xs ++ [] ≡ xs
append_nothing [] = refl
append_nothing (x ∷ xs) = ap (λ (l : List BucketOp). x ∷ l) (append_nothing xs)

delete_objects-deletions :
    (log : List BucketOp) (attachments : List Attachment)
    → delete_objects log attachments ≡ log ++ deletions attachments
unfolding delete_objects
delete_objects-deletions log [] = sym (append_nothing log)
delete_objects-deletions log (a ∷ rest) =
    delete_objects-deletions (log ++ delete a.bucket_key ∷ []) rest
    ∙ append_step log (delete a.bucket_key) (deletions rest)

other_id :
    (id other i : String) → (id == other) ≡ false → (i == other) ≡ true → not (i == id) ≡ true
other_id id other i d h = ground (arith, eq_iff id other, eq_iff i other, eq_iff i id)

list_attachments-up :
    (db : Db) (id : String) (attachments : List Attachment)
    → list_attachments db id ≡ some attachments
    → db.down ≡ false
unfolding list_attachments
list_attachments-up db id attachments h = ground (arith, h)

-- the database with the rows of one message taken away
abbrev pub deleted_from : Db → String → Db
deleted_from db id = record db {
  mail_attachment = keep (λ a. not (a.mail_content_id == id)) db.mail_attachment;
  mail_content = keep (λ m. not (m.id == id)) db.mail_content;
}

pub after_deletion :
    (s : MailStore) (id : String)
    → s.db.down ≡ false
    → (delete_message_full s id).1.db ≡ deleted_from s.db id
unfolding delete_message_full delete_attachments_by_message delete_message
after_deletion s id up = simp up

pub deleted_message :
    (db : Db) (id : String) → db.down ≡ false → get_message (deleted_from db id) id ≡ none
unfolding get_message
deleted_message db id up = simp (up, first-keep_gone (λ (m : Message). m.id == id) db.mail_content)

deleted_attachments :
    (db : Db) (id : String) → db.down ≡ false → list_attachments (deleted_from db id) id ≡ some []
unfolding list_attachments
deleted_attachments db id up =
    simp (up, keep-keep_gone (λ (a : Attachment). a.mail_content_id == id) db.mail_attachment)

spared_attachments :
    (db : Db) (id other : String)
    → (id == other) ≡ false
    → list_attachments (deleted_from db id) other ≡ list_attachments db other
unfolding list_attachments
spared_attachments db id other d =
    ap (λ (l : List Attachment). if db.down then none else some l)
      (keep-keep_apart (λ (a : Attachment). a.mail_content_id == other)
        (λ (a : Attachment). not (a.mail_content_id == id)) db.mail_attachment
        (λ a e. other_id id other a.mail_content_id d e))

-- what a message's row and its attachments give
abbrev answer : Bool → Option Message → Option (List Attachment) → Option Message
answer down row attachments = if down then none else elim row [
  | none ↦ none
  | some m ↦ some (record m { attachments = elim attachments [ none ↦ [] | some xs ↦ xs ] })
]

pub spared_message :
    (db : Db) (id other : String)
    → (id == other) ≡ false
    → get_message (deleted_from db id) other ≡ get_message db other
unfolding get_message
spared_message db id other d =
    let e =
      first-keep_apart (λ (m : Message). m.id == other) (λ (m : Message). not (m.id == id))
        db.mail_content (λ m e. other_id id other m.id d e) in
    let f = spared_attachments db id other d in λ i. answer db.down (e i) (f i)

deletion_log :
    (s : MailStore) (id : String) (attachments : List Attachment)
    → list_attachments s.db id ≡ some attachments
    → (delete_message_full s id).1.bucket_log
      ≡ (if s.has_bucket then s.bucket_log ++ deletions attachments else s.bucket_log)
unfolding delete_message_full attachments_or_nil
deletion_log s id attachments h = simp (h, delete_objects-deletions)

deletion_ok :
    (s : MailStore) (id : String) → s.db.down ≡ false → (delete_message_full s id).0 ≡ true
unfolding delete_message_full delete_attachments_by_message delete_message
deletion_ok s id up = simp up

-- While the database answers, the deletion gives no error; the message and its attachments' rows are
-- gone, every other message is read with its attachments as before, and with a bucket exactly the
-- attachments' objects are deleted, each once, where without one no object is touched.
pub delete_message_full_lem :
    (s : MailStore) (id : String) (attachments : List Attachment)
    → list_attachments s.db id ≡ some attachments
    → ((delete_message_full s id).0 ≡ true)
      × (get_message (delete_message_full s id).1.db id ≡ none)
      × (list_attachments (delete_message_full s id).1.db id ≡ some [])
      × ((other : String)
          → (id == other) ≡ false
          → get_message (delete_message_full s id).1.db other ≡ get_message s.db other)
      × ((delete_message_full s id).1.bucket_log
          ≡ (if s.has_bucket then s.bucket_log ++ deletions attachments else s.bucket_log))
delete_message_full_lem s id attachments h =
    let up = list_attachments-up s.db id attachments h in
    (
      deletion_ok s id up,
      ap (λ (db : Db). get_message db id) (after_deletion s id up) ∙ deleted_message s.db id up,
      ap (λ (db : Db). list_attachments db id) (after_deletion s id up)
          ∙ deleted_attachments s.db id up,
      λ other d.
          ap (λ (db : Db). get_message db other) (after_deletion s id up)
          ∙ spared_message s.db id other d,
      deletion_log s id attachments h,
    )

-- what the deletion of one message means for a message that is read
pub one_gone :
    (s : MailStore) (gone id : String)
    → s.db.down ≡ false
    → get_message (delete_message_full s gone).1.db id
      ≡ (if gone == id then none else get_message s.db id)
one_gone s gone id up = elim (Bool-cases (gone == id)) [
  | inl e ↦
      let same : gone ≡ id = ground (arith, e, eq_iff gone id) in
      rw (after_deletion s gone up, e)
        (subst (λ x. get_message (deleted_from s.db gone) x ≡ none) same
          (deleted_message s.db gone up))
  | inr e ↦ rw (after_deletion s gone up, e) (spared_message s.db gone id e)
]

-- two deletions, one after the other
pub either_gone {ℓ} :
    {A : Type ℓ} (a b : Bool) (before between after : Option A)
    → between ≡ (if a then none else before)
    → after ≡ (if b then none else between)
    → after ≡ (if a || b then none else before)
either_gone true true before between after e f = f
either_gone true false before between after e f = f ∙ e
either_gone false true before between after e f = f
either_gone false false before between after e f = f ∙ e
