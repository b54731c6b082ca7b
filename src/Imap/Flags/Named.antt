-- ===== src/Imap/Flags/Named.antt =====
-- The rows that a list of messages names, and the database's operations on them.
use bdsmail.Base.{
  Bool, List, Option, String, [], ap, arith, false, get_elem?, negsuc, none, pos, refl, set, some,
  suc, sym, true, update, zero, ℕ, ℤ, ◌==◌, ◌||◌, ◌∙◌, ◌∷◌, ◌≡◌,
}
use bdsmail.Model.{Message}
use bdsmail.Db.{Db, mark_deleted, mark_seen, or_same}
use bdsmail.Imap.Session.{message_at}
use bdsmail.Imap.Flags.Updates.{update-update_seq, update_same}
use bdsmail.Imap.Commands.{flagged, store_flags}

-- a row has the id of a message that is there
abbrev pub is_row_of : Option (ℕ × Message) → Message → Bool
is_row_of none r = false
is_row_of (some (i, m)) r = r.id == m.id

-- some index of the set names a message with the row's id
abbrev pub is_named : List Message → List ℤ → Message → Bool
is_named msgs [] r = false
is_named msgs (index ∷ rest) r = is_row_of (message_at msgs index) r || is_named msgs rest r

-- the rows after a change, and that the database still answers
abbrev pub Rows : Db → List Message → Type 0
Rows db rows = (db.mail_content ≡ rows) × (db.down ≡ false)

mark_seen-Rows :
    (db : Db) (id : String)
    → db.down ≡ false
    → Rows
        (or_same db (mark_seen db id))
        (update (λ r. r.id == id) (λ m. record m { seen = true }) db.mail_content)
mark_seen-Rows db id up =
    let e : mark_seen db id
        ≡ some (record db {
          mail_content = update (λ m. m.id == id) (λ m. record m { seen = true }) db.mail_content;
        }) =
      unfold mark_seen in simp up in
    rw e (refl, up)

mark_deleted-Rows :
    (db : Db) (id : String)
    → db.down ≡ false
    → Rows
        (or_same db (mark_deleted db id))
        (update (λ r. r.id == id) (λ m. record m { deleted = true }) db.mail_content)
mark_deleted-Rows db id up =
    let e : mark_deleted db id
        ≡ some (record db {
          mail_content =
              update (λ m. m.id == id) (λ m. record m { deleted = true }) db.mail_content;
        }) =
      unfold mark_deleted in simp up in
    rw e (refl, up)

pub store_flags-Rows :
    (db : Db) (id : String) (seen deleted : Bool)
    → db.down ≡ false
    → Rows
        (store_flags db id seen deleted)
        (update (λ r. r.id == id) (flagged seen deleted) db.mail_content)
unfolding store_flags
store_flags-Rows db id true true up =
    let db' = or_same db (mark_seen db id) in
    let (rows, up') = mark_seen-Rows db id up in
    let (rows', up'') = mark_deleted-Rows db' id up' in
    (
      rows'
          ∙ ap (λ (l : List Message). update (λ r. r.id == id) (λ m. record m { deleted = true }) l)
              rows
          ∙ update-update_seq (λ (r : Message). r.id == id) (λ m. record m { seen = true })
              (λ m. record m { deleted = true }) db.mail_content (λ x. refl),
      up'',
    )
store_flags-Rows db id true false up = mark_seen-Rows db id up
store_flags-Rows db id false true up = mark_deleted-Rows db id up
store_flags-Rows db id false false up =
    (sym (update_same (λ (r : Message). r.id == id) db.mail_content), up)

pub flagged_twice :
    (seen deleted : Bool) (m : Message)
    → flagged seen deleted (flagged seen deleted m) ≡ flagged seen deleted m
flagged_twice true true m = refl
flagged_twice true false m = refl
flagged_twice false true m = refl
flagged_twice false false m = refl

has_row : Option Message → Message → Bool
has_row none r = false
has_row (some m) r = r.id == m.id

message_at-row :
    (msgs : List Message) (j : ℕ) (r : Message)
    → is_row_of (message_at msgs (pos j)) r ≡ has_row (get_elem? msgs j) r
unfolding message_at has_row
message_at-row msgs j r = go (get_elem? msgs j)
  where
    go :
        (o : Option Message)
        → is_row_of (elim o as (λ x. Option (ℕ × Message)) [ none ↦ none | some m ↦ some (j, m) ]) r
          ≡ has_row o r
    go none = refl
    go (some m) = refl

-- the message of an index has the same id after flags are set
has_row-set :
    (msgs : List Message) (i j : ℕ) (seen deleted : Bool) (m r : Message)
    → get_elem? msgs i ≡ some m
    → has_row (get_elem? (set msgs i (flagged seen deleted m)) j) r ≡ has_row (get_elem? msgs j) r
unfolding has_row
has_row-set [] i j seen deleted m r e = refl
has_row-set (x ∷ msgs) zero zero seen deleted m r e =
    let same : x ≡ m = ground (arith, e) in ap (λ (y : Message). r.id == y.id) (sym same)
has_row-set (x ∷ msgs) zero (suc j) seen deleted m r e = refl
has_row-set (x ∷ msgs) (suc i) zero seen deleted m r e = refl
has_row-set (x ∷ msgs) (suc i) (suc j) seen deleted m r e = has_row-set msgs i j seen deleted m r e

is_row_of-set :
    (msgs : List Message) (i : ℕ) (seen deleted : Bool) (m r : Message) (index : ℤ)
    → get_elem? msgs i ≡ some m
    → is_row_of (message_at (set msgs i (flagged seen deleted m)) index) r
      ≡ is_row_of (message_at msgs index) r
unfolding message_at
is_row_of-set msgs i seen deleted m r (negsuc n) e = refl
is_row_of-set msgs i seen deleted m r (pos j) e =
    message_at-row (set msgs i (flagged seen deleted m)) j r
    ∙ has_row-set msgs i j seen deleted m r e
    ∙ sym (message_at-row msgs j r)

pub is_named-set :
    (msgs : List Message) (i : ℕ) (seen deleted : Bool) (m : Message) (indices : List ℤ)
    (r : Message)
    → get_elem? msgs i ≡ some m
    → is_named (set msgs i (flagged seen deleted m)) indices r ≡ is_named msgs indices r
is_named-set msgs i seen deleted m [] r e = refl
is_named-set msgs i seen deleted m (index ∷ rest) r e =
    let a = is_row_of-set msgs i seen deleted m r index e in
    let b = is_named-set msgs i seen deleted m rest r e in λ k. a k || b k

pub is_named-flagged :
    (msgs : List Message) (seen deleted : Bool) (indices : List ℤ) (r : Message)
    → is_named msgs indices (flagged seen deleted r) ≡ is_named msgs indices r
is_named-flagged msgs seen deleted [] r = refl
is_named-flagged msgs seen deleted (index ∷ rest) r =
    let b = is_named-flagged msgs seen deleted rest r in
    let a = row_flagged (message_at msgs index) in λ k. a k || b k
  where
    row_flagged : (o : Option (ℕ × Message)) → is_row_of o (flagged seen deleted r) ≡ is_row_of o r
    row_flagged none = refl
    row_flagged (some (i, m)) = refl
