-- ===== src/Carddav/Contacts.antt =====
-- What PUT, GET and DELETE do to contacts.
use bdsmail.Base.{
  Option-cases, String, [], any_of_first, ap, arith, eq_iff, eq_refl, false, first,
  first-append_new, first-update, first_sound, if_intro, if◌then◌else◌, inl, inr, none, refl, slice,
  some, subst, sym, update, ℕ, ◌*◌, ◌++◌, ◌==◌, ◌∙◌, ◌∷◌, ◌≡◌, ◌⊎◌,
}
use bdsmail.Model.{Contact}
use bdsmail.Db.{Db, create_contact, get_contact, or_same, update_contact}
use bdsmail.Carddav.{
  DavAnswer, contact_id, handle_get, handle_put, multistatus, put_contact, status, vcard,
}

get_contact-create :
    (db db' : Db) (c : Contact) (now : ℕ)
    → get_contact db c.id ≡ none
    → create_contact db c now ≡ some db'
    → get_contact db' c.id ≡ some (record c { updated_at = now })
unfolding get_contact create_contact
get_contact-create db db' c now new made =
    let up : db.down ≡ false = ground (arith, made) in
    let (fresh, found) =
      first-append_new (λ (x : Contact). x.id == c.id) (record c { updated_at = now })
        db.user_contact (rw up at new) (eq_refl c.id) in
    let same : record db { user_contact = db.user_contact ++ record c { updated_at = now } ∷ [] }
        ≡ db' =
      ground (arith, made) in
    subst
      (λ (x : Db).
        (if x.down then none else first (λ y. y.id == c.id) x.user_contact)
        ≡ some (record c { updated_at = now }))
      same (rw up found)

get_contact-update :
    (db : Db) (old : Contact) (id text etag : String) (now : ℕ)
    → get_contact db id ≡ some old
    → get_contact
        (or_same db (update_contact db (record old { vcard_data = text; etag = etag }) now))
        id
      ≡ some (record old { vcard_data = text; etag = etag; updated_at = now })
unfolding get_contact update_contact
get_contact-update db old id text etag now found =
    let up : db.down ≡ false = ground (arith, found) in
    let f = λ (x : Contact). record x { vcard_data = text; etag = etag; updated_at = now } in
    let row : first (λ (x : Contact). x.id == id) db.user_contact ≡ some old = rw up at found in
    let e =
      (eq_iff old.id id).0 (first_sound (λ (x : Contact). x.id == id) old db.user_contact row) in
    let before =
      subst (λ i. first (λ (x : Contact). x.id == i) db.user_contact ≡ some old) (sym e) row in
    let after =
      first-update (λ (x : Contact). x.id == old.id) f db.user_contact old (λ x. refl) before in
    rw up (
      subst
        (λ i.
          first (λ (x : Contact). x.id == i) (update (λ x. x.id == old.id) f db.user_contact)
          ≡ some (f old))
        e after)

create_taken :
    (db : Db) (old c : Contact) (now : ℕ)
    → get_contact db c.id ≡ some old
    → create_contact db c now ≡ none
unfolding get_contact create_contact
create_taken db old c now found =
    ground (arith, found, any_of_first (λ (x : Contact). x.id == c.id) old db.user_contact)

abbrev IsSaved : DavAnswer × Db → Type 0
IsSaved out = (out.0 ≡ status 201) ⊎ (out.0 ≡ status 204)

status_code : DavAnswer → ℕ
status_code (status n) = n
status_code (vcard etag text) = 200
status_code (multistatus rs) = 207

not_saved : (n : ℕ) → (n ≡ 400) ⊎ (n ≡ 500) → (db : Db) → IsSaved (status n, db) → ⊥
unfolding status_code
not_saved n e db (inl h) = ground (arith, e, ap status_code h)
not_saved n e db (inr h) = ground (arith, e, ap status_code h)

-- the row of the user with this text and etag
abbrev HasText : Db → String → String → String → String → Type 0
HasText db user id text etag =
    (c : Contact) × (get_contact db id ≡ some c)
    × (c.owner_email ≡ user)
    × (c.vcard_data ≡ text)
    × (c.etag ≡ etag)

put_contact-HasText :
    (db : Db) (user id text etag : String) (now : ℕ)
    → IsSaved (put_contact db user id text etag now (get_contact db id))
    → HasText (put_contact db user id text etag now (get_contact db id)).1 user id text etag
unfolding put_contact
put_contact-HasText db user id text etag now =
    let P = λ (out : DavAnswer × Db). IsSaved out → HasText out.1 user id text etag in
    let fresh : Contact = record {
      id = id;
      owner_email = user;
      vcard_data = text;
      etag = etag;
      updated_at = now;
    } in
    elim (Option-cases (get_contact db id)) [
      | inl e ↦ elim (Option-cases (create_contact db fresh now)) [
        | inl k ↦ rw (e, put_contact, k) (λ saved. absurd (not_saved 500 (inr refl) db saved))
        | inr (db', k) ↦
            rw (e, put_contact, k)
              (λ saved. (fresh, get_contact-create db db' fresh now e k, refl, refl, refl))
      ]
      | inr (old, e) ↦
          rw (e, put_contact)
            (if_intro P (old.owner_email == user)
              (λ own saved. (
                record old { vcard_data = text; etag = etag; updated_at = now },
                get_contact-update db old id text etag now e,
                ground (arith, own, eq_iff old.owner_email user),
                refl,
                refl,
              ))
              (λ other.
                rw (create_taken db old fresh now e)
                  (λ saved. absurd (not_saved 500 (inr refl) db saved))))
    ]

handle_get-own :
    (db : Db) (user path id : String) (c : Contact)
    → contact_id path ≡ some id
    → get_contact db id ≡ some c
    → c.owner_email ≡ user
    → handle_get db user path ≡ vcard c.etag c.vcard_data
unfolding handle_get
handle_get-own db user path id c e found owner = ground (arith, eq_iff c.owner_email user)

-- Where PUT answers 201 or 204, a GET of the same path by the same user then gives the text that was
-- sent, cut at 64 KB, with the new etag.
pub handle_get-handle_put :
    (db : Db) (user path text etag : String) (now : ℕ)
    → IsSaved (handle_put db user path (some text) etag now)
    → handle_get (handle_put db user path (some text) etag now).1 user path
      ≡ vcard etag (slice text 0 (64 * 1024))
unfolding handle_put
handle_get-handle_put db user path text etag now = elim (Option-cases (contact_id path)) [
  | inl e ↦ rw (e, handle_put) (λ saved. absurd (not_saved 400 (inl refl) db saved))
  | inr (id, e) ↦
      let kept = slice text 0 (64 * 1024) in
      rw (e, handle_put)
        (λ saved.
          let (c, found, owner, same_text, same_etag) =
            put_contact-HasText db user id kept etag now saved in
          handle_get-own (put_contact db user id kept etag now (get_contact db id)).1 user path id c
            e found owner
          ∙ ap (λ (t : String). vcard c.etag t) same_text
          ∙ ap (λ (t : String). vcard t kept) same_etag)
]
