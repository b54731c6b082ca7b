-- ===== src/Carddav.antt =====
-- internal/carddav/server.go: contacts over HTTP. A request's body is given, none where it cannot be
-- read, and so is the new etag; an answer is a status with a text, which is written without XML here: the
-- properties of each href, by name.
pub mod Contacts
mod Tests
use bdsmail.Base.{
  Bool, List, Option, String, [], code, concat, find?, if◌then◌else◌, len, map, nat_beq, none, not,
  slice, some, split, suc, trim_prefix, trim_suffix, zero, ℕ, ◌&&◌, ◌*◌, ◌++◌, ◌+◌, ◌==◌, ◌∷◌,
}
use bdsmail.Model.{Contact, email}
use bdsmail.Db.{
  Db, create_contact, delete_contact, get_contact, get_user_by_email, list_contacts, or_same,
  update_contact,
}

pub record DavRequest : Type 0 where
  pub method : String
  pub path : String
  pub basic_auth : Option (String × String)
  pub body : Option String

pub record DavResponse : Type 0 where
  pub href : String
  pub props : List (String × String)

pub data DavAnswer : Type 0 where
  status : ℕ → DavAnswer
  vcard : String → String → DavAnswer
  multistatus : List DavResponse → DavAnswer

unfoldable pub authenticate :
    (String → String → Bool) → Db → Option (String × String) → Option String
authenticate check_password db none = none
authenticate check_password db (some (username, password)) = elim (get_user_by_email db username) [
  | none ↦ none
  | some user ↦ (if check_password user.password_hash password then some (email user) else none)
]

-- strings.Trim(path, "/")
trim_slashes_left : String → String
trim_slashes_left String.[] = ""
trim_slashes_left (String.◌∷◌ c s) =
    let rest = trim_slashes_left s in if nat_beq (code c) b'/' then rest else String.◌∷◌ c s

trim_slashes_right : String → String
trim_slashes_right String.[] = ""
trim_slashes_right (String.◌∷◌ c s) =
    let rest = trim_slashes_right s in
    if nat_beq (code c) b'/' && rest == "" then "" else String.◌∷◌ c rest

unfoldable pub parse_path : String → List String
unfolding trim_slashes_left trim_slashes_right
parse_path path =
    let inner =
      trim_slashes_right
        (trim_slashes_left (trim_prefix (trim_prefix path "/carddav/") "/carddav")) in
    if inner == "" then [] else split b'/' inner

-- the identifier in a path of three parts
unfoldable pub contact_id : String → Option String
contact_id path = elim (parse_path path) [
  | [] ↦ none
  | a ∷ [] ↦ none
  | a ∷ b ∷ [] ↦ none
  | a ∷ b ∷ c ∷ [] ↦ some (trim_suffix c ".vcf")
  | a ∷ b ∷ c ∷ d ∷ rest ↦ none
]

abbrev etag_prop : Contact → String × String
etag_prop c = ("getetag", concat ("\"" ∷ c.etag ∷ "\"" ∷ []))

abbrev card_props : Contact → List (String × String)
card_props c = etag_prop c ∷ (("getcontenttype", "text/vcard") ∷ [])

abbrev contacts_or_nil : Option (List Contact) → List Contact
contacts_or_nil none = []
contacts_or_nil (some contacts) = contacts

home_href : String → String
home_href user = concat ("<d:href>/carddav/" ∷ user ∷ "/</d:href>" ∷ [])

-- The contact of a path need not be the user's.
unfoldable pub handle_propfind : Db → String → String → DavAnswer
unfolding home_href
handle_propfind db user path = elim (parse_path path) [
  | [] ↦ multistatus (
      record {
        href = path;
        props =
            ("resourcetype", "<d:collection/><d:principal/>")
            ∷ (("current-user-principal", home_href user)
                ∷ (("addressbook-home-set", home_href user) ∷ []));
      }
      ∷ [])
  | a ∷ [] ↦ multistatus (
      record {
        href = path;
        props =
            ("resourcetype", "<d:collection/>") ∷ (("addressbook-home-set", home_href user) ∷ []);
      }
      ∷ (record {
        href = concat ("/carddav/" ∷ user ∷ "/default/" ∷ []);
        props =
            ("resourcetype", "<d:collection/><card:addressbook/>")
            ∷ (("displayname", "Contacts") ∷ []);
      }
          ∷ []))
  | a ∷ b ∷ [] ↦
      (if b == "default"
        then multistatus (
            record {
              href = path;
              props =
                  ("resourcetype", "<d:collection/><card:addressbook/>")
                  ∷ (("displayname", "Contacts") ∷ []);
            }
            ∷ map
                (λ c. record {
                  href = concat ("/carddav/" ∷ user ∷ "/default/" ∷ c.id ∷ ".vcf" ∷ []);
                  props = card_props c;
                })
                (contacts_or_nil (list_contacts db user)))
        else status 200)
  | a ∷ b ∷ c ∷ [] ↦ elim (get_contact db (trim_suffix c ".vcf")) [
    | none ↦ status 404
    | some found ↦ multistatus (record { href = path; props = card_props found } ∷ [])
  ]
  | a ∷ b ∷ c ∷ d ∷ rest ↦ status 200
]

-- the text and the etag
unfoldable pub handle_get : Db → String → String → DavAnswer
handle_get db user path = elim (contact_id path) [
  | none ↦ status 404
  | some id ↦ elim (get_contact db id) [
    | none ↦ status 404
    | some c ↦ (if not (c.owner_email == user) then status 403 else vcard c.etag c.vcard_data)
  ]
]

-- from the point where the contact was looked up
unfoldable pub put_contact :
    Db → String → String → String → String → ℕ → Option Contact → DavAnswer × Db
put_contact db user id text etag now found =
    let fresh : Contact = record {
      id = id;
      owner_email = user;
      vcard_data = text;
      etag = etag;
      updated_at = now;
    } in
    let created : DavAnswer × Db = elim (create_contact db fresh now) [
      | none ↦ (status 500, db)
      | some db' ↦ (status 201, db')
    ] in
    elim found [
      | none ↦ created
      | some old ↦
          (if old.owner_email == user
            then (
              status 204,
              or_same db (update_contact db (record old { vcard_data = text; etag = etag }) now),
            )
            else created)
    ]

-- the body is read up to 64 KB
unfoldable pub handle_put : Db → String → String → Option String → String → ℕ → DavAnswer × Db
handle_put db user path body etag now = elim (contact_id path) [
  | none ↦ (status 400, db)
  | some id ↦ elim body [
    | none ↦ (status 400, db)
    | some text ↦ put_contact db user id (slice text 0 (64 * 1024)) etag now (get_contact db id)
  ]
]

unfoldable pub handle_delete : Db → String → String → DavAnswer × Db
handle_delete db user path = elim (contact_id path) [
  | none ↦ (status 404, db)
  | some id ↦ elim (get_contact db id) [
    | none ↦ (status 404, db)
    | some c ↦
        (if not (c.owner_email == user)
          then (status 404, db)
          else (status 204, or_same db (delete_contact db id)))
  ]
]

-- strings.Index of the first text, or else of the second
index_either : String → String → String → Option ℕ
index_either s a b = elim (find? s a) [ some i ↦ some i | none ↦ find? s b ]

-- the contact of one href, if it is the user's
report_one : Db → String → String → List DavResponse
report_one db user href = elim (contact_id href) [
  | none ↦ []
  | some id ↦ elim (get_contact db id) [
    | none ↦ []
    | some c ↦
        (if c.owner_email == user
          then record { href = href; props = etag_prop c ∷ (("address-data", c.vcard_data) ∷ []) }
            ∷ []
          else [])
  ]
]

-- Each round drops the eight characters of an opening tag, so the length of the body is enough fuel.
report_loop : ℕ → Db → String → String → List DavResponse
unfolding index_either report_one
report_loop zero db user body = []
report_loop (suc fuel) db user body = elim (index_either body "<d:href>" "<D:href>") [
  | none ↦ []
  | some start ↦
      (let inner = slice body (start + 8) (len body) in
        elim (index_either inner "</d:href>" "</D:href>") [
          | none ↦ []
          | some end ↦
              report_one db user (slice inner 0 end)
              ++ report_loop fuel db user (slice inner end (len inner))
        ])
]

-- an unreadable body counts as what was read of it, which is nothing here
unfoldable pub handle_report : Db → String → Option String → DavAnswer
unfolding report_loop
handle_report db user none = multistatus []
handle_report db user (some body) =
    let text = slice body 0 (64 * 1024) in multistatus (report_loop (len text) db user text)

unfoldable pub serve_http : (String → String → Bool) → Db → DavRequest → String → ℕ → DavAnswer × Db
serve_http check_password db r etag now = elim (authenticate check_password db r.basic_auth) [
  | none ↦ (status 401, db)
  | some user ↦
      (if r.method == "OPTIONS"
        then (status 200, db)
        else if r.method == "PROPFIND"
        then (handle_propfind db user r.path, db)
        else if r.method == "GET"
        then (handle_get db user r.path, db)
        else if r.method == "PUT"
        then handle_put db user r.path r.body etag now
        else if r.method == "DELETE"
        then handle_delete db user r.path
        else if r.method == "REPORT"
        then (handle_report db user r.body, db)
        else (status 405, db))
]
