-- ===== src/Carddav/Tests.antt =====
-- The theorem on contacts at a contact that is replaced.
use bdsmail.Base.{String, [], concat, first, inr, refl, slice, some, split, ◌*◌, ◌∷◌, ◌≡◌}
use bdsmail.Db.{Db, empty_db, get_contact}
use bdsmail.Carddav.{
  contact_id, handle_get, handle_put, handle_report, multistatus, parse_path, put_contact, vcard,
}
use bdsmail.Carddav.Contacts.{handle_get-handle_put}

abbrev db : Db
db = record empty_db {
  user_contact =
      record {
        id = "c1";
        owner_email = "ann@bds.example";
        vcard_data = "old";
        etag = "e1";
        updated_at = 5;
      }
      ∷ [];
}

abbrev card_path : String
card_path = "/carddav/ann@bds.example/default/c1.vcf"

handle_get-handle_put_example :
    handle_get
      (handle_put db "ann@bds.example" card_path (some "new") "e2" 9).1
      "ann@bds.example"
      card_path
    ≡ vcard "e2" (slice "new" 0 (64 * 1024))
unfolding handle_put contact_id parse_path split put_contact get_contact first
handle_get-handle_put_example =
    handle_get-handle_put db "ann@bds.example" card_path "new" "e2" 9 (inr refl)

-- the contacts of a report with tags in upper case
reports :
    handle_report db "ann@bds.example"
      (some "<D:href>/carddav/x/y/c1.vcf</D:href><D:href>/carddav/x/y/c2.vcf</D:href>")
    ≡ multistatus (
        record {
          href = "/carddav/x/y/c1.vcf";
          props = ("getetag", "\"e1\"") ∷ (("address-data", "old") ∷ []);
        }
        ∷ [])
unfolding handle_report contact_id parse_path split get_contact first concat
reports = refl
