-- ===== src/Web/Tests/Pages.antt =====
-- The theorems on mail, contacts and administration at concrete requests.
use bdsmail.Base.{
  List, String, [], false, first, if◌then◌else◌, keep, length, negsuc, pos, refl, some, true, ℕ,
  ◌==◌, ◌∷◌, ◌≡◌, ◌⊎◌,
}
use bdsmail.Model.{Message}
use bdsmail.Db.{get_message, list_attachments}
use bdsmail.Store.{MailStore}
use bdsmail.Web.Sessions.{Request, get_session_user}
use bdsmail.Web.VCard.{contact_to_vcard, vcard_to_contact}
use bdsmail.Web.VCard.Roundtrip.Lines.{is_plain}
use bdsmail.Web.VCard.Roundtrip.{vcard_to_contact-contact_to_vcard}
use bdsmail.Web.Paging.{paginate_messages}
use bdsmail.Web.Paging.Bounds.{AreNeeded, IsNearest, IsPage, paginate_messages_lem}
use bdsmail.Web.Mail.{api_message}
use bdsmail.Web.Mail.Owned.{ShowsOwn, api_message-ShowsOwn}
use bdsmail.Web.Admin.{handle_admin_aliases, handle_admin_lists, handle_admin_users}
use bdsmail.Web.Admin.Secret.{IsAdmin, handle_admin_users-IsAdmin}
use bdsmail.Web.Tests.{db, passwords, post, sessions}

plain : (is_plain "Ann: B" ≡ true) × (is_plain "ann@far.example" ≡ true) × (is_plain "" ≡ true)
unfolding is_plain
plain = (refl, refl, refl)

vcard_to_contact-contact_to_vcard_example :
    vcard_to_contact (contact_to_vcard "Ann: B" "ann@far.example" "")
    ≡ ("Ann: B", "ann@far.example", "")
vcard_to_contact-contact_to_vcard_example =
    vcard_to_contact-contact_to_vcard "Ann: B" "ann@far.example" "" plain.0 plain.1 plain.2

abbrev letter : String → String → Message
letter id owner = record {
  id = id;
  message_id = "";
  from = "eve@far.example";
  to = [];
  cc = [];
  bcc = [];
  subject = "Hi";
  content_type = "text/plain";
  gcs_key = "";
  owner_user = owner;
  folder = "INBOX";
  seen = false;
  deleted = false;
  received_at = 0;
  body = "";
  attachments = [];
}

abbrev mailbox : List Message
mailbox = letter "m1" "bob@bds.example" ∷ (letter "m2" "ann@bds.example" ∷ [])

paginate_messages_lem_example :
    (current : ℕ) × (pages : ℕ) × (paged : List Message) × (paginate_messages mailbox (negsuc 2)
      ≡ (some paged, pos current, pages))
    × AreNeeded (length mailbox) pages
    × IsNearest (negsuc 2) pages current
    × IsPage mailbox current paged
paginate_messages_lem_example = paginate_messages_lem mailbox (negsuc 2)

abbrev store : MailStore
store = record {
  db = record db { mail_content = mailbox };
  has_bucket = false;
  bucket_log = [];
  next_id = 0;
}

-- bob asks for the deletion of the message of ann
abbrev deletion : Request
deletion = record (post (λ name. "")) { path = "/api/messages/m2/delete" }

found : get_message store.db "m2" ≡ some (letter "m2" "ann@bds.example")
unfolding get_message list_attachments first keep
found = refl

foreign : ("ann@bds.example" == get_session_user deletion.session sessions) ≡ false
unfolding get_session_user
foreign = refl

api_message-ShowsOwn_example :
    ShowsOwn (get_session_user deletion.session sessions) (api_message sessions store deletion).0
    × (get_message (api_message sessions store deletion).1.db "m2"
        ≡ some (letter "m2" "ann@bds.example"))
api_message-ShowsOwn_example =
    api_message-ShowsOwn sessions store deletion "m2" (letter "m2" "ann@bds.example") found foreign

abbrev removal : Request
removal =
    record (post (λ name. if name == "admin_action" then "delete_user" else "bob@bds.example")) {
      admin = some "s";
    }

handle_admin_users-IsAdmin_example :
    (((handle_admin_users passwords "s" db removal).1 ≡ db) ⊎ IsAdmin "s" removal)
    × (((handle_admin_aliases "s" db removal).1 ≡ db) ⊎ IsAdmin "s" removal)
    × (((handle_admin_lists "s" db removal).1 ≡ db) ⊎ IsAdmin "s" removal)
handle_admin_users-IsAdmin_example = handle_admin_users-IsAdmin passwords "s" db removal
