-- ===== src/Web/Settings.antt =====
-- Filters, vacation replies and contacts: the pages of internal/web/handlers.go and the handlers of
-- internal/web/api_handlers.go. Identifiers and dates are given.
use bdsmail.Base.{
  Bool, List, Option, String, [], if◌then◌else◌, map, nat_beq, none, not, pos, slice, some,
  trim_prefix, true, ℕ, ◌==◌, ◌∷◌,
}
use bdsmail.Model.{AutoReply, Contact, Filter, email}
use bdsmail.Db.{
  Db, create_contact, create_filter, delete_contact, delete_filter, get_auto_reply, list_contacts,
  list_filters, set_auto_reply,
}
use bdsmail.Web.Sessions.{
  Answer, Request, SessionStore, failed, get_session_user, json, page, redirect, rows, status_ok,
}
use bdsmail.Web.VCard.{contact_to_vcard, vcard_to_contact}

-- a filter with one condition and one action; the names of the fields differ between page and API
unfoldable pub new_filter : String → String → Request → String → String → Filter
new_filter id email r action_type action_value = record {
  id = id;
  user_email = email;
  name = r.value "name";
  priority = pos 5;
  conditions =
      record {
        field = r.value "field";
        operator = r.value "operator";
        value = r.value "value";
        header = "";
      }
      ∷ [];
  actions = record { type = action_type; value = action_value } ∷ [];
  enabled = true;
}

abbrev written : Db → Option Db → Answer → Answer → Answer × Db
written db none error done = (error, db)
written db (some db') error done = (done, db')

-- The filter that is deleted need not be the user's.
unfoldable pub handle_filters : SessionStore → Db → Request → String → Answer × Db
handle_filters ss db r id =
    let email = get_session_user r.session ss in
    let filter = new_filter id email r (r.value "action_type") (r.value "action_value") in
    if email == ""
    then (redirect "/login", db)
    else if not (r.method == "POST")
    then (page "" "", db)
    else if r.value "action" == "create"
    then written db (create_filter db filter) (page "Failed to create filter" "")
        (page "" "Filter created")
    else if r.value "action" == "delete"
    then written db (delete_filter db (r.value "filter_id")) (page "Failed to delete filter" "")
        (page "" "Filter deleted")
    else (page "" "", db)

abbrev filters_or_nil : Option (List Filter) → List Filter
filters_or_nil none = []
filters_or_nil (some filters) = filters

unfoldable pub api_filters : SessionStore → Db → Request → String → Answer × Db
api_filters ss db r id =
    let email = get_session_user r.session ss in
    let filter = new_filter id email r (r.value "actionType") (r.value "actionValue") in
    if email == ""
    then (failed 401, db)
    else if r.method == "GET"
    then (
      rows (
          map (λ f. ("id", f.id) ∷ (("name", f.name) ∷ []))
            (filters_or_nil (list_filters db email))),
      db,
    )
    else if r.method == "POST"
    then written db (create_filter db filter) (failed 500) status_ok
    else if r.method == "DELETE"
    then written db (delete_filter db (trim_prefix r.path "/api/filters/")) (failed 500) status_ok
    else (json [], db)

-- time.Parse of a date, 0 for the empty text and for an error
unfoldable pub new_reply : (String → ℕ) → String → Bool → Request → String → String → AutoReply
new_reply parse_date email enabled r start_date end_date = record {
  user_email = email;
  enabled = enabled;
  subject = r.value "subject";
  body = r.value "body";
  start_date = if start_date == "" then 0 else parse_date start_date;
  end_date = if end_date == "" then 0 else parse_date end_date;
}

unfoldable pub handle_auto_reply : (String → ℕ) → SessionStore → Db → Request → Answer × Db
handle_auto_reply parse_date ss db r =
    let email = get_session_user r.session ss in
    let reply =
      new_reply parse_date email (r.value "enabled" == "true") r (r.value "start_date")
        (r.value "end_date") in
    if email == ""
    then (redirect "/login", db)
    else if not (r.method == "POST")
    then (page "" "", db)
    else written db (set_auto_reply db reply) (page "Failed to save" "")
        (page "" "Auto-reply settings saved")

-- the date as a text, empty where it is not set
abbrev date_text : (ℕ → String) → ℕ → String
date_text format date = if nat_beq date 0 then "" else format date

abbrev reply_view : (ℕ → String) → Option AutoReply → List (String × String)
reply_view format none =
    ("enabled", "false")
    ∷ (("subject", "") ∷ (("body", "") ∷ (("startDate", "") ∷ (("endDate", "") ∷ []))))
reply_view format (some reply) =
    ("enabled", if reply.enabled then "true" else "false")
    ∷ (("subject", reply.subject)
        ∷ (("body", reply.body)
            ∷ (("startDate", date_text format reply.start_date)
                ∷ (("endDate", date_text format reply.end_date) ∷ []))))

unfoldable pub api_auto_reply :
    (String → ℕ) → (ℕ → String) → SessionStore → Db → Request → Answer × Db
api_auto_reply parse_date format ss db r =
    let email = get_session_user r.session ss in
    let reply =
      new_reply parse_date email (r.flag "enabled") r (r.value "startDate") (r.value "endDate") in
    if email == ""
    then (failed 401, db)
    else if r.method == "GET"
    then (json (reply_view format (get_auto_reply db email)), db)
    else if r.method == "POST"
    then written db (set_auto_reply db reply) (failed 500) status_ok
    else (json [], db)

-- a new contact; the etag is the beginning of an identifier
unfoldable pub new_contact : String → String → String → String → ℕ → Contact
new_contact id email vcard etag now = record {
  id = id;
  owner_email = email;
  vcard_data = vcard;
  etag = slice etag 0 8;
  updated_at = now;
}

-- The contact that is deleted need not be the user's.
unfoldable pub handle_contacts : SessionStore → Db → Request → String → String → ℕ → Answer × Db
handle_contacts ss db r id etag now =
    let email = get_session_user r.session ss in
    let vcard = contact_to_vcard (r.value "name") (r.value "contact_email") (r.value "phone") in
    if email == ""
    then (redirect "/login", db)
    else if not (r.method == "POST")
    then (page "" "", db)
    else if r.value "action" == "create"
    then written db (create_contact db (new_contact id email vcard etag now) now)
        (page "Failed to add contact" "") (page "" "Contact added")
    else if r.value "action" == "delete"
    then written db (delete_contact db (r.value "contact_id")) (page "Failed to delete contact" "")
        (page "" "Contact deleted")
    else (page "" "", db)

unfoldable pub contact_view : Contact → List (String × String)
contact_view c =
    let (name, email, phone) = vcard_to_contact c.vcard_data in
    ("ID", c.id) ∷ (("Name", name) ∷ (("Email", email) ∷ (("Phone", phone) ∷ [])))

abbrev contacts_or_nil : Option (List Contact) → List Contact
contacts_or_nil none = []
contacts_or_nil (some contacts) = contacts

unfoldable pub api_contacts : SessionStore → Db → Request → String → String → ℕ → Answer × Db
api_contacts ss db r id etag now =
    let email = get_session_user r.session ss in
    let vcard = contact_to_vcard (r.value "name") (r.value "email") (r.value "phone") in
    if email == ""
    then (failed 401, db)
    else if r.method == "GET"
    then (rows (map contact_view (contacts_or_nil (list_contacts db email))), db)
    else if r.method == "POST"
    then written db (create_contact db (new_contact id email vcard etag now) now) (failed 500)
        status_ok
    else if r.method == "DELETE"
    then written db (delete_contact db (trim_prefix r.path "/api/contacts/")) (failed 500) status_ok
    else (json [], db)
