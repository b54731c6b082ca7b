-- ===== src/Web/Compose/Forms.antt =====
-- The form that a reply, an answer to all or a forward starts with (handlers.go).
use bdsmail.Base.{
  List, Option, String, [], concat, cut, if◌then◌else◌, join, keep, map, none, not, some, split,
  starts_with, to_lower, trim_space, ℕ, ◌&&◌, ◌++◌, ◌==◌, ◌∷◌,
}
use bdsmail.Model.{Message, email}
use bdsmail.Db.{Db, get_message}
use bdsmail.Web.Sessions.{Request}

unfoldable pub parse_addresses : String → List String
parse_addresses s = keep (λ p. not (p == "")) (map trim_space (split b',' (trim_space s)))

-- the address in angle brackets, or else the whole text
unfoldable pub extract_email_addr : String → String
extract_email_addr s = elim (cut b'<' s) [
  | none ↦ trim_space s
  | some (name, rest) ↦ elim (cut b'>' rest) [
    | none ↦ trim_space s
    | some (address, after) ↦ address
  ]
]

unfoldable pub quote_body : (ℕ → String) → String → ℕ → String → String
quote_body format from at body = concat (
    "\n\n"
    ∷ "On "
    ∷ format at
    ∷ ", "
    ∷ from
    ∷ " wrote:\n"
    ∷ map (λ line. concat ("> " ∷ line ∷ "\n" ∷ [])) (split 10 body))

unfoldable pub forward_body : (ℕ → String) → String → ℕ → String → String → String → String
forward_body format from at to subject body = concat (
    "\n\n---------- Forwarded message ----------\n"
    ∷ "From: "
    ∷ from
    ∷ "\n"
    ∷ "Date: "
    ∷ format at
    ∷ "\n"
    ∷ "Subject: "
    ∷ subject
    ∷ "\n"
    ∷ "To: "
    ∷ to
    ∷ "\n\n"
    ∷ body
    ∷ [])

-- the subject with a prefix, unless it has one
unfoldable pub prefixed : String → String → String → String
prefixed lower prefix subject =
    if starts_with (to_lower subject) lower then subject else concat (prefix ∷ " " ∷ subject ∷ [])

pub record ComposeForm : Type 0 where
  pub to : String
  pub cc : String
  pub bcc : String
  pub subject : String
  pub body : String

abbrev pub empty_form : ComposeForm
empty_form = record { to = ""; cc = ""; bcc = ""; subject = ""; body = "" }

-- a message that is the user's own
unfoldable pub own_message : Db → String → String → Option Message
own_message db email id = if id == "" then none else elim (get_message db id) [
  | none ↦ none
  | some msg ↦ (if msg.owner_user == email then some msg else none)
]

-- the copies of an answer to all: the other recipients
unfoldable pub reply_all_cc : String → Message → List String
reply_all_cc email msg =
    keep (λ a. not (a == email) && not (a == extract_email_addr msg.from))
      (map extract_email_addr (msg.to ++ msg.cc))

unfoldable pub reply_form : (ℕ → String) → ComposeForm → Option Message → ComposeForm
reply_form format form none = form
reply_form format form (some msg) = record form {
  to = extract_email_addr msg.from;
  subject = prefixed "re:" "Re:" msg.subject;
  body = quote_body format msg.from msg.received_at msg.body;
}

unfoldable pub reply_all_form : (ℕ → String) → String → ComposeForm → Option Message → ComposeForm
reply_all_form format email form none = form
reply_all_form format email form (some msg) = record (reply_form format form (some msg)) {
  cc = join ", " (reply_all_cc email msg);
}

unfoldable pub forward_form : (ℕ → String) → ComposeForm → Option Message → ComposeForm
forward_form format form none = form
forward_form format form (some msg) = record form {
  subject = prefixed "fwd:" "Fwd:" msg.subject;
  body = forward_body format msg.from msg.received_at (join ", " msg.to) msg.subject msg.body;
}

-- the form of a GET request
unfoldable pub compose_form : (ℕ → String) → Db → String → Request → ComposeForm
compose_form format db email r =
    let start = record empty_form { to = r.value "to" } in
    let reply = reply_form format start (own_message db email (r.value "reply")) in
    let all = reply_all_form format email reply (own_message db email (r.value "replyall")) in
    forward_form format all (own_message db email (r.value "forward"))
