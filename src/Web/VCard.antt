-- ===== src/Web/VCard.antt =====
-- The text helpers of internal/web/handlers.go: contacts as vCards, the addresses of a form and the
-- parts of a path.
pub mod Roundtrip
use bdsmail.Base.{
  Char, List, String, [], code, concat, cut, if◌then◌else◌, nat_beq, none, some, starts_with,
  trim_prefix, ◌&&◌, ◌==◌, ◌∷◌,
}

line_onto : Char → List String → List String
line_onto c [] = String.◌∷◌ c "" ∷ []
line_onto c (line ∷ lines) = String.◌∷◌ c line ∷ lines

-- strings.Split(text, "\r\n")
unfoldable pub crlf_lines : String → List String
unfolding line_onto
crlf_lines String.[] = "" ∷ []
crlf_lines (String.◌∷◌ c String.[]) = String.◌∷◌ c "" ∷ []
crlf_lines (String.◌∷◌ c (String.◌∷◌ d rest)) =
    let split_here = crlf_lines rest in
    let later = crlf_lines (String.◌∷◌ d rest) in
    if nat_beq (code c) 13 && nat_beq (code d) 10 then "" ∷ split_here else line_onto c later

-- one line of a vCard, where there is a value
unfoldable pub vcard_line : String → String → String
vcard_line name value = if value == "" then "" else concat (name ∷ ":" ∷ value ∷ "\r\n" ∷ [])

unfoldable pub contact_to_vcard : String → String → String → String
unfolding vcard_line
contact_to_vcard name email phone = concat (
    "BEGIN:VCARD\r\nVERSION:3.0\r\n"
    ∷ "FN:"
    ∷ name
    ∷ "\r\n"
    ∷ vcard_line "EMAIL" email
    ∷ vcard_line "TEL" phone
    ∷ "END:VCARD\r\n"
    ∷ [])

-- what stands behind the first colon, or else the value so far
unfoldable pub value_of_line : String → String → String
value_of_line line old = elim (cut b':' line) [ none ↦ old | some (name, value) ↦ value ]

-- one round of the loop
unfoldable pub read_line : String × String × String → String → String × String × String
unfolding value_of_line
read_line (name, email, phone) line =
    if starts_with line "FN:"
    then (trim_prefix line "FN:", email, phone)
    else if starts_with line "EMAIL"
    then (name, value_of_line line email, phone)
    else if starts_with line "TEL"
    then (name, email, value_of_line line phone)
    else (name, email, phone)

unfoldable pub read_lines : String × String × String → List String → String × String × String
read_lines contact [] = contact
read_lines contact (line ∷ lines) = read_lines (read_line contact line) lines

-- the name, the address and the phone number; an empty line changes nothing
unfoldable pub vcard_to_contact : String → String × String × String
vcard_to_contact vcard = read_lines ("", "", "") (crlf_lines vcard)
