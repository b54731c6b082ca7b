-- ===== src/Web/VCard/Roundtrip.antt =====
-- A contact that was written as a vCard is read back.
pub mod Lines
use Prim.Native.String
use Prim.Native.String.append
use text.Mathlib.TextEquality.{starts_with_iff}
use text.Mathlib.TextPositions.{len-append, slice-append_right, starts_with-append}
use text.Mathlib.TextLemmas.{append_assoc, head-eq_of_cons-eq}
use bdsmail.Base.{Bool-cases, String, ap, concat, eq_iff, inl, inr, refl, true, ◌==◌, ◌∙◌, ◌≡◌}
use bdsmail.Web.VCard.{
  contact_to_vcard, crlf_lines, read_line, read_lines, vcard_line, vcard_to_contact,
}
use bdsmail.Web.VCard.Roundtrip.Lines.{
  crlf_lines-line, email_text, is_plain, phone_text, read_email, read_name, read_phone,
}

joined :
    (name value rest : String)
    → String.◌++◌ (String.◌++◌ name (String.◌++◌ ":" (String.◌++◌ value "\r\n"))) rest
      ≡ String.◌++◌ (String.◌++◌ (String.◌++◌ name ":") value) (String.◌++◌ "\r\n" rest)
joined name value rest = simp append_assoc refl

abbrev Fields : Type 0
Fields = String × String × String

-- the lines of a text that begins with one that is plain
read_first :
    (line rest : String) (old new : Fields)
    → is_plain line ≡ true
    → read_line old line ≡ new
    → read_lines old (crlf_lines (String.◌++◌ line (String.◌++◌ "\r\n" rest)))
      ≡ read_lines new (crlf_lines rest)
unfolding read_lines
read_first line rest old new plain reads =
    ap (read_lines old) (crlf_lines-line line rest plain)
    ∙ ap (λ contact. read_lines contact (crlf_lines rest)) reads

same_if_empty : (s : String) → (s == "") ≡ true → s ≡ ""
same_if_empty s e = (eq_iff s "").0 e

name_line :
    (name email phone rest : String)
    → is_plain name ≡ true
    → read_lines
        ("", email, phone)
        (crlf_lines (String.◌++◌ "FN:" (String.◌++◌ name (String.◌++◌ "\r\n" rest))))
      ≡ read_lines (name, email, phone) (crlf_lines rest)
unfolding is_plain
name_line name email phone rest plain = rw⁻¹ (append_assoc "FN:" name (String.◌++◌ "\r\n" rest)) (
    read_first (String.◌++◌ "FN:" name) rest ("", email, phone) (name, email, phone)
      (rw (append.cons, append.cons, append.cons, append.nil) plain)
      (read_name "" email phone name))

email_line :
    (name email phone rest : String)
    → is_plain email ≡ true
    → read_lines (name, "", phone) (crlf_lines (String.◌++◌ (vcard_line "EMAIL" email) rest))
      ≡ read_lines (name, email, phone) (crlf_lines rest)
unfolding vcard_line concat is_plain
email_line name email phone rest plain = elim (Bool-cases (email == "")) [
  | inl e ↦ rw (same_if_empty email e, append.nil rest) refl
  | inr e ↦
      rw (vcard_line, e, joined "EMAIL" email rest)
        (read_first (String.◌++◌ "EMAIL:" email) rest (name, "", phone) (name, email, phone)
          (rw (email_text email) plain) (read_email name "" phone email))
]

phone_line :
    (name email phone rest : String)
    → is_plain phone ≡ true
    → read_lines (name, email, "") (crlf_lines (String.◌++◌ (vcard_line "TEL" phone) rest))
      ≡ read_lines (name, email, phone) (crlf_lines rest)
unfolding vcard_line concat is_plain
phone_line name email phone rest plain = elim (Bool-cases (phone == "")) [
  | inl e ↦ rw (same_if_empty phone e, append.nil rest) refl
  | inr e ↦
      rw (vcard_line, e, joined "TEL" phone rest)
        (read_first (String.◌++◌ "TEL:" phone) rest (name, email, "") (name, email, phone)
          (rw (phone_text phone) plain) (read_phone name email "" phone))
]

-- the two lines at the beginning, and the one at the end
header_lines :
    (rest : String)
    → read_lines ("", "", "") (crlf_lines (String.◌++◌ "BEGIN:VCARD\r\nVERSION:3.0\r\n" rest))
      ≡ read_lines ("", "", "") (crlf_lines rest)
unfolding read_line is_plain
header_lines rest =
    let version = String.◌++◌ "VERSION:3.0" (String.◌++◌ "\r\n" rest) in
    ap (λ t. read_lines ("", "", "") (crlf_lines t))
      (append_assoc "BEGIN:VCARD" "\r\nVERSION:3.0\r\n" rest
        ∙ ap (String.◌++◌ "BEGIN:VCARD") (
            append_assoc "\r\n" "VERSION:3.0\r\n" rest
            ∙ ap (String.◌++◌ "\r\n") (append_assoc "VERSION:3.0" "\r\n" rest)))
    ∙ read_first "BEGIN:VCARD" version ("", "", "") ("", "", "") refl refl
    ∙ read_first "VERSION:3.0" rest ("", "", "") ("", "", "") refl refl

footer_line : (contact : Fields) → read_lines contact (crlf_lines "END:VCARD\r\n") ≡ contact
unfolding read_lines read_line crlf_lines
footer_line contact = refl

-- A contact that is written as a vCard and read again has the same name, address and phone number,
-- if none of them contains a carriage return.
pub vcard_to_contact-contact_to_vcard :
    (name email phone : String)
    → is_plain name ≡ true
    → is_plain email ≡ true
    → is_plain phone ≡ true
    → vcard_to_contact (contact_to_vcard name email phone) ≡ (name, email, phone)
unfolding vcard_to_contact contact_to_vcard concat
vcard_to_contact-contact_to_vcard name email phone plain_name plain_email plain_phone =
    header_lines (
      String.◌++◌ "FN:" (
        String.◌++◌ name (
          String.◌++◌ "\r\n" (
            String.◌++◌ (vcard_line "EMAIL" email)
              (String.◌++◌ (vcard_line "TEL" phone) "END:VCARD\r\n")))))
    ∙ name_line name "" ""
        (String.◌++◌ (vcard_line "EMAIL" email)
          (String.◌++◌ (vcard_line "TEL" phone) "END:VCARD\r\n"))
        plain_name
    ∙ email_line name email "" (String.◌++◌ (vcard_line "TEL" phone) "END:VCARD\r\n") plain_email
    ∙ phone_line name email phone "END:VCARD\r\n" plain_phone
    ∙ footer_line (name, email, phone)
