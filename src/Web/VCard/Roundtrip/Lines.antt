-- ===== src/Web/VCard/Roundtrip/Lines.antt =====
-- The lines of a vCard and what is read of them.
use Prim.Native.String
use Prim.Native.String.append
use text.Mathlib.TextEquality.{starts_with_iff}
use text.Mathlib.TextPositions.{len-append, slice-append_right, starts_with-append}
use text.Mathlib.TextLemmas.{append_assoc, head-eq_of_cons-eq}
use bdsmail.Base.{
  Bool, Bool-cases, Char, String, ap, arith, code, concat, cut, false, if◌then◌else◌, inl, inr, len,
  nat_beq, refl, slice, starts_with, sym, true, ◌∙◌, ◌∷◌, ◌≡◌,
}
use bdsmail.Web.VCard.{
  contact_to_vcard, crlf_lines, line_onto, read_line, read_lines, value_of_line, vcard_line,
  vcard_to_contact,
}

-- without a carriage return
unfoldable pub is_plain : String → Bool
is_plain String.[] = true
is_plain (String.◌∷◌ c s) = let rest = is_plain s in if nat_beq (code c) 13 then false else rest

vcard_test :
    vcard_to_contact (contact_to_vcard "Ann: B" "ann@far.example" "1 2")
    ≡ ("Ann: B", "ann@far.example", "1 2")
unfolding vcard_to_contact contact_to_vcard crlf_lines read_lines read_line concat cut vcard_line
vcard_test = refl

crlf : (rest : String) → String.◌++◌ "\r\n" rest ≡ String.◌∷◌ "\r" (String.◌∷◌ "\n" rest)
crlf rest =
    append.cons "\r" "\n" rest
    ∙ ap (String.◌∷◌ "\r") (append.cons "\n" "" rest ∙ ap (String.◌∷◌ "\n") (append.nil rest))

is_plain_head :
    (c : Char) (s : String) → is_plain (String.◌∷◌ c s) ≡ true → nat_beq (code c) 13 ≡ false
unfolding is_plain
is_plain_head c s plain = ground (arith, plain)

is_plain_tail : (c : Char) (s : String) → is_plain (String.◌∷◌ c s) ≡ true → is_plain s ≡ true
unfolding is_plain
is_plain_tail c s plain = ground (arith, plain)

crlf_lines-crlf : (rest : String) → crlf_lines (String.◌++◌ "\r\n" rest) ≡ "" ∷ crlf_lines rest
unfolding crlf_lines
crlf_lines-crlf rest = rw (crlf rest) refl

pub crlf_lines-line :
    (line rest : String)
    → is_plain line ≡ true
    → crlf_lines (String.◌++◌ line (String.◌++◌ "\r\n" rest)) ≡ line ∷ crlf_lines rest
unfolding crlf_lines
crlf_lines-line String.[] rest plain =
    ap crlf_lines (append.nil (String.◌++◌ "\r\n" rest)) ∙ crlf_lines-crlf rest
crlf_lines-line (String.◌∷◌ c String.[]) rest plain =
    rw (append.cons c "" (String.◌++◌ "\r\n" rest), append.nil (String.◌++◌ "\r\n" rest), crlf rest)
      (rw (is_plain_head c "" plain) refl)
crlf_lines-line (String.◌∷◌ c (String.◌∷◌ d s)) rest plain =
    let end = String.◌++◌ "\r\n" rest in
    let later = crlf_lines-line (String.◌∷◌ d s) rest (is_plain_tail c (String.◌∷◌ d s) plain) in
    rw (append.cons c (String.◌∷◌ d s) end, append.cons d s end)
      (rw (is_plain_head c (String.◌∷◌ d s) plain)
        (ap (line_onto c) (rw (append.cons d s end) at later)))

not_prefix :
    (c d : Char) (s t : String)
    → nat_beq (code c) (code d) ≡ false
    → starts_with (String.◌∷◌ c s) (String.◌∷◌ d t) ≡ false
not_prefix c d s t apart = elim (Bool-cases (starts_with (String.◌∷◌ c s) (String.◌∷◌ d t))) [
  | inl e ↦
      let (rest, joined) = (starts_with_iff (String.◌∷◌ c s) (String.◌∷◌ d t)).0 e in
      let same : d ≡ c = head-eq_of_cons-eq (sym (append.cons d t rest) ∙ joined) in
      absurd (ground (arith, apart, ap code same))
  | inr e ↦ e
]

pub email_text :
    (e : String)
    → String.◌++◌ "EMAIL:" e
      ≡ String.◌∷◌ "E"
          (String.◌∷◌ "M" (String.◌∷◌ "A" (String.◌∷◌ "I" (String.◌∷◌ "L" (String.◌∷◌ ":" e)))))
email_text e =
    rw (append.cons, append.cons, append.cons, append.cons, append.cons, append.cons, append.nil)
      refl

pub phone_text :
    (p : String)
    → String.◌++◌ "TEL:" p ≡ String.◌∷◌ "T" (String.◌∷◌ "E" (String.◌∷◌ "L" (String.◌∷◌ ":" p)))
phone_text p = rw (append.cons, append.cons, append.cons, append.cons, append.nil) refl

slice_after : (s t : String) → slice (String.◌++◌ s t) (len s) (len (String.◌++◌ s t)) ≡ t
slice_after s t = rw (len-append s t) (slice-append_right s t)

pub read_name :
    (name email phone value : String)
    → read_line (name, email, phone) (String.◌++◌ "FN:" value) ≡ (value, email, phone)
unfolding read_line
read_name name email phone value = rw (starts_with-append "FN:" value, slice_after "FN:" value) refl

email_starts :
    (value : String)
    → (starts_with (String.◌++◌ "EMAIL:" value) "FN:" ≡ false)
      × (starts_with (String.◌++◌ "EMAIL:" value) "EMAIL" ≡ true)
email_starts value = (
  rw (email_text value) (
      not_prefix "E" "F"
        (String.◌∷◌ "M" (String.◌∷◌ "A" (String.◌∷◌ "I" (String.◌∷◌ "L" (String.◌∷◌ ":" value)))))
        "N:" refl),
  ap (λ t. starts_with t "EMAIL") (append_assoc "EMAIL" ":" value)
      ∙ starts_with-append "EMAIL" (String.◌++◌ ":" value),
)

email_value : (value old : String) → value_of_line (String.◌++◌ "EMAIL:" value) old ≡ value
unfolding value_of_line cut
email_value value old = rw (email_text value) refl

pub read_email :
    (name email phone value : String)
    → read_line (name, email, phone) (String.◌++◌ "EMAIL:" value) ≡ (name, value, phone)
unfolding read_line
read_email name email phone value =
    let (no_name, is_email) = email_starts value in
    rw (no_name, is_email, email_value value email) refl

phone_starts :
    (value : String)
    → (starts_with (String.◌++◌ "TEL:" value) "FN:" ≡ false)
      × (starts_with (String.◌++◌ "TEL:" value) "EMAIL" ≡ false)
      × (starts_with (String.◌++◌ "TEL:" value) "TEL" ≡ true)
phone_starts value =
    let tail = String.◌∷◌ "E" (String.◌∷◌ "L" (String.◌∷◌ ":" value)) in
    (
      rw (phone_text value) (not_prefix "T" "F" tail "N:" refl),
      rw (phone_text value) (not_prefix "T" "E" tail "MAIL" refl),
      ap (λ t. starts_with t "TEL") (append_assoc "TEL" ":" value)
          ∙ starts_with-append "TEL" (String.◌++◌ ":" value),
    )

phone_value : (value old : String) → value_of_line (String.◌++◌ "TEL:" value) old ≡ value
unfolding value_of_line cut
phone_value value old = rw (phone_text value) refl

pub read_phone :
    (name email phone value : String)
    → read_line (name, email, phone) (String.◌++◌ "TEL:" value) ≡ (name, email, value)
unfolding read_line
read_phone name email phone value =
    let (no_name, no_email, is_phone) = phone_starts value in
    rw (no_name, no_email, is_phone, phone_value value phone) refl
