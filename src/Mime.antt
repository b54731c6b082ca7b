-- ===== src/Mime.antt =====
-- internal/mimeutil/build.go: the text of a message. Formatted times and the number in the boundary,
-- which come from the clock, are arguments.
use Prim.Native.String
use bdsmail.Base.{
  Char, List, String, [], code, concat, if◌then◌else◌, is_nil, join, len, ltb, map, refl, slice,
  suc, zero, ℕ, ◌%◌, ◌*◌, ◌+◌, ◌/◌, ◌==◌, ◌∷◌, ◌≡◌,
}
use bdsmail.Model.{Attachment, Message, has_attachments}

-- base64.StdEncoding, on codes of one byte
digit64 : ℕ → Char
digit64 n =
    String.char_at "ABCDEFGHIJKLMNOPQRSTUVWXYZabcdefghijklmnopqrstuvwxyz0123456789+/" (n % 64)

encode_base64 : String → String
unfolding digit64
encode_base64 String.[] = ""
encode_base64 (String.◌∷◌ a String.[]) =
    String.◌∷◌ (digit64 (code a / 4)) (String.◌∷◌ (digit64 (code a * 16)) "==")
encode_base64 (String.◌∷◌ a (String.◌∷◌ b String.[])) =
    String.◌∷◌ (digit64 (code a / 4))
      (String.◌∷◌ (digit64 (code a * 16 + code b / 16)) (String.◌∷◌ (digit64 (code b * 4)) "="))
encode_base64 (String.◌∷◌ a (String.◌∷◌ b (String.◌∷◌ c s))) = String.◌∷◌ (digit64 (code a / 4)) (
    String.◌∷◌ (digit64 (code a * 16 + code b / 16)) (
      String.◌∷◌ (digit64 (code b * 4 + code c / 64))
        (String.◌∷◌ (digit64 (code c)) (encode_base64 s))))

min : ℕ → ℕ → ℕ
min a b = if ltb b a then b else a

-- The loop from the character `i` on; a round takes at least one character, so `len` rounds do.
wrap_from : ℕ → String → ℕ → List String
unfolding min
wrap_from zero encoded i = []
wrap_from (suc rounds) encoded i =
    let rest = wrap_from rounds encoded (i + 76) in
    if ltb i (len encoded) then slice encoded i (min (i + 76) (len encoded)) ∷ "\r\n" ∷ rest else []

attachment_part : String → Attachment × String → String
unfolding encode_base64 wrap_from
attachment_part boundary (meta, bytes) =
    let encoded = encode_base64 bytes in
    concat (
      "--"
      ∷ boundary
      ∷ "\r\n"
      ∷ "Content-Type: "
      ∷ meta.content_type
      ∷ "; name=\""
      ∷ meta.filename
      ∷ "\"\r\n"
      ∷ "Content-Transfer-Encoding: base64\r\n"
      ∷ "Content-Disposition: attachment; filename=\""
      ∷ meta.filename
      ∷ "\"\r\n"
      ∷ "\r\n"
      ∷ wrap_from (len encoded) encoded 0)

cc_line : List String → String
cc_line cc = if is_nil cc then "" else concat ("Cc: " ∷ join ", " cc ∷ "\r\n" ∷ [])

id_line : String → String
id_line message_id =
    if message_id == "" then "" else concat ("Message-ID: " ∷ message_id ∷ "\r\n" ∷ [])

unfoldable pub build_rfc822 :
    String
    → String
    → String
    → List String
    → List String
    → String
    → String
    → String
    → String
    → List (Attachment × String)
    → String
unfolding attachment_part cc_line id_line
build_rfc822 date nanos from to cc subject content_type body message_id attachments =
    let headers = concat (
      "From: "
      ∷ from
      ∷ "\r\n"
      ∷ "To: "
      ∷ join ", " to
      ∷ "\r\n"
      ∷ cc_line cc
      ∷ "Subject: "
      ∷ subject
      ∷ "\r\n"
      ∷ id_line message_id
      ∷ "Date: "
      ∷ date
      ∷ "\r\n"
      ∷ "MIME-Version: 1.0\r\n"
      ∷ []) in
    let text =
      concat ("Content-Type: " ∷ content_type ∷ "; charset=UTF-8\r\n" ∷ "\r\n" ∷ body ∷ []) in
    let boundary = concat ("----=_BDSMail_" ∷ nanos ∷ []) in
    if is_nil attachments
    then concat (headers ∷ text ∷ [])
    else concat (
        headers
        ∷ "Content-Type: multipart/mixed; boundary=\""
        ∷ boundary
        ∷ "\"\r\n"
        ∷ "\r\n"
        ∷ "--"
        ∷ boundary
        ∷ "\r\n"
        ∷ text
        ∷ "\r\n"
        ∷ concat (map (attachment_part boundary) attachments)
        ∷ "--"
        ∷ boundary
        ∷ "--\r\n"
        ∷ [])

unfoldable pub build_headers : (ℕ → String) → Message → String
unfolding cc_line id_line
build_headers format_time msg = concat (
    "From: "
    ∷ msg.from
    ∷ "\r\n"
    ∷ "To: "
    ∷ join ", " msg.to
    ∷ "\r\n"
    ∷ cc_line msg.cc
    ∷ "Subject: "
    ∷ msg.subject
    ∷ "\r\n"
    ∷ "Date: "
    ∷ format_time msg.received_at
    ∷ "\r\n"
    ∷ id_line msg.message_id
    ∷ "MIME-Version: 1.0\r\n"
    ∷ (if has_attachments msg
        then "Content-Type: multipart/mixed; boundary=\"bdsmailboundary\"\r\n"
        else concat ("Content-Type: " ∷ msg.content_type ∷ "; charset=UTF-8\r\n" ∷ []))
    ∷ [])

unfoldable pub build_full_message : String → String → Message → List (Attachment × String) → String
unfolding build_rfc822
build_full_message date nanos msg attachments =
    build_rfc822 date nanos msg.from msg.to msg.cc msg.subject msg.content_type msg.body
      msg.message_id attachments

mime_tests :
    (encode_base64 "Man" ≡ "TWFu") × (encode_base64 "Ma" ≡ "TWE=") × (encode_base64 "M" ≡ "TQ==")
unfolding encode_base64
mime_tests = (refl, refl, refl)
