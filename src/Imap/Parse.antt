-- ===== src/Imap/Parse.antt =====
-- The helpers at the end of internal/imap/server.go, which take commands apart.
use bdsmail.Base.{
  Bool, Char, List, String, [], code, concat, cut, false, find?, first, if◌then◌else◌, leb, len,
  ltb, nat_beq, negsuc, none, not, pos, refl, slice, some, split, starts_with, suc, to_upper,
  trim_prefix, trim_space, trim_suffix, zero, ℕ, ℤ, ◌%◌, ◌&&◌, ◌*◌, ◌++◌, ◌+◌, ◌-◌, ◌==◌, ◌^◌, ◌||◌,
  ◌∷◌, ◌≡◌,
}
use bdsmail.Model.{to_int64}

-- The bits of the `int` that the loop computes; characters other than digits are passed over.
seq_digits : ℕ → String → ℕ
seq_digits n String.[] = n
seq_digits n (String.◌∷◌ c s) =
    seq_digits
      (if leb b'0' (code c) && leb (code c) b'9' then (n * 10 + (code c - b'0')) % 2 ^ 64 else n) s

-- `total` is a length, so it is below 2^63
unfoldable pub parse_seq_num : String → ℕ → ℕ
unfolding seq_digits to_int64
parse_seq_num s total =
    if trim_space s == "*" then total else elim (to_int64 (seq_digits 0 (trim_space s))) [
      | negsuc n ↦ 1
      | pos n ↦ (if ltb n 1 then 1 else if ltb total n then total else n)
    ]

-- the index of a sequence number
abbrev pub index_of : ℕ → ℤ
index_of zero = negsuc 0
index_of (suc n) = pos n

-- the indices of `k` numbers from `i` on
abbrev pub indices_from : ℕ → ℕ → List ℤ
indices_from i zero = []
indices_from i (suc k) = index_of i ∷ indices_from (i + 1) k

-- the loop from `start` to `end`, which are swapped where they are out of order
unfoldable pub seq_range : ℕ → ℕ → List ℤ
seq_range start end =
    if ltb end start
    then indices_from end (start + 1 - end)
    else indices_from start (end + 1 - start)

unfoldable pub parse_seq_part : ℕ → String → List ℤ
parse_seq_part total part = elim (cut b':' part) [
  | none ↦ index_of (parse_seq_num part total) ∷ []
  | some (first, last) ↦ seq_range (parse_seq_num first total) (parse_seq_num last total)
]

unfoldable pub parse_seq_parts : ℕ → List String → List ℤ
parse_seq_parts total [] = []
parse_seq_parts total (part ∷ rest) = parse_seq_part total part ++ parse_seq_parts total rest

unfoldable pub parse_sequence_set : String → ℕ → List ℤ
parse_sequence_set s total = parse_seq_parts total (split b',' s)

-- what one character does to the arguments that are done, the current one, and the quote
arg_step : String → Bool → Char → List String × String × Bool
arg_step current in_quote c =
    if nat_beq (code c) b'"'
    then ([], concat (current ∷ (String.◌∷◌ c "") ∷ []), not in_quote)
    else if nat_beq (code c) b' ' && not in_quote
    then (if current == "" then [] else current ∷ [], "", in_quote)
    else ([], concat (current ∷ (String.◌∷◌ c "") ∷ []), in_quote)

args_from : String → Bool → String → List String
unfolding arg_step
args_from current in_quote String.[] = if current == "" then [] else current ∷ []
args_from current in_quote (String.◌∷◌ c s) =
    let (out, current', in_quote') = arg_step current in_quote c in
    out ++ args_from current' in_quote' s

unfoldable pub parse_imap_args : String → List String
unfolding args_from
parse_imap_args s = args_from "" false s

unfoldable pub unquote : String → String
unquote s =
    if leb 2 (len s) && (slice s 0 1 == "\"" && slice s (len s - 1) (len s) == "\"")
    then slice s 1 (len s - 1)
    else s

-- strings.ReplaceAll of one character by a text
replace_char : ℕ → String → String → String
replace_char c by String.[] = ""
replace_char c by (String.◌∷◌ d s) =
    concat ((if nat_beq (code d) c then by else String.◌∷◌ d "") ∷ replace_char c by s ∷ [])

unfoldable pub escape_imap_string : String → String
unfolding replace_char
escape_imap_string s = replace_char b'"' "\\\"" (replace_char b'\\' "\\\\" s)

unfoldable pub extract_search_query : String → String → String
extract_search_query args keyword = elim (find? (to_upper args) keyword) [
  | none ↦ ""
  | some idx ↦
      (let rest = trim_space (slice args (idx + len keyword) (len args)) in
        let inner = slice rest 1 (len rest) in
        if slice rest 0 1 == "\""
        then elim (cut b'"' inner) [ some (query, after) ↦ query | none ↦ inner ]
        else elim (cut b' ' rest) [ some (query, after) ↦ query | none ↦ rest ])
]

-- Up to the end of an item: a blank ends it, but not inside the brackets of an item that may have
-- them. The item and what follows.
item_split : Bool → Bool → String → String × String
item_split bracketed inside String.[] = ("", "")
item_split bracketed inside (String.◌∷◌ c s) =
    let inside' =
      if inside then not (nat_beq (code c) b']') else bracketed && nat_beq (code c) b'[' in
    let (item, rest) = item_split bracketed inside' s in
    if nat_beq (code c) b' ' && not inside then ("", String.◌∷◌ c s) else (String.◌∷◌ c item, rest)

may_have_brackets : String → Bool
may_have_brackets s = starts_with (to_upper s) "BODY" || starts_with (to_upper s) "RFC822"

-- Each round takes at least one character, so `len` rounds do.
items_from : ℕ → String → List String
unfolding item_split may_have_brackets
items_from zero s = []
items_from (suc rounds) s =
    let (item, rest) = item_split (may_have_brackets s) false s in
    let blank = starts_with s " " in
    let more = items_from rounds (if blank then slice s 1 (len s) else rest) in
    if s == "" then [] else if blank then more else to_upper item ∷ more

unfoldable pub parse_data_items : String → List String
unfolding items_from
parse_data_items s =
    let inner = trim_suffix (trim_prefix (trim_space s) "(") ")" in items_from (len inner) inner

parse_tests :
    (parse_sequence_set "2:4,*" 9 ≡ pos 1 ∷ pos 2 ∷ pos 3 ∷ pos 8 ∷ [])
    × (parse_sequence_set "5:2" 3 ≡ pos 1 ∷ pos 2 ∷ [])
    × (parse_imap_args "\"a b\" c" ≡ "\"a b\"" ∷ "c" ∷ [])
    × (unquote "\"a b\"" ≡ "a b")
    × (escape_imap_string "a\"b" ≡ "a\\\"b")
    × (extract_search_query "TEXT \"big sale\" UNSEEN" "TEXT" ≡ "big sale")
    × (parse_data_items "(flags body[header fields] uid)"
        ≡ "FLAGS" ∷ "BODY[HEADER FIELDS]" ∷ "UID" ∷ [])
unfolding parse_sequence_set parse_seq_parts parse_seq_part parse_seq_num seq_range split cut
    trim_space parse_imap_args unquote escape_imap_string extract_search_query parse_data_items
    to_upper concat
parse_tests = (refl, refl, refl, refl, refl, refl, refl)
