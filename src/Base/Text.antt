-- ===== src/Base/Text.antt =====
-- Go's `strings` functions on texts. Case and blanks are those of ASCII.
use Prim.Native.Nat.{ℕ, zero, suc, ◌-◌, ◌/◌, ◌%◌}
use Prim.Native.Char.{Char, code}
use Prim.Native.String
use Prim.Native.String.{String, [], ◌∷◌, len, slice, char_at}
use text.Mathlib.Text.{◌==◌, starts_with, find?}
use mathlib.Core.Bool.{Bool, true, false, ◌&&◌, ◌||◌}
use mathlib.Core.List.{List, [], ◌∷◌}
use mathlib.Core.Option.{Option, none, some}
use mathlib.Core.Path.{◌≡◌, refl}
use bdsmail.Base.Tests.{if◌then◌else◌, leb, nat_beq}

unfoldable pub lower_char : Char → Char
lower_char c =
    if leb b'A' (code c) && leb (code c) b'Z'
    then char_at "abcdefghijklmnopqrstuvwxyz" (code c - b'A')
    else c

unfoldable pub upper_char : Char → Char
upper_char c =
    if leb b'a' (code c) && leb (code c) b'z'
    then char_at "ABCDEFGHIJKLMNOPQRSTUVWXYZ" (code c - b'a')
    else c

-- strings.ToLower, strings.ToUpper
unfoldable pub to_lower : String → String
unfolding lower_char
to_lower [] = []
to_lower (c ∷ s) = lower_char c ∷ to_lower s

unfoldable pub to_upper : String → String
unfolding upper_char
to_upper [] = []
to_upper (c ∷ s) = upper_char c ∷ to_upper s

-- strings.Contains
abbrev pub contains : String → String → Bool
contains s t = elim (find? s t) [ none ↦ false | some i ↦ true ]

-- strings.HasSuffix
abbrev pub has_suffix : String → String → Bool
has_suffix s t = leb (len t) (len s) && slice s (len s - len t) (len s) == t

-- strings.TrimPrefix, strings.TrimSuffix
abbrev pub trim_prefix : String → String → String
trim_prefix s t = if starts_with s t then slice s (len t) (len s) else s

abbrev pub trim_suffix : String → String → String
trim_suffix s t = if has_suffix s t then slice s 0 (len s - len t) else s

abbrev pub is_blank : Char → Bool
is_blank c = nat_beq (code c) b' ' || (leb 9 (code c) && leb (code c) 13)

unfoldable pub trim_left : String → String
trim_left [] = []
trim_left (c ∷ s) = let rest = trim_left s in if is_blank c then rest else c ∷ s

-- drops the blanks at the end
trim_right : String → String
trim_right [] = []
trim_right (c ∷ s) = let rest = trim_right s in if is_blank c && rest == "" then [] else c ∷ rest

-- strings.TrimSpace
unfoldable pub trim_space : String → String
unfolding trim_left trim_right
trim_space s = trim_right (trim_left s)

prepend : Char → List String → List String
prepend c [] = (c ∷ []) ∷ []
prepend c (p ∷ ps) = (c ∷ p) ∷ ps

-- strings.Split by a separator of one character
unfoldable pub split : ℕ → String → List String
unfolding prepend
split sep [] = "" ∷ []
split sep (c ∷ s) =
    let rest = split sep s in if nat_beq (code c) sep then "" ∷ rest else prepend c rest

onto_head : Char → Option (String × String) → Option (String × String)
onto_head c none = none
onto_head c (some (a, b)) = some (c ∷ a, b)

-- strings.SplitN(s, sep, 2) by a separator of one character: what stands before and after the first
-- one, `none` where there is none
unfoldable pub cut : ℕ → String → Option (String × String)
unfolding onto_head
cut sep [] = none
cut sep (c ∷ s) =
    let rest = cut sep s in if nat_beq (code c) sep then some ("", s) else onto_head c rest

-- strings.Join
unfoldable pub join : String → List String → String
join sep [] = ""
join sep (p ∷ []) = p
join sep (p ∷ (q ∷ ps)) = String.◌++◌ p (String.◌++◌ sep (join sep (q ∷ ps)))

-- the pieces of a formatted text, one after the other
unfoldable pub concat : List String → String
concat [] = ""
concat (p ∷ ps) = String.◌++◌ p (concat ps)

digit : ℕ → Char
digit n = char_at "0123456789" n

show_from : ℕ → ℕ → String → String
unfolding digit
show_from zero n acc = acc
show_from (suc fuel) n acc =
    let more = show_from fuel (n / 10) (digit (n % 10) ∷ acc) in
    if nat_beq (n / 10) 0 then digit (n % 10) ∷ acc else more

-- "%d" of a number below 10^40
unfoldable pub show_nat : ℕ → String
unfolding show_from
show_nat n = show_from 40 n ""

text_tests :
    (to_lower "Re: ABC-z9" ≡ "re: abc-z9")
    × (to_upper "stat" ≡ "STAT")
    × (trim_space "  a b \r\n" ≡ "a b")
    × (split b',' "a,,b" ≡ "a" ∷ "" ∷ "b" ∷ [])
    × (cut b'@' "x@y@z" ≡ some ("x", "y@z"))
    × (show_nat 5020 ≡ "5020")
    × (show_nat 0 ≡ "0")
unfolding to_lower to_upper trim_space split cut show_nat
text_tests = (refl, refl, refl, refl, refl, refl, refl)
