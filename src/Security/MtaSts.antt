-- ===== src/Security/MtaSts.antt =====
-- internal/security/mtasts.go: MTA-STS policies, their cache and the match of an MX host. DNS and
-- HTTPS are parameters; a time is in seconds. A line of the policy is below the scanner's 64 KB.
pub mod Cache
pub mod Policy
mod Tests
use Prim.Native.String
use bdsmail.Base.{
  Assoc, Bool, List, Option, String, [], any, code, concat, contains, cut, has_suffix,
  if◌then◌else◌, insert, leb, len, lookup, lt_ℤ, ltb, nat_beq, negsuc, none, not, pos, slice, some,
  split, starts_with, suc, to_lower, trim_prefix, trim_space, trim_suffix, true, zero, ℕ, ℤ, ◌%◌,
  ◌&&◌, ◌*◌, ◌++◌, ◌+◌, ◌-◌, ◌==◌, ◌^◌, ◌||◌, ◌∷◌,
}
use bdsmail.Model.{to_int64}

pub record MtastsPolicy : Type 0 where
  pub mode : String
  pub mx : List String
  pub max_age : ℤ

pub record CacheEntry : Type 0 where
  pub policy : MtastsPolicy
  pub fetched_at : ℕ

abbrev pub MtastsCache : Type 0
MtastsCache = Assoc CacheEntry

-- The resolver, `none` on an error, and the request for the policy: `none` where it fails, else the
-- status with the body, `none` where the body cannot be read.
pub record Web : Type 0 where
  pub lookup_txt : String → Option (List String)
  pub get : String → Option (ℕ × Option String)

-- fmt.Sscanf(value, "%d", …) reads the digits that a text begins with
leading_digits : Option ℕ → String → Option ℕ
leading_digits n String.[] = n
leading_digits n (String.◌∷◌ c s) =
    let n' : ℕ = elim n [ none ↦ 0 | some m ↦ m ] in
    let more = leading_digits (some (n' * 10 + (code c - b'0'))) s in
    if leb b'0' (code c) && leb (code c) b'9' then more else n

negated : ℕ → ℤ
negated zero = pos 0
negated (suc n) = negsuc n

-- the number that Sscanf stores: the old one where the text begins with none or it is no int64
scan_int : ℤ → String → ℤ
unfolding leading_digits negated
scan_int old s =
    if starts_with s "-"
    then elim (leading_digits none (trim_prefix s "-")) [
      | none ↦ old
      | some n ↦ (if leb n (2 ^ 63) then negated n else old)
    ]
    else elim (leading_digits none (trim_prefix s "+")) [
      | none ↦ old
      | some n ↦ (if ltb n (2 ^ 63) then pos n else old)
    ]

-- one line of the policy, `none` for the error of an unsupported version
parse_field : MtastsPolicy → String → String → Option MtastsPolicy
unfolding scan_int
parse_field policy key value =
    if key == "version"
    then (if value == "STSv1" then some policy else none)
    else if key == "mode"
    then some (record policy { mode = value })
    else if key == "mx"
    then some (record policy { mx = policy.mx ++ value ∷ [] })
    else if key == "max_age"
    then some (record policy { max_age = scan_int policy.max_age value })
    else some policy

parse_line : MtastsPolicy → String → Option MtastsPolicy
unfolding parse_field
parse_line policy line =
    if trim_space line == "" then some policy else elim (cut b':' (trim_space line)) [
      | none ↦ some policy
      | some (key, value) ↦ parse_field policy (trim_space key) (trim_space value)
    ]

parse_lines : MtastsPolicy → List String → Option MtastsPolicy
unfolding parse_line
parse_lines policy [] = some policy
parse_lines policy (line ∷ rest) = elim (parse_line policy line) [
  | none ↦ none
  | some policy' ↦ parse_lines policy' rest
]

unfoldable pub parse_mtasts_policy : String → Option MtastsPolicy
unfolding parse_lines
parse_mtasts_policy body =
    elim (parse_lines (record { mode = ""; mx = []; max_age = pos 86400 }) (split b'\n' body)) [
      | none ↦ none
      | some policy ↦ (if policy.mode == "" then none else some policy)
    ]

unfoldable pub match_mx_pattern : String → String → Bool
match_mx_pattern pattern host =
    let p = to_lower pattern in
    let h = to_lower host in
    let suffix = slice p 1 (len p) in
    p == h
    || (starts_with p "*."
        && (has_suffix h suffix && not (contains (slice h 0 (len h - len suffix)) ".")))

unfoldable pub validate_mx : Option MtastsPolicy → String → Bool
unfolding match_mx_pattern any
validate_mx none mx_host = true
validate_mx (some policy) mx_host =
    any (λ pattern. match_mx_pattern pattern (trim_suffix mx_host ".")) policy.mx

-- time.Duration(MaxAge) * time.Second, which wraps as an int64 of nanoseconds
lifetime : ℤ → ℤ
unfolding to_int64
lifetime (pos n) = to_int64 (n * 10 ^ 9)
lifetime (negsuc n) = to_int64 (2 ^ 64 - suc n * 10 ^ 9 % 2 ^ 64)

is_current : CacheEntry → ℕ → Bool
unfolding lifetime
is_current entry now =
    lt_ℤ (pos ((now - entry.fetched_at) * 10 ^ 9)) (lifetime entry.policy.max_age)

has_record : List String → Bool
unfolding any
has_record records = any (λ txt. starts_with txt "v=STSv1;" || starts_with txt "v=STSv1 ") records

-- the body of the response, if it is the answer 200
response_body : Option (ℕ × Option String) → Option String
response_body none = none
response_body (some (status, body)) = if nat_beq status 200 then body else none

-- `none` for an error, `some none` for no policy
abbrev pub Fetched : Type 0
Fetched = Option (Option MtastsPolicy)

-- The policy that is fetched at `now`, and the cache afterwards.
pub fetch : Web → MtastsCache → String → ℕ → Fetched × MtastsCache
unfolding has_record response_body parse_mtasts_policy
fetch web cache domain now = elim (web.lookup_txt (concat ("_mta-sts." ∷ domain ∷ []))) [
  | none ↦ (none, cache)
  | some records ↦
      if not (has_record records)
      then (some none, cache)
      else elim (response_body
          (web.get (concat ("https://mta-sts." ∷ domain ∷ "/.well-known/mta-sts.txt" ∷ [])))) [
            | none ↦ (none, cache)
            | some body ↦ elim (parse_mtasts_policy body) [
              | none ↦ (none, cache)
              | some policy ↦ (
                some (some policy),
                insert domain (record { policy = policy; fetched_at = now }) cache,
              )
            ]
          ]
]

cached_or_fetch : Web → MtastsCache → String → ℕ → Option CacheEntry → Fetched × MtastsCache
unfolding fetch is_current
cached_or_fetch web cache domain now none = fetch web cache domain now
cached_or_fetch web cache domain now (some entry) =
    if is_current entry now then (some (some entry.policy), cache) else fetch web cache domain now

unfoldable pub get_policy : Web → MtastsCache → String → ℕ → Fetched × MtastsCache
unfolding cached_or_fetch lookup
get_policy web cache domain now = cached_or_fetch web cache domain now (lookup domain cache)
