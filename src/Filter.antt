-- ===== src/Filter.antt =====
-- internal/filter/engine.go: the server-side filters of a user.
mod Laws
mod Tests
use Prim.Native.String
use bdsmail.Base.{
  Assoc, Bool, List, Option, String, [], code, contains, false, if◌then◌else◌, is_nil, join, leb,
  lookup, lt_ℤ, ltb, negsuc, none, not, pos, some, split, starts_with, suc, to_lower, trim_prefix,
  trim_space, true, zero, ℕ, ℤ, ◌&&◌, ◌*◌, ◌++◌, ◌+◌, ◌-◌, ◌==◌, ◌^◌, ◌||◌, ◌∷◌,
}
use bdsmail.Model.{Filter, FilterAction, FilterCondition, Message, total_attachment_size}

pub record FilterResult : Type 0 where
  pub folder : String
  pub mark_read : Bool
  pub delete : Bool
  pub forward : List String
  pub flagged : Bool

abbrev pub no_change : FilterResult
no_change = record { folder = ""; mark_read = false; delete = false; forward = []; flagged = false }

-- strconv.ParseInt(s, 10, 64) with the error dropped: 0 on a syntax error, the nearest int64 where
-- the value is out of range
digits_value : ℕ → String → Option ℕ
digits_value n String.[] = some n
digits_value n (String.◌∷◌ c s) =
    let more = digits_value (n * 10 + (code c - b'0')) s in
    if leb b'0' (code c) && leb (code c) b'9' then more else none

unsigned : String → Option ℕ
unfolding digits_value
unsigned s = if s == "" then none else digits_value 0 s

clip_pos : ℕ → ℤ
clip_pos n = if ltb n (2 ^ 63) then pos n else pos (2 ^ 63 - 1)

clip_neg : ℕ → ℤ
clip_neg zero = pos 0
clip_neg (suc n) = if ltb n (2 ^ 63) then negsuc n else negsuc (2 ^ 63 - 1)

parse_int : String → ℤ
unfolding unsigned clip_pos clip_neg
parse_int s =
    if starts_with s "-"
    then elim (unsigned (trim_prefix s "-")) [ none ↦ pos 0 | some n ↦ clip_neg n ]
    else elim (unsigned (trim_prefix s "+")) [ none ↦ pos 0 | some n ↦ clip_pos n ]

header_value : Assoc String → String → String
unfolding lookup
header_value headers name = elim (lookup name headers) [ none ↦ "" | some v ↦ v ]

contains_any : String → List String → Bool
contains_any s [] = false
contains_any s (part ∷ parts) = contains s (trim_space part) || contains_any s parts

-- the second switch of `matchCondition`, on the operator
test_operator : FilterCondition → String → Bool
unfolding contains_any
test_operator c field_value =
    let target = to_lower c.value in
    if c.operator == "contains"
    then contains_any field_value (split b'|' target)
    else if c.operator == "equals"
    then field_value == target
    else if c.operator == "exists"
    then not (field_value == "")
    else if c.operator == "not_contains"
    then not (contains field_value target)
    else false

unfoldable pub match_condition : FilterCondition → Message → Assoc String → Bool
unfolding test_operator header_value parse_int total_attachment_size
match_condition c msg headers =
    if c.field == "from"
    then test_operator c (to_lower msg.from)
    else if c.field == "to"
    then test_operator c (to_lower (join ", " msg.to))
    else if c.field == "subject"
    then test_operator c (to_lower msg.subject)
    else if c.field == "header"
    then test_operator c (to_lower (header_value headers (to_lower c.header)))
    else if c.field == "attachment_size_gt"
    then lt_ℤ (parse_int c.value) (total_attachment_size msg)
    else false

-- the loop of `matchesAllConditions`
all_match : List FilterCondition → Message → Assoc String → Bool
all_match [] msg headers = true
all_match (c ∷ cs) msg headers = match_condition c msg headers && all_match cs msg headers

unfoldable pub matches_all_conditions : List FilterCondition → Message → Assoc String → Bool
unfolding all_match
matches_all_conditions conditions msg headers =
    if is_nil conditions then false else all_match conditions msg headers

-- one round of `applyActions`
apply_action : FilterAction → FilterResult → FilterResult
apply_action a result =
    if a.type == "move"
    then record result { folder = a.value }
    else if a.type == "mark_read"
    then record result { mark_read = true }
    else if a.type == "delete"
    then record result { delete = true }
    else if a.type == "forward"
    then record result { forward = result.forward ++ a.value ∷ [] }
    else if a.type == "flag"
    then record result { flagged = true }
    else result

apply_actions : List FilterAction → FilterResult → FilterResult
unfolding apply_action
apply_actions [] result = result
apply_actions (a ∷ rest) result = apply_actions rest (apply_action a result)

-- the loop of `Apply`
apply_from : FilterResult → List Filter → Message → Assoc String → FilterResult
unfolding apply_actions matches_all_conditions
apply_from result [] msg headers = result
apply_from result (f ∷ fs) msg headers =
    apply_from
      (if not f.enabled
        then result
        else if matches_all_conditions f.conditions msg headers
        then apply_actions f.actions result
        else result)
      fs msg headers

unfoldable pub apply : List Filter → Message → Assoc String → FilterResult
unfolding apply_from
apply filters msg headers = apply_from no_change filters msg headers

-- the presets for a new user
abbrev preset : String → String → ℕ → FilterCondition → FilterAction → Filter
preset user_email name priority condition action = record {
  id = "";
  user_email = user_email;
  name = name;
  priority = pos priority;
  conditions = condition ∷ [];
  actions = action ∷ [];
  enabled = true;
}

unfoldable pub default_filters : String → List Filter
default_filters user_email =
    preset user_email "Newsletters" 10
      (record { field = "header"; operator = "exists"; value = ""; header = "List-Unsubscribe" })
      (record { type = "move"; value = "Newsletters" })
    ∷ preset user_email "Social" 9
        (record {
          field = "from";
          operator = "contains";
          value = "facebook.com|twitter.com|linkedin.com|instagram.com|facebookmail.com|x.com";
          header = "";
        })
        (record { type = "move"; value = "Social" })
    ∷ preset user_email "Auto-read noreply" 5
        (record {
          field = "from";
          operator = "contains";
          value = "noreply|no-reply|donotreply|do-not-reply";
          header = "";
        })
        (record { type = "mark_read"; value = "" })
    ∷ preset user_email "Large attachments" 1
        (record { field = "attachment_size_gt"; operator = ""; value = "5242880"; header = "" })
        (record { type = "flag"; value = "" })
    ∷ []
