-- ===== src/Filter/Laws.antt =====
-- What `Apply` of engine.go decides, said without its loop.
use mathlib.Core.List.{append-nil, append_assoc}
use bdsmail.Base.{
  Assoc, Bool, Bool-cases, List, String, [], any, ap, arith, clash, false, if◌then◌else◌, inl, inr,
  is_nil, not, refl, sym, true, ◌&&◌, ◌++◌, ◌==◌, ◌||◌, ◌∙◌, ◌∷◌, ◌≡◌, ◌⊎◌,
}
use bdsmail.Model.{Filter, FilterAction, FilterCondition, Message}
use bdsmail.Filter.{
  FilterResult, all_match, apply, apply_action, apply_actions, apply_from, default_filters,
  match_condition, matches_all_conditions, no_change,
}

-- an enabled filter that has conditions, none of which fails
abbrev pub fires : Message → Assoc String → Filter → Bool
unfolding any
fires msg headers f =
    f.enabled
    && (not (is_nil f.conditions)
        && not (any (λ c. not (match_condition c msg headers)) f.conditions))

all_match-any :
    (cs : List FilterCondition) (msg : Message) (headers : Assoc String)
    → all_match cs msg headers ≡ not (any (λ c. not (match_condition c msg headers)) cs)
unfolding all_match any
all_match-any [] msg headers = refl
all_match-any (c ∷ cs) msg headers = ground (arith, all_match-any cs msg headers)

matches_all_conditions-any :
    (cs : List FilterCondition) (msg : Message) (headers : Assoc String)
    → matches_all_conditions cs msg headers
      ≡ (not (is_nil cs) && not (any (λ c. not (match_condition c msg headers)) cs))
matches_all_conditions-any [] msg headers = unfold matches_all_conditions in refl
matches_all_conditions-any (c ∷ cs) msg headers =
    unfold matches_all_conditions in all_match-any (c ∷ cs) msg headers

fires-matches :
    (msg : Message) (headers : Assoc String) (f : Filter)
    → fires msg headers f ≡ (f.enabled && matches_all_conditions f.conditions msg headers)
unfolding fires
fires-matches msg headers f =
    ap (λ b. f.enabled && b) (sym (matches_all_conditions-any f.conditions msg headers))

-- the actions of the filters that fire, in order
abbrev pub fired : Message → Assoc String → List Filter → List FilterAction
fired msg headers [] = []
fired msg headers (f ∷ fs) = (if fires msg headers f then f.actions else []) ++ fired msg headers fs

abbrev pub has_type : String → FilterAction → Bool
has_type t a = a.type == t

abbrev pub last_move : String → List FilterAction → String
last_move folder [] = folder
last_move folder (a ∷ rest) = last_move (if has_type "move" a then a.value else folder) rest

abbrev pub forwards : List FilterAction → List String
forwards [] = []
forwards (a ∷ rest) =
    let more = forwards rest in if has_type "forward" a then a.value ∷ more else more

-- each field of the result by itself
abbrev pub outcome : FilterResult → List FilterAction → FilterResult
unfolding any
outcome r actions = record {
  folder = last_move r.folder actions;
  mark_read = r.mark_read || any (has_type "mark_read") actions;
  delete = r.delete || any (has_type "delete") actions;
  forward = r.forward ++ forwards actions;
  flagged = r.flagged || any (has_type "flag") actions;
}

or_false : (b : Bool) → (b || false) ≡ b
or_false true = refl
or_false false = refl

outcome-nil : (r : FilterResult) → outcome r [] ≡ r
unfolding any
outcome-nil r =
    ground
      (arith, or_false r.mark_read, or_false r.delete, or_false r.flagged, append-nil r.forward)

outcome-cons :
    (a : FilterAction) (rest : List FilterAction) (r : FilterResult)
    → outcome (apply_action a r) rest ≡ outcome r (a ∷ rest)
unfolding any apply_action
outcome-cons a rest r = ground (
  arith,
  clash a.type "move" "mark_read" refl,
  clash a.type "move" "delete" refl,
  clash a.type "move" "forward" refl,
  clash a.type "move" "flag" refl,
  clash a.type "mark_read" "delete" refl,
  clash a.type "mark_read" "forward" refl,
  clash a.type "mark_read" "flag" refl,
  clash a.type "delete" "forward" refl,
  clash a.type "delete" "flag" refl,
  clash a.type "forward" "flag" refl,
  append_assoc r.forward (a.value ∷ []) (forwards rest),
)

apply_actions-eq-outcome :
    (actions : List FilterAction) (r : FilterResult) → apply_actions actions r ≡ outcome r actions
unfolding apply_actions
apply_actions-eq-outcome [] r = sym (outcome-nil r)
apply_actions-eq-outcome (a ∷ rest) r =
    apply_actions-eq-outcome rest (apply_action a r) ∙ outcome-cons a rest r

apply_actions-append :
    (xs ys : List FilterAction) (r : FilterResult)
    → apply_actions (xs ++ ys) r ≡ apply_actions ys (apply_actions xs r)
unfolding apply_actions
apply_actions-append [] ys r = refl
apply_actions-append (x ∷ xs) ys r = apply_actions-append xs ys (apply_action x r)

apply_from-fired :
    (r : FilterResult) (fs : List Filter) (msg : Message) (headers : Assoc String)
    → apply_from r fs msg headers ≡ apply_actions (fired msg headers fs) r
unfolding apply_from apply_actions
apply_from-fired r [] msg headers = refl
apply_from-fired r (f ∷ fs) msg headers =
    elim (Bool-cases (f.enabled && matches_all_conditions f.conditions msg headers)) [
      | inl yes_fires ↦
          rw (fires-matches, yes_fires, apply_actions-append f.actions (fired msg headers fs) r)
            (ground (arith, apply_from-fired (apply_actions f.actions r) fs msg headers))
      | inr quiet ↦ rw (fires-matches, quiet) (ground (arith, apply_from-fired r fs msg headers))
    ]

-- For any filters, message and headers: the result of `Apply` is that of the actions of the filters
-- that are enabled, have a condition and have none that fails, taken in order. The folder is that of the last move, a flag is
-- set exactly if one of these actions sets it, and the forward addresses come in order.
pub apply-eq-outcome :
    (fs : List Filter) (msg : Message) (headers : Assoc String)
    → apply fs msg headers ≡ outcome no_change (fired msg headers fs)
unfolding apply
apply-eq-outcome fs msg headers =
    apply_from-fired no_change fs msg headers
    ∙ apply_actions-eq-outcome (fired msg headers fs) no_change

-- Whatever the message and its headers, the presets of a new user neither delete a message nor
-- forward it, and they move it nowhere but to Newsletters or Social.
default_filters_harmless :
    (user_email : String) (msg : Message) (headers : Assoc String)
    → let r = apply (default_filters user_email) msg headers in
      (r.delete ≡ false)
      × (r.forward ≡ [])
      × ((r.folder ≡ "") ⊎ (r.folder ≡ "Newsletters") ⊎ (r.folder ≡ "Social"))
unfolding default_filters apply apply_from
default_filters_harmless user_email msg headers = ground arith
