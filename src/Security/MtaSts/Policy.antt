-- ===== src/Security/MtaSts/Policy.antt =====
-- What the parser of mtasts.go accepts.
use bdsmail.Base.{
  All, List, Option-cases, String, [], arith, cut, eq_iff, inl, inr, none, pos, some, split,
  trim_space, ◌∷◌, ◌≡◌, ◌≢◌,
}
use bdsmail.Security.MtaSts.{MtastsPolicy, parse_line, parse_lines, parse_mtasts_policy}

-- A line that gives a version gives this one.
abbrev pub HasVersion : String → Type 0
HasVersion line =
    (key value : String)
    → cut b':' (trim_space line) ≡ some (key, value)
    → trim_space key ≡ "version"
    → trim_space value ≡ "STSv1"

cut-blank : (line : String) → trim_space line ≡ "" → cut b':' (trim_space line) ≡ none
unfolding cut
cut-blank line h = rw h

parse_line-HasVersion :
    (policy policy' : MtastsPolicy) (line : String)
    → parse_line policy line ≡ some policy'
    → HasVersion line
unfolding parse_line
parse_line-HasVersion policy policy' line h key value c k = ground (
  arith,
  cut-blank line,
  eq_iff (trim_space line) "",
  eq_iff (trim_space key) "version",
  eq_iff (trim_space value) "STSv1",
)

parse_lines-HasVersion :
    (policy policy' : MtastsPolicy) (lines : List String)
    → parse_lines policy lines ≡ some policy'
    → All HasVersion lines
unfolding parse_lines
parse_lines-HasVersion policy policy' [] h = tt
parse_lines-HasVersion policy policy' (line ∷ rest) h =
    elim (Option-cases (parse_line policy line)) [
      | inl bad ↦ absurd (ground (arith, bad))
      | inr (next, good) ↦ (
        parse_line-HasVersion policy next line good,
        parse_lines-HasVersion next policy' rest (ground (arith, good)),
      )
    ]

-- A policy that the parser accepts has a mode, and each of its lines that gives a version gives
-- STSv1.
parse_mtasts_policy_sound :
    (body : String) (policy : MtastsPolicy)
    → parse_mtasts_policy body ≡ some policy
    → (policy.mode ≢ "") × All HasVersion (split b'\n' body)
unfolding parse_mtasts_policy
parse_mtasts_policy_sound body policy h = elim (Option-cases (parse_lines blank lines)) [
  | inl bad ↦ absurd (ground (arith, bad))
  | inr (next, good) ↦
      (ground (arith, good, eq_iff next.mode ""), parse_lines-HasVersion blank next lines good)
]
  where
    blank : MtastsPolicy
    blank = record { mode = ""; mx = []; max_age = pos 86400 }

    lines : List String
    lines = split b'\n' body
