-- ===== src/Security/MtaSts/Tests.antt =====
-- The theorems on MTA-STS at a concrete policy.
use bdsmail.Base.{String, [], cut, none, pos, refl, some, split, trim_space, ◌∷◌, ◌≡◌}
use bdsmail.Security.MtaSts.{MtastsPolicy, Web, fetch, get_policy, parse_line, parse_mtasts_policy}

abbrev policy_text : String
policy_text = "version: STSv1\nmode: enforce\nmx: *.bank.example\nmax_age: 600\n"

abbrev policy : MtastsPolicy
policy = record { mode = "enforce"; mx = "*.bank.example" ∷ []; max_age = pos 600 }

parsed : parse_mtasts_policy policy_text ≡ some policy
unfolding parse_mtasts_policy parse_line split cut trim_space
parsed = refl

abbrev web : Web
web = record {
  lookup_txt = λ name. some ("v=STSv1; id=1" ∷ []);
  get = λ url. some (200, some policy_text);
}

abbrev offline : Web
offline = record { lookup_txt = λ name. none; get = λ url. none }

fetched : (get_policy web [] "bank.example" 1000).0 ≡ some (some policy)
unfolding get_policy fetch parse_mtasts_policy parse_line split cut trim_space
fetched = refl
