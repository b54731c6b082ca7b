-- ===== src/Dns.antt =====
-- internal/dns/verify.go: a domain is its owner's where its MX record names the mail host. The resolver
-- is a parameter: the hosts of a domain's MX records, none for an error.
use bdsmail.Base.{Bool, List, Option, String, any, false, none, some, to_lower, trim_suffix, ◌==◌}

-- none for an error
unfoldable pub verify_mx : (String → Option (List String)) → String → String → Option Bool
verify_mx lookup_mx domain expected_host = elim (lookup_mx domain) [
  | none ↦ none
  | some hosts ↦ some (
      any (λ host. to_lower (trim_suffix host ".") == to_lower (trim_suffix expected_host "."))
        hosts)
]

-- whether there is no error
unfoldable pub verify_domain_ownership : (String → Option (List String)) → String → String → Bool
verify_domain_ownership lookup_mx domain mail_hostname =
    elim (verify_mx lookup_mx domain mail_hostname) [ none ↦ false | some found ↦ found ]
