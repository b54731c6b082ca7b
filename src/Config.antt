-- ===== src/Config.antt =====
-- config/config.go: the domains that are served. Flags, secrets and ports are left out.
use bdsmail.Base.{
  Bool, List, Option, String, [], concat, cut, first, has, if◌then◌else◌, len, ltb, none, refl,
  slice, some, starts_with, ◌&&◌, ◌++◌, ◌==◌, ◌||◌, ◌∷◌, ◌≡◌,
}

-- the host without its port
strip_port : String → String
strip_port host = elim (cut b':' host) [ none ↦ host | some (name, port) ↦ name ]

-- the loop over the domains for a host with a prefix
named_domain : String → List String → Option String
unfolding first
named_domain host domains =
    first
      (λ d. host == concat ("mail." ∷ d ∷ []) || host == concat ("webmail." ∷ d ∷ []) || host == d)
      domains

-- the loops over the three prefixes and the domains; a host that is only a prefix is skipped
prefixed_domain : List String → String → List String → Option String
unfolding has
prefixed_domain [] host domains = none
prefixed_domain (p ∷ rest) host domains =
    let later = prefixed_domain rest host domains in
    if ltb (len p) (len host) && starts_with host p && has (slice host (len p) (len host)) domains
    then some (slice host (len p) (len host))
    else later

unfoldable pub host_to_domain : List String → String → String
unfolding strip_port named_domain prefixed_domain
host_to_domain domains host =
    let name = strip_port host in
    elim (named_domain name domains) [
      | some d ↦ d
      | none ↦ elim (prefixed_domain ("mail." ∷ "webmail." ∷ "mailsrv." ∷ []) name domains) [
        | some d ↦ d
        | none ↦ elim domains [ [] ↦ name | d ∷ rest ↦ d ]
      ]
    ]

unfoldable pub is_domain_served : List String → String → Bool
unfolding has
is_domain_served domains domain = has domain domains

unfoldable pub add_domain : List String → String → List String
unfolding has
add_domain domains domain = if has domain domains then domains else domains ++ domain ∷ []

unfoldable pub load_domains_from_db : List String → List String → List String
load_domains_from_db domains domain_names = domain_names

hosts :
    (host_to_domain ("a.example" ∷ "b.example" ∷ []) "mail.b.example:443" ≡ "b.example")
    × (host_to_domain ("a.example" ∷ "b.example" ∷ []) "mailsrv.b.example" ≡ "b.example")
    × (host_to_domain ("a.example" ∷ []) "other.example" ≡ "a.example")
unfolding host_to_domain cut concat
hosts = (refl, refl, refl)
