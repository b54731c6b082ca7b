-- ===== src/Smtp/Relay.antt =====
-- internal/smtp/relay.go with the methods of internal/security/checker.go that it calls: outbound mail,
-- from the choice of the hosts to the commands of one delivery. The servers, the resolver and DKIM's
-- signature are parameters; waiting between attempts is left out. The state counts the dials, and lists the hosts of those to MX
-- hosts.
pub mod Tls
pub mod Dials
pub mod Succeeds
mod Tests
use bdsmail.Base.{
  Assoc, Bool, List, Option, String, [], cut, false, if◌then◌else◌, insert, is_nil, lookup, none,
  not, some, suc, trim_suffix, true, zero, ℕ, ◌&&◌, ◌++◌, ◌+◌, ◌==◌, ◌||◌, ◌∷◌,
}
use bdsmail.Security.MtaSts.{Fetched, MtastsCache, MtastsPolicy, Web, get_policy, validate_mx}
use bdsmail.Security.Dane.{Certificate, DnsResponse, Hashes, lookup_tlsa, verify_cert}
use bdsmail.Security.TlsReport.{TlsReporter, record_failure, record_success}

-- What a server does on one dial: whether it can be reached and greets, offers STARTTLS and completes
-- its handshake with these certificates (none where there is no TLS state), takes MAIL, RCPT and DATA,
-- and answers QUIT.
pub record Server : Type 0 where
  pub reachable : Bool
  pub starttls : Bool
  pub handshake : Bool
  pub peer_certs : Option (List Certificate)
  pub accepts : Bool
  pub quits : Bool

-- MTA-STS and DANE where they are on, the n-th dial to a host, the resolver, SHA-256 and SHA-512, the
-- order in which Go ranges over the map of domains, and the external relay with its n-th answer
pub record RelayEnv : Type 0 where
  pub lookup_mx : String → Option (List String)
  pub server : String → ℕ → Server
  pub mtasts : Option Web
  pub dane : Option (String → Option DnsResponse)
  pub hashes : Hashes
  pub order : Assoc (List String) → Assoc (List String)
  pub relay_host : String
  pub external : ℕ → Bool
  pub now : ℕ

-- an envelope that was sent to a host
pub record Transmission : Type 0 where
  pub host : String
  pub encrypted : Bool

pub record RelayState : Type 0 where
  pub cache : MtastsCache
  pub reporter : Option TlsReporter
  pub dials : ℕ
  pub dialled : List String
  pub sent : List Transmission

unfoldable pub record_tls_success : RelayState → String → RelayState
record_tls_success st domain = record st {
  reporter = elim st.reporter [ none ↦ none | some t ↦ some (record_success t domain) ];
}

unfoldable pub record_tls_failure : RelayEnv → RelayState → String → String → String → RelayState
record_tls_failure env st domain host result_type = record st {
  reporter = elim st.reporter [
    | none ↦ none
    | some t ↦ some (
        record_failure t domain (record {
          result_type = result_type;
          receiving_mx = host;
          failure_reason = "";
          timestamp = env.now;
        }))
  ];
}

-- a record of TLSA was found and the certificates match none
unfoldable pub dane_refuses : RelayEnv → String → Option (List Certificate) → Bool
dane_refuses env host certs = elim env.dane [
  | none ↦ false
  | some query ↦ elim (lookup_tlsa query 25 host) [
    | none ↦ false
    | some result ↦ elim certs [
      | none ↦ false
      | some certs ↦
          result.has_tlsa
          && (not (is_nil certs) && not (verify_cert env.hashes (some result) certs))
    ]
  ]
]

-- MAIL, RCPT, DATA and QUIT; an error of QUIT is an error, though the mail was taken
unfoldable pub deliver : RelayState → String → String → Bool → Server → Bool × RelayState
deliver st domain host encrypted s =
    let st' = record st { sent = st.sent ++ record { host = host; encrypted = encrypted } ∷ [] } in
    if not s.accepts
    then (false, st')
    else (s.quits, if encrypted then record_tls_success st' domain else st')

-- one dial to a host; whether there is no error
unfoldable pub try_relay : RelayEnv → RelayState → String → String → Bool → Bool × RelayState
try_relay env before host domain require_tls =
    let s = env.server host before.dials in
    let st = record before { dials = before.dials + 1; dialled = before.dialled ++ host ∷ [] } in
    if not s.reachable
    then (false, st)
    else if not s.starttls
    then (if require_tls
        then (false, record_tls_failure env st domain host "starttls-not-supported")
        else deliver st domain host false s)
    else if not s.handshake
    then (if require_tls
        then (false, record_tls_failure env st domain host "starttls-not-supported")
        else deliver (record_tls_failure env st domain host "validation-failure") domain host false
            s)
    else if dane_refuses env host s.peer_certs
    then (false, record_tls_failure env st domain host "dane-required")
    else deliver st domain host true s

-- the attempts that are left for a host
unfoldable pub attempts : ℕ → RelayEnv → RelayState → String → String → Bool → Bool × RelayState
attempts zero env st host domain require_tls = (false, st)
attempts (suc left) env st host domain require_tls =
    let (ok, st') = try_relay env st host domain require_tls in
    elim ok [ true ↦ (true, st') | false ↦ attempts left env st' host domain require_tls ]

-- a policy that is enforced
unfoldable pub enforced : Option MtastsPolicy → Bool
enforced none = false
enforced (some policy) = policy.mode == "enforce"

-- the loop over the MX hosts; one that an enforced policy does not name is skipped
unfoldable pub each_mx :
    RelayEnv → Option MtastsPolicy → String → Bool → RelayState → List String → Bool × RelayState
each_mx env policy domain force st [] = (false, st)
each_mx env policy domain force st (mx ∷ rest) =
    let host = trim_suffix mx "." in
    let (ok, st') = attempts 3 env st host domain (force || enforced policy) in
    let skipped = each_mx env policy domain force st rest in
    let next = each_mx env policy domain force st' rest in
    if enforced policy && not (validate_mx policy host)
    then skipped
    else elim ok [ true ↦ (true, st') | false ↦ next ]

-- the hosts of a domain: itself where it has no MX record
unfoldable pub mx_hosts : RelayEnv → String → List String
mx_hosts env domain = elim (env.lookup_mx domain) [
  | none ↦ domain ∷ []
  | some [] ↦ domain ∷ []
  | some (mx ∷ rest) ↦ mx ∷ rest
]

abbrev policy_or_none : Fetched → Option MtastsPolicy
policy_or_none none = none
policy_or_none (some policy) = policy

-- The policy of the domain, none where there is no such, it cannot be fetched or MTA-STS is off.
unfoldable pub policy_for : RelayEnv → RelayState → String → Option MtastsPolicy × RelayState
policy_for env st domain = elim env.mtasts [
  | none ↦ (none, st)
  | some web ↦
      (let (fetched, cache) = get_policy web st.cache domain env.now in
        (policy_or_none fetched, record st { cache = cache }))
]

unfoldable pub send_to_domain : RelayEnv → RelayState → String → Bool → Bool × RelayState
send_to_domain env st domain force =
    let (policy, st') = policy_for env st domain in
    each_mx env policy domain force st' (mx_hosts env domain)

addrs_or_nil : Option (List String) → List String
addrs_or_nil none = []
addrs_or_nil (some addrs) = addrs

-- one more recipient; an address without `@` is dropped
grouped : Assoc (List String) → String → Option (String × String) → Assoc (List String)
unfolding addrs_or_nil
grouped groups addr none = groups
grouped groups addr (some (user, domain)) =
    insert domain (addrs_or_nil (lookup domain groups) ++ addr ∷ []) groups

-- the recipients of each domain
unfoldable pub by_domain : Assoc (List String) → List String → Assoc (List String)
unfolding grouped
by_domain groups [] = groups
by_domain groups (addr ∷ rest) = by_domain (grouped groups addr (cut b'@' addr)) rest

-- the loop over the domains, which ends at the first error
unfoldable pub each_domain : RelayEnv → RelayState → Bool → Assoc (List String) → Bool × RelayState
each_domain env st force [] = (true, st)
each_domain env st force ((domain, recipients) ∷ rest) =
    let (ok, st') = send_to_domain env st domain force in
    elim ok [ false ↦ (false, st') | true ↦ each_domain env st' force rest ]

-- the attempts at the external relay, by net/smtp
unfoldable pub send_via_external_relay : ℕ → RelayEnv → RelayState → Bool × RelayState
send_via_external_relay zero env st = (false, st)
send_via_external_relay (suc left) env st =
    let more = send_via_external_relay left env (record st { dials = st.dials + 1 }) in
    elim (env.external st.dials) [
      | true ↦ (true, record st { dials = st.dials + 1 })
      | false ↦ more
    ]

unfoldable pub send : RelayEnv → RelayState → List String → Bool → Bool × RelayState
send env st to require_tls =
    if not (env.relay_host == "")
    then send_via_external_relay 3 env st
    else each_domain env st require_tls (env.order (by_domain [] to))

unfoldable pub add_dkim_key : {Key : Type 0} → Assoc Key → String → Key → Assoc Key
unfolding insert
add_dkim_key keys domain key = insert domain key keys

-- The text with a signature where the sender's domain has a key; unsigned where signing fails.
unfoldable pub sign_dkim :
    {Key : Type 0} → Assoc Key → (String → Key → String → Option String) → String → String → String
sign_dkim keys sign from msg = elim (cut b'@' from) [
  | none ↦ msg
  | some (user, domain) ↦ elim (lookup domain keys) [
    | none ↦ msg
    | some key ↦ elim (sign domain key msg) [ none ↦ msg | some signed ↦ signed ]
  ]
]
