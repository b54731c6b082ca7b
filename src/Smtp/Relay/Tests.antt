-- ===== src/Smtp/Relay/Tests.antt =====
-- The theorems on the relay, at a domain with an enforced policy and two hosts.
use mathlib.Core.List.{Memᴰ}
use bdsmail.Base.{
  All, List, String, [], false, if◌then◌else◌, lookup, none, not, pos, refl, some, to_lower,
  trim_suffix, true, ◌&&◌, ◌++◌, ◌==◌, ◌∷◌, ◌≡◌,
}
use bdsmail.Security.MtaSts.{MtastsPolicy, get_policy, validate_mx}
use bdsmail.Smtp.Relay.{
  RelayEnv, RelayState, Server, attempts, dane_refuses, deliver, each_mx, enforced, mx_hosts,
  policy_for, record_tls_failure, record_tls_success, send, send_to_domain, try_relay,
}
use bdsmail.Smtp.Relay.Tls.{FollowsPolicy, send-IsEncrypted, send_to_domain-FollowsPolicy}
use bdsmail.Smtp.Relay.Dials.{AreTries, send_to_domain_dials}
use bdsmail.Smtp.Relay.Succeeds.{IsGood, Took, send_to_domain-IsGood}

abbrev good_server : Server
good_server = record {
  reachable = true;
  starttls = true;
  handshake = true;
  peer_certs = none;
  accepts = true;
  quits = true;
}

abbrev env : RelayEnv
env = record {
  lookup_mx = λ domain. some ("mx1.far.example." ∷ ("mx2.far.example." ∷ []));
  server = λ host n.
      if host == "mx2.far.example" then good_server else record good_server { starttls = false };
  mtasts = some (record { lookup_txt = λ name. none; get = λ url. none });
  dane = none;
  hashes = record { hex = λ s. s; sha256 = λ s. s; sha512 = λ s. s };
  order = λ groups. groups;
  relay_host = "";
  external = λ n. true;
  now = 10;
}

abbrev policy : MtastsPolicy
policy = record { mode = "enforce"; mx = "*.far.example" ∷ []; max_age = pos 86400 }

abbrev st : RelayState
st = record {
  cache = ("far.example", record { policy = policy; fetched_at = 5 }) ∷ [];
  reporter = none;
  dials = 0;
  dialled = [];
  sent = [];
}

enforced_now : enforced (policy_for env st "far.example").0 ≡ true
unfolding enforced policy_for get_policy lookup
enforced_now = refl

named_now :
    (enforced (policy_for env st "far.example").0
      && not (validate_mx (policy_for env st "far.example").0 (trim_suffix "mx2.far.example." ".")))
    ≡ false
unfolding enforced policy_for get_policy lookup validate_mx to_lower
named_now = refl

mx2_IsGood : IsGood env (trim_suffix "mx2.far.example." ".")
unfolding dane_refuses
mx2_IsGood = record {
  reachable = λ n. refl;
  starttls = λ n. refl;
  handshake = λ n. refl;
  matches = λ n. refl;
  accepts = λ n. refl;
  quits = λ n. refl;
}

is_host : Memᴰ "mx2.far.example." (mx_hosts env "far.example")
unfolding mx_hosts
is_host = Memᴰ.tail (Memᴰ.head refl)

send-IsEncrypted_example :
    All (λ t. t.encrypted ≡ true) (send env st ("ann@far.example" ∷ []) true).1.sent
send-IsEncrypted_example = send-IsEncrypted env st ("ann@far.example" ∷ []) refl tt

send_to_domain-FollowsPolicy_example :
    All
      (FollowsPolicy (policy_for env st "far.example").0)
      (send_to_domain env st "far.example" false).1.sent
send_to_domain-FollowsPolicy_example =
    send_to_domain-FollowsPolicy env st "far.example" false enforced_now tt

send_to_domain_dials_example :
    (dialled : List String) × ((send_to_domain env st "far.example" false).1.dialled
      ≡ [] ++ dialled)
    × AreTries (mx_hosts env "far.example") dialled
send_to_domain_dials_example = send_to_domain_dials env st "far.example" false

send_to_domain-IsGood_example :
    ((send_to_domain env st "far.example" false).0 ≡ true)
    × ((taker : String) × Memᴰ taker (mx_hosts env "far.example")
        × Took env st (trim_suffix taker ".") (send_to_domain env st "far.example" false).1)
send_to_domain-IsGood_example =
    send_to_domain-IsGood env st "far.example" false "mx2.far.example." is_host mx2_IsGood named_now

-- three dials to the first host, which offers no TLS, then one to the second
sends :
    (send_to_domain env st "far.example" false).1.sent
    ≡ record { host = "mx2.far.example"; encrypted = true } ∷ []
unfolding send_to_domain policy_for get_policy lookup each_mx mx_hosts attempts try_relay
    dane_refuses deliver enforced validate_mx to_lower record_tls_success record_tls_failure
sends = refl
