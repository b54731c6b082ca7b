-- ===== src/Smtp/Relay/Tls.antt =====
-- What is sent where TLS is required.
use bdsmail.Base.{
  All, All-append, Assoc, Bool, Bool-cases, List, Option, Option-cases, String, [], arith, false,
  if_intro, inl, inr, not, refl, subst, suc, sym, trim_suffix, true, zero, ℕ, ◌&&◌, ◌==◌, ◌||◌, ◌∷◌,
  ◌≡◌,
}
use bdsmail.Security.MtaSts.{MtastsPolicy, validate_mx}
use bdsmail.Smtp.Relay.{
  RelayEnv, RelayState, Transmission, attempts, by_domain, dane_refuses, deliver, each_domain,
  each_mx, enforced, mx_hosts, policy_for, record_tls_failure, record_tls_success, send,
  send_to_domain, try_relay,
}

-- every envelope that was sent meets the condition
abbrev Sends : (Transmission → Type 0) → Bool × RelayState → Type 0
Sends P out = All P out.1.sent

module _ (P : Transmission → Type 0) (env : RelayEnv) where
  try_relay-Sends :
      (st : RelayState) (host domain : String)
      → P (record { host = host; encrypted = true })
      → All P st.sent
      → Sends P (try_relay env st host domain true)
  unfolding try_relay deliver record_tls_success record_tls_failure
  try_relay-Sends st host domain p before =
      let s = env.server host st.dials in
      let sent =
        All-append P st.sent (record { host = host; encrypted = true } ∷ []) before (p, tt) in
      if_intro (Sends P) (not s.reachable) (λ _. before)
        (λ _.
          if_intro (Sends P) (not s.starttls) (λ _. before)
            (λ _.
              if_intro (Sends P) (not s.handshake) (λ _. before)
                (λ _.
                  if_intro (Sends P) (dane_refuses env host s.peer_certs) (λ _. before)
                    (λ _. if_intro (Sends P) (not s.accepts) (λ _. sent) (λ _. sent)))))

  attempts-Sends :
      (left : ℕ) (st : RelayState) (host domain : String)
      → P (record { host = host; encrypted = true })
      → All P st.sent
      → Sends P (attempts left env st host domain true)
  unfolding attempts
  attempts-Sends zero st host domain p before = before
  attempts-Sends (suc left) st host domain p before =
      let (ok, st') = try_relay env st host domain true in
      let now = try_relay-Sends st host domain p before in
      elim (Bool-cases ok) [
        | inl e ↦ rw (e, attempts) now
        | inr e ↦ rw (e, attempts) (attempts-Sends left st' host domain p now)
      ]

  each_mx-Sends :
      (policy : Option MtastsPolicy) (domain : String) (force : Bool) (hosts : List String)
      (st : RelayState)
      → (force || enforced policy) ≡ true
      → ((host : String)
          → (enforced policy && not (validate_mx policy host)) ≡ false
          → P (record { host = host; encrypted = true }))
      → All P st.sent
      → Sends P (each_mx env policy domain force st hosts)
  unfolding each_mx
  each_mx-Sends policy domain force [] st tls allowed before = before
  each_mx-Sends policy domain force (mx ∷ rest) st tls allowed before =
      let host = trim_suffix mx "." in
      let (ok, st') = attempts 3 env st host domain (force || enforced policy) in
      if_intro (Sends P) (enforced policy && not (validate_mx policy host))
        (λ _. each_mx-Sends policy domain force rest st tls allowed before)
        (λ named.
          let now =
            subst (λ b. Sends P (attempts 3 env st host domain b)) (sym tls)
              (attempts-Sends 3 st host domain (allowed host named) before) in
          elim (Bool-cases ok) [
            | inl e ↦ rw e now
            | inr e ↦ rw e (each_mx-Sends policy domain force rest st' tls allowed now)
          ])

abbrev IsEncrypted : Transmission → Type 0
IsEncrypted t = t.encrypted ≡ true

policy_for-sent :
    (env : RelayEnv) (st : RelayState) (domain : String)
    → (policy_for env st domain).1.sent ≡ st.sent
unfolding policy_for
policy_for-sent env st domain = elim (Option-cases env.mtasts) [
  | inl e ↦ rw e refl
  | inr (web, e) ↦ rw e refl
]

send_to_domain-IsEncrypted :
    (env : RelayEnv) (st : RelayState) (domain : String)
    → All IsEncrypted st.sent
    → All IsEncrypted (send_to_domain env st domain true).1.sent
unfolding send_to_domain
send_to_domain-IsEncrypted env st domain before =
    each_mx-Sends IsEncrypted env (policy_for env st domain).0 domain true (mx_hosts env domain)
      (policy_for env st domain).1 refl (λ host named. refl)
      (rw (policy_for-sent env st domain) before)

each_domain-IsEncrypted :
    (env : RelayEnv) (groups : Assoc (List String)) (st : RelayState)
    → All IsEncrypted st.sent
    → All IsEncrypted (each_domain env st true groups).1.sent
unfolding each_domain
each_domain-IsEncrypted env [] st before = before
each_domain-IsEncrypted env ((domain, recipients) ∷ rest) st before =
    let now = send_to_domain-IsEncrypted env st domain before in
    elim (Bool-cases (send_to_domain env st domain true).0) [
      | inl e ↦
          rw (e, each_domain, All)
            (each_domain-IsEncrypted env rest (send_to_domain env st domain true).1 now)
      | inr e ↦ rw (e, each_domain, All) now
    ]

-- Where the caller requires TLS and no external relay is configured, every envelope that the relay
-- sends goes over an encrypted connection, to whatever domains the recipients belong, and whatever the
-- servers and the policies of the domains are.
pub send-IsEncrypted :
    (env : RelayEnv) (st : RelayState) (to : List String)
    → (env.relay_host == "") ≡ true
    → All IsEncrypted st.sent
    → All IsEncrypted (send env st to true).1.sent
unfolding send
send-IsEncrypted env st to direct before =
    rw direct (each_domain-IsEncrypted env (env.order (by_domain [] to)) st before)

-- an encrypted connection to a host that the policy names
abbrev pub FollowsPolicy : Option MtastsPolicy → Transmission → Type 0
FollowsPolicy policy t = (t.encrypted ≡ true) × (validate_mx policy t.host ≡ true)

-- Where the domain's MTA-STS policy is enforced, every envelope that the relay sends to its hosts goes
-- over an encrypted connection to a host that the policy names.
pub send_to_domain-FollowsPolicy :
    (env : RelayEnv) (st : RelayState) (domain : String) (force : Bool)
    → enforced (policy_for env st domain).0 ≡ true
    → All (FollowsPolicy (policy_for env st domain).0) st.sent
    → All (FollowsPolicy (policy_for env st domain).0) (send_to_domain env st domain force).1.sent
unfolding send_to_domain
send_to_domain-FollowsPolicy env st domain force strict before =
    let policy = (policy_for env st domain).0 in
    each_mx-Sends (FollowsPolicy policy) env policy domain force (mx_hosts env domain)
      (policy_for env st domain).1 (ground (arith, strict))
      (λ host named. (refl, ground (arith, strict, named)))
      (rw (policy_for-sent env st domain) before)
