-- ===== src/Smtp/Relay/Succeeds.antt =====
-- When a mail gets through.
use mathlib.Core.List.{Memᴰ, append-nil, append_assoc}
use bdsmail.Base.{
  Bool, Bool-cases, List, Option, Option-cases, String, [], ap, arith, false, false≢true, first,
  if_intro, inl, inr, not, refl, suc, sym, trim_suffix, true, zero, ℕ, ◌&&◌, ◌++◌, ◌+◌, ◌||◌, ◌∙◌,
  ◌∷◌, ◌≡◌, ◌≤◌,
}
use bdsmail.Security.MtaSts.{MtastsPolicy, validate_mx}
use bdsmail.Smtp.Relay.{
  RelayEnv, RelayState, Transmission, attempts, dane_refuses, deliver, each_mx, enforced, mx_hosts,
  policy_for, record_tls_failure, record_tls_success, send_to_domain, try_relay,
}

-- a host that takes mail over TLS on every dial, with certificates that DANE does not refuse
pub record IsGood (env : RelayEnv) (host : String) : Type 0 where
  pub reachable : (n : ℕ) → (env.server host n).reachable ≡ true
  pub starttls : (n : ℕ) → (env.server host n).starttls ≡ true
  pub handshake : (n : ℕ) → (env.server host n).handshake ≡ true
  pub matches : (n : ℕ) → dane_refuses env host (env.server host n).peer_certs ≡ false
  pub accepts : (n : ℕ) → (env.server host n).accepts ≡ true
  pub quits : (n : ℕ) → (env.server host n).quits ≡ true

-- the last envelope that was sent is for this host, which took it on the last dial
pub record Took (env : RelayEnv) (st : RelayState) (host : String) (st' : RelayState) : Type 0 where
  pub dial : ℕ
  pub is_new : st.dials ≤ dial
  pub is_last : st'.dials ≡ dial + 1
  pub reachable : (env.server host dial).reachable ≡ true
  pub accepts : (env.server host dial).accepts ≡ true
  pub quits : (env.server host dial).quits ≡ true
  pub earlier : List Transmission
  pub encrypted : Bool
  pub sent : st'.sent ≡ st.sent ++ (earlier ++ record { host = host; encrypted = encrypted } ∷ [])

-- more dials, and maybe more envelopes
abbrev Grows : RelayState → RelayState → Type 0
Grows st st' = (more : List Transmission) × (st'.sent ≡ st.sent ++ more) × (st.dials ≤ st'.dials)

Grows-trans : (a b c : RelayState) → Grows a b → Grows b c → Grows a c
Grows-trans a b c (more, e, l) (later, f, m) = (
  more ++ later,
  f ∙ ap (λ l. l ++ later) e ∙ append_assoc a.sent more later,
  omega (arith, l, m),
)

Took-after :
    (env : RelayEnv) (host : String) (a b c : RelayState)
    → Grows a b
    → Took env b host c
    → Took env a host c
Took-after env host a b c (more, e, l) t =
    let last = t.earlier ++ record { host = host; encrypted = t.encrypted } ∷ [] in
    record {
      dial = t.dial;
      is_new = omega (arith, l, t.is_new);
      is_last = t.is_last;
      reachable = t.reachable;
      accepts = t.accepts;
      quits = t.quits;
      earlier = more ++ t.earlier;
      encrypted = t.encrypted;
      sent =
          t.sent
          ∙ ap (λ l. l ++ last) e
          ∙ append_assoc a.sent more last
          ∙ ap (λ l. a.sent ++ l)
              (sym (
                append_assoc more t.earlier
                  (record { host = host; encrypted = t.encrypted } ∷ [])));
    }

module _ (env : RelayEnv) where
  try_relay-Grows :
      (st : RelayState) (host domain : String) (tls : Bool)
      → Grows st (try_relay env st host domain tls).1
  unfolding try_relay deliver record_tls_success record_tls_failure
  try_relay-Grows st host domain tls =
      let s = env.server host st.dials in
      let P = λ (out : Bool × RelayState). Grows st out.1 in
      let none_sent : Grows st (record st { dials = st.dials + 1 }) =
        ([], sym (append-nil st.sent), omega arith) in
      let clear : (e : Bool)
          → Grows st (record st {
            dials = st.dials + 1;
            sent = st.sent ++ record { host = host; encrypted = e } ∷ [];
          }) =
        λ e. (record { host = host; encrypted = e } ∷ [], refl, omega arith) in
      if_intro P (not s.reachable) (λ _. none_sent)
        (λ _.
          if_intro P (not s.starttls)
            (λ _.
              if_intro P tls (λ _. none_sent)
                (λ _. if_intro P (not s.accepts) (λ _. clear false) (λ _. clear false)))
            (λ _.
              if_intro P (not s.handshake)
                (λ _.
                  if_intro P tls (λ _. none_sent)
                    (λ _. if_intro P (not s.accepts) (λ _. clear false) (λ _. clear false)))
                (λ _.
                  if_intro P (dane_refuses env host s.peer_certs) (λ _. none_sent)
                    (λ _. if_intro P (not s.accepts) (λ _. clear true) (λ _. clear true)))))

  try_relay-Took :
      (st : RelayState) (host domain : String) (tls : Bool)
      → (try_relay env st host domain tls).0 ≡ true
      → Took env st host (try_relay env st host domain tls).1
  unfolding try_relay deliver record_tls_success record_tls_failure
  try_relay-Took st host domain tls h =
      let s = env.server host st.dials in
      record {
        dial = st.dials;
        is_new = omega arith;
        is_last = ground arith;
        reachable = ground (arith, h);
        accepts = ground (arith, h);
        quits = ground (arith, h);
        earlier = [];
        encrypted = s.starttls && s.handshake;
        sent = ground (arith, h);
      }

  attempts-Took :
      (left : ℕ) (st : RelayState) (host domain : String) (tls : Bool)
      → let (ok, st') = attempts left env st host domain tls in
        Grows st st' × (ok ≡ true → Took env st host st')
  unfolding attempts
  attempts-Took zero st host domain tls =
      (([], sym (append-nil st.sent), omega arith), λ h. absurd (false≢true h))
  attempts-Took (suc left) st host domain tls =
      let (ok, st') = try_relay env st host domain tls in
      let grows = try_relay-Grows st host domain tls in
      elim (Bool-cases ok) [
        | inl e ↦ rw (e, attempts) (grows, λ _. try_relay-Took st host domain tls e)
        | inr e ↦
            let st'' = (attempts left env st' host domain tls).1 in
            let (more, took) = attempts-Took left st' host domain tls in
            rw (e, attempts)
              (
                Grows-trans st st' st'' grows more,
                λ h. Took-after env host st st' st'' grows (took h),
              )
      ]

  each_mx-Took :
      (policy : Option MtastsPolicy) (domain : String) (force : Bool) (hosts : List String)
      (st : RelayState)
      → (each_mx env policy domain force st hosts).0 ≡ true
      → (mx : String) × Memᴰ mx hosts
        × Took env st (trim_suffix mx ".") (each_mx env policy domain force st hosts).1
  unfolding each_mx
  each_mx-Took policy domain force [] st = λ h. absurd (false≢true h)
  each_mx-Took policy domain force (mx ∷ rest) st =
      let host = trim_suffix mx "." in
      let tls = force || enforced policy in
      let (ok, st') = attempts 3 env st host domain tls in
      let (grows, took) = attempts-Took 3 st host domain tls in
      if_intro
        (λ (out : Bool × RelayState).
          out.0 ≡ true
          → (mx' : String) × Memᴰ mx' (mx ∷ rest) × Took env st (trim_suffix mx' ".") out.1)
        (enforced policy && not (validate_mx policy host))
        (λ _ h.
          let (mx', m, t) = each_mx-Took policy domain force rest st h in (mx', Memᴰ.tail m, t))
        (λ _. elim (Bool-cases ok) [
          | inl e ↦ rw e (λ h. (mx, Memᴰ.head refl, took e))
          | inr e ↦ rw e (λ h.
              let (mx', m, t) = each_mx-Took policy domain force rest st' h in
              (
                mx',
                Memᴰ.tail m,
                Took-after env (trim_suffix mx' ".") st st'
                    (each_mx env policy domain force st' rest).1 grows t,
              ))
        ])

  policy_for-Grows : (st : RelayState) (domain : String) → Grows st (policy_for env st domain).1
  unfolding policy_for
  policy_for-Grows st domain = elim (Option-cases env.mtasts) [
    | inl e ↦ rw e ([], sym (append-nil st.sent), omega arith)
    | inr (web, e) ↦ rw e ([], sym (append-nil st.sent), omega arith)
  ]

  try_relay-IsGood :
      (st : RelayState) (host domain : String) (tls : Bool)
      → IsGood env host
      → (try_relay env st host domain tls).0 ≡ true
  unfolding try_relay deliver
  try_relay-IsGood st host domain tls good = simp (
    good.reachable st.dials,
    good.starttls st.dials,
    good.handshake st.dials,
    good.matches st.dials,
    good.accepts st.dials,
    good.quits st.dials,
  )

  attempts-IsGood :
      (left : ℕ) (st : RelayState) (host domain : String) (tls : Bool)
      → IsGood env host
      → (attempts (suc left) env st host domain tls).0 ≡ true
  unfolding attempts
  attempts-IsGood left st host domain tls good =
      rw (try_relay-IsGood st host domain tls good, attempts) refl

  each_mx-IsGood :
      (policy : Option MtastsPolicy) (domain : String) (force : Bool) (mx : String)
      (hosts : List String) (st : RelayState)
      → Memᴰ mx hosts
      → IsGood env (trim_suffix mx ".")
      → (enforced policy && not (validate_mx policy (trim_suffix mx "."))) ≡ false
      → (each_mx env policy domain force st hosts).0 ≡ true
  unfolding each_mx
  each_mx-IsGood policy domain force mx [] st m good named = elim m [ ]
  each_mx-IsGood policy domain force mx (first ∷ rest) st (Memᴰ.head e) good named = rw (← e) (
      rw (named, attempts-IsGood 2 st (trim_suffix mx ".") domain (force || enforced policy) good)
        refl)
  each_mx-IsGood policy domain force mx (first ∷ rest) st (Memᴰ.tail m) good named =
      let host = trim_suffix first "." in
      let (ok, st') = attempts 3 env st host domain (force || enforced policy) in
      if_intro (λ (out : Bool × RelayState). out.0 ≡ true)
        (enforced policy && not (validate_mx policy host))
        (λ _. each_mx-IsGood policy domain force mx rest st m good named)
        (λ _. elim (Bool-cases ok) [
          | inl e ↦ rw e refl
          | inr e ↦ rw e (each_mx-IsGood policy domain force mx rest st' m good named)
        ])

-- Mail to a domain is sent where one of the domain's hosts takes it over TLS on every dial, with a
-- certificate that DANE does not refuse, and an enforced policy names this host; whatever the other
-- hosts do and whether TLS is required. There is no error then, and the last envelope that was sent is
-- for one of the domain's hosts, which took it on the last dial.
pub send_to_domain-IsGood :
    (env : RelayEnv) (st : RelayState) (domain : String) (force : Bool) (mx : String)
    → Memᴰ mx (mx_hosts env domain)
    → IsGood env (trim_suffix mx ".")
    → (enforced (policy_for env st domain).0
        && not (validate_mx (policy_for env st domain).0 (trim_suffix mx ".")))
      ≡ false
    → ((send_to_domain env st domain force).0 ≡ true)
      × ((taker : String) × Memᴰ taker (mx_hosts env domain)
          × Took env st (trim_suffix taker ".") (send_to_domain env st domain force).1)
unfolding send_to_domain
send_to_domain-IsGood env st domain force mx m good named =
    let (policy, st') = policy_for env st domain in
    let hosts = mx_hosts env domain in
    let ok = each_mx-IsGood env policy domain force mx hosts st' m good named in
    let (taker, t, took) = each_mx-Took env policy domain force hosts st' ok in
    (
      ok,
      (
        taker,
        t,
        Took-after env (trim_suffix taker ".") st st' (each_mx env policy domain force st' hosts).1
            (policy_for-Grows env st domain) took,
      ),
    )
