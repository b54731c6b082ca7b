-- ===== src/Smtp/Relay/Dials.antt =====
-- How often a relay dials.
use mathlib.Core.List.{append-nil, append_assoc}
use bdsmail.Base.{
  Bool, Bool-cases, List, Option, Option-cases, String, [], ap, arith, if_intro, inl, inr, not,
  refl, suc, sym, trim_suffix, zero, ℕ, ◌&&◌, ◌++◌, ◌||◌, ◌∙◌, ◌∷◌, ◌≡◌, ◌≤◌,
}
use bdsmail.Security.MtaSts.{MtastsPolicy, validate_mx}
use bdsmail.Smtp.Relay.{
  RelayEnv, RelayState, attempts, deliver, each_mx, enforced, mx_hosts, policy_for,
  record_tls_failure, record_tls_success, send_to_domain, try_relay,
}

abbrev pub repeated : ℕ → String → List String
repeated zero host = []
repeated (suc n) host = host ∷ repeated n host

-- the hosts of a domain in order, each at most three times in a row, some of them not at all
pub data AreTries : List String → List String → Type 0 where
  over : {hosts : List String} → AreTries hosts []
  next :
      {mx : String} {rest dialled : List String} (n : ℕ)
      → n ≤ 3
      → AreTries rest dialled
      → AreTries (mx ∷ rest) (repeated n (trim_suffix mx ".") ++ dialled)

module _ (env : RelayEnv) where
  try_relay-dialled :
      (st : RelayState) (host domain : String) (tls : Bool)
      → (try_relay env st host domain tls).1.dialled ≡ st.dialled ++ host ∷ []
  unfolding try_relay deliver record_tls_success record_tls_failure
  try_relay-dialled st host domain tls = ground arith

  attempts_dialled :
      (left : ℕ) (st : RelayState) (host domain : String) (tls : Bool)
      → (n : ℕ) × (n ≤ left)
        × ((attempts left env st host domain tls).1.dialled ≡ st.dialled ++ repeated n host)
  unfolding attempts
  attempts_dialled zero st host domain tls = (0, omega arith, sym (append-nil st.dialled))
  attempts_dialled (suc left) st host domain tls =
      let (ok, st') = try_relay env st host domain tls in
      let once = try_relay-dialled st host domain tls in
      elim (Bool-cases ok) [
        | inl e ↦ (1, omega arith, rw (e, attempts) once)
        | inr e ↦
            let (n, few, more) = attempts_dialled left st' host domain tls in
            (
              suc n,
              omega (arith, few),
              rw (e, attempts)
                  (more
                    ∙ ap (λ l. l ++ repeated n host) once
                    ∙ append_assoc st.dialled (host ∷ []) (repeated n host)),
            )
      ]

  abbrev Dials : RelayState → List String → Bool × RelayState → Type 0
  Dials st hosts out =
      (dialled : List String) × (out.1.dialled ≡ st.dialled ++ dialled) × AreTries hosts dialled

  each_mx-Dials :
      (policy : Option MtastsPolicy) (domain : String) (force : Bool) (hosts : List String)
      (st : RelayState)
      → Dials st hosts (each_mx env policy domain force st hosts)
  unfolding each_mx
  each_mx-Dials policy domain force [] st = ([], sym (append-nil st.dialled), AreTries.over)
  each_mx-Dials policy domain force (mx ∷ rest) st =
      let host = trim_suffix mx "." in
      let tls = force || enforced policy in
      let (ok, st') = attempts 3 env st host domain tls in
      let (n, few, tried) = attempts_dialled 3 st host domain tls in
      if_intro (Dials st (mx ∷ rest)) (enforced policy && not (validate_mx policy host))
        (λ _.
          let (dialled, e, tries) = each_mx-Dials policy domain force rest st in
          (dialled, e, AreTries.next 0 (omega arith) tries))
        (λ named. elim (Bool-cases ok) [
          | inl e ↦ rw e (
            repeated n host ++ [],
            tried ∙ ap (λ l. st.dialled ++ l) (sym (append-nil (repeated n host))),
            AreTries.next n few AreTries.over,
          )
          | inr e ↦
              let (dialled, later, tries) = each_mx-Dials policy domain force rest st' in
              rw e (
                repeated n host ++ dialled,
                later
                    ∙ ap (λ l. l ++ dialled) tried
                    ∙ append_assoc st.dialled (repeated n host) dialled,
                AreTries.next n few tries,
              )
        ])

policy_for-dialled :
    (env : RelayEnv) (st : RelayState) (domain : String)
    → (policy_for env st domain).1.dialled ≡ st.dialled
unfolding policy_for
policy_for-dialled env st domain = elim (Option-cases env.mtasts) [
  | inl e ↦ rw e refl
  | inr (web, e) ↦ rw e refl
]

-- Sending to a domain ends after finitely many dials: they go to the domain's hosts in their order, to
-- each entry of the list at most three times in a row, and to nobody else.
pub send_to_domain_dials :
    (env : RelayEnv) (st : RelayState) (domain : String) (force : Bool)
    → (dialled : List String) × ((send_to_domain env st domain force).1.dialled
        ≡ st.dialled ++ dialled)
      × AreTries (mx_hosts env domain) dialled
unfolding send_to_domain
send_to_domain_dials env st domain force =
    let (dialled, e, tries) =
      each_mx-Dials env (policy_for env st domain).0 domain force (mx_hosts env domain)
        (policy_for env st domain).1 in
    (dialled, e ∙ ap (λ l. l ++ dialled) (policy_for-dialled env st domain), tries)
