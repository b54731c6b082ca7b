-- ===== src/Web/Signup/Verified.antt =====
-- When a domain is added by a sign-up.
mod Kept
use mathlib.Core.List.{Memᴰ}
use bdsmail.Base.{
  Bool-cases, List, Option, Option-cases, String, [], any_sound, ap, arith, eq_iff, if_intro, inl,
  inr, none, not, some, subst, sym, to_lower, trim_suffix, true, ℕ, ◌==◌, ◌∙◌, ◌∷◌, ◌≡◌, ◌≤◌,
}
use bdsmail.Model.{Domain, DomainSignup, is_expired}
use bdsmail.Db.{Db, create_user, get_domain, get_signup, user_exists_by_email}
use bdsmail.Dns.{verify_domain_ownership, verify_mx}
use bdsmail.Web.Sessions.{Answer, Request, failed, json, page}
use bdsmail.Web.Roles.{grant_role}
use bdsmail.Web.UsersApi.{is_platform_host}
use bdsmail.Web.Signup.{
  Generated, SignupEnv, SignupState, api_verify_signup, build_signup_dns_records,
  handle_signup_verify, pending_signup, provision_domain, save_all, signup_email, verified,
  with_domain, with_owner,
}
use bdsmail.Web.Signup.Verified.Kept.{
  Adds, SameDomains, create_domain-Adds, create_user-SameDomains, delete_signup-SameDomains,
  grant_role-SameDomains, none≢found, save_all-SameDomains,
}

-- a sign-up for the domain that has not expired, whose MX record names the platform's host
pub record IsVerified (env : SignupEnv) (db : Db) (id : String) (now : ℕ) (name : String)
    : Type 0 where
  pub signup : DomainSignup
  pub found : get_signup db id ≡ some signup
  pub in_time : now ≤ signup.expires_at
  pub of_domain : signup.domain ≡ name
  pub hosts : List String
  pub answered : env.lookup_mx name ≡ some hosts
  pub host : String
  pub in_answer : Memᴰ host hosts
  pub is_platform : to_lower (trim_suffix host ".") ≡ to_lower (trim_suffix env.mail_hostname ".")

verify_domain_ownership_sound :
    (lookup_mx : String → Option (List String)) (domain mail_hostname : String)
    → verify_domain_ownership lookup_mx domain mail_hostname ≡ true
    → (hosts : List String) × (lookup_mx domain ≡ some hosts)
      × ((host : String) × Memᴰ host hosts
          × (to_lower (trim_suffix host ".") ≡ to_lower (trim_suffix mail_hostname ".")))
unfolding verify_domain_ownership verify_mx
verify_domain_ownership_sound lookup_mx domain mail_hostname h =
    elim (Option-cases (lookup_mx domain)) [
      | inl e ↦ absurd (ground (arith, h, e))
      | inr (hosts, e) ↦
          let test = λ (host : String).
            to_lower (trim_suffix host ".") == to_lower (trim_suffix mail_hostname ".") in
          let (host, m, same) = any_sound test hosts (ground (arith, h, e)) in
          (
            hosts,
            e,
            (
              host,
              m,
              ground (
                arith,
                same,
                eq_iff (to_lower (trim_suffix host ".")) (to_lower (trim_suffix mail_hostname ".")),
              ),
            ),
          )
    ]

with_domain-Adds :
    (db : Db) (signup : DomainSignup) (address hash : String) (db' : Db)
    → with_domain db signup address hash ≡ some db'
    → Adds signup.domain db db'
unfolding with_domain get_domain
with_domain-Adds db signup address hash = elim (Option-cases (get_domain db signup.domain)) [
  | inl e ↦
      rw (with_domain, e)
        (λ db' made name d before after.
          create_domain-Adds db db'
            (record {
              name = signup.domain;
              api_key_hash = hash;
              ses_status = "";
              dkim_status = "";
              status = "active";
              created_by = address;
            })
            made name d before after)
  | inr (existing, e) ↦
      rw (with_domain, e)
        (λ db' made name d before after.
          let same : db ≡ db' = cc in
          absurd (
            none≢found db name d before (subst (λ x. get_domain x name ≡ some d) (sym same) after)))
]

with_owner-SameDomains :
    (db : Db) (signup : DomainSignup) (address id : String) (now : ℕ) (db' : Db)
    → with_owner db signup address id now ≡ some db'
    → SameDomains db db'
unfolding with_owner get_domain
with_owner-SameDomains db signup address id now =
    elim (Bool-cases (user_exists_by_email db address)) [
      | inl e ↦
          rw (with_owner, e)
            (λ db' made name.
              let same : db ≡ db' = cc in ap (λ (x : Db). get_domain x name) (sym same))
      | inr e ↦
          elim (Option-cases (
            create_user db signup.username signup.domain signup.display_name
              signup.password_hash)) [
                | inl k ↦ rw (with_owner, e, k) (λ db' made name. absurd (ground (arith, made)))
                | inr (db1, k) ↦
                    rw (with_owner, e, k)
                      (λ db' made name.
                        let db2 = grant_role db1 address "owner" signup.domain address id now in
                        let same : db2 ≡ db' = cc in
                        ap (λ (x : Db). get_domain x name) (sym same)
                        ∙ grant_role-SameDomains db1 address "owner" signup.domain address id now
                            name
                        ∙ rw k at (
                            create_user-SameDomains db signup.username signup.domain
                              signup.display_name signup.password_hash name))
              ]
    ]

provision_domain-Adds :
    (env : SignupEnv) (st : SignupState) (signup : DomainSignup) (new : Generated) (now : ℕ)
    → Adds signup.domain st.db (provision_domain env st signup new now).1.db
unfolding provision_domain get_domain
provision_domain-Adds env st signup new now =
    let address = signup_email signup in
    elim (Option-cases (with_domain st.db signup address new.api_key_hash)) [
      | inl e ↦
          rw (provision_domain, e)
            (λ name d before after. absurd (none≢found st.db name d before after))
      | inr (db1, e) ↦
          let added = with_domain-Adds st.db signup address new.api_key_hash db1 e in
          elim (Option-cases (with_owner db1 signup address new.permission_id now)) [
            | inl k ↦ rw (provision_domain, e, k) added
            | inr (db2, k) ↦
                rw (provision_domain, e, k)
                  (λ name d before after.
                    let records = build_signup_dns_records signup.domain env.mail_hostname in
                    added name d before (
                      sym
                        (with_owner-SameDomains db1 signup address new.permission_id now db2 k name)
                      ∙ sym (save_all-SameDomains records db2 name)
                      ∙ sym (delete_signup-SameDomains (save_all db2 records) signup.id name)
                      ∙ after))
          ]
    ]

verified-Adds :
    (env : SignupEnv) (failure success : Answer) (st : SignupState) (signup : DomainSignup)
    (new : Generated) (now : ℕ)
    → Adds signup.domain st.db (verified env failure success st signup new now).1.db
unfolding verified get_domain
verified-Adds env failure success st signup new now =
    elim (Bool-cases (provision_domain env st signup new now).0) [
      | inl e ↦ rw (verified, e) (provision_domain-Adds env st signup new now)
      | inr e ↦ rw (verified, e) (provision_domain-Adds env st signup new now)
    ]

pending_signup_sound :
    (db : Db) (id : String) (now : ℕ) (s : DomainSignup)
    → pending_signup db id now ≡ some s
    → (get_signup db id ≡ some s) × (now ≤ s.expires_at)
unfolding pending_signup is_expired
pending_signup_sound db id now s h = (ground (arith, h), ground (arith, h))

-- a sign-up that was found and whose domain passed the check
verified-IsVerified :
    (env : SignupEnv) (failure success : Answer) (st : SignupState) (signup : DomainSignup)
    (new : Generated) (id : String) (now : ℕ) (name : String) (d : Domain)
    → pending_signup st.db id now ≡ some signup
    → verify_domain_ownership env.lookup_mx signup.domain env.mail_hostname ≡ true
    → get_domain st.db name ≡ none
    → get_domain (verified env failure success st signup new now).1.db name ≡ some d
    → IsVerified env st.db id now name
verified-IsVerified env failure success st signup new id now name d e owned before after =
    let (found, in_time) = pending_signup_sound st.db id now signup e in
    let same = verified-Adds env failure success st signup new now name d before after in
    let (hosts, answered, (host, m, is_platform)) =
      verify_domain_ownership_sound env.lookup_mx signup.domain env.mail_hostname owned in
    record {
      signup = signup;
      found = found;
      in_time = in_time;
      of_domain = same;
      hosts = hosts;
      answered = ap env.lookup_mx (sym same) ∙ answered;
      host = host;
      in_answer = m;
      is_platform = is_platform;
    }

-- the page and the API that verify a sign-up
pub data Route : Type 0 where
  on_page on_api : Route

abbrev pub verify_signup :
    Route → SignupEnv → SignupState → Request → Generated → ℕ → Answer × SignupState
verify_signup on_page env st r new now = handle_signup_verify env st r new now
verify_signup on_api env st r new now = api_verify_signup env st r new now

abbrev pub signup_id : Route → Request → String
signup_id on_page r = r.value "id"
signup_id on_api r = r.value "signupId"

-- A domain that is in the database after a request to the page or to the API that verifies a sign-up
-- and was not there before is that of the sign-up with the identifier that was sent, which has not
-- expired, and the resolver gives MX records for the domain, one of which names the platform's host.
pub verify_signup-IsVerified :
    (route : Route) (env : SignupEnv) (st : SignupState) (r : Request) (new : Generated) (now : ℕ)
    (name : String) (d : Domain)
    → get_domain st.db name ≡ none
    → get_domain (verify_signup route env st r new now).1.db name ≡ some d
    → IsVerified env st.db (signup_id route r) now name
unfolding handle_signup_verify api_verify_signup
verify_signup-IsVerified on_page env st r new now name d before =
    let P : Answer × SignupState → Type 0 =
      λ out. get_domain out.1.db name ≡ some d → IsVerified env st.db (r.value "id") now name in
    let unchanged =
      λ (after : get_domain st.db name ≡ some d). absurd (none≢found st.db name d before after) in
    if_intro P (not (is_platform_host env.mail_hostname r)) (λ _ after. unchanged after)
      (λ _.
        if_intro P (r.value "id" == "") (λ _ after. unchanged after)
          (λ _. elim (Option-cases (pending_signup st.db (r.value "id") now)) [
            | inl e ↦ rw e (λ after. unchanged after)
            | inr (signup, e) ↦ rw e (
                if_intro P (not (r.method == "POST")) (λ _ after. unchanged after)
                  (λ _.
                    if_intro P
                      (not (verify_domain_ownership env.lookup_mx signup.domain env.mail_hostname))
                      (λ _ after. unchanged after)
                      (λ owned.
                        verified-IsVerified env (page "Provisioning failed" "")
                          (page "" "Domain is ready") st signup new (r.value "id") now name d e
                          (ground (arith, owned)) before)))
          ]))
verify_signup-IsVerified on_api env st r new now name d before =
    let P : Answer × SignupState → Type 0 = λ out.
      get_domain out.1.db name ≡ some d → IsVerified env st.db (r.value "signupId") now name in
    let unchanged =
      λ (after : get_domain st.db name ≡ some d). absurd (none≢found st.db name d before after) in
    elim (Option-cases (pending_signup st.db (r.value "signupId") now)) [
      | inl e ↦ rw (e, api_verify_signup) (λ after. unchanged after)
      | inr (signup, e) ↦
          rw (e, api_verify_signup)
            (if_intro P
              (not (verify_domain_ownership env.lookup_mx signup.domain env.mail_hostname))
              (λ _ after. unchanged after)
              (λ owned.
                verified-IsVerified env (failed 500) (json (("status", "verified") ∷ [])) st signup
                  new (r.value "signupId") now name d e (ground (arith, owned)) before))
    ]
