-- ===== src/Security/AuthVerify.antt =====
-- internal/security/authverify.go: SPF, DKIM and the DMARC policy of the sender's domain. The SPF
-- and DKIM libraries and the resolver are parameters.
use bdsmail.Base.{
  Bool, List, Option, String, [], any, arith, clash, concat, cut, eq_iff, false, if◌then◌else◌,
  none, not, refl, some, split, starts_with, trim_prefix, trim_space, true, ◌&&◌, ◌==◌, ◌↔◌, ◌∷◌,
  ◌≡◌, ◌≢◌,
}

pub record AuthResult : Type 0 where
  pub spf_pass : Bool
  pub dkim_pass : Bool
  pub dmarc_policy : String
  pub reject : Bool
  pub quarantine : Bool

-- spf.CheckHostWithSender (is the answer Pass?), dkim.Verify (`none` on an error, else for each
-- signature whether it verified), and net.LookupTXT (`none` on an error)
pub record Lookups : Type 0 where
  pub spf_passes : Option String → String → String → Bool
  pub dkim_verify : String → Option (List Bool)
  pub lookup_txt : String → Option (List String)

-- the user and the domain, split at the first `@`; no domain where there is none
unfoldable pub split_email : String → String × String
split_email email = elim (cut b'@' email) [
  | none ↦ (email, "")
  | some (user, domain) ↦ (user, domain)
]

-- the value of the first part "p=…" of a record
policy_part : List String → Option String
policy_part [] = none
policy_part (part ∷ parts) =
    let p = trim_space part in
    if starts_with p "p=" then some (trim_prefix p "p=") else policy_part parts

dmarc_policy : List String → String
unfolding policy_part
dmarc_policy [] = ""
dmarc_policy (txt ∷ records) =
    let rest = dmarc_policy records in
    if starts_with txt "v=DMARC1"
    then elim (policy_part (split b';' txt)) [ none ↦ rest | some p ↦ p ]
    else rest

pub any_verified : Option (List Bool) → Bool
unfolding any
any_verified none = false
any_verified (some verifications) = any (λ v. v) verifications

module _ (net : Lookups) where
  unfoldable pub lookup_dmarc_policy : String → String
  unfolding dmarc_policy
  lookup_dmarc_policy domain = elim (net.lookup_txt (concat ("_dmarc." ∷ domain ∷ []))) [
    | none ↦ ""
    | some records ↦ dmarc_policy records
  ]

  -- The code returns no error on any path.
  unfoldable pub verify : Option String → String → String → String → AuthResult
  unfolding split_email any_verified lookup_dmarc_policy
  verify remote_ip from ehlo_hostname raw_email =
      let domain = (split_email from).1 in
      let spf = net.spf_passes remote_ip ehlo_hostname from in
      let dkim = any_verified (net.dkim_verify raw_email) in
      let policy = lookup_dmarc_policy domain in
      if domain == ""
      then record {
        spf_pass = false;
        dkim_pass = false;
        dmarc_policy = "";
        reject = false;
        quarantine = false;
      }
      else record {
        spf_pass = spf;
        dkim_pass = dkim;
        dmarc_policy = policy;
        reject = not spf && not dkim && policy == "reject";
        quarantine = not spf && not dkim && policy == "quarantine";
      }

  -- The verdict of the check on a message, whatever the libraries and the resolver answer: it says
  -- reject exactly if the sender has a domain, SPF does not pass, no DKIM signature verifies and the
  -- domain's policy is "reject"; likewise for quarantine; so it never says both.
  verify_verdict :
      (ip : Option String) (from ehlo raw : String)
      → let r = verify ip from ehlo raw in
        ((r.reject ≡ true) ↔ (
          ((split_email from).1 ≢ "")
          × (net.spf_passes ip ehlo from ≡ false)
          × (any_verified (net.dkim_verify raw) ≡ false)
          × (lookup_dmarc_policy (split_email from).1 ≡ "reject")))
        × ((r.quarantine ≡ true) ↔ (
            ((split_email from).1 ≢ "")
            × (net.spf_passes ip ehlo from ≡ false)
            × (any_verified (net.dkim_verify raw) ≡ false)
            × (lookup_dmarc_policy (split_email from).1 ≡ "quarantine")))
        × ((r.reject && r.quarantine) ≡ false)
  unfolding verify
  verify_verdict ip from ehlo raw = ground (
    arith,
    eq_iff (split_email from).1 "",
    eq_iff (lookup_dmarc_policy (split_email from).1) "reject",
    eq_iff (lookup_dmarc_policy (split_email from).1) "quarantine",
    clash (lookup_dmarc_policy (split_email from).1) "reject" "quarantine" refl,
  )
