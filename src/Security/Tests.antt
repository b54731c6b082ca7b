-- ===== src/Security/Tests.antt =====
-- The theorems on the security checks at concrete addresses, answers and certificates.
use bdsmail.Base.{
  Bool, List, [], arith, contains, false, if◌then◌else◌, is_nil, leb, length, lookup, ltb, none,
  refl, some, suc, true, ℕ, ◌&&◌, ◌+◌, ◌==◌, ◌||◌, ◌↔◌, ◌∷◌, ◌≡◌, ◌⊎◌,
}
use bdsmail.Security.RateLimit.{RateLimiter, is_locked_out}
use bdsmail.Security.RateLimit.Lockout.{fail_at, last_time, lockout_exact, past_failures}
use bdsmail.Security.RateLimit.Isolation.{Event, failure, locked-run_bystander, query, run, tick}
use bdsmail.Security.AuthVerify.{Lookups}
use bdsmail.Security.Checker.{Checker, check_inbound, dangerous_links}
use bdsmail.Security.Checker.Verdict.{
  auth_answer, check_inbound_verdict, has_virus, says, scan_answer, spam_answer,
}
use bdsmail.Security.Dane.{
  Certificate, Hashes, Matching, TlsaResult, match_tlsa, verify_cert, verify_cert_iff,
}

abbrev limiter : RateLimiter Bool
limiter = record {
  conn_limiter = [];
  auth_fails = ("10.0.0.7", record { failures = 1; locked_at = 0 }) ∷ [];
  max_auth_fail = 3;
  lockout_dur = 900;
}

lockout_exact_example :
    (is_locked_out (fail_at limiter "10.0.0.7" (50 ∷ 60 ∷ [])) (some "10.0.0.7") 500).0 ≡ (
      leb 3 (past_failures (lookup "10.0.0.7" limiter.auth_fails) + suc (length {A = ℕ} (60 ∷ [])))
      && ltb 500 (last_time 50 (60 ∷ []) + 900))
lockout_exact_example = lockout_exact limiter "10.0.0.7" 50 (60 ∷ []) 500

abbrev history : List (ℕ × Event)
history = (10, failure (some "10.0.0.8")) ∷ (20, tick) ∷ (30, query (some "10.0.0.7")) ∷ []

locked-run_bystander_example :
    (is_locked_out (run limiter history) (some "10.0.0.7") 40).0
    ≡ (is_locked_out limiter (some "10.0.0.7") 40).0
locked-run_bystander_example =
    locked-run_bystander limiter "10.0.0.7" 40 history (tt, tt)
      ((refl, omega arith), ((refl, omega arith), ((refl, omega arith), tt)))

abbrev forged : Lookups
forged = record {
  spf_passes = λ ip ehlo from. false;
  dkim_verify = λ raw. some (false ∷ []);
  lookup_txt = λ domain. some ("v=DMARC1; p=reject" ∷ []);
}

abbrev strict : Checker
strict = record {
  clamav = some (λ bytes. some (if contains bytes "EICAR" then some "Eicar" else none));
  safe_browse =
      some (record { extract_urls = λ body content_type. body ∷ []; check_urls = λ urls. some [] });
  auth_verify = some forged;
  rspamd = none;
}

check_inbound_verdict_example :
    let r = check_inbound strict "EICAR" "hello" "text/plain" none "eve@bank.example" "mx" in
    let auth = auth_answer strict none "eve@bank.example" "mx" "EICAR" in
    let spam = spam_answer strict none "eve@bank.example" "EICAR" in
    (r.reject ≡ (
      has_virus (scan_answer strict "EICAR")
      || says (λ a. a.reject) auth
      || says (λ s. s.reject) spam))
    × (r.reject ≡ false
        → (r.folder ≡ (
            if says (λ a. a.quarantine) auth || says (λ s. s.junk) spam then "Junk" else "INBOX"))
          × (r.subject_prefix ≡ (
              if is_nil (dangerous_links strict.safe_browse "hello" "text/plain")
              then ""
              else "[WARNING: Suspicious Links]")))
check_inbound_verdict_example =
    check_inbound_verdict strict "EICAR" "hello" "text/plain" none "eve@bank.example" "mx"

-- the print in hexadecimal of the byte `Y`, and of the text that this print is
abbrev hashes : Hashes
hashes = record {
  hex = λ bytes. if bytes == "Y" then "59" else if bytes == "59" then "3539" else "";
  sha256 = λ bytes. "";
  sha512 = λ bytes. "";
}

abbrev certificate : Certificate
certificate = record { raw = "X"; raw_subject_public_key_info = "Y" }

abbrev tlsa : TlsaResult
tlsa = record {
  has_tlsa = true;
  records = record { usage = 3; selector = 1; matching_type = 0; cert_data = "59" } ∷ [];
  dnssec_valid = true;
}

-- the record's data is the print of the public key, and does not match
printed_twice : verify_cert hashes (some tlsa) (certificate ∷ []) ≡ false
unfolding verify_cert match_tlsa
printed_twice = refl

verify_cert_iff_example :
    (verify_cert hashes (some tlsa) (certificate ∷ []) ≡ true)
    ↔ ((true ≡ false) ⊎ Matching hashes tlsa.records (certificate ∷ []))
verify_cert_iff_example = verify_cert_iff hashes tlsa (certificate ∷ [])
