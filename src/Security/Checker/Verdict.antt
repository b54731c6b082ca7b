-- ===== src/Security/Checker/Verdict.antt =====
-- When checker.go rejects a message, and where it files the others.
use bdsmail.Base.{
  Bool, List, Option, String, [], ap, arith, concat, false, if◌then◌else◌, is_nil, join, none, not,
  refl, some, sym, true, ◌||◌, ◌∙◌, ◌∷◌, ◌≡◌,
}
use bdsmail.Security.AuthVerify.{AuthResult, verify}
use bdsmail.Security.Checker.{
  CheckResult, Checker, RspamdResult, Step, after_rspamd, after_scan, auth_step, check_inbound,
  check_outbound, clamav_step, dangerous_links, final, go_on, inbound_links_step,
  outbound_links_step, rejected, rspamd_step, scan_attachments, stop, ◌>>=◌,
}

-- What each check answers, `none` where it is off or fails.
abbrev pub scan_answer : Checker → String → Option (Option String)
scan_answer c body = elim c.clamav [ none ↦ none | some scan ↦ scan body ]

abbrev pub auth_answer : Checker → Option String → String → String → String → Option AuthResult
auth_answer c ip from ehlo raw = elim c.auth_verify [
  | none ↦ none
  | some net ↦ some (verify net ip from ehlo raw)
]

abbrev pub spam_answer : Checker → Option String → String → String → Option RspamdResult
spam_answer c ip from raw = elim c.rspamd [ none ↦ none | some scan ↦ scan raw ip from ]

abbrev pub has_virus : Option (Option String) → Bool
has_virus (some (some name)) = true
has_virus (some none) = false
has_virus none = false

abbrev pub says {ℓ} : {A : Type ℓ} → (A → Bool) → Option A → Bool
says f none = false
says f (some r) = f r

after_auth : CheckResult → Option AuthResult → Step
after_auth r none = go_on r
after_auth r (some result) =
    if result.reject
    then stop (rejected r "DMARC policy reject: sender authentication failed")
    else if result.quarantine
    then go_on (record r { folder = "Junk" })
    else go_on r

clamav_step-answer :
    (c : Checker) (what body : String) (r : CheckResult)
    → clamav_step c what body r ≡ after_scan r what (scan_answer c body)
unfolding clamav_step
clamav_step-answer c what body r = go c.clamav
  where
    go :
        (o : Option (String → Option (Option String)))
        → (elim o as (λ _. Step) [ none ↦ go_on r | some scan ↦ after_scan r what (scan body) ])
          ≡ after_scan r what (elim o [ none ↦ none | some scan ↦ scan body ])
    go none = refl
    go (some scan) = refl

auth_step-answer :
    (c : Checker) (ip : Option String) (from ehlo raw : String) (r : CheckResult)
    → auth_step c ip from ehlo raw r ≡ after_auth r (auth_answer c ip from ehlo raw)
unfolding auth_step after_auth
auth_step-answer c ip from ehlo raw r = ground arith

rspamd_step-answer :
    (c : Checker) (ip : Option String) (from raw : String) (r : CheckResult)
    → rspamd_step c ip from raw r ≡ after_rspamd r (spam_answer c ip from raw)
unfolding rspamd_step
rspamd_step-answer c ip from raw r = ground arith

abbrev initial : CheckResult
initial = record { reject = false; subject_prefix = ""; folder = "INBOX"; reason = "" }

-- the verdict on inbound mail from the answers
of_answers :
    Option (Option String) → Option AuthResult → Option RspamdResult → List String → CheckResult
unfolding after_scan after_auth after_rspamd
of_answers virus auth spam links = final (
    after_scan initial "virus detected: " virus
    >>= (λ r. after_auth r auth)
    >>= (λ r. after_rspamd r spam)
    >>= (λ r.
        if is_nil links
        then go_on r
        else go_on (record r { subject_prefix = "[WARNING: Suspicious Links]" })))

check_inbound-of_answers :
    (c : Checker) (raw body content_type : String) (ip : Option String) (from ehlo : String)
    → check_inbound c raw body content_type ip from ehlo
      ≡ of_answers
          (scan_answer c raw)
          (auth_answer c ip from ehlo raw)
          (spam_answer c ip from raw)
          (dangerous_links c.safe_browse body content_type)
unfolding check_inbound of_answers inbound_links_step
check_inbound-of_answers c raw body content_type ip from ehlo = λ i. final (
    clamav_step-answer c "virus detected: " raw initial i
    >>= (λ r. auth_step-answer c ip from ehlo raw r i)
    >>= (λ r. rspamd_step-answer c ip from raw r i)
    >>= inbound_links_step c body content_type)

of_answers_verdict :
    (virus : Option (Option String)) (auth : Option AuthResult) (spam : Option RspamdResult)
    (links : List String)
    → let r = of_answers virus auth spam links in
      (r.reject ≡ (has_virus virus || says (λ a. a.reject) auth || says (λ s. s.reject) spam))
      × (r.reject ≡ false
          → (r.folder ≡ (
              if says (λ a. a.quarantine) auth || says (λ s. s.junk) spam then "Junk" else "INBOX"))
            × (r.subject_prefix ≡ (if is_nil links then "" else "[WARNING: Suspicious Links]")))
unfolding of_answers
of_answers_verdict virus auth spam links = ground arith

-- Inbound mail is rejected exactly if the virus scan names a virus, or the DMARC check rejects the
-- sender, or the spam score does, where a check that is off or fails says nothing. Mail that is
-- not rejected goes to Junk exactly if DMARC asks for quarantine or the spam score for junk, and
-- else to INBOX, and its subject is marked exactly if a dangerous link was found.
pub check_inbound_verdict :
    (c : Checker) (raw body content_type : String) (ip : Option String) (from ehlo : String)
    → let r = check_inbound c raw body content_type ip from ehlo in
      let auth = auth_answer c ip from ehlo raw in
      let spam = spam_answer c ip from raw in
      (r.reject
        ≡ (has_virus (scan_answer c raw) || says (λ a. a.reject) auth || says (λ s. s.reject) spam))
      × (r.reject ≡ false
          → (r.folder ≡ (
              if says (λ a. a.quarantine) auth || says (λ s. s.junk) spam then "Junk" else "INBOX"))
            × (r.subject_prefix ≡ (
                if is_nil (dangerous_links c.safe_browse body content_type)
                then ""
                else "[WARNING: Suspicious Links]")))
check_inbound_verdict c raw body content_type ip from ehlo =
    rw check_inbound-of_answers (of_answers_verdict _ _ _ _)

abbrev pub any_virus : Checker → List String → Bool
any_virus c [] = false
any_virus c (a ∷ rest) = has_virus (scan_answer c a) || any_virus c rest

-- A step that goes on leaves the result as it was.
abbrev Passes : CheckResult → Bool → Step → Type 0
Passes r bad (stop r') = (bad ≡ true) × (r'.reject ≡ true)
Passes r bad (go_on r') = (bad ≡ false) × (r' ≡ r)

after_scan-Passes :
    (r : CheckResult) (what : String) (o : Option (Option String))
    → Passes r (has_virus o) (after_scan r what o)
unfolding after_scan
after_scan-Passes r what none = (refl, refl)
after_scan-Passes r what (some none) = (refl, refl)
after_scan-Passes r what (some (some name)) = (refl, refl)

Passes-bind :
    (r : CheckResult) (a b : Bool) (m : Step) (k : CheckResult → Step)
    → Passes r a m
    → Passes r b (k r)
    → Passes r (a || b) (m >>= k)
Passes-bind r a b (stop r') k (p, q) h = rw p (refl, q)
Passes-bind r a b (go_on r') k (p, q) h = rw (p, q) h

scan_attachments-Passes :
    (c : Checker) (attachments : List String) (r : CheckResult)
    → Passes r (any_virus c attachments) (scan_attachments c attachments r)
unfolding scan_attachments
scan_attachments-Passes c [] r = (refl, refl)
scan_attachments-Passes c (a ∷ rest) r =
    Passes-bind r _ _ (clamav_step c "virus detected in attachment: " a r) (scan_attachments c rest)
      (rw clamav_step-answer (after_scan-Passes r _ (scan_answer c a)))
      (scan_attachments-Passes c rest r)

links-Passes :
    (c : Checker) (body content_type : String) (r : CheckResult)
    → Passes r
        (not (is_nil (dangerous_links c.safe_browse body content_type)))
        (outbound_links_step c body content_type r)
unfolding outbound_links_step
links-Passes c body content_type r = go (dangerous_links c.safe_browse body content_type)
  where
    go :
        (links : List String)
        → Passes r (not (is_nil links)) (
            if is_nil links
            then go_on r
            else stop
                (rejected r (concat ("message contains dangerous links: " ∷ join ", " links ∷ []))))
    go [] = (refl, refl)
    go (l ∷ links) = (refl, refl)

final-Passes :
    (r : CheckResult) (bad : Bool) (m : Step)
    → r.reject ≡ false
    → Passes r bad m
    → (final m).reject ≡ bad
final-Passes r bad (stop r') e (p, q) = q ∙ sym p
final-Passes r bad (go_on r') e (p, q) = ap (λ (s : CheckResult). s.reject) q ∙ e ∙ sym p

-- Outbound mail is rejected exactly if the virus scan names a virus in its body or in one of its
-- attachments, or the link check finds a dangerous link; checks that are off or fail reject nothing.
pub check_outbound_verdict :
    (c : Checker) (body content_type : String) (attachments : List String)
    → (check_outbound c body content_type attachments).reject ≡ (
        (has_virus (scan_answer c body) || any_virus c attachments)
        || not (is_nil (dangerous_links c.safe_browse body content_type)))
unfolding check_outbound
check_outbound_verdict c body content_type attachments =
    final-Passes blank _ (scans >>= outbound_links_step c body content_type) refl (
      Passes-bind blank (has_virus (scan_answer c body) || any_virus c attachments) _ scans
        (outbound_links_step c body content_type)
        (Passes-bind blank (has_virus (scan_answer c body)) _ scan (scan_attachments c attachments)
          (rw clamav_step-answer (after_scan-Passes blank _ (scan_answer c body)))
          (scan_attachments-Passes c attachments blank))
        (links-Passes c body content_type blank))
  where
    blank : CheckResult
    blank = record { reject = false; subject_prefix = ""; folder = ""; reason = "" }

    scan : Step
    scan = clamav_step c "virus detected: " body blank

    scans : Step
    scans = scan >>= scan_attachments c attachments
