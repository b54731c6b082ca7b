-- ===== src/Security/Checker.antt =====
-- internal/security/checker.go: the checks on inbound and outbound mail. The scanners that a daemon
-- or a service runs are parameters: `none` stands for an error of the call.
pub mod Verdict
use bdsmail.Base.{
  Bool, List, Option, String, [], concat, false, if◌then◌else◌, is_nil, join, none, not, some, true,
  ◌&&◌, ◌==◌, ◌∷◌,
}
use bdsmail.Security.AuthVerify.{Lookups, verify}

pub record CheckResult : Type 0 where
  pub reject : Bool
  pub subject_prefix : String
  pub folder : String
  pub reason : String

pub record RspamdResult : Type 0 where
  pub score : String  -- as "%.2f" prints it
  pub reject : Bool
  pub junk : Bool

pub record SafeBrowsing : Type 0 where
  pub extract_urls : String → String → List String
  pub check_urls : List String → Option (List String)

-- each part is `none` where it is not enabled
pub record Checker : Type 0 where
  pub clamav : Option (String → Option (Option String))  -- the name of the virus, if there is one
  pub safe_browse : Option SafeBrowsing
  pub auth_verify : Option Lookups
  pub rspamd : Option (String → Option String → String → Option RspamdResult)

-- rspamd.go, on the response of the service: the score against the thresholds. The scores are
-- floats, so their order and their print are parameters.
module _ {Score : Type 0} (at_least : Score → Score → Bool) (print : Score → String) where
  unfoldable pub rspamd_result : Score → Score → Score → RspamdResult
  rspamd_result reject_threshold junk_threshold score = record {
    score = print score;
    reject = at_least score reject_threshold;
    junk = not (at_least score reject_threshold) && at_least score junk_threshold;
  }

abbrev rejected : CheckResult → String → CheckResult
rejected r reason = record r { reject = true; reason = reason }

-- Each check is a step on the result so far, or the end with a rejection.
pub data Step : Type 0 where
  stop : CheckResult → Step
  go_on : CheckResult → Step

infixl 5 ◌>>=◌
abbrev ◌>>=◌ : Step → (CheckResult → Step) → Step
stop r >>= k = stop r
go_on r >>= k = k r

abbrev final : Step → CheckResult
final (stop r) = r
final (go_on r) = r

after_scan : CheckResult → String → Option (Option String) → Step
after_scan r what none = go_on r
after_scan r what (some none) = go_on r
after_scan r what (some (some name)) = stop (rejected r (concat (what ∷ name ∷ [])))

clamav_step : Checker → String → String → CheckResult → Step
unfolding after_scan
clamav_step c what body r = elim c.clamav [
  | none ↦ go_on r
  | some scan ↦ after_scan r what (scan body)
]

auth_step : Checker → Option String → String → String → String → CheckResult → Step
auth_step c ip from ehlo raw r = elim c.auth_verify [
  | none ↦ go_on r
  | some net ↦
      let result = verify net ip from ehlo raw in
      if result.reject
      then stop (rejected r "DMARC policy reject: sender authentication failed")
      else if result.quarantine
      then go_on (record r { folder = "Junk" })
      else go_on r
]

after_rspamd : CheckResult → Option RspamdResult → Step
after_rspamd r none = go_on r
after_rspamd r (some result) =
    if result.reject
    then stop (rejected r (concat ("spam score " ∷ result.score ∷ " exceeds threshold" ∷ [])))
    else if result.junk && not (r.folder == "Junk")
    then go_on (record r { folder = "Junk" })
    else go_on r

rspamd_step : Checker → Option String → String → String → CheckResult → Step
unfolding after_rspamd
rspamd_step c ip from raw r = elim c.rspamd [
  | none ↦ go_on r
  | some scan ↦ after_rspamd r (scan raw ip from)
]

-- the dangerous links of a text, none where the check is off, finds no link or fails
unfoldable pub dangerous_links : Option SafeBrowsing → String → String → List String
dangerous_links none body content_type = []
dangerous_links (some s) body content_type =
    let urls = s.extract_urls body content_type in
    if is_nil urls then [] else elim (s.check_urls urls) [ none ↦ [] | some dangerous ↦ dangerous ]

inbound_links_step : Checker → String → String → CheckResult → Step
inbound_links_step c body content_type r =
    if is_nil (dangerous_links c.safe_browse body content_type)
    then go_on r
    else go_on (record r { subject_prefix = "[WARNING: Suspicious Links]" })

unfoldable pub check_inbound :
    Checker → String → String → String → Option String → String → String → CheckResult
unfolding clamav_step auth_step rspamd_step inbound_links_step
check_inbound c raw body content_type ip from ehlo = final (
    clamav_step c "virus detected: " raw
      (record { reject = false; subject_prefix = ""; folder = "INBOX"; reason = "" })
    >>= auth_step c ip from ehlo raw
    >>= rspamd_step c ip from raw
    >>= inbound_links_step c body content_type)

scan_attachments : Checker → List String → CheckResult → Step
unfolding clamav_step
scan_attachments c [] r = go_on r
scan_attachments c (data' ∷ rest) r =
    clamav_step c "virus detected in attachment: " data' r >>= scan_attachments c rest

outbound_links_step : Checker → String → String → CheckResult → Step
outbound_links_step c body content_type r =
    let dangerous = dangerous_links c.safe_browse body content_type in
    if is_nil dangerous
    then go_on r
    else stop
        (rejected r (concat ("message contains dangerous links: " ∷ join ", " dangerous ∷ [])))

unfoldable pub check_outbound : Checker → String → String → List String → CheckResult
unfolding clamav_step scan_attachments outbound_links_step
check_outbound c body content_type attachments = final (
    clamav_step c "virus detected: " body
      (record { reject = false; subject_prefix = ""; folder = ""; reason = "" })
    >>= scan_attachments c attachments
    >>= outbound_links_step c body content_type)
