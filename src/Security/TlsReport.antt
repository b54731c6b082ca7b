-- ===== src/Security/TlsReport.antt =====
-- internal/security/tlsrpt.go: the counts of TLS results and the reports on them. Go's order of
-- iteration over a map is not specified; the model takes that of first insertion. A report's dates
-- stay numbers of seconds, and its JSON text is not modelled.
pub mod Counts
use bdsmail.Base.{
  Assoc, Bool, List, Option, String, [], concat, false, if◌then◌else◌, insert, lookup, none, not,
  show_nat, some, split, starts_with, trim_prefix, trim_space, true, ℕ, ◌&&◌, ◌++◌, ◌+◌, ◌-◌, ◌==◌,
  ◌∷◌,
}

pub record TlsFailureEvent : Type 0 where
  pub result_type : String
  pub receiving_mx : String
  pub failure_reason : String
  pub timestamp : ℕ

pub record DomainTlsEvents : Type 0 where
  pub success_count : ℕ
  pub failure_count : ℕ
  pub failures : List TlsFailureEvent

pub record TlsReporter : Type 0 where
  pub events : Assoc DomainTlsEvents
  pub interval : ℕ
  pub sender_domain : String
  pub has_send_func : Bool

unfoldable pub new_tls_reporter : String → ℕ → TlsReporter
new_tls_reporter sender_domain interval = record {
  events = [];
  interval = interval;
  sender_domain = sender_domain;
  has_send_func = false;
}

unfoldable pub set_send_func : TlsReporter → TlsReporter
set_send_func t = record t { has_send_func = true }

unfoldable pub events_or_new : Option DomainTlsEvents → DomainTlsEvents
events_or_new none = record { success_count = 0; failure_count = 0; failures = [] }
events_or_new (some ev) = ev

succeeded : DomainTlsEvents → DomainTlsEvents
succeeded ev = record ev { success_count = ev.success_count + 1 }

failed : DomainTlsEvents → TlsFailureEvent → DomainTlsEvents
failed ev e = record ev { failure_count = ev.failure_count + 1; failures = ev.failures ++ e ∷ [] }

unfoldable pub record_success : TlsReporter → String → TlsReporter
unfolding events_or_new succeeded
record_success t domain = record t {
  events = insert domain (succeeded (events_or_new (lookup domain t.events))) t.events;
}

unfoldable pub record_failure : TlsReporter → String → TlsFailureEvent → TlsReporter
unfolding events_or_new failed
record_failure t domain event = record t {
  events = insert domain (failed (events_or_new (lookup domain t.events)) event) t.events;
}

pub record Detail : Type 0 where
  pub result_type : String
  pub receiving_mx_hostname : String
  pub failed_session_count : ℕ
  pub additional_info : String

pub record Report : Type 0 where
  pub organization_name : String
  pub start_datetime : ℕ
  pub end_datetime : ℕ
  pub contact_info : String
  pub report_id : String
  pub policy_type : String
  pub policy_domain : String
  pub total_successful : ℕ
  pub total_failure : ℕ
  pub details : List Detail

detail_or_new : TlsFailureEvent → Option Detail → Detail
detail_or_new f none = record {
  result_type = f.result_type;
  receiving_mx_hostname = f.receiving_mx;
  failed_session_count = 0;
  additional_info = f.failure_reason;
}
detail_or_new f (some d) = d

one_more : Detail → Detail
one_more d = record d { failed_session_count = d.failed_session_count + 1 }

-- the grouping of failures by result type and MX
group : Assoc Detail → List TlsFailureEvent → Assoc Detail
unfolding detail_or_new one_more
group by_type [] = by_type
group by_type (f ∷ rest) =
    let key = concat (f.result_type ∷ "|" ∷ f.receiving_mx ∷ []) in
    group (insert key (one_more (detail_or_new f (lookup key by_type))) by_type) rest

values : Assoc Detail → List Detail
values [] = []
values ((key, d) ∷ rest) = d ∷ values rest

unfoldable pub build_report : TlsReporter → String → DomainTlsEvents → ℕ → Report
unfolding group values
build_report t domain ev now = record {
  organization_name = t.sender_domain;
  start_datetime = now - t.interval;
  end_datetime = now;
  contact_info = concat ("tlsrpt@" ∷ t.sender_domain ∷ []);
  report_id = concat (t.sender_domain ∷ "-" ∷ domain ∷ "-" ∷ show_nat now ∷ []);
  policy_type = "sts";
  policy_domain = domain;
  total_successful = ev.success_count;
  total_failure = ev.failure_count;
  details = values (group [] ev.failures);
}

rua_part : List String → Option String
rua_part [] = none
rua_part (part ∷ parts) =
    let p = trim_space part in
    if starts_with p "rua="
    then some (trim_prefix (trim_prefix p "rua=") "mailto:")
    else rua_part parts

tlsrpt_address : List String → String
unfolding rua_part
tlsrpt_address [] = ""
tlsrpt_address (txt ∷ records) =
    let rest = tlsrpt_address records in
    if not (starts_with txt "v=TLSRPTv1;") && not (starts_with txt "v=TLSRPTv1 ")
    then rest
    else elim (rua_part (split b';' txt)) [ none ↦ rest | some addr ↦ addr ]

unfoldable pub lookup_tlsrpt : (String → Option (List String)) → String → String
unfolding tlsrpt_address
lookup_tlsrpt lookup_txt domain = elim (lookup_txt (concat ("_smtp._tls." ∷ domain ∷ []))) [
  | none ↦ ""
  | some records ↦ tlsrpt_address records
]

-- what `sendFunc` is called with
pub record ReportMail : Type 0 where
  pub from : String
  pub to : List String
  pub subject : String
  pub content_type : String
  pub report : Report

reports_for :
    TlsReporter → (String → Option (List String)) → ℕ → Assoc DomainTlsEvents → List ReportMail
unfolding lookup_tlsrpt build_report
reports_for t lookup_txt now [] = []
reports_for t lookup_txt now ((domain, ev) ∷ rest) =
    let mails = reports_for t lookup_txt now rest in
    let address = lookup_tlsrpt lookup_txt domain in
    if address == ""
    then mails
    else record {
      from = concat ("tlsrpt@" ∷ t.sender_domain ∷ []);
      to = address ∷ [];
      subject = concat ("Report Domain: " ∷ domain ∷ " Submitter: " ∷ t.sender_domain ∷ []);
      content_type = "application/tlsrpt+json";
      report = build_report t domain ev now;
    }
      ∷ mails

-- The events are cleared whether or not a report is sent.
unfoldable pub generate_and_send_reports :
    TlsReporter → (String → Option (List String)) → ℕ → TlsReporter × List ReportMail
unfolding reports_for
generate_and_send_reports t lookup_txt now = (
  record t { events = [] },
  if not t.has_send_func then [] else reports_for t lookup_txt now t.events,
)
