-- ===== src/Security/TlsReport/Counts.antt =====
-- The reports of tlsrpt.go account for every result that was recorded.
use mathlib.Core.List.{append-nil, append_assoc}
use bdsmail.Base.{
  Assoc, List, String, [], arith, concat, eq_iff, if◌then◌else◌, insert, length, lookup,
  lookup-insert, ℕ, ◌++◌, ◌+◌, ◌==◌, ◌∷◌, ◌≡◌,
}
use bdsmail.Security.TlsReport.{
  Detail, TlsFailureEvent, TlsReporter, build_report, detail_or_new, events_or_new, failed, group,
  new_tls_reporter, one_more, record_failure, record_success, succeeded, values,
}

-- a result of a connection to a domain
pub data Outcome : Type 0 where
  success : String → Outcome
  failure : String → TlsFailureEvent → Outcome

pub note : TlsReporter → Outcome → TlsReporter
note t (success domain) = record_success t domain
note t (failure domain e) = record_failure t domain e

pub note_all : TlsReporter → List Outcome → TlsReporter
note_all t [] = t
note_all t (o ∷ rest) = note_all (note t o) rest

abbrev pub successes : String → List Outcome → ℕ
successes domain [] = 0
successes domain (success d ∷ rest) =
    let n = successes domain rest in if d == domain then n + 1 else n
successes domain (failure d e ∷ rest) = successes domain rest

abbrev pub failures_of : String → List Outcome → List TlsFailureEvent
failures_of domain [] = []
failures_of domain (success d ∷ rest) = failures_of domain rest
failures_of domain (failure d e ∷ rest) =
    let es = failures_of domain rest in if d == domain then e ∷ es else es

abbrev pub total : List Detail → ℕ
total [] = 0
total (d ∷ rest) = d.failed_session_count + total rest

total-values-insert :
    (key : String) (f : TlsFailureEvent) (m : Assoc Detail)
    → total (values (insert key (one_more (detail_or_new f (lookup key m))) m))
      ≡ total (values m) + 1
unfolding values insert lookup one_more detail_or_new
total-values-insert key f [] = omega arith
total-values-insert key f ((k, d) ∷ m) = ground (arith, total-values-insert key f m)

total-values-group :
    (m : Assoc Detail) (fs : List TlsFailureEvent)
    → total (values (group m fs)) ≡ total (values m) + length fs
unfolding group
total-values-group m [] = omega arith
total-values-group m (f ∷ fs) =
    let key = concat (f.result_type ∷ "|" ∷ f.receiving_mx ∷ []) in
    omega (
      arith,
      total-values-group (insert key (one_more (detail_or_new f (lookup key m))) m) fs,
      total-values-insert key f m,
    )

note-at :
    (t : TlsReporter) (o : Outcome) (domain : String)
    → events_or_new (lookup domain (note t o).events) ≡ record {
      success_count =
          (events_or_new (lookup domain t.events)).success_count + successes domain (o ∷ []);
      failure_count =
          (events_or_new (lookup domain t.events)).failure_count
          + length (failures_of domain (o ∷ []));
      failures = (events_or_new (lookup domain t.events)).failures ++ failures_of domain (o ∷ []);
    }
unfolding note record_success record_failure
note-at t (success d) domain = ground (
  arith,
  eq_iff d domain,
  append-nil (events_or_new (lookup domain t.events)).failures,
  lookup-insert d domain (succeeded (events_or_new (lookup d t.events))) t.events,
)
note-at t (failure d e) domain = ground (
  arith,
  eq_iff d domain,
  append-nil (events_or_new (lookup domain t.events)).failures,
  lookup-insert d domain (failed (events_or_new (lookup d t.events)) e) t.events,
)

note_all-at :
    (t : TlsReporter) (rs : List Outcome) (domain : String)
    → events_or_new (lookup domain (note_all t rs).events) ≡ record {
      success_count = (events_or_new (lookup domain t.events)).success_count + successes domain rs;
      failure_count =
          (events_or_new (lookup domain t.events)).failure_count + length (failures_of domain rs);
      failures = (events_or_new (lookup domain t.events)).failures ++ failures_of domain rs;
    }
unfolding note_all
note_all-at t [] domain =
    ground (arith, append-nil (events_or_new (lookup domain t.events)).failures)
note_all-at t (success d ∷ rest) domain = ground (
  arith,
  note_all-at (note t (success d)) rest domain,
  note-at t (success d) domain,
  append-nil (events_or_new (lookup domain t.events)).failures,
)
note_all-at t (failure d e ∷ rest) domain = ground (
  arith,
  note_all-at (note t (failure d e)) rest domain,
  note-at t (failure d e) domain,
  append-nil (events_or_new (lookup domain t.events)).failures,
  append_assoc (events_or_new (lookup domain t.events)).failures (e ∷ []) (failures_of domain rest),
)

-- A new reporter that has recorded the results `rs`: its report on a domain counts each success and
-- each failure of the domain once, and its details, grouped by kind and host, add up to the failures.
build_report-note_all :
    (sender : String) (interval : ℕ) (rs : List Outcome) (domain : String) (now : ℕ)
    → let t = note_all (new_tls_reporter sender interval) rs in
      let r = build_report t domain (events_or_new (lookup domain t.events)) now in
      (r.total_successful ≡ successes domain rs)
      × (r.total_failure ≡ length (failures_of domain rs))
      × (total r.details ≡ length (failures_of domain rs))
unfolding build_report new_tls_reporter lookup events_or_new
build_report-note_all sender interval rs domain now =
    let e = note_all-at (new_tls_reporter sender interval) rs domain in
    (
      rw e (omega arith),
      rw e (omega arith),
      rw e (omega (arith, total-values-group [] (failures_of domain rs))),
    )
