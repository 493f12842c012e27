-- ===== src/Proxy/Accounting/Start.antt =====
-- What the event of a request says first, of src/proxy/completion.rs.
use my_ai_gateway.Prelude.{
  ℕ, suc, ◌≤◌, ◌<◌, ◌∙◌, sym, Bool, true, false, not, ◌≡◌, refl, Option, none, some, is_some,
  String, List, length, or_else, if◌then◌else◌, arith,
}
use my_ai_gateway.Proxy.Policy.{is_success}
use my_ai_gateway.Proxy.Attempt.{UsageAttempt}
use my_ai_gateway.Proxy.Completion.{RequestCompletion, Answer, FinalUpstream, UsageEvent, event}
use my_ai_gateway.Proxy.Transport.{completed, is_failure}
use my_ai_gateway.Proxy.Usage.Report.{UsageReport, StreamObservation}
use my_ai_gateway.Proxy.Accounting.{
  finalize_stream_usage, observed, final_termination, note_failure, take_report,
}
use my_ai_gateway.Proxy.Accounting.Final.{Explained, IsMissing, finalize_stream_usage-IsSettled}

-- The counters and the source of the event are those of the report.
pub record Carries (u : UsageReport) (e : UsageEvent) : Type 0 where
  pub input : e.input_tokens ≡ u.input_tokens
  pub output : e.output_tokens ≡ u.output_tokens
  pub reasoning : e.reasoning_tokens ≡ u.reasoning_tokens
  pub cached : e.cached_tokens ≡ u.cached_tokens
  pub cache_read : e.cache_read_tokens ≡ u.cache_read_tokens
  pub cache_creation : e.cache_creation_tokens ≡ u.cache_creation_tokens
  pub total : e.total_tokens ≡ u.total_tokens
  pub source : e.usage_source ≡ u.source

-- The stream has completed and did not fail.
abbrev pub HasCompleted : StreamObservation → Type 0
HasCompleted o = (o.failed ≡ false) × (o.termination ≡ completed)

-- What an event says of its answer, of its attempts and of the error that is given, and what it says when
-- a stream has ended.
pub record IsRecorded (answer : Answer) (attempts : List UsageAttempt) (given : Option String)
    (e : UsageEvent) : Type 0 where
  pub succeeds : (200 ≤ answer.status) → answer.status < 300 → e.success ≡ true
  pub succeeds_only : e.success ≡ true → (200 ≤ answer.status) × (answer.status < 300)
  pub explained : Explained e
  pub keeps_given : (error : String) → given ≡ some error → e.error_summary ≡ some error
  pub no_error : e.success ≡ true → given ≡ none → e.error_summary ≡ none
  pub unreported : answer.usage ≡ none → IsMissing e
  pub reported : (u : UsageReport) → answer.usage ≡ some u → Carries u e
  pub retries : (n : ℕ) → length attempts ≡ suc n → e.retry_count ≡ n
  pub ends_well :
      (tokens : String → ℕ) (request : String) (o : StreamObservation)
      → (200 ≤ answer.status)
      → answer.status < 300
      → HasCompleted o
      → (finalize_stream_usage tokens e attempts request o).0.success ≡ true
  pub ends_well_only :
      (tokens : String → ℕ) (request : String) (o : StreamObservation)
      → (finalize_stream_usage tokens e attempts request o).0.success ≡ true
      → (200 ≤ answer.status) × (answer.status < 300) × HasCompleted o

summary :
    (given : Option String) (bad : Bool) (text : String)
    → bad ≡ true
    → is_some (or_else given (if bad then some text else none)) ≡ true
summary none bad text h = rw h refl
summary (some s) bad text h = refl

no_summary :
    (given : Option String) (bad : Bool) (text : String)
    → bad ≡ false
    → given ≡ none
    → or_else given (if bad then some text else none) ≡ none
no_summary given bad text h g = rw (h, g) refl

keeps :
    (given rest : Option String) (error : String)
    → given ≡ some error
    → or_else given rest ≡ some error
keeps given rest error g = rw g refl

success-range : (status : ℕ) → is_success status ≡ true → (200 ≤ status) × (status < 300)
success-range status h = ground (arith, h)

range-success : (status : ℕ) → (200 ≤ status) → status < 300 → is_success status ≡ true
range-success status low high = ground (arith, low, high)

-- The event of a stream that completed keeps its success.
completed-keeps :
    (tokens : String → ℕ) (request : String) (o : StreamObservation) (e : UsageEvent)
    (attempts : List UsageAttempt)
    → HasCompleted o
    → (finalize_stream_usage tokens e attempts request o).0.success ≡ e.success
unfolding finalize_stream_usage observed final_termination is_failure note_failure take_report
completed-keeps tokens request o e attempts (fine, done) = rw (fine, done) refl

-- An event that is one of success in the end was one before.
success-before :
    (tokens : String → ℕ) (request : String) (o : StreamObservation) (e : UsageEvent)
    (attempts : List UsageAttempt)
    → HasCompleted o
    → (finalize_stream_usage tokens e attempts request o).0.success ≡ true
    → e.success ≡ true
success-before tokens request o e attempts done h =
    sym (completed-keeps tokens request o e attempts done) ∙ h

-- An event is one of success exactly if the status of its answer is of the class 2xx. A given summary of an
-- error is kept; without one, an event of success has no summary, and any other event has one. If the
-- answer carries usage, the counters and the source are those of the usage, else all counters are zero and
-- the source is missing. The retries are one fewer than the attempts. When a stream has ended, the event is
-- one of success exactly if the status of the answer is of the class 2xx and the stream has completed
-- without a failure.
pub event-IsRecorded :
    (c : RequestCompletion) (now : ℕ) (answer : Answer) (upstream : FinalUpstream)
    (attempts : List UsageAttempt) (fallback_reason error_summary effort : Option String)
    → IsRecorded answer attempts error_summary
        (event c now answer upstream attempts fallback_reason error_summary effort)
unfolding event
event-IsRecorded c now answer upstream attempts fallback_reason error_summary effort =
    let e : UsageEvent =
      event c now answer upstream attempts fallback_reason error_summary effort in
    let explained : Explained e =
      λ failed. summary error_summary (not (is_success answer.status)) _ (ground (arith, failed)) in
    record {
      succeeds = range-success answer.status;
      succeeds_only = success-range answer.status;
      explained = explained;
      keeps_given = λ error g. keeps error_summary _ error g;
      no_error = λ fine g.
          no_summary error_summary (not (is_success answer.status)) _ (ground (arith, fine)) g;
      unreported = λ nothing. record {
        input = rw nothing refl;
        output = rw nothing refl;
        reasoning = rw nothing refl;
        cached = rw nothing refl;
        cache_read = rw nothing refl;
        cache_creation = rw nothing refl;
        total = rw nothing refl;
        source = rw nothing refl;
      };
      reported = λ u told. record {
        input = rw told refl;
        output = rw told refl;
        reasoning = rw told refl;
        cached = rw told refl;
        cache_read = rw told refl;
        cache_creation = rw told refl;
        total = rw told refl;
        source = rw told refl;
      };
      retries = λ n q. omega (arith, q);
      ends_well = λ tokens request o low high done.
          completed-keeps tokens request o e attempts done ∙ range-success answer.status low high;
      ends_well_only = λ tokens request o h.
          let settled = finalize_stream_usage-IsSettled tokens request o e attempts explained in
          let done : HasCompleted o = settled.succeeds_completed h in
          let before = success-before tokens request o e attempts done h in
          let range = success-range answer.status before in (range.0, range.1, done);
    }
