-- ===== src/Proxy/Accounting/Final.antt =====
-- What an event says in the end, of src/proxy/completion.rs and src/proxy/accounting.rs.
use my_ai_gateway.Prelude.{
  ℕ, suc, Bool, true, false, ◌≡◌, refl, ap, Option, none, some, is_some, String, List, [], ◌∷◌,
  length, if-elim, Bool-cases, inl, inr, arith,
}
use my_ai_gateway.Proxy.Json.{pos}
use my_ai_gateway.Proxy.Transport.{
  StreamTermination, completed, empty_stream, upstream_error, transport_error, incomplete_stream,
  buffer_limit_exceeded, client_cancelled, connection_timeout, first_event_timeout, idle_timeout,
  total_timeout, is_failure, termination_status_code,
}
use my_ai_gateway.Proxy.Attempt.{UsageAttempt}
use my_ai_gateway.Proxy.Usage.Report.{
  UsageReport, missing, StreamObservation, observed_usage, usage_for_stream_observation,
}
use my_ai_gateway.Proxy.Completion.{UsageEvent}
use my_ai_gateway.Proxy.Accounting.{
  final_termination, update_last, failed_attempt, note_failure, take_report, observed,
  finalize_stream_usage, stream_summary,
}

-- An event of a failure has a summary of the error.
abbrev pub Explained : UsageEvent → Type 0
Explained e = e.success ≡ false → is_some e.error_summary ≡ true

-- An event without confirmed usage: all counters are zero, and the source says so.
pub record IsMissing (e : UsageEvent) : Type 0 where
  pub input : e.input_tokens ≡ pos 0
  pub output : e.output_tokens ≡ pos 0
  pub reasoning : e.reasoning_tokens ≡ pos 0
  pub cached : e.cached_tokens ≡ pos 0
  pub cache_read : e.cache_read_tokens ≡ pos 0
  pub cache_creation : e.cache_creation_tokens ≡ pos 0
  pub total : e.total_tokens ≡ pos 0
  pub source : e.usage_source ≡ "missing"

abbrev pub last : List UsageAttempt → Option UsageAttempt
last [] = none
last (a ∷ []) = some a
last (a ∷ (b ∷ rest)) = last (b ∷ rest)

-- What holds of the event and of the attempts of a stream that has ended.
pub record IsSettled (o : StreamObservation) (attempts : List UsageAttempt)
    (r : UsageEvent × List UsageAttempt) : Type 0 where
  pub explained : Explained r.0
  pub not_invented : r.0.success ≡ false → o.parsed_usage ≡ none → IsMissing r.0
  pub succeeds_completed : r.0.success ≡ true → (o.failed ≡ false) × (o.termination ≡ completed)
  pub last_agrees :
      (a : UsageAttempt)
      → is_failure (final_termination o) ≡ true
      → last r.1 ≡ some a
      → (a.success ≡ false) × (a.status_code ≡ r.0.status_code)
  pub same_number : length r.1 ≡ length attempts

length-update_last :
    (f : UsageAttempt → UsageAttempt) (attempts : List UsageAttempt)
    → length (update_last f attempts) ≡ length attempts
unfolding update_last
length-update_last f [] = refl
length-update_last f (a ∷ []) = refl
length-update_last f (a ∷ (b ∷ rest)) = ap suc (length-update_last f (b ∷ rest))

last-update_last :
    (status : ℕ) (attempts : List UsageAttempt) (a : UsageAttempt)
    → last (update_last (failed_attempt status) attempts) ≡ some a
    → (a.success ≡ false) × (a.status_code ≡ status)
unfolding update_last
last-update_last status [] a e = absurd (cc)
last-update_last status (x ∷ []) a e = (ground (arith, e), ground (arith, e))
last-update_last status (x ∷ (y ∷ [])) a e = last-update_last status (y ∷ []) a e
last-update_last status (x ∷ (y ∷ (z ∷ rest))) a e = last-update_last status (y ∷ (z ∷ rest)) a e

not_failure : (t : StreamTermination) → is_failure t ≡ false → t ≡ completed
unfolding is_failure
not_failure completed h = refl
not_failure empty_stream h = absurd (cc)
not_failure upstream_error h = absurd (cc)
not_failure transport_error h = absurd (cc)
not_failure incomplete_stream h = absurd (cc)
not_failure buffer_limit_exceeded h = absurd (cc)
not_failure client_cancelled h = absurd (cc)
not_failure connection_timeout h = absurd (cc)
not_failure first_event_timeout h = absurd (cc)
not_failure idle_timeout h = absurd (cc)
not_failure total_timeout h = absurd (cc)

final_termination-completed :
    (o : StreamObservation)
    → is_failure (final_termination o) ≡ false
    → (o.failed ≡ false) × (o.termination ≡ completed)
unfolding final_termination is_failure
final_termination-completed o h = elim (Bool-cases o.failed) [
  | inl failed ↦ elim (Bool-cases (is_failure o.termination)) [
    | inl bad ↦ absurd (ground (arith, h, failed, bad))
    | inr good ↦ absurd (ground (arith, h, failed, good))
  ]
  | inr fine ↦ (fine, not_failure o.termination (rw fine at h))
]

-- Without parsed usage, an event that failed takes the missing report.
not_observed :
    (tokens : String → ℕ) (success : Bool) (request : String) (o : StreamObservation)
    → success ≡ false
    → o.parsed_usage ≡ none
    → Path UsageReport (usage_for_stream_observation tokens success request o) missing
unfolding usage_for_stream_observation observed_usage
not_observed tokens success request o failed none_parsed = rw (failed, none_parsed) refl

module _ (tokens : String → ℕ) (request : String) (o : StreamObservation) where
  settle :
      (e : UsageEvent) (attempts kept : List UsageAttempt)
      → Explained e
      → (e.success ≡ true → (o.failed ≡ false) × (o.termination ≡ completed))
      → ((a : UsageAttempt)
          → is_failure (final_termination o) ≡ true
          → last kept ≡ some a
          → (a.success ≡ false) × (a.status_code ≡ e.status_code))
      → length kept ≡ length attempts
      → IsSettled o attempts
          (take_report (usage_for_stream_observation tokens e.success request o) e, kept)
  unfolding take_report
  settle e attempts kept explained done agrees same = record {
    explained = explained;
    not_invented = λ failed none_parsed.
        rw (not_observed tokens e.success request o failed none_parsed) (record {
          input = refl;
          output = refl;
          reasoning = refl;
          cached = refl;
          cache_read = refl;
          cache_creation = refl;
          total = refl;
          source = refl;
        });
    succeeds_completed = done;
    last_agrees = agrees;
    same_number = same;
  }

  abbrev Settles : List UsageAttempt → UsageEvent × List UsageAttempt → Type 0
  Settles attempts r =
      IsSettled o attempts
        (take_report (usage_for_stream_observation tokens r.0.success request o) r.0, r.1)

  note-Settles :
      (e : UsageEvent) (attempts : List UsageAttempt)
      → Explained e
      → Settles attempts (note_failure (final_termination o) (e, attempts))
  unfolding note_failure
  note-Settles e attempts explained =
      let status : ℕ = termination_status_code (final_termination o) in
      if-elim (Settles attempts) (is_failure (final_termination o))
        (λ bad.
          settle
            (record e {
              status_code = status;
              success = false;
              error_summary = some (stream_summary (final_termination o));
            })
            attempts (update_last (failed_attempt status) attempts) (λ _. refl) (λ h. absurd (cc))
            (λ a h found. last-update_last status attempts a found)
            (length-update_last (failed_attempt status) attempts))
        (λ good.
          settle e attempts attempts explained (λ _. final_termination-completed o good)
            (λ a h found. absurd (cc)) refl)

  -- What the event of a stream says in the end, if it was explained before. A failed event has a summary of
  -- the error, and without usage that the upstream reported its counters are zero and their source is
  -- missing. An event of success is one of a stream that completed and did not fail. If the stream failed,
  -- the last attempt has failed with the event's status. The number of the attempts is the same.
  pub finalize_stream_usage-IsSettled :
      (e : UsageEvent) (attempts : List UsageAttempt)
      → Explained e
      → IsSettled o attempts (finalize_stream_usage tokens e attempts request o)
  unfolding finalize_stream_usage observed
  finalize_stream_usage-IsSettled e attempts explained =
      note-Settles (observed o e) attempts explained
