-- ===== src/Queue/Observer.antt =====
-- queue/consumer_observer.go and queue/errors.go: the counters of a consumer and its reports to sentry.
-- A prometheus counter vector is a function from the task label to its count; the histogram is kept as
-- the number of its observations. The sentry hub is a parameter: a context has one or not (`hub`), and
-- `captured` lists what was handed to CaptureException. Log lines, the registration of the metrics and
-- the SDK identifier are left out.
pub mod Counts
use windowframe.Prelude.{
  ℕ, suc, String, String_comparable, ◌==◌, Bool, true, false, List, [], ◌∷◌, ◌++◌, any, not, ◌&&◌,
  ◌||◌, if◌then◌else◌,
}
use windowframe.Errors.{Err, is_error, skip_retry, dead_letter}

abbrev pub Counter : Type 0
Counter = String → ℕ

-- WithLabelValues(task).Inc()
abbrev pub inc : String → Counter → Counter
inc task c u = if task == u then suc (c u) else c u

pub record SentryOpts : Type 0 where
  pub enabled : Bool
  pub skipper : List (Err → Bool)

pub record ConsumerObserver : Type 0 where
  pub jobs_processed : Counter
  pub jobs_errors : Counter
  pub jobs_processed_seconds : Counter
  pub jobs_deadlettered : Counter
  pub jobs_skipped : Counter
  pub sentry : SentryOpts
  pub captured : List Err

-- NewConsumerObserver adds the skippers of the two sentinels.
unfoldable pub new_consumer_observer : SentryOpts → ConsumerObserver
new_consumer_observer sentry = record {
  jobs_processed = λ _. 0;
  jobs_errors = λ _. 0;
  jobs_processed_seconds = λ _. 0;
  jobs_deadlettered = λ _. 0;
  jobs_skipped = λ _. 0;
  sentry = record sentry {
    skipper = (sentry.skipper ++ is_error dead_letter ∷ []) ++ is_error skip_retry ∷ [];
  };
  captured = [];
}

-- reportError
unfoldable pub report_error : Bool → Err → ConsumerObserver → ConsumerObserver
report_error hub err o =
    if not o.sentry.enabled
    then o
    else if any (λ s. s err) o.sentry.skipper
    then o
    else if hub
    then record o { captured = o.captured ++ err ∷ [] }
    else o

-- observeStart: whether the context that it returns has a hub.
unfoldable pub observe_start : Bool → ConsumerObserver → Bool
observe_start hub o = if not o.sentry.enabled then hub else true

unfoldable pub observe_success : String → ConsumerObserver → ConsumerObserver
observe_success task o = record o {
  jobs_processed = inc task o.jobs_processed;
  jobs_processed_seconds = inc task o.jobs_processed_seconds;
}

unfoldable pub observe_error : Bool → String → Err → ConsumerObserver → ConsumerObserver
unfolding report_error
observe_error hub task err o =
    let o1 = record o {
      jobs_processed = inc task o.jobs_processed;
      jobs_errors = inc task o.jobs_errors;
      jobs_processed_seconds = inc task o.jobs_processed_seconds;
      jobs_deadlettered =
          if is_error dead_letter err then inc task o.jobs_deadlettered else o.jobs_deadlettered;
      jobs_skipped = if is_error skip_retry err then inc task o.jobs_skipped else o.jobs_skipped;
    } in
    if o1.sentry.enabled then report_error hub err o1 else o1
