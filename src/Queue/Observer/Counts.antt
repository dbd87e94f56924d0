-- ===== src/Queue/Observer/Counts.antt =====
-- The counters stay consistent, and what the consumer settles by a sentinel is never reported.
use windowframe.Prelude.{
  ◌≤◌, String, ◌≡◌, refl, ap, Bool, true, List, [], ◌∷◌, ◌++◌, any, ◌||◌, arith,
}
use windowframe.Errors.{Err, is_error, skip_retry, dead_letter}
use windowframe.Queue.Observer.{
  SentryOpts, ConsumerObserver, new_consumer_observer, observe_success, observe_error,
}

-- For every task: each processed job was timed, a failed job counts as processed, and one that counts as dead-lettered or
-- as skipped has failed. A failure counts as both if its error has both sentinels.
pub record IsConsistent (o : ConsumerObserver) : Type 0 where
  pub timed : (t : String) → o.jobs_processed_seconds t ≡ o.jobs_processed t
  pub failed : (t : String) → o.jobs_errors t ≤ o.jobs_processed t
  pub deadlettered : (t : String) → o.jobs_deadlettered t ≤ o.jobs_errors t
  pub skipped : (t : String) → o.jobs_skipped t ≤ o.jobs_errors t

pub new-IsConsistent : (s : SentryOpts) → IsConsistent (new_consumer_observer s)
unfolding new_consumer_observer
new-IsConsistent s = record {
  timed = λ t. refl;
  failed = λ t. omega arith;
  deadlettered = λ t. omega arith;
  skipped = λ t. omega arith;
}

pub observe_success-IsConsistent :
    (task : String) (o : ConsumerObserver) → IsConsistent o → IsConsistent (observe_success task o)
unfolding observe_success
observe_success-IsConsistent task o h = record {
  timed = λ t. ground (arith, h.timed t);
  failed = λ t. ground (arith, h.failed t);
  deadlettered = λ t. ground (arith, h.deadlettered t);
  skipped = λ t. ground (arith, h.skipped t);
}

pub observe_error-IsConsistent :
    (hub : Bool) (task : String) (e : Err) (o : ConsumerObserver)
    → IsConsistent o
    → IsConsistent (observe_error hub task e o)
unfolding observe_error
observe_error-IsConsistent hub task e o h = record {
  timed = λ t. ground (arith, h.timed t);
  failed = λ t. ground (arith, h.failed t);
  deadlettered = λ t. ground (arith, h.deadlettered t);
  skipped = λ t. ground (arith, h.skipped t);
}

any-append {ℓ} :
    {A : Type ℓ} (p : A → Bool) (xs ys : List A) → any p (xs ++ ys) ≡ (any p xs || any p ys)
any-append p [] ys = refl
any-append p (x ∷ xs) ys = ground (arith, any-append p xs ys)

-- An observer as NewConsumerObserver makes it, whatever it has counted and captured since.
abbrev pub HasSkippers : ConsumerObserver → Type 0
HasSkippers o =
    (l : List (Err → Bool)) × (o.sentry.skipper
      ≡ (l ++ is_error dead_letter ∷ []) ++ is_error skip_retry ∷ [])

settled_error_skipped :
    (l : List (Err → Bool)) (e : Err)
    → (is_error dead_letter e || is_error skip_retry e) ≡ true
    → any (λ s. s e) ((l ++ is_error dead_letter ∷ []) ++ is_error skip_retry ∷ []) ≡ true
settled_error_skipped l e h = ground (
  arith,
  any-append (λ s. s e) (l ++ is_error dead_letter ∷ []) (is_error skip_retry ∷ []),
  any-append (λ s. s e) l (is_error dead_letter ∷ []),
)

-- An error whose chain holds ErrDeadLetter or ErrSkipRetry is never handed to sentry, whatever the
-- other skippers, the switch and the hub.
pub captured-observe_error :
    (hub : Bool) (task : String) (e : Err) (o : ConsumerObserver)
    → HasSkippers o
    → (is_error dead_letter e || is_error skip_retry e) ≡ true
    → (observe_error hub task e o).captured ≡ o.captured
unfolding observe_error
captured-observe_error hub task e o (l, s) h =
    ground (arith, settled_error_skipped l e h, ap (any (λ f. f e)) s)
