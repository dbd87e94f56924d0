-- ===== src/Queue/Asynq/Answers.antt =====
-- A task of asynq gets one answer, and the right one.
use windowframe.Prelude.{
  ℕ, ℤ, String_comparable, ◌≡◌, refl, ap, Bool, false, Bool-cases, inl, inr, Option, none, some,
  List, [], ◌∷◌, lookup, if◌then◌else◌,
}
use windowframe.Errors.{Err, is_error}
use windowframe.Errors
use windowframe.Queue.Options.{Job}
use windowframe.Queue.Observer.{ConsumerObserver, observe_start}
use windowframe.Queue.Consumer.{Action, HandlerFunc, Consumer, settle, dispatch, handler}
use windowframe.Queue.Consumer.Settles.{IsRetryDelay}
use windowframe.Queue.Asynq.{
  Answer, success, revoke_task, skip_retry, task_nacked, unmarshal_failed, Channel, reply,
  new_message, process_task, process_decoded, first_answer,
}

-- What the server is to be told, by the result of the task's handler function.
abbrev pub answer_of : Option Err → Answer
answer_of none = success
answer_of (some e) =
    if is_error Errors.skip_retry e
    then revoke_task
    else if is_error Errors.dead_letter e
    then skip_retry
    else task_nacked

abbrev pub task_answer : Option (HandlerFunc Channel) → List ℕ → Answer
task_answer none payload = skip_retry
task_answer (some h) payload = answer_of (h payload []).1

abbrev pub decoded_answer : Consumer Channel → Option Job → Answer
decoded_answer c none = unmarshal_failed
decoded_answer c (some job) = task_answer (lookup job.task c.handlers) job.payload

-- A handler function that sends nothing on the channel.
abbrev pub AreSilent : Consumer Channel → Type 0
AreSilent c =
    (job : Job) (h : HandlerFunc Channel)
    → lookup job.task c.handlers ≡ some h
    → (payload : List ℕ) → (h payload []).0 ≡ []

module _ (retry_delay : Action Channel → ℕ → ℤ → Action Channel)
    (retries : IsRetryDelay retry_delay) (c : Consumer Channel) (o : ConsumerObserver) where
  settle_answer :
      (job : Job) (hub : Bool) (result : Option Err)
      → (settle retry_delay c (new_message job) hub result (o, [])).0.1 ≡ answer_of result ∷ []
  unfolding settle new_message
  settle_answer job hub none =
      ap (λ r. r.0) (retries.ok (reply success) 2 c.opts.ack_backoff [] refl)
  settle_answer job hub (some e) = elim (Bool-cases (is_error Errors.skip_retry e)) [
    | inl skip ↦ rw skip refl
    | inr other ↦ elim (Bool-cases (is_error Errors.dead_letter e)) [
      | inl dead ↦ rw (other, dead) refl
      | inr plain ↦ rw (other, plain) refl
    ]
  ]

  dispatch_answer :
      (job : Job) (hub : Bool) (h : Option (HandlerFunc Channel))
      → ((f : HandlerFunc Channel) → h ≡ some f → (payload : List ℕ) → (f payload []).0 ≡ [])
      → (dispatch retry_delay c (new_message job) hub 0 h (o, [])).0.1
        ≡ task_answer h job.payload ∷ []
  unfolding dispatch new_message
  dispatch_answer job hub none silent = refl
  dispatch_answer job hub (some f) silent =
      rw (silent f refl job.payload) (settle_answer job hub (f job.payload []).1)

  handler_answer :
      (job : Job)
      → AreSilent c
      → (handler retry_delay c (new_message job) false 0 (o, [])).0.1
        ≡ task_answer (lookup job.task c.handlers) job.payload ∷ []
  unfolding handler new_message
  handler_answer job silent =
      dispatch_answer job (observe_start false o) (lookup job.task c.handlers) (silent job)

  -- Where the consumer takes the message that the task handler sends it and handles it to the end, the task handler
  -- returns the answer that its payload calls for: an
  -- error for a payload that is no job; SkipRetry for a task with no handler; otherwise by the result
  -- of the handler function: success for none, RevokeTask for ErrSkipRetry in its chain, SkipRetry
  -- for ErrDeadLetter, and a plain error for any other. Handler functions do not use the channel.
  pub process_task-answer :
      (decode : List ℕ → Option Job) (payload : List ℕ)
      → AreSilent c
      → process_task decode (λ msg ch. (handler retry_delay c msg false 0 (o, ch)).0.1) payload
        ≡ some (decoded_answer c (decode payload))
  unfolding process_task new_message
  process_task-answer decode payload silent = by_decoded (decode payload)
    where
      by_decoded :
          (d : Option Job)
          → process_decoded d (λ msg ch. (handler retry_delay c msg false 0 (o, ch)).0.1)
            ≡ some (decoded_answer c d)
      by_decoded none = refl
      by_decoded (some job) = ap first_answer (handler_answer job silent)
