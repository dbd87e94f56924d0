-- ===== src/Queue/Consumer/Settles.antt =====
-- Every message that the handler of queue/consumer.go takes is settled with the driver in one way.
use windowframe.Prelude.{
  String_comparable, ℕ, zero, suc, ℤ, ◌<◌, ◌≤◌, ◌≡◌, refl, ap, ◌∙◌, Bool, Bool-cases, inl, inr,
  Option, none, some, Option-cases, List, [], ◌∷◌, ◌++◌, replicate, lookup, if◌then◌else◌, arith,
}
use windowframe.Errors.{Err, is_error, skip_retry, dead_letter}
use windowframe.Queue.Options.{Job}
use windowframe.Queue.Observer.{ConsumerObserver, observe_start}
use windowframe.Queue.Consumer.{
  Action, Message, HandlerFunc, Consumer, heartbeat, heartbeat_if, dispatch, settle, handler,
}

-- What flow.RetryDelay is documented to do with a function that may fail: call it until it returns no
-- error, as often as the count says at most, and return what the last call returned.
pub record IsRetryDelay {S : Type 0} (retry : Action S → ℕ → ℤ → Action S) : Type 0 where
  pub ok : (f : Action S) (n : ℕ) (d : ℤ) (s : S) → (f s).1 ≡ none → retry f (suc n) d s ≡ f s
  pub again :
      (f : Action S) (n : ℕ) (d : ℤ) (s : S) (e : Err)
      → (f s).1 ≡ some e
      → retry f (suc (suc n)) d s ≡ retry f (suc n) d (f s).0
  pub last : (f : Action S) (d : ℤ) (s : S) → retry f 1 d s ≡ f s

pub data Settlement : Type 0 where
  acked nacked cancelled deadlettered : Settlement

abbrev pub Log : Type 0
Log = List Settlement

-- A driver's call that is written down; its answer may depend on the calls before it.
abbrev pub record_call : (Settlement → Log → Option Err) → Settlement → Action Log
record_call answers k log = (log ++ k ∷ [], answers k log)

-- A message whose calls are written down in a log.
abbrev pub recording : Job → (Settlement → Log → Option Err) → Option (Action Log) → Message Log
recording job answers progress = record {
  job = job;
  ack = record_call answers acked;
  cancel = record_call answers cancelled;
  nack = record_call answers nacked;
  deadletter = record_call answers deadlettered;
  in_progress = progress;
}

-- What the package documentation promises for the result of the task's handler function.
abbrev pub promised : Option Err → Settlement
promised none = acked
promised (some e) =
    if is_error skip_retry e
    then cancelled
    else if is_error dead_letter e
    then deadlettered
    else nacked

-- With no handler for the task the message goes to the deadletter queue.
abbrev pub outcome : Option (HandlerFunc Log) → List ℕ → Settlement
outcome none payload = deadlettered
outcome (some h) payload = promised (h payload []).1

-- One call, and none besides; an acknowledgement may be tried up to three times.
abbrev pub SettledBy : Settlement → Log → Type 0
SettledBy acked log = (n : ℕ) × (0 < n) × (n ≤ 3) × (log ≡ replicate n acked)
SettledBy k log = log ≡ k ∷ []

-- A handler function or a driver call that leaves the log alone.
abbrev pub IsQuiet : Action Log → Type 0
IsQuiet f = (log : Log) → (f log).0 ≡ log

abbrev pub AreQuiet : Option (HandlerFunc Log) → Type 0
AreQuiet none = Unit
AreQuiet (some h) = (payload : List ℕ) → IsQuiet (h payload)

abbrev pub ProgressIsQuiet : Option (Action Log) → Type 0
ProgressIsQuiet none = Unit
ProgressIsQuiet (some f) = IsQuiet f

heartbeat_quiet : (ticks : ℕ) (f : Action Log) (log : Log) → IsQuiet f → heartbeat ticks f log ≡ log
unfolding heartbeat
heartbeat_quiet zero f log q = refl
heartbeat_quiet (suc n) f log q = heartbeat_quiet n f (f log).0 q ∙ q log

module _ (retry_delay : Action Log → ℕ → ℤ → Action Log) (retries : IsRetryDelay retry_delay) where
  retry_acks :
      (answers : Settlement → Log → Option Err) (d : ℤ)
      → SettledBy acked (retry_delay (record_call answers acked) 3 d []).0
  retry_acks answers d = elim (Option-cases (answers acked [])) [
    | inl ok1 ↦ (1, omega arith, omega arith, ap (λ r. r.0) (retries.ok call 2 d [] ok1))
    | inr (e1, bad1) ↦
        let second = retries.again call 1 d [] e1 bad1 in
        elim (Option-cases (answers acked (acked ∷ []))) [
          | inl ok2 ↦ (
            2,
            omega arith,
            omega arith,
            ap (λ r. r.0) (second ∙ retries.ok call 1 d (acked ∷ []) ok2),
          )
          | inr (e2, bad2) ↦ (
            3,
            omega arith,
            omega arith,
            ap (λ r. r.0)
                (second
                  ∙ retries.again call 0 d (acked ∷ []) e2 bad2
                  ∙ retries.last call d (acked ∷ acked ∷ [])),
          )
        ]
  ]
    where
      call : Action Log
      call = record_call answers acked

  settle_once :
      (c : Consumer Log) (job : Job) (answers : Settlement → Log → Option Err)
      (progress : Option (Action Log)) (hub : Bool) (o : ConsumerObserver) (result : Option Err)
      → SettledBy
          (promised result)
          (settle retry_delay c (recording job answers progress) hub result (o, [])).0.1
  unfolding settle
  settle_once c job answers progress hub o none = retry_acks answers c.opts.ack_backoff
  settle_once c job answers progress hub o (some e) = elim (Bool-cases (is_error skip_retry e)) [
    | inl skip ↦ rw skip refl
    | inr other ↦ elim (Bool-cases (is_error dead_letter e)) [
      | inl dead ↦ rw (other, dead) refl
      | inr plain ↦ rw (other, plain) refl
    ]
  ]

  heartbeat_if_quiet :
      (ticks : ℕ) (progress : Option (Action Log))
      → ProgressIsQuiet progress
      → heartbeat_if ticks progress [] ≡ []
  unfolding heartbeat_if
  heartbeat_if_quiet ticks none q = refl
  heartbeat_if_quiet ticks (some f) q = heartbeat_quiet ticks f [] q

  dispatch_once :
      (c : Consumer Log) (job : Job) (answers : Settlement → Log → Option Err)
      (progress : Option (Action Log)) (hub : Bool) (ticks : ℕ) (o : ConsumerObserver)
      (h : Option (HandlerFunc Log))
      → ProgressIsQuiet progress
      → AreQuiet h
      → SettledBy
          (outcome h job.payload)
          (dispatch retry_delay c (recording job answers progress) hub ticks h (o, [])).0.1
  unfolding dispatch
  dispatch_once c job answers progress hub ticks o none q a = refl
  dispatch_once c job answers progress hub ticks o (some h) q a =
      rw (heartbeat_if_quiet ticks progress q)
        (rw (a job.payload []) (settle_once c job answers progress hub o (h job.payload []).1))

  -- Whatever the driver answers and however often the heartbeat ticks, a message is settled in one
  -- way, the promised one: deadlettered if its task has no handler; otherwise by the error of the
  -- handler function, which is cancelled for ErrSkipRetry in its chain, deadlettered for
  -- ErrDeadLetter, nacked for another error, and acked for none. Ack is called one to three times,
  -- the others once, and no other call is made. Handler function and InProgress leave the log alone.
  pub handler-SettledBy :
      (c : Consumer Log) (job : Job) (answers : Settlement → Log → Option Err)
      (progress : Option (Action Log)) (hub : Bool) (ticks : ℕ) (o : ConsumerObserver)
      → ProgressIsQuiet progress
      → AreQuiet (lookup job.task c.handlers)
      → SettledBy
          (outcome (lookup job.task c.handlers) job.payload)
          (handler retry_delay c (recording job answers progress) hub ticks (o, [])).0.1
  unfolding handler
  handler-SettledBy c job answers progress hub ticks o q a =
      dispatch_once c job answers progress (observe_start hub o) ticks o
        (lookup job.task c.handlers) q a

module _ {S : Type 0} (retry_delay : Action S → ℕ → ℤ → Action S) where
  -- The field AckAttempts has no effect on the handling of a message: Ack is tried three times at
  -- most, whatever the option says.
  pub handler_ignores_ack_attempts :
      (c : Consumer S) (attempts : ℤ) (msg : Message S) (hub : Bool) (ticks : ℕ)
      (st : ConsumerObserver × S)
      → handler retry_delay
          (record c { opts = record c.opts { ack_attempts = attempts } })
          msg
          hub
          ticks
          st
        ≡ handler retry_delay c msg hub ticks st
  unfolding handler
  handler_ignores_ack_attempts c attempts msg hub ticks (o, s) =
      elim (Option-cases (lookup msg.job.task c.handlers)) [
        | inl missing ↦ rw missing refl
        | inr (h, found) ↦
            rw found (by_result (h msg.job.payload (heartbeat_if ticks msg.in_progress s)))
      ]
    where
      by_result :
          (r : S × Option Err)
          → settle retry_delay
              (record c { opts = record c.opts { ack_attempts = attempts } })
              msg
              (observe_start hub o)
              r.1
              (o, r.0)
            ≡ settle retry_delay c msg (observe_start hub o) r.1 (o, r.0)
      by_result (s2, none) = refl
      by_result (s2, some e) = refl
