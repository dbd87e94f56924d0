-- ===== src/Queue/Consumer.antt =====
-- queue/consumer.go: a consumer takes messages from a driver, runs the handler of their task and
-- settles each message with the driver. `S` is the state of everything below: the driver, and what the
-- handlers change. A handler, a shutdown function and a driver call are functions on it, with an error
-- or none. `retry_delay` is flow.RetryDelay (github.com/henrywhitaker3/flow), a parameter. The heartbeat
-- goroutine runs beside the handler; its ticks (`ticks` in number, chosen by the clock) are taken before
-- the handler's own effect. Spans, time stamps and the locks around the registrations are left out.
pub mod Settles
pub mod Lifecycle
mod Examples
use windowframe.Prelude.{
  ℕ, zero, suc, ℤ, pos, ◌*◌, ◌<◌, ◌≡◌, String, String_comparable, Bool, true, false, Option, none,
  some, List, [], ◌∷◌, ◌++◌, Assoc, lookup, insert, if◌then◌else◌, ==_iff, ◌==◌, nat_eq,
}
use windowframe.Errors.{Err, sentinel, wrap, foreign, is_error, skip_retry, dead_letter}
use windowframe.Queue.Options.{Job}
use windowframe.Queue.Observer.{
  ConsumerObserver, SentryOpts, new_consumer_observer, observe_start, observe_success,
  observe_error,
}

-- A call that may fail, as an action on the state.
abbrev pub Action : Type 0 → Type 0
Action S = S → S × Option Err

-- The interface Message; `in_progress` is there if it is a ProgressReporter too.
pub record Message (S : Type 0) : Type 0 where
  pub job : Job
  pub ack : Action S
  pub cancel : Action S
  pub nack : Action S
  pub deadletter : Action S
  pub in_progress : Option (Action S)

-- `if err := f(); err != nil { return err }`, and the rest of the function
abbrev pub and_then : {S : Type 0} → S × Option Err → Action S → S × Option Err
and_then (s, none) k = k s
and_then (s, some e) k = (s, some e)

abbrev pub HandlerFunc : Type 0 → Type 0
HandlerFunc S = List ℕ → Action S

-- ConsumerOpts, without the driver and the observer; durations in nanoseconds.
pub record ConsumerOpts : Type 0 where
  pub concurrency : ℤ
  pub ack_attempts : ℤ
  pub ack_backoff : ℤ
  pub heartbeat_interval : ℤ

abbrev pub or_default : ℤ → ℤ → ℤ
or_default (pos zero) d = d
or_default x d = x

-- withDefaults; `num_cpu` is runtime.NumCPU().
unfoldable pub with_defaults : ℕ → ConsumerOpts → ConsumerOpts
with_defaults num_cpu c = record {
  concurrency = or_default c.concurrency (pos num_cpu);
  ack_attempts = or_default c.ack_attempts (pos 3);
  ack_backoff = or_default c.ack_backoff (pos 5_000_000);
  heartbeat_interval = or_default c.heartbeat_interval (pos 10_000_000_000);
}

pub record Consumer (S : Type 0) : Type 0 where
  pub opts : ConsumerOpts
  pub handlers : Assoc String (HandlerFunc S)
  pub shutdowns : List (Action S)

abbrev observer_or_new : Option ConsumerObserver → ConsumerObserver
observer_or_new none = new_consumer_observer (record { enabled = false; skipper = [] })
observer_or_new (some o) = o

-- NewConsumer; the observer, which changes, stands beside the consumer.
unfoldable pub new_consumer :
    {S : Type 0} → ℕ → ConsumerOpts → Option ConsumerObserver → Consumer S × ConsumerObserver
unfolding with_defaults
new_consumer num_cpu opts obs = (
  record { opts = with_defaults num_cpu opts; handlers = []; shutdowns = [] },
  observer_or_new obs,
)

module _ {S : Type 0} where
  unfoldable pub register_handler : String → HandlerFunc S → Consumer S → Consumer S
  register_handler kind h c = record c { handlers = insert kind h c.handlers }

  unfoldable pub register_shutdown : Action S → Consumer S → Consumer S
  register_shutdown f c = record c { shutdowns = c.shutdowns ++ f ∷ [] }

  -- The loop of Close over the shutdown functions.
  unfoldable pub run_shutdowns : List (Action S) → Action S
  run_shutdowns [] s = (s, none)
  run_shutdowns (f ∷ fs) s = and_then (f s) (run_shutdowns fs)

  -- Close; `close_driver` is the Close of the driver.
  unfoldable pub close : Action S → Consumer S → Action S
  unfolding run_shutdowns
  close close_driver c s = and_then (run_shutdowns c.shutdowns s) close_driver

  -- heartbeat: each tick calls InProgress and drops its error.
  unfoldable pub heartbeat : ℕ → Action S → S → S
  heartbeat zero in_progress s = s
  heartbeat (suc ticks) in_progress s = heartbeat ticks in_progress (in_progress s).0

  unfoldable pub heartbeat_if : ℕ → Option (Action S) → S → S
  unfolding heartbeat
  heartbeat_if ticks none s = s
  heartbeat_if ticks (some in_progress) s = heartbeat ticks in_progress s

  module _ (retry_delay : Action S → ℕ → ℤ → Action S) where
    -- handler, after the handler function has returned `result`
    unfoldable pub settle :
        Consumer S
        → Message S
        → Bool
        → Option Err
        → ConsumerObserver × S
        → (ConsumerObserver × S) × Option Err
    unfolding observe_error observe_success
    settle c msg hub (some err) (o, s) =
        let o1 = observe_error hub msg.job.task err o in
        let (s1, r) =
          (if is_error skip_retry err
            then msg.cancel s
            else if is_error dead_letter err
            then msg.deadletter s
            else msg.nack s) in
        ((o1, s1), r)
    settle c msg hub none (o, s) =
        let o1 = observe_success msg.job.task o in
        let (s1, r) = retry_delay msg.ack 3 c.opts.ack_backoff s in ((o1, s1), r)

    unfoldable pub dispatch :
        Consumer S
        → Message S
        → Bool
        → ℕ
        → Option (HandlerFunc S)
        → ConsumerObserver × S
        → (ConsumerObserver × S) × Option Err
    unfolding settle heartbeat_if
    dispatch c msg hub ticks none (o, s) =
        let err = wrap "no handler registered for task" (sentinel dead_letter) in
        let o1 = observe_error hub msg.job.task err o in
        let (s1, r) = msg.deadletter s in ((o1, s1), r)
    dispatch c msg hub ticks (some h) (o, s) =
        let (s2, result) = h msg.job.payload (heartbeat_if ticks msg.in_progress s) in
        settle c msg hub result (o, s2)

    -- handler; `hub` says whether the incoming context has a sentry hub.
    unfoldable pub handler :
        Consumer S
        → Message S
        → Bool
        → ℕ
        → ConsumerObserver × S
        → (ConsumerObserver × S) × Option Err
    unfolding dispatch observe_start
    handler c msg hub ticks (o, s) =
        dispatch c msg (observe_start hub o) ticks (lookup msg.job.task c.handlers) (o, s)

    -- The end of Consume, after the driver is closed: the messages that are left in the channel are
    -- handled in order, and their errors dropped.
    unfoldable pub drain :
        Consumer S → List (Message S) → ConsumerObserver × S → ConsumerObserver × S
    unfolding handler
    drain c [] st = st
    drain c (msg ∷ msgs) st = drain c msgs (handler c msg false 0 st).0

    -- Consume once the context is cancelled, with `messages` in the channel.
    unfoldable pub shut_down :
        Action S
        → Consumer S
        → List (Message S)
        → ConsumerObserver × S
        → (ConsumerObserver × S) × Option Err
    unfolding drain
    shut_down close_driver c messages (o, s) =
        let (s1, err) = close_driver s in
        let drained = drain c messages (o, s1) in
        elim err [
          | some e ↦ ((o, s1), some (wrap "close consumer driver" e))
          | none ↦ (drained, none)
        ]
