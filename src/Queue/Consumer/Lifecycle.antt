-- ===== src/Queue/Consumer/Lifecycle.antt =====
-- Counting, draining and closing of queue/consumer.go.
use mathlib.Core.Path.{fun_ext}
use windowframe.Prelude.{
  ℕ, suc, ◌+◌, ℤ, ◌≡◌, refl, ap, sym, ◌∙◌, String, String_comparable, ◌==◌, Bool, false, Option,
  none, some, List, [], ◌∷◌, ◌++◌, lookup, if◌then◌else◌, arith,
}
use windowframe.Errors.{Err, sentinel, wrap, dead_letter}
use windowframe.Queue.Observer.{ConsumerObserver, observe_start, observe_success, observe_error}
use windowframe.Queue.Observer.Counts.{
  IsConsistent, observe_success-IsConsistent, observe_error-IsConsistent,
}
use windowframe.Queue.Consumer.{
  Action, and_then, Message, HandlerFunc, Consumer, register_shutdown, run_shutdowns, close, settle,
  dispatch, handler, drain, heartbeat_if,
}

-- The number of messages with the task.
abbrev pub with_task : {S : Type 0} → String → List (Message S) → ℕ
with_task t [] = 0
with_task t (m ∷ ms) = if m.job.task == t then suc (with_task t ms) else with_task t ms

module _ {S : Type 0} (retry_delay : Action S → ℕ → ℤ → Action S) where
  module _ (c : Consumer S) (msg : Message S) (hub : Bool) where
    settle-IsConsistent :
        (r : Option Err) (o : ConsumerObserver) (s : S)
        → IsConsistent o
        → IsConsistent (settle retry_delay c msg hub r (o, s)).0.0
    unfolding settle
    settle-IsConsistent none o s h = observe_success-IsConsistent msg.job.task o h
    settle-IsConsistent (some e) o s h = observe_error-IsConsistent hub msg.job.task e o h

    settle-processed :
        (r : Option Err) (o : ConsumerObserver) (s : S) (t : String)
        → (settle retry_delay c msg hub r (o, s)).0.0.jobs_processed t
          ≡ (if msg.job.task == t then suc (o.jobs_processed t) else o.jobs_processed t)
    unfolding settle
    settle-processed none o s t = unfold observe_success in refl
    settle-processed (some e) o s t = unfold observe_error in ground arith

    module _ (ticks : ℕ) where
      dispatch-IsConsistent :
          (h : Option (HandlerFunc S)) (o : ConsumerObserver) (s : S)
          → IsConsistent o
          → IsConsistent (dispatch retry_delay c msg hub ticks h (o, s)).0.0
      unfolding dispatch
      dispatch-IsConsistent none o s v =
          observe_error-IsConsistent hub msg.job.task
            (wrap "no handler registered for task" (sentinel dead_letter)) o v
      dispatch-IsConsistent (some h) o s v =
          let (s2, r) = h msg.job.payload (heartbeat_if ticks msg.in_progress s) in
          settle-IsConsistent r o s2 v

      dispatch-processed :
          (h : Option (HandlerFunc S)) (o : ConsumerObserver) (s : S) (t : String)
          → (dispatch retry_delay c msg hub ticks h (o, s)).0.0.jobs_processed t
            ≡ (if msg.job.task == t then suc (o.jobs_processed t) else o.jobs_processed t)
      unfolding dispatch
      dispatch-processed none o s t = unfold observe_error in ground arith
      dispatch-processed (some h) o s t =
          let (s2, r) = h msg.job.payload (heartbeat_if ticks msg.in_progress s) in
          settle-processed r o s2 t

  -- Handling a message keeps the counters consistent, on every branch.
  pub handler-IsConsistent :
      (c : Consumer S) (msg : Message S) (hub : Bool) (ticks : ℕ) (o : ConsumerObserver) (s : S)
      → IsConsistent o
      → IsConsistent (handler retry_delay c msg hub ticks (o, s)).0.0
  unfolding handler
  handler-IsConsistent c msg hub ticks o s v =
      dispatch-IsConsistent c msg (observe_start hub o) ticks (lookup msg.job.task c.handlers) o s v

  handler-processed :
      (c : Consumer S) (msg : Message S) (hub : Bool) (ticks : ℕ) (o : ConsumerObserver) (s : S)
      (t : String)
      → (handler retry_delay c msg hub ticks (o, s)).0.0.jobs_processed t
        ≡ (if msg.job.task == t then suc (o.jobs_processed t) else o.jobs_processed t)
  unfolding handler
  handler-processed c msg hub ticks o s t =
      dispatch-processed c msg (observe_start hub o) ticks (lookup msg.job.task c.handlers) o s t

  -- Draining a channel processes each message that is left in it once: the processed counter of each
  -- task grows by the number of messages with that task, whether handlers exist, succeed or fail.
  -- If the counters are consistent they stay so: for each task, as many jobs are timed as processed, at most as many
  -- failed, and at most as many as failed are dead-lettered, or skipped. An error may count as both.
  pub drain_counts :
      (c : Consumer S) (msgs : List (Message S)) (o : ConsumerObserver) (s : S)
      → IsConsistent o
      → IsConsistent (drain retry_delay c msgs (o, s)).0
        × ((t : String)
            → (drain retry_delay c msgs (o, s)).0.jobs_processed t
              ≡ o.jobs_processed t + with_task t msgs)
  unfolding drain
  drain_counts c [] o s v = (v, λ t. omega arith)
  drain_counts c (msg ∷ msgs) o s v =
      let (o1, s1) = (handler retry_delay c msg false 0 (o, s)).0 in
      let ih = drain_counts c msgs o1 s1 (handler-IsConsistent c msg false 0 o s v) in
      (ih.0, λ t. ground (arith, ih.1 t, handler-processed c msg false 0 o s t))

module _ {S : Type 0} where
  and_then_assoc :
      (r : S × Option Err) (f g : Action S)
      → and_then (and_then r f) g ≡ and_then r (λ s. and_then (f s) g)
  and_then_assoc (s, none) f g = refl
  and_then_assoc (s, some e) f g = refl

  run_shutdowns-append :
      (fs gs : List (Action S)) (s : S)
      → run_shutdowns (fs ++ gs) s ≡ and_then (run_shutdowns fs s) (run_shutdowns gs)
  unfolding run_shutdowns
  run_shutdowns-append [] gs s = refl
  run_shutdowns-append (f ∷ fs) gs s =
      ap (and_then (f s)) (fun_ext (λ s1. run_shutdowns-append fs gs s1))
      ∙ sym (and_then_assoc (f s) (run_shutdowns fs) (run_shutdowns gs))

  -- A shutdown function that fails ends Close with its error and its state: neither the functions
  -- registered after it nor the driver's Close run. Those registered before it have run, in order.
  pub close_stops :
      (close_driver : Action S) (c : Consumer S) (fs gs : List (Action S)) (f : Action S) (s : S)
      (e : Err)
      → c.shutdowns ≡ fs ++ f ∷ gs
      → (run_shutdowns fs s).1 ≡ none
      → (f (run_shutdowns fs s).0).1 ≡ some e
      → close close_driver c s ≡ ((f (run_shutdowns fs s).0).0, some e)
  unfolding close
  close_stops close_driver c fs gs f s e eq before fails =
      rw (eq, run_shutdowns-append) (by_parts (run_shutdowns fs s) before fails)
    where
      by_parts :
          (r : S × Option Err)
          → r.1 ≡ none
          → (f r.0).1 ≡ some e
          → and_then (and_then r (run_shutdowns (f ∷ gs))) close_driver ≡ ((f r.0).0, some e)
      by_parts (s1, none) p q = unfold run_shutdowns in rw q refl
      by_parts (s1, some x) p q = cc

  -- A function registered last runs after the others, and just before the driver's Close.
  pub close-register_shutdown :
      (close_driver f : Action S) (c : Consumer S) (s : S)
      → close close_driver (register_shutdown f c) s
        ≡ and_then (run_shutdowns c.shutdowns s) (λ s1. and_then (f s1) close_driver)
  unfolding close register_shutdown
  close-register_shutdown close_driver f c s =
      rw run_shutdowns-append (by_parts (run_shutdowns c.shutdowns s))
    where
      by_last :
          (r : S × Option Err)
          → and_then (and_then r (run_shutdowns [])) close_driver ≡ and_then r close_driver
      by_last (s1, none) = unfold run_shutdowns in refl
      by_last (s1, some e) = refl

      by_parts :
          (r : S × Option Err)
          → and_then (and_then r (run_shutdowns (f ∷ []))) close_driver
            ≡ and_then r (λ s1. and_then (f s1) close_driver)
      by_parts (s1, none) = unfold run_shutdowns in by_last (f s1)
      by_parts (s1, some e) = refl
