-- ===== src/Queue/Consumer/Examples.antt =====
-- A consumer with three handlers over a driver that writes its calls down, and the theorems there.
use windowframe.Prelude.{
  pos, ◌+◌, ◌≡◌, refl, String, String_comparable, true, false, Option, none, some, List, [], ◌∷◌,
  lookup,
}
use windowframe.Errors.{Err, sentinel, foreign, wrap, is_error, skip_retry}
use windowframe.Queue.Retry.{retry, retry-IsRetryDelay}
use windowframe.Queue.Options.{Job}
use windowframe.Queue.Observer.{ConsumerObserver, new_consumer_observer}
use windowframe.Queue.Observer.Counts.{IsConsistent, new-IsConsistent}
use windowframe.Queue.Consumer.{Action, Message, HandlerFunc, Consumer, handler, drain}
use windowframe.Queue.Consumer.Settles.{
  Settlement, acked, nacked, cancelled, deadlettered, Log, recording, outcome, SettledBy,
  handler-SettledBy,
}
use windowframe.Queue.Consumer.Lifecycle.{with_task, drain_counts, handler-IsConsistent}

-- The driver refuses the first two acknowledgements.
abbrev answers : Settlement → Log → Option Err
answers acked [] = some (foreign "no connection")
answers acked (x ∷ []) = some (foreign "no connection")
answers _ _ = none

abbrev job : String → Job
job task = record { id = "1"; task = task; created_at = 0; payload = []; options = [] }

abbrev returns : Option Err → HandlerFunc Log
returns r payload log = (log, r)

abbrev consumer : Consumer Log
consumer = record {
  opts = record {
    concurrency = pos 1;
    ack_attempts = pos 9;
    ack_backoff = pos 0;
    heartbeat_interval = pos 1;
  };
  handlers =
      ("fine", returns none)
      ∷ ("skip", returns (some (wrap "x" (sentinel skip_retry))))
      ∷ ("fail", returns (some (foreign "x")))
      ∷ [];
  shutdowns = returns none [] ∷ returns (some (foreign "stuck")) [] ∷ [];
}

abbrev message : String → Message Log
message task = recording (job task) answers (some (λ log. (log, none)))

abbrev observer : ConsumerObserver
observer = new_consumer_observer (record { enabled = true; skipper = [] })

abbrev log_of : String → Log
log_of task = (handler retry consumer (message task) false 2 (observer, [])).0.1

logs :
    (log_of "fine" ≡ acked ∷ acked ∷ acked ∷ [])
    × (log_of "skip" ≡ cancelled ∷ [])
    × (log_of "fail" ≡ nacked ∷ [])
    × (log_of "none" ≡ deadlettered ∷ [])
unfolding handler lookup is_error
logs = (refl, refl, refl, refl)

handler-SettledBy_example : SettledBy (outcome (lookup "fine" consumer.handlers) []) (log_of "fine")
unfolding lookup
handler-SettledBy_example =
    handler-SettledBy retry retry-IsRetryDelay consumer (job "fine") answers
      (some (λ log. (log, none))) false 2 observer (λ log. refl) (λ payload log. refl)

abbrev left_over : List (Message Log)
left_over = message "fine" ∷ message "none" ∷ message "fine" ∷ []

drain_counts_example :
    IsConsistent (drain retry consumer left_over (observer, [])).0
    × ((t : String)
        → (drain retry consumer left_over (observer, [])).0.jobs_processed t
          ≡ observer.jobs_processed t + with_task t left_over)
drain_counts_example =
    drain_counts retry consumer left_over observer []
      (new-IsConsistent (record { enabled = true; skipper = [] }))

handler-IsConsistent_example :
    IsConsistent (handler retry consumer (message "fail") false 0 (observer, [])).0.0
handler-IsConsistent_example =
    handler-IsConsistent retry consumer (message "fail") false 0 observer []
      (new-IsConsistent (record { enabled = true; skipper = [] }))

abbrev close_driver : Action Log
close_driver log = (acked ∷ log, none)
