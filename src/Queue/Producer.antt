-- ===== src/Queue/Producer.antt =====
-- queue/producer.go: Producer hands a job to its driver, with the job's id as one more option. `push`
-- of the driver (QueueProducer) is a parameter on its state `S`. The producer's observer
-- (queue/producer_observer.go) only writes log lines: its two counters are never incremented.
mod Examples
use windowframe.Prelude.{ℕ, String, ◌≡◌, refl, Option, none, some, List, [], ◌∷◌, ◌++◌}
use windowframe.Errors.{Err}
use windowframe.Queue.Options.{Job, QueueOption, id, queue_from_options, queue_from_options-append}

module _ {S : Type 0} (driver_push : Job → S → S × Option Err) where
  unfoldable pub push : Job → S → S × Option Err
  push job s = driver_push (record job { options = job.options ++ id job.id ∷ [] }) s

-- The option that Push adds leaves the job's queue as it was.
pub queue_from_options-push :
    (job : Job)
    → queue_from_options (job.options ++ id job.id ∷ []) ≡ queue_from_options job.options
queue_from_options-push job = queue_from_options-append job.options (id job.id ∷ []) (refl, tt)
