-- ===== src/Queue/Asynq/Server.antt =====
-- queue/asynq/producer.go and queue/asynq/consumer.go: Push, and the queues that a consumer's server works on. The client of
-- hibiken/asynq, which returns an error or none, and queue.Marshal and its inverse are parameters.
use windowframe.Prelude.{
  ℕ, zero, suc, ◌≡◌, refl, ap, ◌∙◌, String, String_comparable, ◌==◌, Bool, true, false, ◌||◌,
  Option, none, some, List, [], ◌∷◌, any, ℤ, pos, negsuc, Assoc, lookup, insert, lookup-insert,
  if◌then◌else◌,
}
use windowframe.Errors.{Err, wrap, foreign}
use windowframe.Queue.Options.{Job, queue_from_options}
use windowframe.Queue.Consumer.{Message}
use windowframe.Queue.Asynq.{
  TaskOption, asynq_opts_from_queue_opts, Channel, new_message, first_answer, process_decoded,
  process_task,
}

-- What EnqueueContext is given
pub record Enqueued : Type 0 where
  pub task : String
  pub payload : List ℕ
  pub options : List TaskOption
  pub queue : String

module _ (client : Enqueued → Option Err) where
  abbrev enqueue : Job → Option (List ℕ) → Option Err × List Enqueued
  enqueue job none = (some (wrap "marshal job" (foreign "marshal")), [])
  enqueue job (some by) =
      let e : Enqueued = record {
        task = job.task;
        payload = by;
        options = asynq_opts_from_queue_opts job.options;
        queue = queue_from_options job.options;
      } in
      (client e, e ∷ [])

  -- Push: its error, and what it gave the client
  unfoldable pub push : (Job → Option (List ℕ)) → Job → Option Err × List Enqueued
  push marshal job = enqueue job (marshal job)

-- asynq.Config, as far as NewConsumer fills it from the options
pub record Config : Type 0 where
  pub concurrency : ℤ
  pub queues : Assoc String ℕ

abbrev set_queues : List String → Assoc String ℕ → Assoc String ℕ
set_queues [] m = m
set_queues (q ∷ qs) m = set_queues qs (insert q 9 m)

abbrev or_cpus : ℕ → ℤ → ℤ
or_cpus num_cpu (pos zero) = pos num_cpu
or_cpus num_cpu (pos (suc n)) = pos (suc n)
or_cpus num_cpu (negsuc n) = negsuc n

unfoldable pub config : ℕ → List String → ℤ → Config
config num_cpu queues concurrency = record {
  concurrency = or_cpus num_cpu concurrency;
  queues = set_queues queues [];
}

lookup-set_queues :
    (j : String) (qs : List String) (m : Assoc String ℕ)
    → lookup j (set_queues qs m) ≡ (if any (λ q. q == j) qs then some 9 else lookup j m)
lookup-set_queues j [] m = refl
lookup-set_queues j (q ∷ qs) m =
    lookup-set_queues j qs (insert q 9 m)
    ∙ rw (lookup-insert q j 9 m) (by_case (any (λ q. q == j) qs) (q == j))
  where
    by_case :
        (b c : Bool)
        → (if b then some 9 else (if c then some 9 else lookup j m))
          ≡ (if c || b then some 9 else lookup j m)
    by_case true true = refl
    by_case true false = refl
    by_case false true = refl
    by_case false false = refl

-- A job that can be marshalled, and whose JSON, which leaves the options out, is read back, is given to the client once, and if its queue is one of the consumer's, the
-- consumer's server works on that queue, at the priority of all its queues; the task is then answered as the
-- consumer answers the message of the job without its options.
pub process_task-push :
    (client : Enqueued → Option Err) (marshal : Job → Option (List ℕ))
    (decode : List ℕ → Option Job) (consume : Message Channel → Channel → Channel) (num_cpu : ℕ)
    (queues : List String) (concurrency : ℤ) (job : Job) (by : List ℕ)
    → marshal job ≡ some by
    → decode by ≡ some (record job { options = [] })
    → any (λ q. q == queue_from_options job.options) queues ≡ true
    → (let (err, given) = push client marshal job in
        (e : Enqueued) × (given ≡ e ∷ [])
        × (lookup e.queue (config num_cpu queues concurrency).queues ≡ some 9)
        × (process_task decode consume e.payload
            ≡ first_answer (consume (new_message (record job { options = [] })) [])))
unfolding push config process_task
process_task-push client marshal decode consume num_cpu queues concurrency job by marshalled decoded
      listed =
    (
      given,
      rw marshalled refl,
      lookup-set_queues (queue_from_options job.options) queues [] ∙ rw listed refl,
      ap (λ o. process_decoded o consume) decoded,
    )
  where
    given : Enqueued
    given = record {
      task = job.task;
      payload = by;
      options = asynq_opts_from_queue_opts job.options;
      queue = queue_from_options job.options;
    }
