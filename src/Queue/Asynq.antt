-- ===== src/Queue/Asynq.antt =====
-- queue/asynq: the driver over hibiken/asynq (queue/asynq/message.go, queue/asynq/producer.go, and the task handler of
-- queue/asynq/consumer.go). A message answers its task by one value on a channel, which is the state
-- here; asynq.RevokeTask and asynq.SkipRetry are told apart by constructors. `decode` is
-- queue.Unmarshal, a parameter.
pub mod Answers
pub mod Server
mod Examples
use windowframe.Prelude.{ℕ, ℤ, String, ◌≡◌, refl, Option, none, some, List, [], ◌∷◌, ◌++◌}
use windowframe.Errors.{Err, foreign}
use windowframe.Queue.Options.{
  Job, QueueOption, on_queue, at, after, id, max_tries, queue_from_options,
}
use windowframe.Queue.Consumer.{Action, Message}

-- What the asynq server receives for a task.
pub data Answer : Type 0 where
  success revoke_task skip_retry task_nacked unmarshal_failed : Answer

-- The channel of one task.
abbrev pub Channel : Type 0
Channel = List Answer

abbrev pub reply : Answer → Action Channel
reply a ch = (ch ++ a ∷ [], none)

-- newMessage, with Ack, Cancel, Deadletter and Nack; it is no ProgressReporter.
unfoldable pub new_message : Job → Message Channel
new_message job = record {
  job = job;
  ack = reply success;
  cancel = reply revoke_task;
  nack = reply task_nacked;
  deadletter = reply skip_retry;
  in_progress = none;
}

-- `return <-err`, once the message was handled
abbrev pub first_answer : Channel → Option Answer
first_answer [] = none
first_answer (a ∷ ch) = some a

abbrev pub process_decoded : Option Job → (Message Channel → Channel → Channel) → Option Answer
process_decoded none consume = some unmarshal_failed
process_decoded (some job) consume = first_answer (consume (new_message job) [])

-- The handler of Consume for one task whose message a worker of the consumer takes; `consume` is what that worker does with
-- it. The send on the consumer's channel, which waits while the channel is full, is not modelled. `none` means that
-- the handler waits, since nothing was sent on its own channel.
unfoldable pub process_task :
    (List ℕ → Option Job) → (Message Channel → Channel → Channel) → List ℕ → Option Answer
unfolding new_message
process_task decode consume payload = process_decoded (decode payload) consume

-- asynq.Option, as asynqOptsFromQueueOpts builds them.
pub data TaskOption : Type 0 where
  process_at : ℕ → TaskOption
  process_in : ℤ → TaskOption
  task_id : String → TaskOption
  max_retry : ℤ → TaskOption

unfoldable pub asynq_opts_from_queue_opts : List QueueOption → List TaskOption
asynq_opts_from_queue_opts [] = []
asynq_opts_from_queue_opts (at t ∷ opts) = process_at t ∷ asynq_opts_from_queue_opts opts
asynq_opts_from_queue_opts (after d ∷ opts) = process_in d ∷ asynq_opts_from_queue_opts opts
asynq_opts_from_queue_opts (id i ∷ opts) = task_id i ∷ asynq_opts_from_queue_opts opts
asynq_opts_from_queue_opts (max_tries n ∷ opts) = max_retry n ∷ asynq_opts_from_queue_opts opts
asynq_opts_from_queue_opts (on_queue q ∷ opts) = asynq_opts_from_queue_opts opts
