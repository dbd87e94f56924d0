-- ===== src/Queue/Asynq/Examples.antt =====
-- One task through asynq, and the theorem there.
use windowframe.Prelude.{
  ℕ, pos, ◌≡◌, refl, String_comparable, Option, none, some, List, [], ◌∷◌, lookup, false, arith,
}
use windowframe.Errors.{Err, foreign}
use windowframe.Queue.Retry.{retry, retry-IsRetryDelay}
use windowframe.Queue.Options.{queue_from_options, Job, at, id, on_queue, max_tries}
use windowframe.Queue.Observer.{ConsumerObserver, new_consumer_observer}
use windowframe.Queue.Consumer.{Message, HandlerFunc, Consumer, handler}
use windowframe.Queue.Asynq.{
  Channel, success, new_message, process_task, process_at, task_id, max_retry,
  asynq_opts_from_queue_opts,
}
use windowframe.Queue.Asynq.Server.{Enqueued, push, config, process_task-push}
use windowframe.Queue.Asynq.Answers.{decoded_answer, process_task-answer}

abbrev fails : HandlerFunc Channel
fails payload ch = (ch, some (foreign "boom"))

abbrev consumer : Consumer Channel
consumer = record {
  opts = record {
    concurrency = pos 1;
    ack_attempts = pos 3;
    ack_backoff = pos 0;
    heartbeat_interval = pos 1;
  };
  handlers = ("fail", fails) ∷ [];
  shutdowns = [];
}

abbrev observer : ConsumerObserver
observer = new_consumer_observer (record { enabled = false; skipper = [] })

abbrev decode : List ℕ → Option Job
decode [] = none
decode (x ∷ xs) =
    some (record { id = "1"; task = "fail"; created_at = 0; payload = xs; options = [] })

silent :
    (job : Job) (h : HandlerFunc Channel)
    → lookup job.task consumer.handlers ≡ some h
    → (payload : List ℕ) → (h payload []).0 ≡ []
unfolding lookup
silent job h found payload = ground arith

process_task-answer_example :
    process_task decode (λ msg ch. (handler retry consumer msg false 0 (observer, ch)).0.1) (1 ∷ [])
    ≡ some (decoded_answer consumer (decode (1 ∷ [])))
process_task-answer_example =
    process_task-answer retry retry-IsRetryDelay consumer observer decode (1 ∷ []) silent

task_options :
    asynq_opts_from_queue_opts (on_queue "low" ∷ at 7 ∷ max_tries (pos 2) ∷ id "x" ∷ [])
    ≡ process_at 7 ∷ max_retry (pos 2) ∷ task_id "x" ∷ []
unfolding asynq_opts_from_queue_opts
task_options = refl

abbrev pushed : Job
pushed = record {
  id = "1";
  task = "fail";
  created_at = 0;
  payload = 7 ∷ [];
  options = on_queue "low" ∷ max_tries (pos 2) ∷ [];
}

abbrev client : Enqueued → Option Err
client e = none

abbrev acks : Message Channel → Channel → Channel
acks msg ch = (msg.ack ch).0

process_task-push_example :
    (let (err, given) = push client (λ j. some (1 ∷ [])) pushed in
      (e : Enqueued) × (given ≡ e ∷ [])
      × (lookup e.queue (config 8 ("high" ∷ "low" ∷ []) (pos 0)).queues ≡ some 9)
      × (process_task (λ bytes. some (record pushed { options = [] })) acks e.payload
          ≡ some success))
unfolding new_message queue_from_options
process_task-push_example =
    process_task-push client (λ j. some (1 ∷ [])) (λ bytes. some (record pushed { options = [] }))
      acks 8 ("high" ∷ "low" ∷ []) (pos 0) pushed (1 ∷ []) refl refl refl
