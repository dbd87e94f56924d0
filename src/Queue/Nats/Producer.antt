-- ===== src/Queue/Nats/Producer.antt =====
-- queue/nats/producer.go: Push publishes a job on the subject of its queue and task, with the header
-- Nak-Until for a delayed job. `marshal` is queue.Marshal of a job, `now` the clock, `fresh` the text of
-- uuid.MustNew(), and `publish` is PublishMsg of the JetStream client: parameters.
use windowframe.Prelude.{
  ℕ, ◌/◌, String, Bool, true, false, Option, none, some, List, [], ◌∷◌, ◌++◌, add_time,
  if◌then◌else◌, nat_eq, ltb,
}
use windowframe.Errors.{Err, wrap}
use windowframe.Queue.Options.{Job, QueueOption, at, after, id, queue_from_options}
use windowframe.Queue.Nats.Message.{DelayedHeader, until, malformed, second}

-- jetstream.WithMsgID
pub data PublishOpt : Type 0 where
  with_msg_id : String → PublishOpt

-- nats.Msg
pub record OutMsg : Type 0 where
  pub subject : String × String
  pub data_bytes : List ℕ
  pub delayed : Option DelayedHeader

-- The loop of Push over the options: the last At or After decides.
unfoldable pub run_at_from : ℕ → ℕ → List QueueOption → ℕ
run_at_from now run_at [] = run_at
run_at_from now run_at (after d ∷ opts) = run_at_from now (add_time now d) opts
run_at_from now run_at (at t ∷ opts) = run_at_from now t opts
run_at_from now run_at (_ ∷ opts) = run_at_from now run_at opts

-- The seconds of the year 10000, from which on Format writes a year of five digits, which time.Parse refuses
abbrev pub year_10000 : ℕ
year_10000 = 315_537_897_600

-- The header of a run time that is not the zero time: RFC 3339 drops what is below a second.
unfoldable pub delayed_header : ℕ → Option DelayedHeader
delayed_header run_at =
    if nat_eq run_at 0
    then none
    else some (if ltb (run_at / second) year_10000 then until (run_at / second) else malformed)

-- The loop of jsOptsFromQueueOpts: the options so far, and whether one was an id.
unfoldable pub js_opts_from : List PublishOpt → Bool → List QueueOption → List PublishOpt × Bool
js_opts_from out has_id [] = (out, has_id)
js_opts_from out has_id (id i ∷ opts) = js_opts_from (out ++ with_msg_id i ∷ []) true opts
js_opts_from out has_id (_ ∷ opts) = js_opts_from out has_id opts

unfoldable pub js_opts_from_queue_opts : String → List QueueOption → List PublishOpt
unfolding js_opts_from
js_opts_from_queue_opts fresh opts =
    let (out, has_id) = js_opts_from [] false opts in
    if has_id then out else out ++ with_msg_id fresh ∷ []

-- The subject is kept as its two parts, which "%s.%s" joins.
unfoldable pub message_of : ℕ → List ℕ → Job → OutMsg
unfolding run_at_from delayed_header
message_of now bytes job = record {
  subject = (queue_from_options job.options, job.task);
  data_bytes = bytes;
  delayed = delayed_header (run_at_from now 0 job.options);
}

abbrev marshalled :
    {S : Type 0} → Option (List ℕ) → Err → (List ℕ → S → S × Option Err) → S → S × Option Err
marshalled none e k s = (s, some (wrap "mnarshal job" e))
marshalled (some bytes) e k s = k bytes s

module _ {S : Type 0} (marshal : Job → Option (List ℕ)) (marshal_error : Err)
    (publish : OutMsg → List PublishOpt → S → S × Option Err) where
  -- Push
  unfoldable pub push : ℕ → String → Job → S → S × Option Err
  unfolding message_of js_opts_from_queue_opts
  push now fresh job =
      marshalled (marshal job) marshal_error
        (λ bytes. publish (message_of now bytes job) (js_opts_from_queue_opts fresh job.options))
