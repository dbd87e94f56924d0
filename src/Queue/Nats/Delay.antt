-- ===== src/Queue/Nats/Delay.antt =====
-- From Push to the consumer (queue/producer.go, queue/nats/producer.go, queue/nats/consumer.go): the id,
-- the subject and the delay of a job that is pushed through the package's Producer.
use windowframe.Prelude.{
  ℕ, ◌+◌, ◌-◌, ◌*◌, ◌/◌, ◌≤◌, ◌<◌, ◌≡◌, ◌≢◌, refl, ap, ◌∙◌, String, String_comparable, ◌==◌, ==_iff,
  Bool, true, false, Bool-cases, Option, none, some, add_time, ltb, if◌then◌else◌, inl, inr, List,
  [], ◌∷◌, ◌++◌, arith, nat_eq,
}
use mathlib.Core.List.{append_assoc}
use windowframe.Errors.{Err}
use windowframe.Queue.Options.{Job, QueueOption, on_queue, at, after, id, max_tries}
use windowframe.Queue.Producer
use windowframe.Queue.Producer.{queue_from_options-push}
use windowframe.Queue.Options.{queue_from_options}
use windowframe.Queue.Nats.Message.{
  KeyValueApi, Msg, DelayedHeader, parsed, max_duration, told, nak_with_delay, second,
  handle_message,
}
use windowframe.Queue.Nats.Redelivery.{IsDue}
use windowframe.Queue.Nats.Producer as Driver
use windowframe.Queue.Nats.Producer.{
  PublishOpt, with_msg_id, OutMsg, run_at_from, delayed_header, js_opts_from,
  js_opts_from_queue_opts, message_of, year_10000,
}

-- The ids among the options, in order.
abbrev pub ids : List QueueOption → List PublishOpt
ids [] = []
ids (id i ∷ opts) = with_msg_id i ∷ ids opts
ids (_ ∷ opts) = ids opts

js_opts_from-id :
    (out : List PublishOpt) (b : Bool) (opts : List QueueOption) (i : String)
    → js_opts_from out b (opts ++ id i ∷ []) ≡ (out ++ (ids opts ++ with_msg_id i ∷ []), true)
unfolding js_opts_from
js_opts_from-id out b [] i = refl
js_opts_from-id out b (id j ∷ opts) i =
    js_opts_from-id (out ++ with_msg_id j ∷ []) true opts i
    ∙ ap (λ l. (l, true)) (append_assoc out (with_msg_id j ∷ []) (ids opts ++ with_msg_id i ∷ []))
js_opts_from-id out b (on_queue q ∷ opts) i = js_opts_from-id out b opts i
js_opts_from-id out b (at q ∷ opts) i = js_opts_from-id out b opts i
js_opts_from-id out b (after q ∷ opts) i = js_opts_from-id out b opts i
js_opts_from-id out b (max_tries q ∷ opts) i = js_opts_from-id out b opts i

run_at_from-id :
    (now run_at : ℕ) (opts : List QueueOption) (i : String)
    → run_at_from now run_at (opts ++ id i ∷ []) ≡ run_at_from now run_at opts
unfolding run_at_from
run_at_from-id now r [] i = refl
run_at_from-id now r (id j ∷ opts) i = run_at_from-id now r opts i
run_at_from-id now r (on_queue q ∷ opts) i = run_at_from-id now r opts i
run_at_from-id now r (at q ∷ opts) i = run_at_from-id now q opts i
run_at_from-id now r (after d ∷ opts) i = run_at_from-id now _ opts i
run_at_from-id now r (max_tries q ∷ opts) i = run_at_from-id now r opts i

abbrev pub time_or : ℕ → Option ℕ → ℕ
time_or t none = t
time_or t (some u) = u

abbrev pub later_or : Option ℕ → ℕ → Option ℕ
later_or none t = some t
later_or (some u) t = some u

time_or-later_or : (r t : ℕ) (o : Option ℕ) → time_or t o ≡ time_or r (later_or o t)
time_or-later_or r t none = refl
time_or-later_or r t (some u) = refl

-- The run time that the options ask for: that of the last At or After
abbrev pub due_of : ℕ → List QueueOption → Option ℕ
due_of now [] = none
due_of now (at t ∷ opts) = later_or (due_of now opts) t
due_of now (after d ∷ opts) = later_or (due_of now opts) (add_time now d)
due_of now (on_queue q ∷ opts) = due_of now opts
due_of now (id i ∷ opts) = due_of now opts
due_of now (max_tries n ∷ opts) = due_of now opts

run_at_from-due_of :
    (now run_at : ℕ) (opts : List QueueOption)
    → run_at_from now run_at opts ≡ time_or run_at (due_of now opts)
unfolding run_at_from
run_at_from-due_of now r [] = refl
run_at_from-due_of now r (id j ∷ opts) = run_at_from-due_of now r opts
run_at_from-due_of now r (on_queue q ∷ opts) = run_at_from-due_of now r opts
run_at_from-due_of now r (max_tries q ∷ opts) = run_at_from-due_of now r opts
run_at_from-due_of now r (at t ∷ opts) =
    run_at_from-due_of now t opts ∙ time_or-later_or r t (due_of now opts)
run_at_from-due_of now r (after d ∷ opts) =
    run_at_from-due_of now (add_time now d) opts
    ∙ time_or-later_or r (add_time now d) (due_of now opts)

-- The time of a delayed job that its header denotes: the start of the second of the run time.
abbrev pub start_of_second : ℕ → ℕ
start_of_second t = (t / second) * second

-- The instant that the consumer reads from a header; without one it does not wait.
abbrev pub read_time : Option DelayedHeader → ℕ
read_time none = 0
read_time (some h) = parsed h

-- The instant that it should read: the second of the run time, if its year has four digits
abbrev pub promised_time : ℕ → ℕ
promised_time t = if ltb (t / second) year_10000 then start_of_second t else 0

read_time-delayed_header : (t : ℕ) → read_time (delayed_header t) ≡ promised_time t
unfolding delayed_header
read_time-delayed_header t = elim (Bool-cases (nat_eq t 0)) [
  | inl zero_time ↦ rw zero_time (ground arith)
  | inr set ↦ elim (Bool-cases (ltb (t / second) year_10000)) [
    | inl soon ↦ rw (set, soon) refl
    | inr late ↦ rw (set, late) refl
  ]
]

module _ {S : Type 0} (marshal : Job → Option (List ℕ)) (marshal_error : Err)
    (publish : OutMsg → List PublishOpt → S → S × Option Err) where
  -- A job that is pushed through Producer, and that can be marshalled, is published as one message with these
  -- bytes, on the subject of its own queue and task, with a header from which the consumer reads the second of the last
  -- At or After among its options: none without such an option, and none for a year above 9999, whose header
  -- it cannot parse. The last message id among the publish options is the job's id, those before it are the ids among its
  -- options, and the fresh UUID is never used.
  pub push_publishes :
      (now : ℕ) (fresh : String) (job : Job) (bytes : List ℕ) (s : S)
      → marshal (record job { options = job.options ++ id job.id ∷ [] }) ≡ some bytes
      → (out : OutMsg) × (Producer.push (Driver.push marshal marshal_error publish now fresh) job s
          ≡ publish out (ids job.options ++ with_msg_id job.id ∷ []) s)
        × (out.subject ≡ (queue_from_options job.options, job.task))
        × (out.data_bytes ≡ bytes)
        × (read_time out.delayed ≡ promised_time (time_or 0 (due_of now job.options)))
  unfolding Producer.push Driver.push message_of
  push_publishes now fresh job bytes s encoded = (
    message_of now bytes job,
    rw encoded (
        cc (
          queue_from_options-push job,
          run_at_from-id now 0 job.options job.id,
          js_opts_from-id [] false job.options job.id,
        )),
    refl,
    refl,
    read_time-delayed_header (run_at_from now 0 job.options)
        ∙ ap promised_time (run_at_from-due_of now 0 job.options),
  )

module _ (kv : KeyValueApi) (decode : List ℕ → Option Job) where
  -- Before the second in which a delayed job is to run, its delivery is sent back with exactly the
  -- time that is missing up to the start of that second, and the processed log is not touched. The year of the run time has
  -- at most four digits, and the second is at most a time.Duration away, about 292 years.
  pub delayed_waits :
      (log_enabled : Bool) (run_at now : ℕ) (msg : Msg) (s : kv.Store)
      → msg.msg_id ≢ ""
      → msg.delayed ≡ delayed_header run_at
      → run_at / second < year_10000
      → now < start_of_second run_at
      → start_of_second run_at ≤ now + max_duration
      → (d : ℕ) × (handle_message kv decode log_enabled now msg s ≡ (s, told (nak_with_delay d)))
        × (now + d ≡ start_of_second run_at)
  unfolding handle_message delayed_header
  delayed_waits log_enabled run_at now msg s named header soon early near = (
    start_of_second run_at - now,
    elim (Bool-cases (msg.msg_id == "")) [
      | inl missing ↦ absurd (named ((==_iff msg.msg_id "").0 missing))
      | inr present ↦ rw (present, header) (ground arith)
    ],
    omega arith,
  )

  -- From the run time on, the delivery of a delayed job is due: the header holds nothing back.
  pub delayed-IsDue :
      (run_at now : ℕ) (msg : Msg)
      → msg.delayed ≡ delayed_header run_at
      → run_at ≤ now
      → IsDue now msg.delayed
  unfolding delayed_header
  delayed-IsDue run_at now msg header late = elim (Bool-cases (nat_eq run_at 0)) [
    | inl zero_time ↦ rw (header, zero_time) tt
    | inr set ↦ elim (Bool-cases (ltb (run_at / second) year_10000)) [
      | inl soon ↦ rw (header, set, soon) (omega arith)
      | inr far ↦ rw (header, set, far) (omega arith)
    ]
  ]
