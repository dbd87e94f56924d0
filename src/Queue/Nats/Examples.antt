-- ===== src/Queue/Nats/Examples.antt =====
-- The protocol's theorems at a bucket that never fails.
use windowframe.Prelude.{
  ℕ, ◌+◌, ◌≡◌, ◌≢◌, refl, String, String_comparable, ==_iff, true, Option, none, some, List, [],
  ◌∷◌, ◌++◌, lookup, insert, erase, arith,
}
use windowframe.Errors.{Err, foreign}
use windowframe.Queue.Options.{queue_from_options, Job, on_queue, at}
use windowframe.Queue.Nats.Message.{
  Msg, until, told, sent, nak_with_delay, handle_message, ack, nack, kv_state_processing,
}
use windowframe.Queue.Nats.Bucket.{Bucket, bucket}
use windowframe.Queue.Nats.Protocol.{
  World, start, deliver, try_ack, here, next, deliver_step, ack_step, occurrences, drop_one,
}
use windowframe.Queue.Nats.Protocol.Claims.{IsSafe, Reach-IsSafe}
use windowframe.Queue.Nats.Redelivery.{redelivery_after_nack}
use windowframe.Queue.Nats.Producer as Driver
use windowframe.Queue.Nats.Producer.{OutMsg, PublishOpt, with_msg_id, delayed_header}
use windowframe.Queue.Producer
use windowframe.Queue.Nats.Delay.{ids, push_publishes, read_time, start_of_second, delayed_waits}

abbrev pub job : Job
job = record {
  id = "a";
  task = "t";
  created_at = 0;
  payload = [];
  options = on_queue "low" ∷ at 5_500_000_000 ∷ [];
}

abbrev pub decode : List ℕ → Option Job
decode bytes = some job

abbrev pub msg : Msg
msg = record { msg_id = "a"; delayed = none; body = [] }

abbrev empty : World bucket decode
empty = start bucket decode []

-- Delivered, redelivered while in flight, and acknowledged.
abbrev after_ack : World bucket decode
after_ack =
    try_ack bucket decode none "a" (deliver bucket decode 2 msg (deliver bucket decode 1 msg empty))

after_ack_done : (after_ack.in_flight ≡ []) × (after_ack.done ≡ "a" ∷ [])
unfolding deliver try_ack handle_message ack drop_one lookup insert
after_ack_done = (refl, refl)

Reach-IsSafe_example : IsSafe bucket decode after_ack
unfolding deliver try_ack handle_message ack occurrences lookup insert
Reach-IsSafe_example = Reach-IsSafe bucket decode [] (
    next (next (next here (deliver_step 1 msg refl)) (deliver_step 2 msg refl))
      (ack_step none "a" (omega arith) refl))

pub named : msg.msg_id ≢ ""
named e = cc ((==_iff {K = String} "a" "").1 e)

abbrev in_flight : Bucket
in_flight = ("a", kv_state_processing) ∷ []

redelivery_after_nack_example :
    (handle_message bucket decode true 9 msg (nack bucket decode true "a" in_flight).0).1
    ≡ sent (record { job = job; id = "a" })
unfolding nack lookup erase
redelivery_after_nack_example =
    redelivery_after_nack bucket decode 9 msg (nack bucket decode true "a" in_flight).0 in_flight
      job refl refl named tt refl (λ e. cc)

abbrev publish : OutMsg → List PublishOpt → List OutMsg → List OutMsg × Option Err
publish out opts sent_before = (out ∷ sent_before, none)

push_publishes_example :
    (out : OutMsg) × (Producer.push
        (Driver.push (λ j. some []) (foreign "x") publish 3 "fresh")
        job
        []
      ≡ publish out (ids job.options ++ with_msg_id "a" ∷ []) [])
    × (out.subject ≡ ("low", "t"))
    × (out.data_bytes ≡ [])
    × (read_time out.delayed ≡ 5_000_000_000)
unfolding queue_from_options
push_publishes_example =
    push_publishes (λ j. some []) (foreign "x") publish 3 "fresh" job [] [] refl

-- A run time of 5.5 s is kept as 5 s.
abbrev late : Msg
late = record { msg_id = "a"; delayed = some (until 5); body = [] }

delayed_waits_example :
    (d : ℕ) × (handle_message bucket decode true 2_000_000_000 late []
      ≡ ([], told (nak_with_delay d)))
    × (2_000_000_000 + d ≡ start_of_second 5_500_000_000)
unfolding delayed_header
delayed_waits_example =
    delayed_waits bucket decode true 5_500_000_000 2_000_000_000 late [] named refl (omega arith)
      (omega arith) (omega arith)
