-- ===== src/Queue/Nats/Delivery/Examples.antt =====
-- A job that counts its runs, on a server that gets no acknowledgement and delivers it three times.
use windowframe.Prelude.{
  ℕ, suc, refl, String_comparable, false, Option, none, some, [], ◌∷◌, lookup, pos,
}
use windowframe.Errors.{Err, foreign}
use windowframe.Queue.Retry.{retry, retry-IsRetryDelay}
use windowframe.Queue.Observer.{ConsumerObserver, new_consumer_observer}
use windowframe.Queue.Consumer.{HandlerFunc, Consumer}
use windowframe.Queue.Nats.Bucket.{Bucket, bucket}
use windowframe.Queue.Nats.Examples.{decode, msg, job, named}
use windowframe.Queue.Nats.Delivery.{World, lifted, deliver, redeliver}
use windowframe.Queue.Nats.Delivery.Once.{IsFinal, redeliver-deliver}

abbrev silent : World Bucket ℕ → Option Err
silent w = some (foreign "timeout")

abbrev counting : HandlerFunc ℕ
counting payload n = (suc n, none)

abbrev consumer : Consumer (World Bucket ℕ)
consumer = record {
  opts = record {
    concurrency = pos 1;
    ack_attempts = pos 3;
    ack_backoff = pos 0;
    heartbeat_interval = pos 1;
  };
  handlers = ("t", lifted counting) ∷ [];
  shutdowns = [];
}

abbrev observer : ConsumerObserver
observer = new_consumer_observer (record { enabled = false; skipper = [] })

abbrev idle : World Bucket ℕ
idle = record { store = []; verdicts = []; state = 0 }

redeliver-deliver_example :
    IsFinal bucket decode silent retry retry-IsRetryDelay consumer false 2 msg 1
      (redeliver bucket decode silent retry consumer false 2
        (20 ∷ 30 ∷ [])
        msg
        (deliver bucket decode silent retry consumer false 2 10 msg (observer, idle))).1
unfolding lookup
redeliver-deliver_example =
    redeliver-deliver bucket decode silent retry retry-IsRetryDelay consumer false 2 msg 10
      (20 ∷ 30 ∷ []) job counting observer idle named tt refl refl refl refl refl
