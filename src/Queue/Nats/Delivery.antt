-- ===== src/Queue/Nats/Delivery.antt =====
-- The driver of queue/nats and the consumer of queue/consumer.go together: one delivery of a message by the server, from
-- handleMessage to the settlement of the job. `S` is the state that the handlers work on.
pub mod Processed
pub mod Once
mod Examples
use windowframe.Prelude.{
  ℕ, ℤ, ◌≡◌, String, Bool, true, false, Option, none, some, List, [], ◌∷◌, ◌++◌,
}
use windowframe.Errors.{Err}
use windowframe.Queue.Options.{Job}
use windowframe.Queue.Observer.{ConsumerObserver}
use windowframe.Queue.Consumer.{Action, Message, HandlerFunc, Consumer, handler}
use windowframe.Queue.Nats.Message.{
  KeyValueApi, Verdict, double_ack, nak, term, Msg, Forwarded, Handled, told, sent, handle_message,
  ack, nack, cancel, deadletter,
}

-- The bucket, what the server was told, and the state of the handlers
pub record World (Store S : Type 0) : Type 0 where
  pub store : Store
  pub verdicts : List Verdict
  pub state : S

-- A handler function of the program, which does not touch the driver
unfoldable pub lifted : {Store S : Type 0} → HandlerFunc S → HandlerFunc (World Store S)
lifted f payload w = let (s1, err) = f payload w.state in (record w { state = s1 }, err)

module _ (kv : KeyValueApi) (decode : List ℕ → Option Job) {S : Type 0}
    (answers : World kv.Store S → Option Err) where
  abbrev told_all : World kv.Store S → kv.Store × List Verdict → World kv.Store S
  told_all w (s1, vs) = record w { store = s1; verdicts = w.verdicts ++ vs }

  abbrev acked :
      World kv.Store S → kv.Store × (List Verdict × Option Err) → World kv.Store S × Option Err
  acked w (s1, (vs, err)) = (told_all w (s1, vs), err)

  -- The message that newMessage makes, with the processed log; `answers` is what the server answers.
  unfoldable pub new_message : Forwarded → Message (World kv.Store S)
  new_message f = record {
    job = f.job;
    ack = λ w. acked w (ack kv decode true (answers w) f.id w.store);
    cancel = λ w. (told_all w (cancel kv decode f.id w.store), answers w);
    nack = λ w. (told_all w (nack kv decode true f.id w.store), answers w);
    deadletter = λ w. (told_all w (deadletter kv decode f.id w.store), answers w);
    in_progress = some (λ w. (w, answers w));
  }

  module _ (retry_delay : Action (World kv.Store S) → ℕ → ℤ → Action (World kv.Store S))
      (c : Consumer (World kv.Store S)) (hub : Bool) (ticks : ℕ) where
    abbrev pub taken :
        ConsumerObserver
        → World kv.Store S
        → kv.Store × Handled
        → ConsumerObserver × World kv.Store S
    taken o w (s1, told v) = (o, told_all w (s1, v ∷ []))
    taken o w (s1, sent f) =
        (handler retry_delay c (new_message f) hub ticks (o, record w { store = s1 })).0

    -- One delivery at an instant
    unfoldable pub deliver :
        ℕ → Msg → ConsumerObserver × World kv.Store S → ConsumerObserver × World kv.Store S
    unfolding new_message
    deliver now msg (o, w) = taken o w (handle_message kv decode true now msg w.store)

    -- Deliveries of one message, at these instants, before any entry of the bucket expires
    unfoldable pub redeliver :
        List ℕ → Msg → ConsumerObserver × World kv.Store S → ConsumerObserver × World kv.Store S
    unfolding deliver
    redeliver [] msg st = st
    redeliver (now ∷ later) msg st = redeliver later msg (deliver now msg st)
