-- ===== src/Queue/Nats/Protocol.antt =====
-- The processed log of queue/nats as a protocol: any number of consumers share the bucket, the server
-- delivers and redelivers messages as it likes, and each forwarded message is settled later or never.
-- No claim expires here (ProcessedLogTTL is taken as long enough), and the log is enabled.
pub mod Claims
use windowframe.Prelude.{
  ℕ, suc, ◌-◌, ◌≡◌, String, String_comparable, ◌==◌, true, Option, none, some, List, [], ◌∷◌,
  if◌then◌else◌, ◌<◌,
}
use windowframe.Errors.{Err}
use windowframe.Queue.Options.{Job}
use windowframe.Queue.Nats.Message.{
  KeyValueApi, Msg, Handled, told, sent, handle_message, ack, nack, cancel, deadletter,
}

-- How often the id stands in the list.
unfoldable pub occurrences : String → List String → ℕ
occurrences k [] = 0
occurrences k (j ∷ l) = if j == k then suc (occurrences k l) else occurrences k l

-- The list without the first place of the id.
unfoldable pub drop_one : String → List String → List String
drop_one k [] = []
drop_one k (j ∷ l) = if j == k then l else j ∷ drop_one k l

module _ (kv : KeyValueApi) (decode : List ℕ → Option Job) where
  -- The bucket; the ids of the messages that were forwarded and are not settled; the ids whose Ack
  -- has returned no error.
  pub record World : Type 0 where
    pub store : kv.Store
    pub in_flight : List String
    pub done : List String

  abbrev pub note_sent : Handled → List String → List String
  note_sent (told v) l = l
  note_sent (sent f) l = f.id ∷ l

  unfoldable pub deliver : ℕ → Msg → World → World
  deliver now msg w =
      let (s, r) = handle_message kv decode true now msg w.store in
      record w { store = s; in_flight = note_sent r w.in_flight }

  abbrev note_acked : Option Err → String → World → World
  note_acked none id w = record w { in_flight = drop_one id w.in_flight; done = id ∷ w.done }
  note_acked (some e) id w = w

  -- One call of Ack; after an error the message is still held, and Ack may be called again.
  unfoldable pub try_ack : Option Err → String → World → World
  try_ack acked id w =
      let (s, r) = ack kv decode true acked id w.store in note_acked r.1 id (record w { store = s })

  unfoldable pub do_nack : String → World → World
  do_nack id w = record w {
    store = (nack kv decode true id w.store).0;
    in_flight = drop_one id w.in_flight;
  }

  unfoldable pub do_cancel : String → World → World
  do_cancel id w = record w {
    store = (cancel kv decode id w.store).0;
    in_flight = drop_one id w.in_flight;
  }

  unfoldable pub do_deadletter : String → World → World
  do_deadletter id w = record w {
    store = (deadletter kv decode id w.store).0;
    in_flight = drop_one id w.in_flight;
  }

  -- A worker that crashes, or whose Ack has failed for the last time.
  unfoldable pub abandon : String → World → World
  abandon id w = record w { in_flight = drop_one id w.in_flight }

  pub data Step (w u : World) : Type 0 where
    deliver_step : (now : ℕ) (msg : Msg) → u ≡ deliver now msg w → Step w u
    ack_step :
        (acked : Option Err) (id : String)
        → 0 < occurrences id w.in_flight
        → u ≡ try_ack acked id w
        → Step w u
    nack_step : (id : String) → 0 < occurrences id w.in_flight → u ≡ do_nack id w → Step w u
    cancel_step : (id : String) → 0 < occurrences id w.in_flight → u ≡ do_cancel id w → Step w u
    deadletter_step :
        (id : String) → 0 < occurrences id w.in_flight → u ≡ do_deadletter id w → Step w u
    abandon_step : (id : String) → 0 < occurrences id w.in_flight → u ≡ abandon id w → Step w u

  pub data Reach (w : World) : World → Type 0 where
    here : Reach w w
    next : {u v : World} → Reach w u → Step u v → Reach w v

  -- A bucket with any stale claims, and nothing forwarded yet.
  abbrev pub start : kv.Store → World
  start s = record { store = s; in_flight = []; done = [] }
