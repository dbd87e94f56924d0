-- ===== src/Queue/Nats/Consume.antt =====
-- queue/nats/consumer.go: NewConsumer and Consume around handleMessage. What the client library answers is given by its errors; a
-- message that was fetched comes with the instant at which it is handled.
use windowframe.Prelude.{
  ℕ, ◌≡◌, refl, ◌∙◌, sym, Bool, true, false, Option, none, some, List, [], ◌∷◌, ◌++◌, ℤ,
}
use windowframe.Errors.{Err, wrap}
use windowframe.Queue.Nats.Message.{ConsumerOpts, with_defaults, Msg}

abbrev connected : Option Err → ConsumerOpts → Option Err × ConsumerOpts
connected (some e) opts = (some (wrap "create js instance" e), opts)
connected none opts = (none, with_defaults opts)

-- NewConsumer: its error, and the options of the consumer
unfoldable new_consumer : Option Err → Option Err → ConsumerOpts → Option Err × ConsumerOpts
new_consumer (some e) jetstream opts = (some (wrap "connect to nats" e), opts)
new_consumer none jetstream opts = connected jetstream opts

-- jetstream.ConsumerConfig and KeyValueConfig, as far as the options fill them
pub record ConsumerConfig : Type 0 where
  pub max_deliver : ℤ
  pub backoff : List ℤ
  pub ack_wait : ℤ

unfoldable consumer_config : ConsumerOpts → ConsumerConfig
consumer_config c = record {
  max_deliver = c.max_delivery;
  backoff = c.backoff;
  ack_wait = c.ack_wait;
}

pub record KeyValueConfig : Type 0 where
  pub ttl : ℤ
  pub replicas : ℤ

unfoldable key_value_config : ConsumerOpts → KeyValueConfig
key_value_config c = record { ttl = c.processed_log_ttl; replicas = c.processed_log_replicas }

abbrev wrapped : Option Err → Option Err
wrapped none = none
wrapped (some e) = some (wrap "create or update consumer" e)

abbrev with_bucket : Option Err → (ConsumerConfig → Option Err) → ConsumerOpts → Option Err
with_bucket (some e) create_consumer c = some (wrap "create processed log store" e)
with_bucket none create_consumer c = wrapped (create_consumer (consumer_config c))

abbrev with_log :
    Option Bool
    → (KeyValueConfig → Option Err)
    → (ConsumerConfig → Option Err)
    → ConsumerOpts
    → Option Err
with_log (some true) create_bucket create_consumer c =
    with_bucket (create_bucket (key_value_config c)) create_consumer c
with_log (some false) create_bucket create_consumer c =
    wrapped (create_consumer (consumer_config c))
-- the options have their defaults, so the pointer is not nil
with_log none create_bucket create_consumer c = wrapped (create_consumer (consumer_config c))

-- Consume up to its goroutine, by its error
unfoldable consume_error :
    Option Err
    → (KeyValueConfig → Option Err)
    → (ConsumerConfig → Option Err)
    → ConsumerOpts
    → Option Err
unfolding consumer_config key_value_config
consume_error (some e) create_bucket create_consumer c = some (wrap "get stream" e)
consume_error none create_bucket create_consumer c =
    with_log c.process_log_enabled create_bucket create_consumer c

-- What cons.Fetch gave
pub data Fetched : Type 0 where
  batch : List (ℕ × Msg) → Fetched
  fetch_failed : Fetched

module _ {St : Type 0} (handle : ℕ → Msg → St → St) where
  -- The loop over the messages of a batch
  unfoldable pub handle_all : List (ℕ × Msg) → St → St
  handle_all [] st = st
  handle_all ((now, msg) ∷ rest) st = handle_all rest (handle now msg st)

  -- The loop of the goroutine, over the fetches until the context is done
  unfoldable pub fetch_loop : List Fetched → St → St
  unfolding handle_all
  fetch_loop [] st = st
  fetch_loop (batch msgs ∷ rest) st = fetch_loop rest (handle_all msgs st)
  fetch_loop (fetch_failed ∷ rest) st = fetch_loop rest st

  handle_all-append :
      (xs ys : List (ℕ × Msg)) (st : St)
      → handle_all (xs ++ ys) st ≡ handle_all ys (handle_all xs st)
  unfolding handle_all
  handle_all-append [] ys st = refl
  handle_all-append ((now, msg) ∷ xs) ys st = handle_all-append xs ys (handle now msg st)

abbrev pub messages : List Fetched → List (ℕ × Msg)
messages [] = []
messages (batch msgs ∷ rest) = msgs ++ messages rest
messages (fetch_failed ∷ rest) = messages rest

-- However the messages are cut into batches, and wherever fetches fail between them, the goroutine handles each once, in
-- the order in which they were fetched.
pub fetch_loop-messages :
    {St : Type 0} (handle : ℕ → Msg → St → St) (fetches : List Fetched) (st : St)
    → fetch_loop handle fetches st ≡ handle_all handle (messages fetches) st
unfolding fetch_loop handle_all
fetch_loop-messages handle [] st = refl
fetch_loop-messages handle (batch msgs ∷ rest) st =
    fetch_loop-messages handle rest (handle_all handle msgs st)
    ∙ sym (handle_all-append handle msgs (messages rest) st)
fetch_loop-messages handle (fetch_failed ∷ rest) st = fetch_loop-messages handle rest st
