-- ===== src/Queue/Nats/Message.antt =====
-- queue/nats/consumer.go (withDefaults, handleMessage) and queue/nats/message.go. The bucket of the processed log is a
-- parameter, `KeyValueApi`: jetstream.KeyValue. What the consumer tells the server about a message is
-- a `Verdict`, kept in order; the server's answers to these are dropped by the code, but for DoubleAck,
-- whose error is a parameter of `ack`. `decode` is json.Unmarshal into a Job. Instants are nanoseconds.
use windowframe.Prelude.{
  ℕ, zero, ◌-◌, ◌*◌, ◌≡◌, ◌≢◌, String, String_comparable, ◌==◌, Bool, true, false, Option, none,
  some, ◌⊎◌, List, [], ◌∷◌, ltb, if◌then◌else◌, ℤ, pos,
}
use windowframe.Errors.{Err, wrap}
use windowframe.Queue.Options.{Job}

abbrev pub kv_state_processing : String
kv_state_processing = "processing"

abbrev pub kv_state_processed : String
kv_state_processed = "processed"

pub data CreateResult : Type 0 where
  created key_exists failed : CreateResult

-- The bucket while none of its entries reaches the TTL of KeyValueConfig. `value` is what it holds; a call that fails may have been carried out or not.
pub record KeyValueApi : Type 1 where
  pub Store : Type 0
  pub create : String → String → Store → Store × CreateResult
  pub get : String → Store → Store × Option String
  pub put : String → String → Store → Store × Option Err
  pub delete : String → Store → Store × Option Err
  pub value : Store → String → Option String
  -- Create succeeds only on a key that is not there
  pub create-created :
      (k v : String) (s : Store)
      → (create k v s).1 ≡ created
      → (value s k ≡ none) × (value (create k v s).0 k ≡ some v)
  pub create-key_exists :
      (k v : String) (s : Store)
      → (create k v s).1 ≡ key_exists
      → (value s k ≢ none) × (value (create k v s).0 k ≡ value s k)
  pub create-failed :
      (k v : String) (s : Store)
      → (create k v s).1 ≡ failed
      → (value (create k v s).0 k ≡ value s k)
        ⊎ (value s k ≡ none) × (value (create k v s).0 k ≡ some v)
  pub create_frame :
      (k j v : String) (s : Store) → (k == j) ≡ false → value (create k v s).0 j ≡ value s j
  pub get_frame : (k j : String) (s : Store) → value (get k s).0 j ≡ value s j
  pub get-some : (k v : String) (s : Store) → (get k s).1 ≡ some v → value s k ≡ some v
  pub put-ok : (k v : String) (s : Store) → (put k v s).1 ≡ none → value (put k v s).0 k ≡ some v
  pub put-failed :
      (k v : String) (s : Store) (e : Err)
      → (put k v s).1 ≡ some e
      → (value (put k v s).0 k ≡ value s k) ⊎ (value (put k v s).0 k ≡ some v)
  pub put_frame :
      (k j v : String) (s : Store) → (k == j) ≡ false → value (put k v s).0 j ≡ value s j
  pub delete_value :
      (k : String) (s : Store)
      → (value (delete k s).0 k ≡ value s k) ⊎ (value (delete k s).0 k ≡ none)
  pub delete-ok : (k : String) (s : Store) → (delete k s).1 ≡ none → value (delete k s).0 k ≡ none
  pub delete_frame :
      (k j : String) (s : Store) → (k == j) ≡ false → value (delete k s).0 j ≡ value s j

pub data Verdict : Type 0 where
  term : Verdict
  term_with_reason : String → Verdict
  nak : Verdict
  nak_with_delay : ℕ → Verdict
  double_ack : Verdict

-- The header Nak-Until: RFC 3339 with whole seconds, or text that time.Parse refuses, as that of a year above 9999.
pub data DelayedHeader : Type 0 where
  until : ℕ → DelayedHeader
  malformed : DelayedHeader

abbrev pub second : ℕ
second = 1_000_000_000

-- The largest time.Duration, at which time.Until stops
abbrev pub max_duration : ℕ
max_duration = 9_223_372_036_854_775_807

abbrev pub capped : ℕ → ℕ
capped d = if ltb max_duration d then max_duration else d

-- `t, _ := time.Parse(...)`: the zero time if that fails
abbrev pub parsed : DelayedHeader → ℕ
parsed (until seconds) = seconds * second
parsed malformed = 0

-- jetstream.Msg as the code reads it; a missing Nats-Msg-Id reads as the empty text.
pub record Msg : Type 0 where
  pub msg_id : String
  pub delayed : Option DelayedHeader
  pub body : List ℕ

-- What newMessage wraps: the job and the id that the consumer claimed.
pub record Forwarded : Type 0 where
  pub job : Job
  pub id : String

-- The outcome of one delivery: the calls on the message, or the message that goes to the channel.
pub data Handled : Type 0 where
  told : Verdict → Handled
  sent : Forwarded → Handled

module _ (kv : KeyValueApi) (decode : List ℕ → Option Job) where
  open kv use {Store, create, get, put, delete}

  abbrev forward : String → Option Job → Handled
  forward id none = told nak
  forward id (some job) = sent (record { job = job; id = id })

  -- The id is claimed already: Term only if the value says that it was processed.
  abbrev pub claimed_already : Option String → Handled
  claimed_already none = told nak
  claimed_already (some v) =
      if v == kv_state_processed
      then told (term_with_reason "message already processed")
      else told nak

  after_create : Msg → Store × CreateResult → Store × Handled
  after_create msg (s, created) = (s, forward msg.msg_id (decode msg.body))
  after_create msg (s, key_exists) = let (s1, v) = get msg.msg_id s in (s1, claimed_already v)
  after_create msg (s, failed) = (s, told nak)

  unfoldable pub claim : Bool → Msg → Store → Store × Handled
  unfolding after_create
  claim true msg s = after_create msg (create msg.msg_id kv_state_processing s)
  claim false msg s = (s, forward msg.msg_id (decode msg.body))

  abbrev pub wait_or_claim :
      ℕ → Option DelayedHeader → (Store → Store × Handled) → Store → Store × Handled
  wait_or_claim now none k s = k s
  wait_or_claim now (some h) k s =
      if ltb now (parsed h) then (s, told (nak_with_delay (capped (parsed h - now)))) else k s

  -- handleMessage; `log_enabled` is *ProcessLogEnabled, and the store is there when it is set.
  unfoldable pub handle_message : Bool → ℕ → Msg → Store → Store × Handled
  unfolding claim
  handle_message log_enabled now msg s =
      if msg.msg_id == ""
      then (s, told (term_with_reason "message has no id"))
      else wait_or_claim now msg.delayed (claim log_enabled msg) s

  abbrev pub after_put : Option Err → Store × Option Err → Store × (List Verdict × Option Err)
  after_put acked (s, some e) = (s, ([], some (wrap "mark processed" e)))
  after_put acked (s, none) = (s, (double_ack ∷ [], acked))

  -- message.Ack; `acked` is the error of DoubleAck.
  unfoldable pub ack : Bool → Option Err → String → Store → Store × (List Verdict × Option Err)
  ack true acked id s = after_put acked (put id kv_state_processed s)
  ack false acked id s = (s, (double_ack ∷ [], acked))

  -- message.Nack: an error of Delete is dropped.
  unfoldable pub nack : Bool → String → Store → Store × List Verdict
  nack true id s = ((delete id s).0, nak ∷ [])
  nack false id s = (s, nak ∷ [])

  -- message.Cancel and message.Deadletter
  unfoldable pub cancel : String → Store → Store × List Verdict
  cancel id s = (s, term ∷ [])

  unfoldable pub deadletter : String → Store → Store × List Verdict
  deadletter id s = (s, term_with_reason "deadlettered" ∷ [])

-- ConsumerOpts without the connection; withDefaults, durations in nanoseconds.
pub record ConsumerOpts : Type 0 where
  pub backoff : List ℤ
  pub max_delivery : ℤ
  pub ack_wait : ℤ
  pub batch_size : ℤ
  pub fetch_max_wait : ℤ
  pub process_log_enabled : Option Bool
  pub processed_log_ttl : ℤ
  pub processed_log_replicas : ℤ

abbrev or_default : ℤ → ℤ → ℤ
or_default (pos zero) d = d
or_default x d = x

abbrev or_backoff : List ℤ → List ℤ
or_backoff [] = pos 500_000_000 ∷ pos 1_000_000_000 ∷ pos 3_000_000_000 ∷ []
or_backoff b = b

abbrev or_true : Option Bool → Option Bool
or_true none = some true
or_true b = b

unfoldable pub with_defaults : ConsumerOpts → ConsumerOpts
with_defaults c = record {
  backoff = or_backoff c.backoff;
  max_delivery = or_default c.max_delivery (pos 25);
  ack_wait = or_default c.ack_wait (pos 60_000_000_000);
  batch_size = or_default c.batch_size (pos 100);
  fetch_max_wait = or_default c.fetch_max_wait (pos 1_000_000_000);
  process_log_enabled = or_true c.process_log_enabled;
  processed_log_ttl = or_default c.processed_log_ttl (pos 3_600_000_000_000);
  processed_log_replicas = or_default c.processed_log_replicas (pos 3);
}
