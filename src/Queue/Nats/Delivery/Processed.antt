-- ===== src/Queue/Nats/Delivery/Processed.antt =====
-- A delivery of a message whose id is marked as processed, and what Ack keeps of the mark (queue/nats/consumer.go,
-- queue/nats/message.go).
use windowframe.Prelude.{
  ℕ, ◌≡◌, ◌≢◌, refl, sym, ◌∙◌, String, String_comparable, ◌==◌, Bool, Bool-cases, true, false, inl,
  inr, Option, Option-cases, none, some, List, ltb, if◌then◌else◌,
}
use mathlib.Core.Option.{none-ne-some}
use windowframe.Errors.{Err}
use windowframe.Queue.Options.{Job}
use windowframe.Queue.Nats.Message.{
  KeyValueApi, CreateResult, created, key_exists, failed, Verdict, Msg, Forwarded, Handled, told,
  sent, DelayedHeader, parsed, claimed_already, wait_or_claim, claim, handle_message, after_put,
  ack, kv_state_processing, kv_state_processed,
}

-- The delivery ends with a word to the server.
abbrev pub IsTold : Handled → Type 0
IsTold h = (v : Verdict) × (h ≡ told v)

pub sent_told : (f : Forwarded) (v : Verdict) → sent f ≢ told v
sent_told f v e = cc

if-IsTold : (b : Bool) (v w : Verdict) → IsTold (if b then told v else told w)
if-IsTold true v w = (v, refl)
if-IsTold false v w = (w, refl)

module _ (kv : KeyValueApi) (decode : List ℕ → Option Job) where
  abbrev pub Processed : String → kv.Store → Type 0
  Processed id s = kv.value s id ≡ some kv_state_processed

  claimed_already-IsTold : (v : Option String) → IsTold (claimed_already kv decode v)
  claimed_already-IsTold none = (_, refl)
  claimed_already-IsTold (some v) = if-IsTold (v == kv_state_processed) _ _

  claim-Processed :
      (msg : Msg) (s : kv.Store) (x : CreateResult)
      → (kv.create msg.msg_id kv_state_processing s).1 ≡ x
      → Processed msg.msg_id s
      → IsTold (claim kv decode true msg s).1 × Processed msg.msg_id (claim kv decode true msg s).0
  unfolding claim
  claim-Processed msg s created h done =
      absurd (none-ne-some _ (sym (kv.create-created msg.msg_id kv_state_processing s h).0 ∙ done))
  claim-Processed msg s key_exists h done = rw h (
    claimed_already-IsTold (kv.get msg.msg_id (kv.create msg.msg_id kv_state_processing s).0).1,
    kv.get_frame msg.msg_id msg.msg_id _
        ∙ (kv.create-key_exists msg.msg_id kv_state_processing s h).1
        ∙ done,
  )
  claim-Processed msg s failed h done = rw h ((_, refl), still)
    where
      still : Processed msg.msg_id (kv.create msg.msg_id kv_state_processing s).0
      still = elim (kv.create-failed msg.msg_id kv_state_processing s h) [
        | inl kept ↦ kept ∙ done
        | inr (free, written) ↦ absurd (none-ne-some _ (sym free ∙ done))
      ]

  -- A message whose id is processed is not forwarded, and its id stays processed.
  pub handle_message-IsTold :
      (now : ℕ) (msg : Msg) (s : kv.Store)
      → Processed msg.msg_id s
      → IsTold (handle_message kv decode true now msg s).1
        × Processed msg.msg_id (handle_message kv decode true now msg s).0
  unfolding handle_message
  handle_message-IsTold now msg s done = elim (Bool-cases (msg.msg_id == "")) [
    | inl missing ↦ rw missing ((_, refl), done)
    | inr present ↦ rw present (waits msg.delayed)
  ]
    where
      waits :
          (d : Option DelayedHeader)
          → IsTold (wait_or_claim kv decode now d (claim kv decode true msg) s).1
            × Processed msg.msg_id (wait_or_claim kv decode now d (claim kv decode true msg) s).0
      waits none = claim-Processed msg s _ refl done
      waits (some d) = elim (Bool-cases (ltb now (parsed d))) [
        | inl early ↦ rw early ((_, refl), done)
        | inr due ↦ rw due (claim-Processed msg s _ refl done)
      ]

  pub ack_store :
      (a : Option Err) (id : String) (s : kv.Store)
      → (ack kv decode true a id s).0 ≡ (kv.put id kv_state_processed s).0
  unfolding ack
  ack_store a id s = by_answer (kv.put id kv_state_processed s)
    where
      by_answer : (r : kv.Store × Option Err) → (after_put kv decode a r).0 ≡ r.0
      by_answer (s1, none) = refl
      by_answer (s1, some e) = refl

  pub put-Processed :
      (id : String) (s : kv.Store)
      → Processed id s
      → Processed id (kv.put id kv_state_processed s).0
  put-Processed id s done = elim (Option-cases (kv.put id kv_state_processed s).1) [
    | inl ok ↦ kv.put-ok id kv_state_processed s ok
    | inr (e, bad) ↦ elim (kv.put-failed id kv_state_processed s e bad) [
      | inl kept ↦ kept ∙ done
      | inr written ↦ written
    ]
  ]
