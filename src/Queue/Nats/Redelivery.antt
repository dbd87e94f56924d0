-- ===== src/Queue/Nats/Redelivery.antt =====
-- What happens to a message that is delivered again (queue/nats/consumer.go, queue/nats/message.go).
use windowframe.Prelude.{
  ℕ, ◌≡◌, ◌≢◌, refl, String, String_comparable, ◌==◌, ==_iff, true, false, Bool-cases, inl, inr,
  Option, Option-cases, none, some, List, arith, ◌≤◌,
}
use windowframe.Queue.Options.{Job}
use windowframe.Queue.Nats.Message.{
  KeyValueApi, created, key_exists, failed, CreateResult, Msg, told, sent, nak, handle_message,
  wait_or_claim, claim, nack, kv_state_processed, kv_state_processing, DelayedHeader, parsed,
}

-- A delivery that comes due: it has an id, and is not held back by its header.
abbrev pub IsDue : ℕ → Option DelayedHeader → Type 0
IsDue now none = Unit
IsDue now (some h) = parsed h ≤ now

states_differ : (kv_state_processing == kv_state_processed) ≡ false
states_differ = refl

module _ (kv : KeyValueApi) (decode : List ℕ → Option Job) (now : ℕ) (msg : Msg)
    (s : kv.Store) where
  open kv use {value}

  wait_or_claim_due :
      (d : Option DelayedHeader)
      → IsDue now d
      → wait_or_claim kv decode now d (claim kv decode true msg) s ≡ claim kv decode true msg s
  wait_or_claim_due none due = refl
  wait_or_claim_due (some h) due = ground arith

  pub due_claims :
      msg.msg_id ≢ ""
      → IsDue now msg.delayed
      → handle_message kv decode true now msg s ≡ claim kv decode true msg s
  unfolding handle_message
  due_claims named due = elim (Bool-cases (msg.msg_id == "")) [
    | inl missing ↦ absurd (named ((==_iff msg.msg_id "").0 missing))
    | inr present ↦ rw present (wait_or_claim_due msg.delayed due)
  ]

  -- What the code does with an id that is claimed already, by what the bucket holds under it.
  claim_existing :
      (v : String)
      → (kv.create msg.msg_id kv_state_processing s).1 ≡ key_exists
      → value s msg.msg_id ≡ some v
      → (v == kv_state_processed) ≡ false
      → (claim kv decode true msg s).1 ≡ told nak
  unfolding claim
  claim_existing v h held other =
      elim (Option-cases (kv.get msg.msg_id (kv.create msg.msg_id kv_state_processing s).0).1) [
        | inl gone ↦ ground arith
        | inr (w, read) ↦
            let kept = (kv.create-key_exists msg.msg_id kv_state_processing s h).1 in
            let seen =
              kv.get-some msg.msg_id w (kv.create msg.msg_id kv_state_processing s).0 read in
            ground (arith, kept, seen)
      ]

  claim_held :
      (x : CreateResult)
      → (kv.create msg.msg_id kv_state_processing s).1 ≡ x
      → value s msg.msg_id ≡ some kv_state_processing
      → ((claim kv decode true msg s).1 ≡ told nak)
        × (value (claim kv decode true msg s).0 msg.msg_id ≡ some kv_state_processing)
  claim_held created h held = cc ((kv.create-created msg.msg_id kv_state_processing s h).0)
  claim_held key_exists h held = (
    claim_existing kv_state_processing h held states_differ,
    unfold claim in
        ground (
          arith,
          kv.create-key_exists msg.msg_id kv_state_processing s h,
          kv.get_frame msg.msg_id msg.msg_id (kv.create msg.msg_id kv_state_processing s).0,
        ),
  )
  claim_held failed h held =
      unfold claim in ground (arith, kv.create-failed msg.msg_id kv_state_processing s h)

  -- A due redelivery of an id whose claim says processing is nacked, so that it can come again, and
  -- is neither terminated nor forwarded; the claim stays. This holds when the bucket's calls fail too.
  pub redelivery_in_flight :
      msg.msg_id ≢ ""
      → IsDue now msg.delayed
      → value s msg.msg_id ≡ some kv_state_processing
      → ((handle_message kv decode true now msg s).1 ≡ told nak)
        × (value (handle_message kv decode true now msg s).0 msg.msg_id ≡ some kv_state_processing)
  redelivery_in_flight named due held =
      rw (due_claims named due)
        (claim_held (kv.create msg.msg_id kv_state_processing s).1 refl held)

  pub claim_unclaimed :
      (x : CreateResult) (job : Job)
      → (kv.create msg.msg_id kv_state_processing s).1 ≡ x
      → x ≢ failed
      → value s msg.msg_id ≡ none
      → decode msg.body ≡ some job
      → (claim kv decode true msg s).1 ≡ sent (record { job = job; id = msg.msg_id })
  unfolding claim
  claim_unclaimed created job h ok free parsed_job = ground arith
  claim_unclaimed key_exists job h ok free parsed_job =
      absurd ((kv.create-key_exists msg.msg_id kv_state_processing s h).0 free)
  claim_unclaimed failed job h ok free parsed_job = absurd (ok refl)

  -- Once Nack has released the claim (its Delete returned no error), a due redelivery of the message
  -- is forwarded again, unless Create fails for another reason than an existing key.
  pub redelivery_after_nack :
      (before : kv.Store) (job : Job)
      → s ≡ (nack kv decode true msg.msg_id before).0
      → (kv.delete msg.msg_id before).1 ≡ none
      → msg.msg_id ≢ ""
      → IsDue now msg.delayed
      → decode msg.body ≡ some job
      → (kv.create msg.msg_id kv_state_processing s).1 ≢ failed
      → (handle_message kv decode true now msg s).1 ≡ sent (record { job = job; id = msg.msg_id })
  unfolding nack
  redelivery_after_nack before job nacked released named due parsed_job ok =
      rw (due_claims named due) (
        claim_unclaimed (kv.create msg.msg_id kv_state_processing s).1 job refl ok
          (rw nacked (kv.delete-ok msg.msg_id before released)) parsed_job)
