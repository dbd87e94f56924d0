-- ===== src/Queue/Nats/Delivery/Once.antt =====
-- A job that was handled once is not handled again, however often the server delivers its message.
use windowframe.Prelude.{
  ℕ, zero, suc, ℤ, ◌≡◌, ◌≢◌, refl, ap, ◌∙◌, String_comparable, Bool, true, inl, inr, Option,
  Option-cases, none, some, List, [], ◌∷◌, lookup,
}
use windowframe.Errors.{Err}
use windowframe.Queue.Options.{Job}
use windowframe.Queue.Observer.{ConsumerObserver}
use windowframe.Queue.Consumer.{
  Action, Message, HandlerFunc, Consumer, heartbeat, heartbeat_if, dispatch, settle, handler,
}
use windowframe.Queue.Consumer.Settles.{IsRetryDelay}
use windowframe.Queue.Nats.Message.{
  KeyValueApi, created, Msg, Forwarded, Handled, told, sent, claim, handle_message,
  kv_state_processing, kv_state_processed,
}
use windowframe.Queue.Nats.Redelivery.{IsDue, due_claims}
use windowframe.Queue.Nats.Delivery.{World, lifted, new_message, taken, deliver, redeliver}
use windowframe.Queue.Nats.Delivery.Processed.{
  IsTold, sent_told, handle_message-IsTold, ack_store, put-Processed,
}

-- If an action that is tried keeps a property, so do its repetitions; and the first try establishes it.
module _ {S : Type 0} (retry : Action S → ℕ → ℤ → Action S) (retries : IsRetryDelay retry) where
  retry_keeps :
      {P : S → Type 0} (f : Action S) (d : ℤ) (s : S)
      → ((s : S) → P s → P (f s).0)
      → P (f s).0
      → P (retry f 3 d s).0
  retry_keeps {P = P} f d s keeps first = elim (Option-cases (f s).1) [
    | inl ok1 ↦ rw (retries.ok f 2 d s ok1) first
    | inr (e1, bad1) ↦ rw (retries.again f 1 d s e1 bad1) (elim (Option-cases (f (f s).0).1) [
      | inl ok2 ↦ rw (retries.ok f 1 d (f s).0 ok2) (keeps _ first)
      | inr (e2, bad2) ↦
          rw (retries.again f 0 d (f s).0 e2 bad2, retries.last f d (f (f s).0).0)
            (keeps _ (keeps _ first))
    ])
  ]

module _ (kv : KeyValueApi) (decode : List ℕ → Option Job) {S : Type 0}
    (answers : World kv.Store S → Option Err)
    (retry_delay : Action (World kv.Store S) → ℕ → ℤ → Action (World kv.Store S))
    (retries : IsRetryDelay retry_delay) (c : Consumer (World kv.Store S)) (hub : Bool) (ticks : ℕ)
    (msg : Msg) where
  -- The message is processed, and the handlers' state is `r`.
  abbrev pub IsFinal : S → World kv.Store S → Type 0
  IsFinal r w = (kv.value w.store msg.msg_id ≡ some kv_state_processed) × (w.state ≡ r)

  again :
      (now : ℕ) (r : S) (o : ConsumerObserver) (w : World kv.Store S)
      → IsFinal r w
      → IsFinal r (deliver kv decode answers retry_delay c hub ticks now msg (o, w)).1
  unfolding deliver
  again now r o w (done, same) =
      by_word (handle_message kv decode true now msg w.store)
        (handle_message-IsTold kv decode now msg w.store done)
    where
      by_word :
          (h : kv.Store × Handled)
          → IsTold h.1 × (kv.value h.0 msg.msg_id ≡ some kv_state_processed)
          → IsFinal r (taken kv decode answers retry_delay c hub ticks o w h).1
      by_word (s1, told v) (word, kept) = (kept, same)
      by_word (s1, sent f) ((v, e), kept) = absurd (sent_told f v e)

  redeliver-IsFinal :
      (later : List ℕ) (r : S) (st : ConsumerObserver × World kv.Store S)
      → IsFinal r st.1
      → IsFinal r (redeliver kv decode answers retry_delay c hub ticks later msg st).1
  unfolding redeliver
  redeliver-IsFinal [] r st final = final
  redeliver-IsFinal (now ∷ later) r st final =
      redeliver-IsFinal later r _ (again now r st.0 st.1 final)

  heartbeat_same : (n : ℕ) (w : World kv.Store S) → heartbeat n (λ w. (w, answers w)) w ≡ w
  unfolding heartbeat
  heartbeat_same zero w = refl
  heartbeat_same (suc n) w = heartbeat_same n w

  acked-IsFinal :
      (f : Forwarded) (r : S) (w : World kv.Store S)
      → f.id ≡ msg.msg_id
      → kv.value (kv.put msg.msg_id kv_state_processed w.store).0 msg.msg_id
        ≡ some kv_state_processed
      → w.state ≡ r
      → IsFinal r ((new_message kv decode answers f).ack w).0
  unfolding new_message
  acked-IsFinal f r w named written same = (
    ap (λ s. kv.value s msg.msg_id)
          (ack_store kv decode (answers w) f.id w.store
            ∙ ap (λ i. (kv.put i kv_state_processed w.store).0) named)
        ∙ written,
    same,
  )

  handled-IsFinal :
      (job : Job) (g : HandlerFunc S) (o : ConsumerObserver) (w : World kv.Store S)
      → lookup job.task c.handlers ≡ some (lifted g)
      → (g job.payload w.state).1 ≡ none
      → (kv.put msg.msg_id kv_state_processed w.store).1 ≡ none
      → IsFinal
          (g job.payload w.state).0
          (handler retry_delay c
            (new_message kv decode answers (record { job = job; id = msg.msg_id }))
            hub
            ticks
            (o, w)).0.1
  unfolding handler dispatch settle heartbeat_if lifted new_message
  handled-IsFinal job g o w found good written =
      rw (found, heartbeat_same ticks w, good)
        (retry_keeps retry_delay retries {P = IsFinal r} message.ack c.opts.ack_backoff
          (record w { state = r })
          (λ s final.
            acked-IsFinal forwarded r s refl (put-Processed kv decode msg.msg_id s.store final.0)
              final.1)
          (acked-IsFinal forwarded r (record w { state = r }) refl
            (kv.put-ok msg.msg_id kv_state_processed w.store written) refl))
    where
      r : S
      r = (g job.payload w.state).0

      forwarded : Forwarded
      forwarded = record { job = job; id = msg.msg_id }

      message : Message (World kv.Store S)
      message = new_message kv decode answers forwarded

  -- A message whose job was handled without an error, and whose id was then marked as processed, is not handled
  -- again: whatever deliveries follow, at whatever instants and whether or not the server got the acknowledgement,
  -- the handlers' state stays as that one run left it, and the id stays marked. The first delivery finds the id
  -- unclaimed, claims it, and the first Put of the processed log returns no error. This is so while no entry of the bucket
  -- expires, that is for the ProcessedLogTTL, an hour by default: behind it the id is unmarked and may be handled again.
  pub redeliver-deliver :
      (now : ℕ) (later : List ℕ) (job : Job) (g : HandlerFunc S) (o : ConsumerObserver)
      (w : World kv.Store S)
      → msg.msg_id ≢ ""
      → IsDue now msg.delayed
      → decode msg.body ≡ some job
      → (kv.create msg.msg_id kv_state_processing w.store).1 ≡ created
      → lookup job.task c.handlers ≡ some (lifted g)
      → (g job.payload w.state).1 ≡ none
      → (kv.put msg.msg_id kv_state_processed
          (kv.create msg.msg_id kv_state_processing w.store).0).1
        ≡ none
      → IsFinal
          (g job.payload w.state).0
          (redeliver kv decode answers retry_delay c hub ticks later msg
            (deliver kv decode answers retry_delay c hub ticks now msg (o, w))).1
  redeliver-deliver now later job g o w named due parsed_job fresh found good written =
      redeliver-IsFinal later _ _
        (rw (delivered) (handled-IsFinal job g o (record w { store = claimed }) found good written))
    where
      claimed : kv.Store
      claimed = (kv.create msg.msg_id kv_state_processing w.store).0

      message : Message (World kv.Store S)
      message = new_message kv decode answers (record { job = job; id = msg.msg_id })

      delivered :
          deliver kv decode answers retry_delay c hub ticks now msg (o, w)
          ≡ (handler retry_delay c message hub ticks (o, record w { store = claimed })).0
      delivered =
          unfold deliver claim in
          (ap (taken kv decode answers retry_delay c hub ticks o w)
              (due_claims kv decode now msg w.store named due)
            ∙ rw (fresh, parsed_job) refl)
