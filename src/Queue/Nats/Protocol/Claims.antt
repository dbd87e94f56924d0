-- ===== src/Queue/Nats/Protocol/Claims.antt =====
-- No id is processed twice at once, and none after it was acknowledged.
use windowframe.Prelude.{
  ℕ, suc, ◌-◌, ◌<◌, ◌≤◌, ◌≡◌, ◌≢◌, refl, String, String_comparable, ◌==◌, ==_iff, true, false,
  Option, none, some, Option-cases, inl, inr, ◌⊎◌, List, [], ◌∷◌, if◌then◌else◌, arith,
}
use windowframe.Errors.{Err}
use windowframe.Queue.Options.{Job}
use windowframe.Queue.Nats.Message.{
  KeyValueApi, CreateResult, created, key_exists, failed, Msg, Handled, handle_message, claim, ack,
  nack, cancel, deadletter, kv_state_processed, kv_state_processing,
}
use windowframe.Queue.Nats.Protocol.{
  occurrences, drop_one, World, note_sent, deliver, try_ack, do_nack, do_cancel, do_deadletter,
  abandon, Step, deliver_step, ack_step, nack_step, cancel_step, deadletter_step, abandon_step,
  Reach, here, next, start,
}

occurrences-drop_one :
    (k j : String) (l : List String)
    → occurrences j (drop_one k l) ≡ (if k == j then occurrences j l - 1 else occurrences j l)
unfolding occurrences drop_one
occurrences-drop_one k j [] = ground arith
occurrences-drop_one k j (i ∷ l) =
    ground (arith, ==_iff i k, ==_iff i j, ==_iff k j, occurrences-drop_one k j l)

module _ (kv : KeyValueApi) (decode : List ℕ → Option Job) where
  open kv use {Store, value}

  -- What holds at each id.
  pub record IsSafeAt (w : World kv decode) (k : String) : Type 0 where
    pub one_attempt : occurrences k w.in_flight ≤ 1
    pub claimed : 0 < occurrences k w.in_flight → value w.store k ≢ none
    pub one_ack : occurrences k w.done ≤ 1
    pub processed :
        0 < occurrences k w.done
        → (value w.store k ≡ some kv_state_processed) × (occurrences k w.in_flight ≡ 0)

  abbrev pub IsSafe : World kv decode → Type 0
  IsSafe w = (k : String) → IsSafeAt w k

  -- What one delivery does to the value of an id, and when it forwards it: either it forwards nothing
  -- and leaves a claimed id as it is, or it forwards an id that was not claimed, and claims it.
  abbrev Delivers : Store → Store → Handled → List String → String → Type 0
  Delivers s s' r l k =
      (occurrences k (note_sent kv decode r l) ≡ occurrences k l)
        × (value s k ≢ none → value s' k ≡ value s k)
      ⊎ (occurrences k (note_sent kv decode r l) ≡ suc (occurrences k l))
        × (value s k ≡ none)
        × (value s' k ≢ none)

  module _ (msg : Msg) (s : Store) (l : List String) (k : String) where
    claim-Delivers :
        (x : CreateResult)
        → (kv.create msg.msg_id kv_state_processing s).1 ≡ x
        → Delivers s (claim kv decode true msg s).0 (claim kv decode true msg s).1 l k
    unfolding claim occurrences
    claim-Delivers created h =
        ground (arith, kv.create-created id v s, kv.create_frame id k v s, ==_iff id k)
      where
        open msg use {msg_id as id}

        v : String
        v = kv_state_processing
    claim-Delivers key_exists h = ground (
      arith,
      (kv.create-key_exists id v s h).1,
      kv.create_frame id k v s,
      kv.get_frame id k (kv.create id v s).0,
      ==_iff id k,
    )
      where
        open msg use {msg_id as id}

        v : String
        v = kv_state_processing
    claim-Delivers failed h =
        ground (arith, kv.create-failed id v s, kv.create_frame id k v s, ==_iff id k)
      where
        open msg use {msg_id as id}

        v : String
        v = kv_state_processing

    handle_message-Delivers :
        (now : ℕ)
        → Delivers s
            (handle_message kv decode true now msg s).0
            (handle_message kv decode true now msg s).1
            l
            k
    unfolding handle_message
    handle_message-Delivers now =
        ground (arith, claim-Delivers (kv.create msg.msg_id kv_state_processing s).1 refl)

  deliver-IsSafe :
      (now : ℕ) (msg : Msg) (w : World kv decode) → IsSafe w → IsSafe (deliver kv decode now msg w)
  unfolding deliver
  deliver-IsSafe now msg w h k =
      let d = handle_message-Delivers msg w.store w.in_flight k now in
      let i = h k in
      record {
        one_attempt = ground (arith, d, i.one_attempt, i.claimed);
        claimed = ground (arith, d, i.claimed);
        one_ack = i.one_ack;
        processed = ground (arith, d, i.processed);
      }

  try_ack-IsSafe :
      (acked : Option Err) (id : String) (w : World kv decode)
      → 0 < occurrences id w.in_flight
      → IsSafe w
      → IsSafe (try_ack kv decode acked id w)
  unfolding try_ack ack occurrences
  try_ack-IsSafe acked id w held h k =
      elim (Option-cases (kv.put id kv_state_processed w.store).1) [
        | inl stored ↦ record {
          one_attempt = ground (arith, stored, dropped, here_k.one_attempt);
          claimed = ground (
            arith,
            stored,
            dropped,
            kv.put-ok id done_state w.store stored,
            other,
            ==_iff id k,
            here_k.claimed,
          );
          one_ack = ground (arith, stored, ==_iff id k, here_id.processed, here_k.one_ack);
          processed = ground (
            arith,
            stored,
            dropped,
            ==_iff id k,
            kv.put-ok id done_state w.store stored,
            other,
            here_id.one_attempt,
            here_k.processed,
          );
        }
        | inr (e, refused) ↦ record {
          one_attempt = ground (arith, refused, here_k.one_attempt);
          claimed = ground (
            arith,
            refused,
            kv.put-failed id done_state w.store e refused,
            other,
            ==_iff id k,
            here_k.claimed,
          );
          one_ack = ground (arith, refused, here_k.one_ack);
          processed =
              ground (arith, refused, other, ==_iff id k, here_id.processed, here_k.processed);
        }
      ]
    where
      here_k : IsSafeAt w k
      here_k = h k

      here_id : IsSafeAt w id
      here_id = h id

      done_state : String
      done_state = kv_state_processed

      dropped :
          occurrences k (drop_one id w.in_flight)
          ≡ (if id == k then occurrences k w.in_flight - 1 else occurrences k w.in_flight)
      dropped = occurrences-drop_one id k w.in_flight

      other : (id == k) ≡ false → value (kv.put id done_state w.store).0 k ≡ value w.store k
      other = kv.put_frame id k done_state w.store

  -- A held message that is let go, with the store changed at its own id at most.
  release-IsSafe :
      (id : String) (s : Store) (w : World kv decode)
      → 0 < occurrences id w.in_flight
      → ((k : String) → (id == k) ≡ false → value s k ≡ value w.store k)
      → IsSafe w
      → IsSafe (record w { store = s; in_flight = drop_one id w.in_flight })
  release-IsSafe id s w held other h k = record {
    one_attempt = ground (arith, dropped, here_k.one_attempt);
    claimed = ground (arith, dropped, other k, ==_iff id k, here_k.claimed, (h id).one_attempt);
    one_ack = here_k.one_ack;
    processed = ground (arith, dropped, other k, ==_iff id k, (h id).processed, here_k.processed);
  }
    where
      here_k : IsSafeAt w k
      here_k = h k

      dropped :
          occurrences k (drop_one id w.in_flight)
          ≡ (if id == k then occurrences k w.in_flight - 1 else occurrences k w.in_flight)
      dropped = occurrences-drop_one id k w.in_flight

  -- Each step keeps every id safe.
  pub Step-IsSafe : {w u : World kv decode} → Step kv decode w u → IsSafe w → IsSafe u
  unfolding do_nack do_cancel do_deadletter abandon nack cancel deadletter
  Step-IsSafe {w} (deliver_step now msg e) h = rw e (deliver-IsSafe now msg w h)
  Step-IsSafe {w} (ack_step acked id held e) h = rw e (try_ack-IsSafe acked id w held h)
  Step-IsSafe {w} (nack_step id held e) h =
      rw e (release-IsSafe id (kv.delete id w.store).0 w held (λ k. kv.delete_frame id k w.store) h)
  Step-IsSafe {w} (cancel_step id held e) h =
      rw e (release-IsSafe id w.store w held (λ k _. refl) h)
  Step-IsSafe {w} (deadletter_step id held e) h =
      rw e (release-IsSafe id w.store w held (λ k _. refl) h)
  Step-IsSafe {w} (abandon_step id held e) h =
      rw e (release-IsSafe id w.store w held (λ k _. refl) h)

  start-IsSafe : (s : Store) → IsSafe (start kv decode s)
  unfolding occurrences
  start-IsSafe s k = record {
    one_attempt = omega arith;
    claimed = λ p. absurd (omega arith);
    one_ack = omega arith;
    processed = λ p. absurd (omega arith);
  }

  -- While no claim expires, whatever the server delivers and redelivers, however calls of the bucket
  -- fail, and wherever workers crash: at most one forwarded message of an id is unsettled, its id is
  -- claimed, at most one Ack of an id returns no error, and after that the claim says processed and
  -- the id is never forwarded again.
  pub Reach-IsSafe :
      (s : Store) {w : World kv decode} → Reach kv decode (start kv decode s) w → IsSafe w
  Reach-IsSafe s here = start-IsSafe s
  Reach-IsSafe s (next r st) = Step-IsSafe st (Reach-IsSafe s r)
