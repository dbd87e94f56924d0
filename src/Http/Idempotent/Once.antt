-- ===== src/Http/Idempotent/Once.antt =====
-- http/middleware/idempotent.go: the handler runs once for a key.
use windowframe.Prelude.{
  ℕ, zero, suc, String, String_comparable, ◌≡◌, refl, ◌∙◌, true, false, Bool-cases, Option, none,
  some, inl, inr, List,
}
use windowframe.Errors.{Err, is_error, idempotent_missing, idempotent_locked}
use windowframe.Http.Idempotent.{
  WriterCall, ResponseRecorder, new_recorder, record_calls, GetResult, cached_response, get_failed,
  IdempotencyStore, Served, after_get, serve_key, replayed,
}

-- What the comments of the interface ask of a store, by what it holds: `cached` is the response of
-- each key. No key expires here. Any call may fail.
pub record IsStore {St : Type 0} (api : IdempotencyStore St)
    (cached : St → String → Option (List ℕ)) : Type 0 where
  -- ErrIdempotentMissing is returned only if nothing is in the cache
  pub get-missing :
      (k : String) (s : St) (e : Err)
      → (api.get k s).1 ≡ get_failed e
      → is_error idempotent_missing e ≡ true
      → cached s k ≡ none
  pub cached-get : (k j : String) (s : St) → cached (api.get k s).0 j ≡ cached s j
  pub cached-lock : (k j : String) (s : St) → cached (api.lock k s).0 j ≡ cached s j
  pub cached-unlock : (k j : String) (s : St) → cached (api.unlock k s).0 j ≡ cached s j
  pub store-ok :
      (k : String) (b : List ℕ) (s : St)
      → (api.store k b s).1 ≡ none
      → cached s k ≡ none
      → cached (api.store k b s).0 k ≡ some b

module _ {St A : Type 0} (api : IdempotencyStore St) (marshal : ResponseRecorder → Option (List ℕ))
    (unmarshal : List ℕ → Option ResponseRecorder) (json_error : Err) (unwrap_error : Option Err)
    (next : A → A × Served) (key : String) where
  abbrev serve : St × A → (St × A) × Served
  serve = serve_key api marshal unmarshal json_error unwrap_error next key

  -- The requests with the key, one after another.
  unfoldable pub run_times : ℕ → St × A → St × A
  run_times zero st = st
  run_times (suc n) st = run_times n (serve st).0

module _ {St A : Type 0} (api : IdempotencyStore St) (cached : St → String → Option (List ℕ))
    (laws : IsStore api cached) (marshal : ResponseRecorder → Option (List ℕ))
    (unmarshal : List ℕ → Option ResponseRecorder) (json_error : Err) (unwrap_error : Option Err)
    (next : A → A × Served) (key : String) where
  abbrev run : St × A → (St × A) × Served
  run = serve api marshal unmarshal json_error unwrap_error next key

  abbrev runs : ℕ → St × A → St × A
  runs = run_times api marshal unmarshal json_error unwrap_error next key

  replayed_state :
      (u : Option Err) (r : Option ResponseRecorder) (st : St × A)
      → (replayed api marshal unmarshal json_error unwrap_error next u r st).0 ≡ st
  replayed_state u none st = refl
  replayed_state none (some r) st = refl
  replayed_state (some e) (some r) st = refl

  after_get_state :
      (a : A) (s : St) (g : GetResult)
      → ((e : Err) → g ≡ get_failed e → is_error idempotent_missing e ≡ false)
      → (after_get api marshal unmarshal json_error unwrap_error next key a (s, g)).0 ≡ (s, a)
  after_get_state a s (cached_response bytes) h =
      replayed_state unwrap_error (unmarshal bytes) (s, a)
  after_get_state a s (get_failed e) h = rw (h e refl) refl

  present :
      (s : St) (b : List ℕ) (e : Err)
      → cached s key ≡ some b
      → (api.get key s).1 ≡ get_failed e
      → is_error idempotent_missing e ≡ false
  present s b e h g = elim (Bool-cases (is_error idempotent_missing e)) [
    | inl missing ↦ cc (laws.get-missing key s e g missing)
    | inr other ↦ other
  ]

  -- A request that finds its response in the cache leaves the application alone and the cache as it
  -- is, whichever calls of the store fail.
  run-cached :
      (s : St) (a : A) (b : List ℕ)
      → cached s key ≡ some b
      → ((run (s, a)).0.1 ≡ a) × (cached (run (s, a)).0.0 key ≡ some b)
  unfolding serve_key
  run-cached s a b h = by_lock (api.lock key s).1 refl
    where
      s1 : St
      s1 = (api.lock key s).0

      kept : cached s1 key ≡ some b
      kept = laws.cached-lock key key s ∙ h

      state :
          (after_get api marshal unmarshal json_error unwrap_error next key a (api.get key s1)).0
          ≡ ((api.get key s1).0, a)
      state = after_get_state a (api.get key s1).0 (api.get key s1).1 (λ e g. present s1 b e kept g)

      by_lock :
          (l : Option Err)
          → (api.lock key s).1 ≡ l
          → ((run (s, a)).0.1 ≡ a) × (cached (run (s, a)).0.0 key ≡ some b)
      by_lock none e =
          rw (e, state)
            (
              refl,
              laws.cached-unlock key key (api.get key s1).0 ∙ laws.cached-get key key s1 ∙ kept,
            )
      by_lock (some x) e = elim (Bool-cases (is_error idempotent_locked x)) [
        | inl locked ↦ rw (e, locked) (refl, kept)
        | inr other ↦ rw (e, other) (refl, kept)
      ]

  run_times-cached :
      (n : ℕ) (s : St) (a : A) (b : List ℕ) → cached s key ≡ some b → (runs n (s, a)).1 ≡ a
  unfolding run_times
  run_times-cached zero s a b h = refl
  run_times-cached (suc n) s a b h =
      let (same, kept) = run-cached s a b h in
      run_times-cached n (run (s, a)).0.0 (run (s, a)).0.1 b kept ∙ same

  -- The state and the response of a first request that went through.
  pub first_request :
      (s : St) (a : A) (calls : List WriterCall) (bytes : List ℕ)
      → cached s key ≡ none
      → unwrap_error ≡ none
      → (api.lock key s).1 ≡ none
      → (e : Err) → (api.get key (api.lock key s).0).1 ≡ get_failed e
      → is_error idempotent_missing e ≡ true
      → (next a).1 ≡ (calls, none)
      → marshal (record_calls calls new_recorder).0 ≡ some bytes
      → (api.store key bytes (api.get key (api.lock key s).0).0).1 ≡ none
      → ((run (s, a)).0.1 ≡ (next a).0) × (cached (run (s, a)).0.0 key ≡ some bytes)
  unfolding serve_key
  first_request s a calls bytes empty unwrapped locked e missing is_missing ran encoded saved =
      rw (locked, missing, is_missing, unwrapped, ran, encoded, saved)
        (refl, laws.cached-unlock key key _ ∙ laws.store-ok key bytes _ saved was_empty)
    where
      was_empty : cached (api.get key (api.lock key s).0).0 key ≡ none
      was_empty = laws.cached-get key key _ ∙ laws.cached-lock key key s ∙ empty

  -- A first request whose key is not cached takes the lock, is told that the response is missing, runs
  -- the handler without an error and stores the response. Then that request and any number of further
  -- requests with the key have, together, run the handler once: the application is in the state that
  -- one run gives. Calls of the store may fail in the further requests, and all of them come before the stored
  -- response expires: behind its TTL, a day by default, a request runs the handler again.
  pub handler_runs_once :
      (s : St) (a : A) (calls : List WriterCall) (bytes : List ℕ)
      → cached s key ≡ none
      → unwrap_error ≡ none
      → (api.lock key s).1 ≡ none
      → (e : Err) → (api.get key (api.lock key s).0).1 ≡ get_failed e
      → is_error idempotent_missing e ≡ true
      → (next a).1 ≡ (calls, none)
      → marshal (record_calls calls new_recorder).0 ≡ some bytes
      → (api.store key bytes (api.get key (api.lock key s).0).0).1 ≡ none
      → (n : ℕ) → (runs (suc n) (s, a)).1 ≡ (next a).0
  unfolding run_times
  handler_runs_once s a calls bytes empty unwrapped locked e missing is_missing ran encoded saved
        n =
      let (state, kept) =
        first_request s a calls bytes empty unwrapped locked e missing is_missing ran encoded
          saved in
      run_times-cached n (run (s, a)).0.0 (run (s, a)).0.1 bytes kept ∙ state
