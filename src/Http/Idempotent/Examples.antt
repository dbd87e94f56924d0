-- ===== src/Http/Idempotent/Examples.antt =====
-- Requests with an idempotency key over a small Redis, and the theorems there.
use windowframe.Prelude.{
  ℕ, suc, String, ◌≡◌, ◌≢◌, refl, String_comparable, ◌==◌, Option, none, some, List, [], ◌∷◌, Bool,
  true, false, arith, ==_iff, if◌then◌else◌,
}
use windowframe.Errors.{Err, foreign, sentinel, idempotent_missing, is_error}
use windowframe.Http.Idempotent.{
  write_header, write, ResponseRecorder, record_calls, new_recorder, replay, Served,
}
use windowframe.Http.Idempotent.Once.{IsStore, run_times, handler_runs_once}
use windowframe.Http.Idempotent.Replay.{client_view, response, recorded_view}
use windowframe.Http.Idempotent.Rueidis.{
  RedisKey, response as response_key, lock as lock_key, RedisResult, redis_nil, redis_error,
  not_bytes, as_bytes, RedisApi, IsRedis, rueidis_store, rueidis_store-IsStore, pause,
  lock_excludes,
}

abbrev created : ResponseRecorder
created = record { code = 201; body = 1 ∷ 2 ∷ []; headers = ("Location", "/users/7") ∷ [] }

recorded_view_example :
    (client_view (record_calls (response [] 201 (1 ∷ [])) new_recorder).1
      ≡ record { status = some 201; headers = []; body = 1 ∷ [] })
    × (client_view (replay (record_calls (response [] 201 (1 ∷ [])) new_recorder).0)
        ≡ record { status = some 200; headers = []; body = 1 ∷ [] })
recorded_view_example = recorded_view [] 201 (1 ∷ [])

-- The value of each key.
abbrev Redis : Type 0
Redis = RedisKey → Option (List ℕ)

abbrev same_key : RedisKey → RedisKey → Bool
same_key (response_key j) (response_key k) = j == k
same_key (lock_key j) (lock_key k) = j == k
same_key _ _ = false

abbrev put : RedisKey → Option (List ℕ) → Redis → Redis
put k v s j = if same_key k j then v else s j

abbrev answer_set : RedisKey → List ℕ → Redis → Option (List ℕ) → Redis × RedisResult
answer_set k v s none = (put k (some v) s, as_bytes (79 ∷ 75 ∷ []))
answer_set k v s (some w) = (s, redis_nil)

abbrev answer_get : Option (List ℕ) → RedisResult
answer_get none = redis_nil
answer_get (some v) = as_bytes v

abbrev redis : RedisApi Redis
redis = record {
  set_nx = λ k v s. answer_set k v s (s k);
  del = λ k s. (put k none s, as_bytes (49 ∷ []));
  get = λ k s. (s, answer_get (s k));
}

same_key_refl : (k : RedisKey) → same_key k k ≡ true
same_key_refl (response_key k) = (==_iff k k).1 refl
same_key_refl (lock_key k) = (==_iff k k).1 refl

same_key_apart : (j k : RedisKey) → j ≢ k → same_key j k ≡ false
same_key_apart (response_key j) (response_key k) h = ground (arith, ==_iff j k)
same_key_apart (lock_key j) (lock_key k) h = ground (arith, ==_iff j k)
same_key_apart (response_key j) (lock_key k) h = refl
same_key_apart (lock_key j) (response_key k) h = refl

put_same : (k : RedisKey) (v : Option (List ℕ)) (s : Redis) → put k v s k ≡ v
put_same k v s = rw (same_key_refl k) refl

put_other : (k j : RedisKey) (v : Option (List ℕ)) (s : Redis) → k ≢ j → put k v s j ≡ s j
put_other k j v s apart = rw (same_key_apart k j apart) refl

module _ (k : RedisKey) (v : List ℕ) (s : Redis) where
  answer : Option (List ℕ) → Redis × RedisResult
  answer = answer_set k v s

  nil_kept : (old : Option (List ℕ)) → (answer_set k v s old).1 ≡ redis_nil → old ≢ none
  nil_kept none e none_here = cc
  nil_kept (some w) e none_here = cc

  set_put :
      (w : List ℕ) (old : Option (List ℕ))
      → (answer_set k v s old).1 ≡ as_bytes w
      → (old ≡ none) × ((answer_set k v s old).0 k ≡ some v)
  set_put w none e = (refl, put_same k (some v) s)
  set_put w (some x) e = cc

  text_set : (e : Err) (old : Option (List ℕ)) → (answer_set k v s old).1 ≢ not_bytes e
  text_set e none h = cc
  text_set e (some x) h = cc

  kept_set :
      (w : List ℕ) (old : Option (List ℕ))
      → old ≡ some w
      → s k ≡ some w
      → (answer_set k v s old).0 k ≡ some w
  kept_set w none e here = cc
  kept_set w (some x) e here = here

  other_set : (j : RedisKey) (old : Option (List ℕ)) → k ≢ j → (answer_set k v s old).0 j ≡ s j
  other_set j none apart = put_other k j (some v) s apart
  other_set j (some x) apart = refl

get_nil : (v : Option (List ℕ)) → answer_get v ≡ redis_nil → v ≡ none
get_nil none e = refl
get_nil (some v) e = cc

get_answers :
    (v : Option (List ℕ)) (e : Err) → (answer_get v ≢ redis_error e) × (answer_get v ≢ not_bytes e)
get_answers none e = (λ h. cc, λ h. cc)
get_answers (some v) e = (λ h. cc, λ h. cc)

abbrev value : Redis → RedisKey → Option (List ℕ)
value s k = s k

abbrev cached : Redis → String → Option (List ℕ)
cached s k = s (response_key k)

redis-IsRedis : IsRedis redis value
redis-IsRedis = record {
  set_nx-nil = λ k v s. nil_kept k v s (s k);
  set_nx-set = λ k v w s. set_put k v s w (s k);
  set_nx-text = λ k v s e. text_set k v s e (s k);
  set_nx-kept = λ k v w s here. kept_set k v s w (s k) here here;
  set_nx-other = λ k j v s. other_set k v s j (s k);
  del-other = λ k j s. put_other k j none s;
  get-keeps = λ k j s. refl;
  get-nil = λ k s. get_nil (s k);
  get-error = λ k s e h. absurd ((get_answers (s k) e).0 h);
  get-text = λ k s e. (get_answers (s k) e).1;
}

abbrev empty : Redis
empty k = none

abbrev nil_error : Err
nil_error = foreign "redis nil message"

rueidis_store-IsStore_example : IsStore (rueidis_store redis nil_error) cached
rueidis_store-IsStore_example = rueidis_store-IsStore redis value redis-IsRedis nil_error

lock_excludes_example :
    ((rueidis_store redis nil_error).lock "7" ((rueidis_store redis nil_error).lock "7" empty).0).1
    ≢ none
unfolding rueidis_store
lock_excludes_example =
    lock_excludes redis value redis-IsRedis nil_error "7" empty
      ((rueidis_store redis nil_error).lock "7" empty).0 refl pause

-- Counts its runs.
abbrev handler : ℕ → ℕ × Served
handler n = (suc n, (write_header 201 ∷ write (1 ∷ []) ∷ [], none))

abbrev marshal : ResponseRecorder → Option (List ℕ)
marshal r = some (r.code ∷ r.body)

abbrev unmarshal : List ℕ → Option ResponseRecorder
unmarshal [] = none
unmarshal (c ∷ b) = some (record { code = c; body = b; headers = [] })

handler_runs_once_example :
    (run_times
      (rueidis_store redis nil_error)
      marshal
      unmarshal
      (foreign "json")
      none
      handler
      "7"
      4
      (empty, 0)).1
    ≡ 1
unfolding rueidis_store is_error record_calls
handler_runs_once_example =
    handler_runs_once (rueidis_store redis nil_error) cached
      (rueidis_store-IsStore redis value redis-IsRedis nil_error) marshal unmarshal (foreign "json")
      none handler "7" empty 0 (write_header 201 ∷ write (1 ∷ []) ∷ []) (201 ∷ 1 ∷ []) refl refl
      refl (sentinel idempotent_missing) refl refl refl refl refl 3
