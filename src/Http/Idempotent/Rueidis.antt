-- ===== src/Http/Idempotent/Rueidis.antt =====
-- http/middleware/idempotent_store.go: IdempotentRueidisStore, over the answers of Redis, which are a
-- parameter. A UUID's text has 36 characters and the key of its lock, `<text>:lock`, has 41, so the two
-- kinds of Redis keys are told apart here by a constructor.
use windowframe.Prelude.{
  ℕ, String, String_comparable, ◌==◌, ==_iff, ◌⊎◌, Bool-cases, ◌≡◌, ◌≢◌, refl, ap, sym, ◌∙◌, Bool,
  true, false, Option, none, some, inl, inr, List, [], ◌∷◌,
}
use windowframe.Errors.{Err, sentinel, wrap, is_error, idempotent_locked, idempotent_missing}
use windowframe.Http.Idempotent.{GetResult, cached_response, get_failed, IdempotencyStore}
use windowframe.Http.Idempotent.Once.{IsStore}

pub data RedisKey : Type 0 where
  response : String → RedisKey
  -- fmt.Sprintf("%s:lock", key)
  lock : String → RedisKey

-- A RedisResult: the nil reply, another error, a value that AsBytes reads, or one that it cannot read.
pub data RedisResult : Type 0 where
  redis_nil : RedisResult
  redis_error : Err → RedisResult
  as_bytes : List ℕ → RedisResult
  not_bytes : Err → RedisResult

-- The commands of the store; the expiry of SET … NX EX is left out.
pub record RedisApi (St : Type 0) : Type 0 where
  pub set_nx : RedisKey → List ℕ → St → St × RedisResult
  pub del : RedisKey → St → St × RedisResult
  pub get : RedisKey → St → St × RedisResult

-- What Redis documents of the commands, by the `value` of each key. Keys do not expire here.
pub record IsRedis {St : Type 0} (api : RedisApi St) (value : St → RedisKey → Option (List ℕ))
    : Type 0 where
  -- the nil reply says that the key exists; any other answer but an error, that it was set
  pub set_nx-nil :
      (k : RedisKey) (v : List ℕ) (s : St) → (api.set_nx k v s).1 ≡ redis_nil → value s k ≢ none
  pub set_nx-set :
      (k : RedisKey) (v w : List ℕ) (s : St)
      → (api.set_nx k v s).1 ≡ as_bytes w
      → (value s k ≡ none) × (value (api.set_nx k v s).0 k ≡ some v)
  pub set_nx-text :
      (k : RedisKey) (v : List ℕ) (s : St) (e : Err) → (api.set_nx k v s).1 ≢ not_bytes e
  pub set_nx-kept :
      (k : RedisKey) (v w : List ℕ) (s : St)
      → value s k ≡ some w
      → value (api.set_nx k v s).0 k ≡ some w
  pub set_nx-other :
      (k j : RedisKey) (v : List ℕ) (s : St) → k ≢ j → value (api.set_nx k v s).0 j ≡ value s j
  pub del-other : (k j : RedisKey) (s : St) → k ≢ j → value (api.del k s).0 j ≡ value s j
  pub get-keeps : (k j : RedisKey) (s : St) → value (api.get k s).0 j ≡ value s j
  pub get-nil : (k : RedisKey) (s : St) → (api.get k s).1 ≡ redis_nil → value s k ≡ none
  -- errors of the client are not the sentinels of the middleware
  pub get-error :
      (k : RedisKey) (s : St) (e : Err)
      → (api.get k s).1 ≡ redis_error e
      → is_error idempotent_missing e ≡ false
  pub get-text : (k : RedisKey) (s : St) (e : Err) → (api.get k s).1 ≢ not_bytes e

-- Lock
abbrev locked : RedisResult → Option Err
locked redis_nil = some (sentinel idempotent_locked)
locked (redis_error e) = some (wrap "setnx key" e)
locked (as_bytes b) = none
locked (not_bytes e) = none

-- Unlock: a nil reply is an error like any other; `redis_nil_error` is its value.
abbrev unlocked : Err → RedisResult → Option Err
unlocked redis_nil_error redis_nil = some (wrap "del key" redis_nil_error)
unlocked redis_nil_error (redis_error e) = some (wrap "del key" e)
unlocked redis_nil_error (as_bytes b) = none
unlocked redis_nil_error (not_bytes e) = none

-- Get
abbrev got : RedisResult → GetResult
got redis_nil = get_failed (sentinel idempotent_missing)
got (redis_error e) = get_failed (wrap "get key" e)
got (as_bytes b) = cached_response b
got (not_bytes e) = get_failed (wrap "get result as bytes" e)

-- Store: a response that is there already stays.
abbrev kept : RedisResult → Option Err
kept redis_nil = none
kept (redis_error e) = some (wrap "store result" e)
kept (as_bytes b) = none
kept (not_bytes e) = none

-- IdempotentRueidisStore
unfoldable pub rueidis_store : {St : Type 0} → RedisApi St → Err → IdempotencyStore St
rueidis_store api redis_nil_error = record {
  get = λ k s. let (s1, r) = api.get (response k) s in (s1, got r);
  store = λ k b s. let (s1, r) = api.set_nx (response k) b s in (s1, kept r);
  -- the value is "1"
  lock = λ k s. let (s1, r) = api.set_nx (lock k) (49 ∷ []) s in (s1, locked r);
  unlock = λ k s. let (s1, r) = api.del (lock k) s in (s1, unlocked redis_nil_error r);
}

lock_apart : (k j : String) → lock k ≢ response j
lock_apart k j e = cc

key_of : RedisKey → String
key_of (response k) = k
key_of (lock k) = k

lock_key : {j k : String} → lock j ≡ lock k → j ≡ k
unfolding key_of
lock_key = ap key_of

same_or_not : (j k : String) → (j ≡ k) ⊎ (j ≢ k)
same_or_not j k = elim (Bool-cases (j == k)) [
  | inl yes_same ↦ inl ((==_iff j k).0 yes_same)
  | inr apart ↦ inr (λ e. let e2 = (==_iff j k).1 e in cc)
]

failed_missing : GetResult → Bool
failed_missing (cached_response b) = false
failed_missing (get_failed e) = is_error idempotent_missing e

got_error :
    (x e : Err)
    → get_failed (wrap "get key" x) ≡ get_failed e
    → is_error idempotent_missing x ≡ is_error idempotent_missing e
unfolding is_error failed_missing
got_error x e same = ap failed_missing same

module _ {St : Type 0} (api : RedisApi St) (value : St → RedisKey → Option (List ℕ))
    (laws : IsRedis api value) (redis_nil_error : Err) where
  missing_case :
      (k : String) (s : St) (e : Err) (r : RedisResult)
      → (api.get (response k) s).1 ≡ r
      → got r ≡ get_failed e
      → is_error idempotent_missing e ≡ true
      → value s (response k) ≡ none
  missing_case k s e redis_nil answer failed missing = laws.get-nil (response k) s answer
  missing_case k s e (redis_error x) answer failed missing =
      let other = laws.get-error (response k) s x answer in let same = got_error x e failed in cc
  missing_case k s e (as_bytes b) answer failed missing = cc
  missing_case k s e (not_bytes x) answer failed missing =
      absurd (laws.get-text (response k) s x answer)

  store_case :
      (k : String) (b : List ℕ) (s : St) (r : RedisResult)
      → (api.set_nx (response k) b s).1 ≡ r
      → kept r ≡ none
      → value s (response k) ≡ none
      → value (api.set_nx (response k) b s).0 (response k) ≡ some b
  store_case k b s redis_nil answer saved empty =
      absurd (laws.set_nx-nil (response k) b s answer empty)
  store_case k b s (redis_error x) answer saved empty = cc
  store_case k b s (as_bytes w) answer saved empty = (laws.set_nx-set (response k) b w s answer).1
  store_case k b s (not_bytes x) answer saved empty =
      absurd (laws.set_nx-text (response k) b s x answer)

  -- The Redis store is what the middleware asks for, by the response that is kept under a key: it says
  -- that a response is missing only where there is none, looking and locking change no response, and
  -- a store without an error at a key that had none keeps the response. Redis is as documented, and no
  -- key expires.
  pub rueidis_store-IsStore :
      IsStore (rueidis_store api redis_nil_error) (λ s k. value s (response k))
  unfolding rueidis_store
  rueidis_store-IsStore = record {
    get-missing = λ k s e. missing_case k s e _ refl;
    cached-get = λ k j s. laws.get-keeps (response k) (response j) s;
    cached-lock = λ k j s. laws.set_nx-other (lock k) (response j) _ s (lock_apart k j);
    cached-unlock = λ k j s. laws.del-other (lock k) (response j) s (lock_apart k j);
    store-ok = λ k b s. store_case k b s _ refl;
  }

  abbrev store : IdempotencyStore St
  store = rueidis_store api redis_nil_error

  -- What happens to the store between two of its states, all but releasing the lock of `k`.
  pub data Meanwhile (k : String) : St → St → Type 0 where
    pause : {s : St} → Meanwhile k s s
    then_get : {s t : St} (j : String) → Meanwhile k s t → Meanwhile k s (store.get j t).0
    then_store :
        {s t : St} (j : String) (b : List ℕ) → Meanwhile k s t → Meanwhile k s (store.store j b t).0
    then_lock : {s t : St} (j : String) → Meanwhile k s t → Meanwhile k s (store.lock j t).0
    then_unlock :
        {s t : St} (j : String) → j ≢ k → Meanwhile k s t → Meanwhile k s (store.unlock j t).0

  set_nx_held :
      (c : RedisKey) (k : String) (b w : List ℕ) (s : St)
      → value s (lock k) ≡ some w
      → value (api.set_nx c b s).0 (lock k) ≡ some w
  set_nx_held (response j) k b w s held =
      laws.set_nx-other (response j) (lock k) b s (λ e. lock_apart k j (sym e)) ∙ held
  set_nx_held (lock j) k b w s held = elim (same_or_not j k) [
    | inl same ↦ rw same (laws.set_nx-kept (lock k) b w s held)
    | inr apart ↦ laws.set_nx-other (lock j) (lock k) b s (λ e. apart (lock_key e)) ∙ held
  ]

  stays_held :
      (k : String) (w : List ℕ) (s t : St)
      → Meanwhile k s t
      → value s (lock k) ≡ some w
      → value t (lock k) ≡ some w
  unfolding rueidis_store
  stays_held k w s _ pause held = held
  stays_held k w s _ (then_get j m) held =
      laws.get-keeps (response j) (lock k) _ ∙ stays_held k w s _ m held
  stays_held k w s _ (then_store j b m) held =
      set_nx_held (response j) k b w _ (stays_held k w s _ m held)
  stays_held k w s _ (then_lock j m) held = set_nx_held (lock j) k _ w _ (stays_held k w s _ m held)
  stays_held k w s _ (then_unlock j other m) held =
      laws.del-other (lock j) (lock k) _ (λ e. other (lock_key e)) ∙ stays_held k w s _ m held

  lock_sets :
      (k : String) (s : St) (r : RedisResult)
      → (api.set_nx (lock k) (49 ∷ []) s).1 ≡ r
      → locked r ≡ none
      → (value s (lock k) ≡ none)
        × (value (api.set_nx (lock k) (49 ∷ []) s).0 (lock k) ≡ some (49 ∷ []))
  lock_sets k s redis_nil answer taken = cc
  lock_sets k s (redis_error x) answer taken = cc
  lock_sets k s (as_bytes w) answer taken = laws.set_nx-set (lock k) _ w s answer
  lock_sets k s (not_bytes x) answer taken = absurd (laws.set_nx-text (lock k) _ s x answer)

  -- Two requests do not hold the lock of a key at once: after a Lock without an error, and whatever
  -- happens to the store but an Unlock of the key, another Lock of the key returns an error. Redis is
  -- as documented, and no key expires.
  pub lock_excludes :
      (k : String) (s t : St)
      → (store.lock k s).1 ≡ none
      → Meanwhile k (store.lock k s).0 t
      → (store.lock k t).1 ≢ none
  unfolding rueidis_store
  lock_excludes k s t first meanwhile second =
      let held = stays_held k _ _ t meanwhile (lock_sets k s _ refl first).1 in
      let free = (lock_sets k t _ refl second).0 in cc
