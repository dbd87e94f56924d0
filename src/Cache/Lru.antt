-- ===== src/Cache/Lru.antt =====
-- cache/lru.go and cache/lru_expiring.go: LruCache wraps the cache of hashicorp/golang-lru, which is
-- a parameter here (`LruApi`); LruCacheExpiring keeps items with deadlines in an LruCache.
pub mod Sound
mod Examples
use windowframe.Prelude.{
  ℕ, ℤ, ◌≡◌, Bool, true, false, Option, none, some, ◌⊎◌, Comparable, ◌==◌, if◌then◌else◌, add_time,
}
use windowframe.Cache.Expiring.{ExpiringItem, is_expired}

-- The operations of *lru.Cache that the code calls, and what its documentation says of them. `peek`
-- is what a Get would find; adding a key may evict others.
pub record LruApi {ℓ} (K V : Type ℓ) ⦃e : Comparable K⦄ : Type (ℓ + 1) where
  pub State : Type ℓ
  -- lru.New fails on a size that is not positive
  pub create : ℤ → Option State
  pub get : K → State → State × Option V
  pub add : K → V → State → State
  pub remove : K → State → State
  pub len : State → ℕ
  pub peek : State → K → Option V
  pub peek-create : (size : ℤ) (s : State) → create size ≡ some s → (k : K) → peek s k ≡ none
  pub get-peek : (k : K) (s : State) → (get k s).1 ≡ peek s k
  pub peek-get : (k j : K) (s : State) → peek (get k s).0 j ≡ peek s j
  pub peek-add_self : (k : K) (v : V) (s : State) → peek (add k v s) k ≡ some v
  pub peek-add_ne :
      (k j : K) (v : V) (s : State)
      → (k == j) ≡ false
      → (peek (add k v s) j ≡ peek s j) ⊎ (peek (add k v s) j ≡ none)
  pub peek-remove :
      (k j : K) (s : State) → peek (remove k s) j ≡ (if k == j then none else peek s j)

-- The pair (value, ok) of a Go lookup, with the zero value for a miss.
abbrev pub found {ℓ} : {V : Type ℓ} → V → Option V → V × Bool
found z none = (z, false)
found z (some v) = (v, true)

module _ {ℓ} {K V : Type ℓ} ⦃e : Comparable K⦄ (api : LruApi K V) where
  -- LruCache
  pub record LruCache : Type ℓ where
    pub cache : api.State

  abbrev wrap_created : Option api.State → Option LruCache
  wrap_created none = none
  wrap_created (some s) = some (record { cache = s })

  unfoldable pub new_lru_cache : ℤ → Option LruCache
  new_lru_cache size = wrap_created (api.create size)

  unfoldable pub get : V → K → LruCache → LruCache × (V × Bool)
  get zero_value key l =
      let (s, r) = api.get key l.cache in (record { cache = s }, found zero_value r)

  unfoldable pub put : K → V → LruCache → LruCache
  put key val l = record { cache = api.add key val l.cache }

  unfoldable pub delete : K → LruCache → LruCache
  delete key l = record { cache = api.remove key l.cache }

  unfoldable pub len : LruCache → ℕ
  len l = api.len l.cache

module _ {ℓ} {K U : Type ℓ} ⦃e : Comparable K⦄ (api : LruApi K (ExpiringItem U)) where
  -- LruCacheExpiring
  pub record LruCacheExpiring : Type ℓ where
    pub cache : LruCache api

  abbrev wrap_cache : Option (LruCache api) → Option LruCacheExpiring
  wrap_cache none = none
  wrap_cache (some l) = some (record { cache = l })

  unfoldable pub new_lru_cache_expiring : ℤ → Option LruCacheExpiring
  unfolding new_lru_cache
  new_lru_cache_expiring size = wrap_cache (new_lru_cache api size)

  unfoldable pub delete_expiring : K → LruCacheExpiring → LruCacheExpiring
  unfolding delete
  delete_expiring key l = record { cache = delete api key l.cache }

  -- The zero value of an item: the zero value of U with the zero time.
  abbrev zero_item : U → ExpiringItem U
  zero_item zero_value = record { item = zero_value; expires = 0 }

  -- Get: a miss, and an expired item, both return the item that was read with ok = false.
  unfoldable pub get_expiring : U → ℕ → K → LruCacheExpiring → LruCacheExpiring × (U × Bool)
  unfolding get delete_expiring
  get_expiring zero_value now key l =
      let (c, r) = get api (zero_item zero_value) key l.cache in
      let l' : LruCacheExpiring = record { cache = c } in
      if r.1
      then (if is_expired r.0 now
          then (delete_expiring key l', (r.0.item, false))
          else (l', (r.0.item, true)))
      else (l', (r.0.item, false))

  unfoldable pub put_expiring : ℕ → K → U → ℤ → LruCacheExpiring → LruCacheExpiring
  unfolding put
  put_expiring now key val validity l =
      let i : ExpiringItem U = record { item = val; expires = add_time now validity } in
      record { cache = put api key i l.cache }

  unfoldable pub len_expiring : LruCacheExpiring → ℕ
  unfolding len
  len_expiring l = len api l.cache
