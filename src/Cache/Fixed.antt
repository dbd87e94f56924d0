-- ===== src/Cache/Fixed.antt =====
-- cache/fixed.go: FixedExpiryCache, an ExpiringCache with one validity for every entry.
mod Examples
use windowframe.Prelude.{
  ℕ, ℤ, ◌≡◌, Bool, true, false, some, Comparable, ◌==◌, ==_iff, arith, leb, if◌then◌else◌, add_time,
  lookup-insert,
}
use windowframe.Cache.Expiring
use windowframe.Cache.Expiring.{ExpiringCache}

pub record FixedExpiryCache {ℓ} (K U : Type ℓ) : Type ℓ where
  pub cache : ExpiringCache K U
  pub validity : ℤ

unfoldable pub new_fixed_expiry_cache {ℓ} : {K U : Type ℓ} → ℤ → FixedExpiryCache K U
unfolding Expiring.new_expiring_cache
new_fixed_expiry_cache validity = record {
  cache = Expiring.new_expiring_cache;
  validity = validity;
}

module _ {ℓ} {K U : Type ℓ} ⦃e : Comparable K⦄ where
  unfoldable pub get : U → ℕ → K → FixedExpiryCache K U → FixedExpiryCache K U × (U × Bool)
  unfolding Expiring.get
  get zero_value now key f =
      let (c, r) = Expiring.get zero_value now key f.cache in (record f { cache = c }, r)

  unfoldable pub put : ℕ → K → U → FixedExpiryCache K U → FixedExpiryCache K U
  unfolding Expiring.put
  put now key item f = record f { cache = Expiring.put now key item f.validity f.cache }

  unfoldable pub delete : K → FixedExpiryCache K U → FixedExpiryCache K U
  unfolding Expiring.delete
  delete key f = record f { cache = Expiring.delete key f.cache }

  -- A read of the key that was put returns the value up to the instant put_at + validity, that
  -- instant included, and misses after it, whatever another put or delete of another key did
  -- before.
  pub get-put :
      (z : U) (put_at read_at : ℕ) (k : K) (v : U) (f : FixedExpiryCache K U)
      → (get z read_at k (put put_at k v f)).1
        ≡ (if leb read_at (add_time put_at f.validity) then (v, true) else (z, false))
  unfolding get put
  get-put z put_at read_at k v f = ground (
    arith,
    ==_iff k k,
    lookup-insert k k (record { item = v; expires = add_time put_at f.validity }) f.cache.items,
  )

unfoldable pub len {ℓ} : {K U : Type ℓ} → FixedExpiryCache K U → ℕ
unfolding Expiring.len
len f = Expiring.len f.cache
