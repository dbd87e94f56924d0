-- ===== src/Cache/Expiring.antt =====
-- cache/expiring.go: ExpiringCache. A Go pair (value, ok) is a pair; `zero_value` is the zero value
-- of the element type. `now` is the reading of the package variable `now` (cache/time.go) that the
-- call makes. The spans that `enableTracing` opens (cache/tracing.go) are left out. `get_locked` and
-- `expire` are the two critical sections of Get; sequential use composes them in `get`.
pub mod Model
pub mod Races
mod Examples
use windowframe.Prelude.{
  ℕ, ℤ, Bool, true, false, Option, none, some, List, [], length, Comparable, Assoc, lookup, insert,
  erase, ltb, if◌then◌else◌, add_time,
}

pub record ExpiringItem {ℓ} (U : Type ℓ) : Type ℓ where
  pub item : U
  pub expires : ℕ

-- item.expires.Before(now())
abbrev pub is_expired {ℓ} : {U : Type ℓ} → ExpiringItem U → ℕ → Bool
is_expired i now = ltb i.expires now

pub record ExpiringCache {ℓ} (K U : Type ℓ) : Type ℓ where
  pub items : Assoc K (ExpiringItem U)

module _ {ℓ} {K U : Type ℓ} where
  unfoldable pub new_expiring_cache : ExpiringCache K U
  new_expiring_cache = record { items = [] }

-- The answer of Get from the item that it read under the read lock, and whether it defers expire.
unfoldable pub answer {ℓ} : {U : Type ℓ} → U → ℕ → Option (ExpiringItem U) → (U × Bool) × Bool
answer zero_value now none = ((zero_value, false), false)
answer zero_value now (some i) =
    if is_expired i now then ((zero_value, false), true) else ((i.item, true), false)

module _ {ℓ} {K U : Type ℓ} ⦃e : Comparable K⦄ where
  -- expire(key), the deferred call
  unfoldable pub expire : K → ExpiringCache K U → ExpiringCache K U
  expire key c = record { items = erase key c.items }

  unfoldable pub get_locked : U → ℕ → K → ExpiringCache K U → (U × Bool) × Bool
  unfolding answer
  get_locked zero_value now key c = answer zero_value now (lookup key c.items)

  -- Get: the deferred `expire` runs on the way out.
  unfoldable pub get : U → ℕ → K → ExpiringCache K U → ExpiringCache K U × (U × Bool)
  unfolding get_locked expire
  get zero_value now key c =
      let (result, deferred) = get_locked zero_value now key c in
      (if deferred then expire key c else c, result)

  unfoldable pub put : ℕ → K → U → ℤ → ExpiringCache K U → ExpiringCache K U
  put now key item validity c = record {
    items = insert key (record { item = item; expires = add_time now validity }) c.items;
  }

  unfoldable pub delete : K → ExpiringCache K U → ExpiringCache K U
  delete key c = record { items = erase key c.items }

module _ {ℓ} {K U : Type ℓ} where
  unfoldable pub len : ExpiringCache K U → ℕ
  len c = length c.items
