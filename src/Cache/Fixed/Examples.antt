-- ===== src/Cache/Fixed/Examples.antt =====
-- The theorem of FixedExpiryCache at a concrete input.
use windowframe.Prelude.{ℕ_comparable, ℕ, pos}
use windowframe.Cache.Fixed.{FixedExpiryCache, new_fixed_expiry_cache}

abbrev five : FixedExpiryCache ℕ ℕ
five = new_fixed_expiry_cache (pos 5)
