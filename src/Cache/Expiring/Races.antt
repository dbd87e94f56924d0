-- ===== src/Cache/Expiring/Races.antt =====
-- Get is two critical sections, with the lock free in between (cache/expiring.go). Another goroutine
-- may run there.
use windowframe.Prelude.{
  ℕ, ℤ, ◌≤◌, ◌≡◌, true, false, Comparable, ==_iff, arith, ltb, lookup-insert, lookup-erase,
  add_time,
}
use windowframe.Cache.Expiring.{ExpiringCache, get_locked, expire, get, put}

not_past : (t deadline : ℕ) → t ≤ deadline → ltb deadline t ≡ false
not_past t deadline h = ground arith

module _ {ℓ} {K U : Type ℓ} ⦃e : Comparable K⦄ where
  -- Get of one goroutine with a Put of another between its two critical sections.
  unfoldable pub get_around_put : U → ℕ → K → ℕ → U → ℤ → ExpiringCache K U → ExpiringCache K U
  get_around_put z now key put_at item validity c =
      let deferred = (get_locked z now key c).1 in
      let c' = put put_at key item validity c in elim deferred [ true ↦ expire key c' | false ↦ c' ]

  get-put_self :
      (z : U) (put_at read_at : ℕ) (k : K) (v : U) (d : ℤ) (c : ExpiringCache K U)
      → read_at ≤ add_time put_at d
      → (get z read_at k (put put_at k v d c)).1 ≡ (v, true)
  unfolding get put
  get-put_self z put_at read_at k v d c h = ground (
    arith,
    ==_iff k k,
    lookup-insert k k (record { item = v; expires = add_time put_at d }) c.items,
  )

  get-expire_self :
      (z : U) (read_at : ℕ) (k : K) (c : ExpiringCache K U)
      → (get z read_at k (expire k c)).1 ≡ (z, false)
  unfolding get
  get-expire_self z read_at k c = ground (arith, ==_iff k k, lookup-erase k k c.items)

  -- A Get that finds a live entry leaves the cache as it is.
  get_fresh :
      (z : U) (now put_at : ℕ) (k : K) (v : U) (d : ℤ) (c : ExpiringCache K U)
      → ltb (add_time put_at d) now ≡ false
      → (get z now k (put put_at k v d c)).0 ≡ put put_at k v d c
  unfolding get put
  get_fresh z now put_at k v d c h = ground (
    arith,
    ==_iff k k,
    lookup-insert k k (record { item = v; expires = add_time put_at d }) c.items,
  )

  get-get-put_self :
      (z : U) (now put_at read_at : ℕ) (k : K) (v : U) (d : ℤ) (c : ExpiringCache K U)
      → now ≤ read_at
      → read_at ≤ add_time put_at d
      → (get z read_at k (get z now k (put put_at k v d c)).0).1 ≡ (v, true)
  get-get-put_self z now put_at read_at k v d c after fits =
      rw (get_fresh z now put_at k v d c (not_past now (add_time put_at d) (omega arith)))
        (get-put_self z put_at read_at k v d c fits)

  -- Where Get finds an expired entry, and a Put of the same key by another goroutine comes between
  -- its two critical sections, a read at or after Get's instant and within the new validity misses; it hits in both orders
  -- in which the two calls could have run one after the other.
  pub get_around_put_loses :
      (z : U) (now put_at read_at : ℕ) (k : K) (v : U) (d : ℤ) (c : ExpiringCache K U)
      → (get_locked z now k c).1 ≡ true
      → now ≤ read_at
      → read_at ≤ add_time put_at d
      → ((get z read_at k (get_around_put z now k put_at v d c)).1 ≡ (z, false))
        × ((get z read_at k (put put_at k v d (get z now k c).0)).1 ≡ (v, true))
        × ((get z read_at k (get z now k (put put_at k v d c)).0).1 ≡ (v, true))
  unfolding get_around_put
  get_around_put_loses z now put_at read_at k v d c h after fits = (
    rw (h, get_around_put) (get-expire_self z read_at k (put put_at k v d c)),
    get-put_self z put_at read_at k v d (get z now k c).0 fits,
    get-get-put_self z now put_at read_at k v d c after fits,
  )
