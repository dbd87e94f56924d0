-- ===== src/Cache/Lru/Sound.antt =====
-- LruCacheExpiring against the specification's table of deadlines: what it returns is right, though
-- an eviction may make it miss.
use windowframe.Prelude.{
  ℕ, ℤ, ◌≡◌, refl, Bool, true, false, Bool-cases, none, some, Option-cases, inl, inr, List, [], ◌∷◌,
  Comparable, ◌==◌, ==_iff, arith, add_time,
}
use windowframe.Cache.Expiring.{ExpiringItem, answer}
use windowframe.Cache.Expiring.Model.{
  Call, get_call, put_call, delete_call, Table, spec_apply, spec_run,
}
use windowframe.Cache.Lru.{
  LruApi, LruCacheExpiring, new_lru_cache_expiring, get_expiring, put_expiring, delete_expiring,
}

module _ {ℓ} {K U : Type ℓ} ⦃e : Comparable K⦄ (api : LruApi K (ExpiringItem U)) (z : U) where
  unfoldable pub apply : ℕ → Call K U → LruCacheExpiring api → LruCacheExpiring api × (U × Bool)
  unfolding get_expiring put_expiring delete_expiring
  apply now (get_call k) l = get_expiring api z now k l
  apply now (put_call k v d) l = (put_expiring api now k v d l, (z, false))
  apply now (delete_call k) l = (delete_expiring api k l, (z, false))

  unfoldable pub run : List (ℕ × Call K U) → LruCacheExpiring api → List (U × Bool)
  unfolding apply
  run [] l = []
  run ((now, call) ∷ rest) l = let (l', r) = apply now call l in r ∷ run rest l'

  -- Each result that says ok is the result that the specification gives at the same place.
  abbrev pub HitsAgree : List (U × Bool) → List (U × Bool) → Type ℓ
  HitsAgree [] [] = Unit {ℓ}
  HitsAgree (r ∷ rs) (s ∷ ss) = (r.1 ≡ true → r ≡ s) × HitsAgree rs ss
  HitsAgree _ _ = ¬ (Unit {ℓ})

  -- What the cache holds, the table holds.
  abbrev Within : LruCacheExpiring api → Table K U → Type ℓ
  Within l t = (k : K) (i : ExpiringItem U) → api.peek l.cache.cache k ≡ some i → t k ≡ some i

  get-hit :
      (now : ℕ) (k : K) (l : LruCacheExpiring api) (t : Table K U)
      → Within l t
      → (get_expiring api z now k l).1.1 ≡ true
      → (get_expiring api z now k l).1 ≡ (answer z now (t k)).0
  unfolding get_expiring answer
  get-hit now k l t w h = elim (Option-cases (api.peek l.cache.cache k)) [
    | inl miss ↦ ground (arith, api.get-peek k l.cache.cache)
    | inr (i, hit) ↦ ground (arith, api.get-peek k l.cache.cache, w k i hit)
  ]

  get-Within :
      (now : ℕ) (k : K) (l : LruCacheExpiring api) (t : Table K U)
      → Within l t
      → Within (get_expiring api z now k l).0 t
  unfolding get_expiring
  get-Within now k l t w j i h = w j i (
      ground
        (arith, api.peek-get k j l.cache.cache, api.peek-remove k j (api.get k l.cache.cache).0))

  put-Within :
      (now : ℕ) (k : K) (v : U) (d : ℤ) (l : LruCacheExpiring api) (t : Table K U)
      → Within l t
      → Within (put_expiring api now k v d l) (spec_apply z now (put_call k v d) t).0
  unfolding put_expiring spec_apply
  put-Within now k v d l t w j i h = elim (Bool-cases (k == j)) [
    | inl same ↦ ground (arith, ==_iff k j, api.peek-add_self k put_item l.cache.cache)
    | inr other ↦ ground (arith, api.peek-add_ne k j put_item l.cache.cache other, w j i)
  ]
    where
      put_item : ExpiringItem U
      put_item = record { item = v; expires = add_time now d }

  delete-Within :
      (now : ℕ) (k : K) (l : LruCacheExpiring api) (t : Table K U)
      → Within l t
      → Within (delete_expiring api k l) (spec_apply z now (delete_call k) t).0
  unfolding delete_expiring spec_apply
  delete-Within now k l t w j i h = ground (arith, api.peek-remove k j l.cache.cache, w j i)

  run_agree :
      (calls : List (ℕ × Call K U)) (l : LruCacheExpiring api) (t : Table K U)
      → Within l t
      → HitsAgree (run calls l) (spec_run z calls t)
  unfolding run spec_run spec_apply
  run_agree [] l t w = tt
  run_agree ((now, get_call k) ∷ rest) l t w = (
    get-hit now k l t w,
    run_agree rest (get_expiring api z now k l).0 t (get-Within now k l t w),
  )
  run_agree ((now, put_call k v d) ∷ rest) l t w =
      (λ h. refl, run_agree rest (put_expiring api now k v d l) _ (put-Within now k v d l t w))
  run_agree ((now, delete_call k) ∷ rest) l t w =
      (λ h. refl, run_agree rest (delete_expiring api k l) _ (delete-Within now k l t w))

  created :
      (size : ℤ) (l : LruCacheExpiring api)
      → new_lru_cache_expiring api size ≡ some l
      → api.create size ≡ some l.cache.cache
  unfolding new_lru_cache_expiring
  created size l h = ground arith

  -- Over any sequence of calls on a new LruCacheExpiring, whatever the LRU cache below evicts, each
  -- result with ok = true is the result that the specification's table of deadlines gives at that
  -- place: never a value that was deleted, overwritten or expired.
  pub run-HitsAgree :
      (size : ℤ) (calls : List (ℕ × Call K U)) (l : LruCacheExpiring api)
      → new_lru_cache_expiring api size ≡ some l
      → HitsAgree (run calls l) (spec_run z calls (λ k. none))
  run-HitsAgree size calls l h =
      run_agree calls l (λ k. none)
        (λ k i p. cc (api.peek-create size l.cache.cache (created size l h) k))
