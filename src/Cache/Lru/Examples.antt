-- ===== src/Cache/Lru/Examples.antt =====
-- A cache of two entries that evicts the least recent one meets `LruApi`; the theorem on it.
use windowframe.Prelude.{
  ℕ_comparable, ℕ, ℤ, pos, negsuc, ◌≡◌, refl, true, false, Option, none, some, ◌⊎◌, inl, List, [],
  ◌∷◌, ◌==◌, ==_iff, arith, if◌then◌else◌, length, Assoc, lookup, erase, lookup-erase,
}
use windowframe.Cache.Expiring.{ExpiringItem}
use windowframe.Cache.Expiring.Model.{Call, get_call, put_call, spec_run}
use windowframe.Cache.Lru.{LruApi, LruCacheExpiring, new_lru_cache_expiring}
use windowframe.Cache.Lru.Sound.{run, HitsAgree, run-HitsAgree}

abbrev first {ℓ} : {A : Type ℓ} → List A → List A
first [] = []
first (x ∷ xs) = x ∷ []

abbrev create : ℤ → Option (Assoc ℕ (ExpiringItem ℕ))
create (pos n) = if n == 0 then none else some []
create (negsuc n) = none

peek-create :
    (size : ℤ) (s : Assoc ℕ (ExpiringItem ℕ)) → create size ≡ some s → (k : ℕ) → lookup k s ≡ none
unfolding lookup
peek-create (pos n) s h k = ground arith
peek-create (negsuc n) s h k = cc

peek-add_self :
    (k : ℕ) (v : ExpiringItem ℕ) (s : Assoc ℕ (ExpiringItem ℕ))
    → lookup k ((k, v) ∷ first (erase k s)) ≡ some v
unfolding lookup
peek-add_self k v s = ground (arith, ==_iff k k)

lookup-first :
    (j : ℕ) (m : Assoc ℕ (ExpiringItem ℕ))
    → (lookup j (first m) ≡ lookup j m) ⊎ (lookup j (first m) ≡ none)
unfolding lookup
lookup-first j [] = inl refl
lookup-first j ((i, w) ∷ m) = ground (arith, ==_iff i j)

peek-add_ne :
    (k j : ℕ) (v : ExpiringItem ℕ) (s : Assoc ℕ (ExpiringItem ℕ))
    → (k == j) ≡ false
    → (lookup j ((k, v) ∷ first (erase k s)) ≡ lookup j s)
      ⊎ (lookup j ((k, v) ∷ first (erase k s)) ≡ none)
unfolding lookup
peek-add_ne k j v s h = ground (arith, lookup-first j (erase k s), lookup-erase k j s)

abbrev two_entries : LruApi ℕ (ExpiringItem ℕ)
two_entries = record {
  State = Assoc ℕ (ExpiringItem ℕ);
  create = create;
  get = λ k s. (s, lookup k s);
  add = λ k v s. (k, v) ∷ first (erase k s);
  remove = erase;
  len = length;
  peek = λ s k. lookup k s;
  peek-create = peek-create;
  get-peek = λ k s. refl;
  peek-get = λ k j s. refl;
  peek-add_self = peek-add_self;
  peek-add_ne = peek-add_ne;
  peek-remove = lookup-erase;
}

abbrev calls : List (ℕ × Call ℕ ℕ)
calls =
    (1, put_call 1 10 (pos 5))
    ∷ (2, get_call 1)
    ∷ (3, put_call 2 20 (pos 5))
    ∷ (3, put_call 3 30 (pos 5))
    ∷ (4, get_call 1)
    ∷ (9, get_call 3)
    ∷ []

abbrev start : LruCacheExpiring two_entries
start = record { cache = record { cache = [] } }

-- The third put evicts key 1. The read of an expired item returns it with ok = false.
calls_results :
    run two_entries 0 calls start
    ≡ (0, false) ∷ (10, true) ∷ (0, false) ∷ (0, false) ∷ (0, false) ∷ (30, false) ∷ []
unfolding run lookup erase
calls_results = refl

run-HitsAgree_example :
    HitsAgree two_entries 0 (run two_entries 0 calls start) (spec_run 0 calls (λ k. none))
unfolding new_lru_cache_expiring
run-HitsAgree_example = run-HitsAgree two_entries 0 (pos 2) calls start refl
