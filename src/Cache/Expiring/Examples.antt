-- ===== src/Cache/Expiring/Examples.antt =====
-- Runs of ExpiringCache, and its theorems at concrete inputs.
use windowframe.Prelude.{
  ℕ_comparable, pos, ◌≡◌, refl, true, false, ℕ, List, [], ◌∷◌, none, arith, lookup, insert, erase,
}
use windowframe.Cache.Expiring.{ExpiringCache, get, put, len, new_expiring_cache}
use windowframe.Cache.Expiring.Model.{
  Call, get_call, put_call, delete_call, run, spec_run, run-spec_run,
}
use windowframe.Cache.Expiring.Races.{get_around_put, get_around_put_loses}

abbrev calls : List (ℕ × Call ℕ ℕ)
calls =
    (10, put_call 1 100 (pos 5))
    ∷ (15, get_call 1)
    ∷ (16, get_call 1)
    ∷ (17, get_call 1)
    ∷ (18, put_call 2 200 (pos 5))
    ∷ (19, delete_call 2)
    ∷ (20, get_call 2)
    ∷ []

calls_results :
    run 0 calls new_expiring_cache
    ≡ (0, false) ∷ (100, true) ∷ (0, false) ∷ (0, false) ∷ (0, false) ∷ (0, false) ∷ (0, false) ∷ []
unfolding run new_expiring_cache lookup insert erase
calls_results = refl

run-spec_run_example : run 0 calls new_expiring_cache ≡ spec_run 0 calls (λ k. none)
run-spec_run_example = run-spec_run 0 calls (omega arith)

abbrev stale : ExpiringCache ℕ ℕ
stale = record { items = (1, record { item = 100; expires = 10 }) ∷ [] }

-- An expired entry counts in Len until a Get finds it.
len_stale : (len stale ≡ 1) × (len (get 0 11 1 stale).0 ≡ 0)
unfolding len get lookup erase
len_stale = (refl, refl)

get_around_put_loses_example :
    ((get 0 12 1 (get_around_put 0 11 1 11 200 (pos 5) stale)).1 ≡ (0, false))
    × ((get 0 12 1 (put 11 1 200 (pos 5) (get 0 11 1 stale).0)).1 ≡ (200, true))
    × ((get 0 12 1 (get 0 11 1 (put 11 1 200 (pos 5) stale)).0).1 ≡ (200, true))
unfolding get lookup
get_around_put_loses_example =
    get_around_put_loses 0 11 11 12 1 200 (pos 5) stale refl (omega arith) (omega arith)
