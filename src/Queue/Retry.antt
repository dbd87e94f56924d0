-- ===== src/Queue/Retry.antt =====
-- A retry without a delay, as a concrete flow.RetryDelay for the examples.
use windowframe.Prelude.{ℕ, zero, suc, ℤ, ◌≡◌, refl, none, some, arith}
use windowframe.Errors.{Err}
use windowframe.Queue.Consumer.{Action}
use windowframe.Queue.Consumer.Settles.{IsRetryDelay}

module _ {S : Type 0} where
  abbrev pub retry : Action S → ℕ → ℤ → Action S
  retry f zero d s = (s, none)
  retry f (suc zero) d s = f s
  retry f (suc (suc n)) d s =
      let (s1, r) = f s in
      let more = retry f (suc n) d s1 in elim r [ none ↦ (s1, none) | some e ↦ more ]

  retry_ok : (f : Action S) (n : ℕ) (d : ℤ) (s : S) → (f s).1 ≡ none → retry f (suc n) d s ≡ f s
  retry_ok f zero d s h = refl
  retry_ok f (suc n) d s h = ground arith

  retry_again :
      (f : Action S) (n : ℕ) (d : ℤ) (s : S) (e : Err)
      → (f s).1 ≡ some e
      → retry f (suc (suc n)) d s ≡ retry f (suc n) d (f s).0
  retry_again f n d s e h = ground arith

  pub retry-IsRetryDelay : IsRetryDelay retry
  retry-IsRetryDelay = record { ok = retry_ok; again = retry_again; last = λ f d s. refl }
