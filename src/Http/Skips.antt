-- ===== src/Http/Skips.antt =====
-- http/middleware/metrics.go and http/middleware/tracing.go: which requests the two middlewares skip. Skipping is all that they
-- decide; measuring and tracing are done by the middleware of echo's contributors.
use windowframe.Prelude.{
  ◌≡◌, refl, String, String_comparable, ◌==◌, Bool, true, false, List, [], ◌∷◌, any, if◌then◌else◌,
}

-- Metrics
unfoldable skips_metrics : String → Bool
skips_metrics method = method == "OPTIONS"

abbrev skip_paths : List String
skip_paths = "/metrics" ∷ "/" ∷ []

-- Tracing
unfoldable skips_tracing : String → String → Bool
skips_tracing method path =
    if method == "OPTIONS" then true else if any (λ p. p == path) skip_paths then true else false

-- A request without metrics has no trace either.
skips_metrics-skips_tracing :
    (method path : String) → skips_metrics method ≡ true → skips_tracing method path ≡ true
unfolding skips_metrics skips_tracing
skips_metrics-skips_tracing method path skipped = rw skipped refl
