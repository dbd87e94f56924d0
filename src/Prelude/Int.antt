-- ===== src/Prelude/Int.antt =====
-- Signed durations, and instants counted in nanoseconds from Go's zero time.
use Prim.Native.Nat.{ℕ, suc, ◌+◌, ◌-◌}

-- `negsuc n` is -(n + 1).
pub data ℤ : Type 0 where
  pos : ℕ → ℤ
  negsuc : ℕ → ℤ

-- `t.Add(d)`. An instant before the zero time is not modelled: it is taken as the zero time.
abbrev pub add_time : ℕ → ℤ → ℕ
add_time t (pos d) = t + d
add_time t (negsuc d) = t - suc d
