-- ===== src/Uuid/Bounds.antt =====
-- uuid/uuid.go: the ranges of what getV7Time and makeV7 compute.
use windowframe.Prelude.{
  ℕ, ◌+◌, ◌-◌, ◌*◌, ◌/◌, ◌<◌, ◌≤◌, ◌==◌, ==_iff, ℕ_comparable, ◌≡◌, ◌≢◌, refl, Bool-cases, true,
  inl, inr, arith,
}
use windowframe.Uuid.{nano_per_milli, key_of, get_v7_time}

key_parts : (nano : ℕ) → (nano - nano / nano_per_milli * nano_per_milli) / 256 ≤ 3906
key_parts nano = omega arith

-- Whatever the instant and the last time are: the sequence number fits its 12 bits, the new last time is the pair that is
-- returned, and is not the last time of before; so two ids that follow each other never have the same time and sequence.
pub get_v7_time_fits :
    (nano last : ℕ)
    → (let (next, (milli, seq)) = get_v7_time nano last in
        (seq < 4096) × (milli * 4096 + seq ≡ next) × (next ≢ last))
unfolding get_v7_time
get_v7_time_fits nano last = elim (Bool-cases (key_of nano == last)) [
  | inl again ↦ rw again (omega arith, omega arith, λ e. absurd (omega (arith, e)))
  | inr fresh ↦ rw fresh (
    omega (arith, key_parts nano),
    refl,
    λ e. let d : (key_of nano == last) ≡ true = (==_iff (key_of nano) last).1 e in cc (d, fresh),
  )
]
