-- ===== src/Uuid/Order.antt =====
-- How the ids of uuid/uuid.go are ordered.
use windowframe.Prelude.{
  ℕ, ◌+◌, ◌*◌, ◌/◌, ◌%◌, ◌^◌, ◌<◌, ◌≤◌, ==_iff, ℕ_comparable, ◌≡◌, ◌≢◌, refl, ◌∙◌, ap, sym, arith,
}
use windowframe.Uuid.{Uuid, key_of, put_time, get_v7_time, make_v7, ordered_at}

-- The first eight bytes but the version, as one big-endian number: the ids of one version compare by it first.
abbrev pub stamp : Uuid → ℕ
stamp u =
    ((((((u.b0 * 256 + u.b1) * 256 + u.b2) * 256 + u.b3) * 256 + u.b4) * 256 + u.b5) * 16
        + u.b6 % 16)
      * 256
    + u.b7

bytes_join :
    (t : ℕ)
    → t < 2 ^ 48
    → ((((((t / 2 ^ 40) % 256) * 256 + (t / 2 ^ 32) % 256) * 256 + (t / 2 ^ 24) % 256) * 256
                + (t / 2 ^ 16) % 256)
              * 256
            + (t / 2 ^ 8) % 256)
          * 256
        + t % 256
      ≡ t
bytes_join t h = omega arith

seq_join : (s : ℕ) → s < 4096 → ((112 + (s / 256) % 16) % 16) * 256 + s % 256 ≡ s
seq_join s h = omega arith

key_gap : (m n : ℕ) → m + 512 ≤ n → key_of m + 2 ≤ key_of n
key_gap m n h = omega arith

time_join :
    (nano last : ℕ)
    → (get_v7_time nano last).1.0 * 4096 + (get_v7_time nano last).1.1 ≡ (get_v7_time nano last).0
unfolding get_v7_time
time_join nano last = ground arith

time_range :
    (nano last : ℕ)
    → nano < 2 ^ 63
    → ((get_v7_time nano last).1.0 < 2 ^ 48) × ((get_v7_time nano last).1.1 < 4096)
unfolding get_v7_time
time_range nano last h = ground arith

join_stamp : (t s : ℕ) (u : Uuid) → t < 2 ^ 48 → s < 4096 → stamp (put_time t s u) ≡ t * 4096 + s
join_stamp t s u ht hs = let bytes = bytes_join t ht in let seq = seq_join s hs in omega arith

version_nibble : (s : ℕ) → (112 + (s / 256) % 16) / 16 ≡ 7
version_nibble s = omega arith

-- The eight bytes of an id hold the value that lastV7time gets, and the id has version 7, for every
-- instant from 1970 on that UnixNano covers.
pub ordered_at-stamp :
    (nano last : ℕ) (u : Uuid)
    → nano < 2 ^ 63
    → (stamp (ordered_at nano u last).1 ≡ (ordered_at nano u last).0)
      × ((ordered_at nano u last).1.b6 / 16 ≡ 7)
      × ((ordered_at nano u last).1.rest ≡ u.rest)
unfolding ordered_at make_v7
ordered_at-stamp nano last u h =
    let (t, s) = time_range nano last h in
    (join_stamp _ _ u t s ∙ time_join nano last, version_nibble _, refl)

time_near :
    (nano last : ℕ)
    → (key_of nano ≤ (get_v7_time nano last).0) × ((get_v7_time nano last).0 ≤ key_of nano + 1)
unfolding get_v7_time
time_near nano last = ground arith

below : (m n : ℕ) → m + 512 ≤ n → n < 2 ^ 63 → m < 2 ^ 63
below m n apart h = omega arith

strictly : (a j k b : ℕ) → a ≤ j + 1 → j + 2 ≤ k → k ≤ b → a < b
strictly a j k b near gap far = omega arith

-- Ids of two instants that are 512 nanoseconds or more apart are ordered as the instants, whatever ids
-- were made before or between them and whatever their random bytes are.
pub ordered_at_increases :
    (m n last other : ℕ) (u v : Uuid)
    → m + 512 ≤ n
    → n < 2 ^ 63
    → stamp (ordered_at m u last).1 < stamp (ordered_at n v other).1
unfolding ordered_at make_v7
ordered_at_increases m n last other u v apart h =
    let (first, _, _) = ordered_at-stamp m last u (below m n apart h) in
    let (second, _, _) = ordered_at-stamp n other v h in
    rw (first, second)
      (strictly _ _ _ _ (time_near m last).1 (key_gap m n apart) (time_near n other).0)

time_fresh : (nano last : ℕ) → key_of nano ≢ last → (get_v7_time nano last).0 ≡ key_of nano
unfolding get_v7_time
time_fresh nano last fresh = ground (arith, ==_iff (key_of nano) last)

time_again : (nano : ℕ) → (get_v7_time nano (key_of nano)).0 ≡ key_of nano + 1
unfolding get_v7_time
time_again nano = ground (arith, ==_iff (key_of nano) (key_of nano))

next_key : (k : ℕ) → k ≢ k + 1
next_key k e = omega arith

less_by : (a b k : ℕ) → a ≡ k → b ≡ k + 1 → a < b
less_by a b k x y = omega arith

-- Three ids for one instant, one after the other, where lastV7time does not hold that instant before:
-- the second has a greater stamp than the first, and the third has the stamp of the first again.
pub third_id_repeats :
    (nano last : ℕ) (u v w : Uuid)
    → nano < 2 ^ 63
    → key_of nano ≢ last
    → (let (last1, a) = ordered_at nano u last in
        let (last2, b) = ordered_at nano v last1 in
        let (last3, c) = ordered_at nano w last2 in (stamp a < stamp b) × (stamp c ≡ stamp a))
unfolding ordered_at make_v7
third_id_repeats nano last u v w h fresh =
    let first = time_fresh nano last fresh in
    let last1 = (get_v7_time nano last).0 in
    let last2 = (get_v7_time nano last1).0 in
    let second = ap (λ l. (get_v7_time nano l).0) first ∙ time_again nano in
    let third = time_fresh nano last2 (λ e. next_key (key_of nano) (e ∙ second)) in
    let (a, _, _) = ordered_at-stamp nano last u h in
    let (b, _, _) = ordered_at-stamp nano last1 v h in
    let (c, _, _) = ordered_at-stamp nano last2 w h in
    (less_by _ _ (key_of nano) (a ∙ first) (b ∙ second), c ∙ third ∙ sym (a ∙ first))
