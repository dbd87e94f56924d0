-- ===== src/Uuid.antt =====
-- uuid/uuid.go: OrderedAt, an id of version 7 for a given instant. An instant is its UnixNano, for the
-- years from 1970 on, as a natural number below 2^63; no intermediate value leaves the range of int64
-- there. A shift by n is a division or a multiplication by 2^n, and byte(x) is x % 256.
pub mod Order
pub mod Sql
pub mod Bounds
pub mod Convert
mod Examples
use windowframe.Prelude.{
  ℕ, ◌+◌, ◌-◌, ◌*◌, ◌/◌, ◌%◌, ◌^◌, ◌==◌, ℕ_comparable, ◌≡◌, Bool, true, false, List, if◌then◌else◌,
  arith,
}

-- The array of 16 bytes: the first eight by name, and those behind them.
pub record Uuid : Type 0 where
  pub b0 : ℕ
  pub b1 : ℕ
  pub b2 : ℕ
  pub b3 : ℕ
  pub b4 : ℕ
  pub b5 : ℕ
  pub b6 : ℕ
  pub b7 : ℕ
  pub rest : List ℕ

abbrev pub nano_per_milli : ℕ
nano_per_milli = 1000000

-- now, before it is compared
abbrev pub key_of : ℕ → ℕ
key_of nano =
    let milli = nano / nano_per_milli in milli * 4096 + (nano - milli * nano_per_milli) / 256

-- getV7Time, with the variable lastV7time: its next value, and (milli, seq).
unfoldable pub get_v7_time : ℕ → ℕ → ℕ × (ℕ × ℕ)
get_v7_time nano last =
    let milli = nano / nano_per_milli in
    let seq = (nano - milli * nano_per_milli) / 256 in
    let now = milli * 4096 + seq in
    if now == last then (last + 1, ((last + 1) / 4096, (last + 1) % 4096)) else (now, (milli, seq))

abbrev pub put_time : ℕ → ℕ → Uuid → Uuid
put_time t s u = record u {
  b0 = (t / 2 ^ 40) % 256;
  b1 = (t / 2 ^ 32) % 256;
  b2 = (t / 2 ^ 24) % 256;
  b3 = (t / 2 ^ 16) % 256;
  b4 = (t / 2 ^ 8) % 256;
  b5 = t % 256;
  -- 0x70 | (0x0F & byte(s>>8)): the bits of 0x70 are apart from the lower four
  b6 = 112 + (s / 256) % 16;
  b7 = s % 256;
}

-- makeV7
unfoldable pub make_v7 : ℕ → Uuid → ℕ → ℕ × Uuid
unfolding get_v7_time
make_v7 nano u last = let (next, (t, s)) = get_v7_time nano last in (next, put_time t s u)

-- OrderedAt, with the bytes of New; uuid.NewV4 does not fail.
unfoldable pub ordered_at : ℕ → Uuid → ℕ → ℕ × Uuid
ordered_at = make_v7
