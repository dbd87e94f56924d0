-- ===== src/Uuid/Examples.antt =====
-- Ids at instants of the year 2024, and the theorems there.
use windowframe.Prelude.{none, some, Option, ℕ, ◌*◌, ◌+◌, ◌/◌, ◌^◌, ◌<◌, ◌≡◌, ◌≢◌, [], ◌∷◌, arith}
use windowframe.Uuid.{get_v7_time, Uuid, key_of, ordered_at}
use windowframe.Text.{Bytes}
use windowframe.Uuid.Bounds.{get_v7_time_fits}
use windowframe.Uuid.Order.{stamp, ordered_at-stamp, ordered_at_increases, third_id_repeats}

abbrev random : Uuid
random = record { b0 = 1; b1 = 2; b2 = 3; b3 = 4; b4 = 5; b5 = 6; b6 = 7; b7 = 8; rest = 9 ∷ [] }

abbrev instant : ℕ
instant = 1704067200000000000

in_range : instant < 2 ^ 63
in_range = omega arith

ordered_at-stamp_example :
    (stamp (ordered_at instant random 0).1 ≡ (ordered_at instant random 0).0)
    × ((ordered_at instant random 0).1.b6 / 16 ≡ 7)
    × ((ordered_at instant random 0).1.rest ≡ random.rest)
ordered_at-stamp_example = ordered_at-stamp instant 0 random in_range

abbrev later : ℕ
later = 1704067200000000512

ordered_at_increases_example :
    stamp (ordered_at instant random 0).1 < stamp (ordered_at later random 7).1
ordered_at_increases_example =
    ordered_at_increases instant later 0 7 random random (omega arith) (omega arith)

fresh : key_of instant ≢ 0
fresh e = omega arith

third_id_repeats_example :
    (let (last1, a) = ordered_at instant random 0 in
      let (last2, b) = ordered_at instant random last1 in
      let (last3, c) = ordered_at instant random last2 in (stamp a < stamp b) × (stamp c ≡ stamp a))
third_id_repeats_example = third_id_repeats instant 0 random random random in_range fresh

-- A text of one byte more than its id stands for the standard package's.
abbrev print : Bytes → Bytes
print u = b'u' ∷ u

abbrev parse : Bytes → Option Bytes
parse [] = none
parse (c ∷ u) = some u

abbrev sixteen : Bytes
sixteen = 1 ∷ 2 ∷ 3 ∷ 4 ∷ 5 ∷ 6 ∷ 7 ∷ 8 ∷ 9 ∷ 10 ∷ 11 ∷ 12 ∷ 13 ∷ 14 ∷ 15 ∷ 16 ∷ []

abbrev kept : Bytes
kept = 3 ∷ []

get_v7_time_fits_example :
    (let (next, (milli, seq)) = get_v7_time instant (key_of instant) in
      (seq < 4096) × (milli * 4096 + seq ≡ next) × (next ≢ key_of instant))
get_v7_time_fits_example = get_v7_time_fits instant (key_of instant)
