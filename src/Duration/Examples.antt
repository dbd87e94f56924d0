-- ===== src/Duration/Examples.antt =====
-- Durations read and printed, and the theorems there.
use windowframe.Prelude.{ℕ, ◌+◌, ◌*◌, ◌/◌, ◌%◌, ◌^◌, ◌≡◌, refl, false, some, pos, arith}
use windowframe.Text.{Bytes, codes, decimal, replace_all, find_numbers, atoi, mul_int, signed}
use windowframe.Duration.{split_days, expand_days, hours_to_days, text_of, parse_string_duration}
use windowframe.Duration.Days.{split_days_divides}
use windowframe.Duration.RoundTrip.{parse_string_duration-text_of}

split_days_divides_example : split_days 49 0 49 ≡ (0 + 49 / 24, 49 % 24)
split_days_divides_example = split_days_divides 49 0 49 (omega arith)

abbrev no_fraction : Bytes → ℕ → ℕ
no_fraction f u = 0

parse_string_duration-text_of_example :
    parse_string_duration no_fraction (text_of false 176461) ≡ some (pos (176461 * 10 ^ 9))
parse_string_duration-text_of_example =
    parse_string_duration-text_of no_fraction 176461 (omega arith)

printed : text_of false 176461 ≡ codes "2d1h1m1s"
unfolding text_of hours_to_days replace_all find_numbers atoi decimal
printed = refl

-- A match inside a later one is replaced there too.
overlapping : expand_days (codes "1d11d") ≡ codes "24h124h"
unfolding expand_days replace_all find_numbers atoi signed mul_int
overlapping = refl
