-- ===== src/Duration.antt =====
-- duration/string.go: StringDuration, whose texts may count days. The text that time.Duration's String gives is
-- modelled for whole seconds; ParseDuration is modelled whole, but for the floating-point product of a
-- fraction and a unit, which is the parameter `fraction`, by the fraction's digits and the unit.
pub mod Days
pub mod Terms
pub mod RoundTrip
mod Examples
use windowframe.Prelude.{
  ℕ, zero, suc, ◌+◌, ◌-◌, ◌*◌, ◌/◌, ◌%◌, ◌^◌, ◌==◌, ℕ_comparable, ◌≡◌, Bool, true, false, not, ◌&&◌,
  ◌||◌, Option, none, some, List, [], ◌∷◌, ◌++◌, length, leb, ltb, ℤ, pos, negsuc, if◌then◌else◌,
  arith,
}
use windowframe.Text.{
  Bytes, codes, is_digit, decimal, signed, replace_all, find_numbers, atoi, mul_int,
}

-- What a match counts: the match without its unit.
abbrev pub count_of : ℕ → Bytes → ℕ
count_of unit m = atoi (replace_all (unit ∷ []) [] m)

-- One round of ParseStringDuration's loop
unfoldable pub days_to_hours : Bytes → Bytes → Bytes
days_to_hours m s = replace_all m (signed (mul_int (count_of b'd' m) 24) ++ b'h' ∷ []) s

abbrev pub each : (Bytes → Bytes → Bytes) → List Bytes → Bytes → Bytes
each f [] s = s
each f (m ∷ ms) s = each f ms (f m s)

-- ParseStringDuration up to the call of time.ParseDuration
unfoldable pub expand_days : Bytes → Bytes
unfolding days_to_hours
expand_days s = each days_to_hours (find_numbers b'd' [] s) s

-- The loop of String that takes days off the hours, on fuel
unfoldable pub split_days : ℕ → ℕ → ℕ → ℕ × ℕ
split_days zero days hours = (days, hours)
split_days (suc fuel) days hours = elim (leb 24 hours) [
  | true ↦ split_days fuel (suc days) (hours - 24)
  | false ↦ (days, hours)
]

-- One round of String's loop over its matches; a match of h hours makes h rounds at most.
unfoldable pub hours_to_days : Bytes → Bytes → Bytes
unfolding split_days
hours_to_days m s =
    let (days, hours) = split_days (count_of b'h' m) zero (count_of b'h' m) in
    replace_all m (decimal days ++ b'd' ∷ (decimal hours ++ b'h' ∷ [])) s

-- String, from the text of time.Duration's String
unfoldable pub with_days : Bytes → Bytes
unfolding hours_to_days
with_days s = each hours_to_days (find_numbers b'h' [] s) s

-- time.Duration's String at a number of whole seconds, not negative
unfoldable pub go_text : ℕ → Bytes
go_text n =
    let seconds = decimal (n % 60) ++ b's' ∷ [] in
    let minutes = decimal (n / 60 % 60) ++ b'm' ∷ seconds in
    if ltb n 60
    then seconds
    else if ltb n 3600
    then minutes
    else decimal (n / 3600) ++ b'h' ∷ minutes

-- StringDuration.String at a number of whole seconds, with its sign
unfoldable pub text_of : Bool → ℕ → Bytes
unfolding with_days go_text
text_of negative n = with_days (if negative then b'-' ∷ go_text n else go_text n)

-- unitMap of the package time, in nanoseconds; the micro sign is U+00B5 or U+03BC
abbrev pub unit_of : Bytes → Option ℕ
unit_of (c ∷ []) =
    if c == b's'
    then some (10 ^ 9)
    else if c == b'm'
    then some (60 * 10 ^ 9)
    else if c == b'h'
    then some (3600 * 10 ^ 9)
    else none
unit_of (c ∷ d ∷ []) =
    if not (d == b's')
    then none
    else if c == b'n'
    then some 1
    else if c == b'u'
    then some 1000
    else if c == b'm'
    then some (10 ^ 6)
    else none
unit_of (c ∷ d ∷ e ∷ []) =
    if (e == b's') && (((c == 0xc2) && (d == 0xb5)) || ((c == 0xce) && (d == 0xbc)))
    then some 1000
    else none
unit_of _ = none

-- Where the loop of ParseDuration stands in a term: in its whole number, with whether it has a digit; in
-- its fraction, with the digits and whether there is a digit at all; in its unit.
pub data Place : Type 0 where
  whole : ℕ → Bool → Place
  part : ℕ → Bytes → Bool → Place
  unit : ℕ → Bytes → Bytes → Place

abbrev both : {A B : Type 0} → Option A → Option B → Option (A × B)
both none y = none
both (some x) none = none
both (some x) (some y) = some (x, y)

abbrev in_range : ℕ → Option ℕ
in_range d = if leb d (2 ^ 63) then some d else none

abbrev sum_of : ℕ → Option ℕ → Option ℕ
sum_of d none = none
sum_of d (some v) = in_range (d + v)

-- The place behind a byte of a whole number; `none` for an error
abbrev digit_place : ℕ → ℕ → Option Place
digit_place v c =
    if ltb (2 ^ 63 / 10) v
    then none
    else if leb (v * 10 + (c - b'0')) (2 ^ 63)
    then some (whole (v * 10 + (c - b'0')) true)
    else none

abbrev next_place : Place → ℕ → Option Place
next_place (whole v pre) c =
    if is_digit c
    then digit_place v c
    else if c == b'.'
    then some (part v [] pre)
    else if pre
    then some (unit v [] (c ∷ []))
    else none
next_place (part v f any_digit) c =
    if is_digit c
    then some (part v (f ++ c ∷ []) true)
    else if any_digit && not (c == b'.')
    then some (unit v f (c ∷ []))
    else none
next_place (unit v f u) c = some (unit v f (u ++ c ∷ []))

abbrev signed_sum : Bool → Option ℕ → Option ℤ
signed_sum negative none = none
signed_sum true (some zero) = some (pos 0)
signed_sum true (some (suc d)) = some (negsuc d)
signed_sum false (some d) = if ltb (2 ^ 63 - 1) d then none else some (pos d)

module _ (fraction : Bytes → ℕ → ℕ) where
  abbrev term_value : ℕ → Bytes → Option ℕ → Option ℕ
  term_value v f none = none
  term_value v f (some u) =
      if ltb (2 ^ 63 / u) v
      then none
      else in_range (v * u + (if length f == 0 then 0 else fraction f u))

  -- The sum with a term that is read to its end
  unfoldable pub add_term : ℕ → ℕ → Bytes → Bytes → Option ℕ
  add_term d v f u = sum_of d (term_value v f (unit_of u))

  -- A byte of the text: it ends the unit of a term if it can start the next one.
  abbrev step : ℕ → Place → ℕ → Option (ℕ × Place)
  step d (unit v f u) c =
      if is_digit c || (c == b'.')
      then both (add_term d v f u) (next_place (whole 0 false) c)
      else both (some d) (next_place (unit v f u) c)
  step d p c = both (some d) (next_place p c)

  -- The loop of ParseDuration
  unfoldable pub parse_terms : ℕ → Place → Bytes → Option ℕ
  unfolding add_term
  parse_terms d (unit v f u) [] = add_term d v f u
  parse_terms d (whole v pre) [] = none
  parse_terms d (part v f any_digit) [] = none
  parse_terms d p (c ∷ s) = elim (step d p c) [ none ↦ none | some (d1, p1) ↦ parse_terms d1 p1 s ]

  abbrev unsigned_terms : Bool → Bytes → Option ℤ
  unsigned_terms negative [] = none
  unsigned_terms negative (c ∷ s) =
      if (c == b'0') && (length s == 0)
      then some (pos 0)
      else signed_sum negative (parse_terms 0 (whole 0 false) (c ∷ s))

  -- time.ParseDuration
  unfoldable pub parse_duration : Bytes → Option ℤ
  parse_duration [] = none
  parse_duration (c ∷ s) =
      if c == b'-'
      then unsigned_terms true s
      else if c == b'+'
      then unsigned_terms false s
      else unsigned_terms false (c ∷ s)

  -- ParseStringDuration; `none` stands for its error.
  unfoldable pub parse_string_duration : Bytes → Option ℤ
  parse_string_duration s = parse_duration (expand_days s)
