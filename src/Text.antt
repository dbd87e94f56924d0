-- ===== src/Text.antt =====
-- What the program uses of strings, strconv and regexp, on texts as lists of bytes.
pub mod Decimal
pub mod Replace
use windowframe.Prelude.{
  ℕ, zero, suc, ◌+◌, ◌-◌, ◌*◌, ◌/◌, ◌%◌, ◌^◌, String, ◌==◌, ℕ_comparable, ◌≡◌, Bool, true, false,
  ◌&&◌, not, List, [], ◌∷◌, ◌++◌, length, leb, ltb, ℤ, pos, negsuc, if◌then◌else◌, arith,
}
use Prim.Native.Char.{code}
use Prim.Native.String

abbrev pub Bytes : Type 0
Bytes = List ℕ

-- The bytes of an ASCII literal.
abbrev pub codes : String → Bytes
codes String.[] = []
codes (String.◌∷◌ c s) = code c ∷ codes s

abbrev pub is_digit : ℕ → Bool
is_digit c = leb b'0' c && leb c b'9'

-- The decimal digits of a number, on fuel that is above the number.
unfoldable pub decimal_from : ℕ → ℕ → Bytes
decimal_from zero n = []
decimal_from (suc fuel) n = elim (ltb n 10) [
  | true ↦ (b'0' + n % 10) ∷ []
  | false ↦ decimal_from fuel (n / 10) ++ (b'0' + n % 10) ∷ []
]

-- %d of a natural number, and of an int
unfoldable pub decimal : ℕ → Bytes
unfolding decimal_from
decimal n = decimal_from (suc n) n

unfoldable pub signed : ℤ → Bytes
unfolding decimal
signed (pos n) = decimal n
signed (negsuc n) = b'-' ∷ decimal (suc n)

-- The number that digits spell behind `n`.
abbrev pub number : ℕ → Bytes → ℕ
number n [] = n
number n (c ∷ s) = number (n * 10 + (c - b'0')) s

abbrev pub starts_with : Bytes → Bytes → Bool
starts_with [] s = true
starts_with (o ∷ old) [] = false
starts_with (o ∷ old) (c ∷ s) = (o == c) && starts_with old s

-- The slices s[:n] and s[n:], where n is at most the length
abbrev pub take : ℕ → Bytes → Bytes
take zero s = []
take (suc n) [] = []
take (suc n) (c ∷ s) = c ∷ take n s

abbrev pub drop : ℕ → Bytes → Bytes
drop zero s = s
drop (suc n) [] = []
drop (suc n) (c ∷ s) = drop n s

-- strings.Replace with a count of 1, at an `old` that is not empty
unfoldable pub replace_once : Bytes → Bytes → Bytes → Bytes
replace_once old new [] = []
replace_once old new (c ∷ s) =
    let rest = replace_once old new s in
    elim (starts_with old (c ∷ s)) [ true ↦ new ++ drop (length old) (c ∷ s) | false ↦ c ∷ rest ]

-- strings.ReplaceAll at an `old` that is not empty; the count is what is left to skip of a match.
unfoldable pub replace_from : Bytes → Bytes → ℕ → Bytes → Bytes
replace_from old new skip [] = []
replace_from old new (suc k) (c ∷ s) = replace_from old new k s
replace_from old new zero (c ∷ s) = elim (starts_with old (c ∷ s)) [
  | true ↦ new ++ replace_from old new (length old - 1) s
  | false ↦ c ∷ replace_from old new zero s
]

unfoldable pub replace_all : Bytes → Bytes → Bytes → Bytes
unfolding replace_from
replace_all old new s = replace_from old new zero s

-- FindAllString of the pattern [0-9]+ followed by the byte `last`; `run` is the run of digits read so far.
unfoldable pub find_numbers : ℕ → Bytes → Bytes → List Bytes
find_numbers last run [] = []
find_numbers last run (c ∷ s) =
    let rest = find_numbers last (if is_digit c then run ++ c ∷ [] else []) s in
    if not (is_digit c) && (c == last) && not (length run == 0)
    then (run ++ last ∷ []) ∷ rest
    else rest

abbrev pub max_int : ℕ
max_int = 2 ^ 63 - 1

-- strconv.Atoi of digits, without its error: out of range it is the largest int.
unfoldable pub atoi : Bytes → ℕ
atoi s = let n = number 0 s in if leb n max_int then n else max_int

-- A product of ints, with its wrap-around.
unfoldable pub mul_int : ℕ → ℕ → ℤ
mul_int a b = let w = (a * b) % 2 ^ 64 in if ltb w (2 ^ 63) then pos w else negsuc (2 ^ 64 - w - 1)
