-- ===== src/Crypto/Base64.antt =====
-- base64.StdEncoding, as crypto/encryption.go uses it: texts and data are lists of bytes.
use windowframe.Prelude.{
  ℕ, ◌+◌, ◌-◌, ◌*◌, ◌/◌, ◌%◌, ◌<◌, ◌==◌, ℕ_comparable, ◌≡◌, refl, ap, ◌∙◌, false, ◌&&◌, ◌||◌,
  Option, none, some, [], ◌∷◌, leb, ltb, if◌then◌else◌, arith,
}
use windowframe.Text.{Bytes}
use windowframe.Text.Replace.{Lacks}

abbrev pub char_of : ℕ → ℕ
char_of n =
    if ltb n 26
    then n + b'A'
    else if ltb n 52
    then n + (b'a' - 26)
    else if ltb n 62
    then n - 4
    else if n == 62
    then b'+'
    else b'/'

abbrev pub value_of : ℕ → Option ℕ
value_of c =
    if leb b'A' c && leb c b'Z'
    then some (c - b'A')
    else if leb b'a' c && leb c b'z'
    then some (c - 71)
    else if leb b'0' c && leb c b'9'
    then some (c + 4)
    else if c == b'+'
    then some 62
    else if c == b'/'
    then some 63
    else none

-- EncodeToString
unfoldable pub encode : Bytes → Bytes
encode [] = []
encode (a ∷ []) = char_of (a / 4) ∷ char_of (a % 4 * 16) ∷ b'=' ∷ b'=' ∷ []
encode (a ∷ b ∷ []) =
    char_of (a / 4) ∷ char_of (a % 4 * 16 + b / 16) ∷ char_of (b % 16 * 4) ∷ b'=' ∷ []
encode (a ∷ b ∷ c ∷ s) =
    char_of (a / 4)
    ∷ char_of (a % 4 * 16 + b / 16)
    ∷ char_of (b % 16 * 4 + c / 64)
    ∷ char_of (c % 64)
    ∷ encode s

abbrev three : Option ℕ → Option ℕ → Option ℕ → Option ℕ → Option Bytes → Option Bytes
three (some w) (some x) (some y) (some z) (some rest) =
    some ((w * 4 + x / 16) ∷ (x % 16 * 16 + y / 4) ∷ (y % 4 * 64 + z) ∷ rest)
three (some w) (some x) (some y) (some z) none = none
three (some w) (some x) (some y) none rest = none
three (some w) (some x) none z rest = none
three (some w) none y z rest = none
three none x y z rest = none

abbrev two : Option ℕ → Option ℕ → Option ℕ → Option Bytes
two (some w) (some x) (some y) = some ((w * 4 + x / 16) ∷ (x % 16 * 16 + y / 4) ∷ [])
two (some w) (some x) none = none
two (some w) none y = none
two none x y = none

abbrev one : Option ℕ → Option ℕ → Option Bytes
one (some w) (some x) = some ((w * 4 + x / 16) ∷ [])
one (some w) none = none
one none x = none

-- A last group, which may be padded
abbrev last_group : ℕ → ℕ → ℕ → ℕ → Option Bytes
last_group w x y z =
    if z == b'='
    then (if y == b'='
        then one (value_of w) (value_of x)
        else two (value_of w) (value_of x) (value_of y))
    else three (value_of w) (value_of x) (value_of y) (value_of z) (some [])

-- Decode of a text without line breaks
unfoldable pub decode_groups : Bytes → Option Bytes
decode_groups [] = some []
decode_groups (w ∷ x ∷ y ∷ z ∷ []) = last_group w x y z
decode_groups (w ∷ x ∷ y ∷ z ∷ v ∷ s) =
    three (value_of w) (value_of x) (value_of y) (value_of z) (decode_groups (v ∷ s))
decode_groups (w ∷ []) = none
decode_groups (w ∷ x ∷ []) = none
decode_groups (w ∷ x ∷ y ∷ []) = none

abbrev without_breaks : Bytes → Bytes
without_breaks [] = []
without_breaks (c ∷ s) =
    if (c == b'\r') || (c == b'\n') then without_breaks s else c ∷ without_breaks s

-- Decode, which skips line breaks
unfoldable pub decode : Bytes → Option Bytes
unfolding decode_groups
decode s = decode_groups (without_breaks s)

abbrev pub AllBytes : Bytes → Type 0
AllBytes [] = Unit
AllBytes (c ∷ s) = (c < 256) × AllBytes s

value-char : (n : ℕ) → n < 64 → value_of (char_of n) ≡ some n
value-char n h = ground arith

plain : (n : ℕ) → n < 64 → ((char_of n == b'\r') || (char_of n == b'\n')) ≡ false
plain n h = ground arith

no_padding : (n : ℕ) → n < 64 → (char_of n == b'=') ≡ false
no_padding n h = ground arith

no_colon : (n : ℕ) → n < 64 → (b':' == char_of n) ≡ false
no_colon n h = ground arith

pub encode-Lacks : (k : Bytes) → AllBytes k → Lacks b':' (encode k)
unfolding encode
encode-Lacks [] h = tt
encode-Lacks (a ∷ []) (ha, _) =
    (no_colon (a / 4) (omega arith), (no_colon (a % 4 * 16) (omega arith), (refl, (refl, tt))))
encode-Lacks (a ∷ b ∷ []) (ha, (hb, _)) = (
  no_colon (a / 4) (omega arith),
  (no_colon (a % 4 * 16 + b / 16) (omega arith), (no_colon (b % 16 * 4) (omega arith), (refl, tt))),
)
encode-Lacks (a ∷ b ∷ c ∷ s) (ha, (hb, (hc, hs))) = (
  no_colon (a / 4) (omega arith),
  (
    no_colon (a % 4 * 16 + b / 16) (omega arith),
    (
      no_colon (b % 16 * 4 + c / 64) (omega arith),
      (no_colon (c % 64) (omega arith), encode-Lacks s hs),
    ),
  ),
)

abbrev AllPlain : Bytes → Type 0
AllPlain [] = Unit
AllPlain (c ∷ s) = (((c == b'\r') || (c == b'\n')) ≡ false) × AllPlain s

encode-AllPlain : (k : Bytes) → AllBytes k → AllPlain (encode k)
unfolding encode
encode-AllPlain [] h = tt
encode-AllPlain (a ∷ []) (ha, _) =
    (plain (a / 4) (omega arith), (plain (a % 4 * 16) (omega arith), (refl, (refl, tt))))
encode-AllPlain (a ∷ b ∷ []) (ha, (hb, _)) = (
  plain (a / 4) (omega arith),
  (plain (a % 4 * 16 + b / 16) (omega arith), (plain (b % 16 * 4) (omega arith), (refl, tt))),
)
encode-AllPlain (a ∷ b ∷ c ∷ s) (ha, (hb, (hc, hs))) = (
  plain (a / 4) (omega arith),
  (
    plain (a % 4 * 16 + b / 16) (omega arith),
    (
      plain (b % 16 * 4 + c / 64) (omega arith),
      (plain (c % 64) (omega arith), encode-AllPlain s hs),
    ),
  ),
)

without_breaks_plain : (s : Bytes) → AllPlain s → without_breaks s ≡ s
without_breaks_plain [] h = refl
without_breaks_plain (c ∷ s) (h, hs) = rw h (ap (λ l. c ∷ l) (without_breaks_plain s hs))

-- A group of four without padding
four :
    (w x y z : ℕ) (t : Bytes)
    → (z == b'=') ≡ false
    → decode_groups (w ∷ x ∷ y ∷ z ∷ t)
      ≡ three (value_of w) (value_of x) (value_of y) (value_of z) (decode_groups t)
unfolding decode_groups
four w x y z [] h = rw h refl
four w x y z (v ∷ t) h = refl

decoded_three :
    (a b c : ℕ) (rest : Bytes)
    → a < 256
    → b < 256
    → c < 256
    → three
        (some (a / 4))
        (some (a % 4 * 16 + b / 16))
        (some (b % 16 * 4 + c / 64))
        (some (c % 64))
        (some rest)
      ≡ some (a ∷ b ∷ c ∷ rest)
decoded_three a b c rest ha hb hc = λ i. some (first i ∷ second i ∷ third i ∷ rest)
  where
    first : a / 4 * 4 + (a % 4 * 16 + b / 16) / 16 ≡ a
    first = omega arith

    second : (a % 4 * 16 + b / 16) % 16 * 16 + (b % 16 * 4 + c / 64) / 4 ≡ b
    second = omega arith

    third : (b % 16 * 4 + c / 64) % 4 * 64 + c % 64 ≡ c
    third = omega arith

decoded_two :
    (a b : ℕ)
    → a < 256
    → b < 256
    → two (some (a / 4)) (some (a % 4 * 16 + b / 16)) (some (b % 16 * 4)) ≡ some (a ∷ b ∷ [])
decoded_two a b ha hb = λ i. some (first i ∷ second i ∷ [])
  where
    first : a / 4 * 4 + (a % 4 * 16 + b / 16) / 16 ≡ a
    first = omega arith

    second : (a % 4 * 16 + b / 16) % 16 * 16 + b % 16 * 4 / 4 ≡ b
    second = omega arith

decoded_one : (a : ℕ) → a < 256 → one (some (a / 4)) (some (a % 4 * 16)) ≡ some (a ∷ [])
decoded_one a ha = λ i. some (first i ∷ [])
  where
    first : a / 4 * 4 + a % 4 * 16 / 16 ≡ a
    first = omega arith

decode_groups-encode : (k : Bytes) → AllBytes k → decode_groups (encode k) ≡ some k
unfolding encode decode_groups
decode_groups-encode [] h = refl
decode_groups-encode (a ∷ []) (ha, _) =
    rw (value-char (a / 4) (omega arith), value-char (a % 4 * 16) (omega arith)) (decoded_one a ha)
decode_groups-encode (a ∷ b ∷ []) (ha, (hb, _)) =
    rw
      (
        no_padding (b % 16 * 4) (omega arith),
        value-char (a / 4) (omega arith),
        value-char (a % 4 * 16 + b / 16) (omega arith),
        value-char (b % 16 * 4) (omega arith),
      )
      (decoded_two a b ha hb)
decode_groups-encode (a ∷ b ∷ c ∷ s) (ha, (hb, (hc, hs))) =
    four (char_of (a / 4)) (char_of (a % 4 * 16 + b / 16)) (char_of (b % 16 * 4 + c / 64))
      (char_of (c % 64)) (encode s) (no_padding (c % 64) (omega arith))
    ∙ rw
        (
          value-char (a / 4) (omega arith),
          value-char (a % 4 * 16 + b / 16) (omega arith),
          value-char (b % 16 * 4 + c / 64) (omega arith),
          value-char (c % 64) (omega arith),
          decode_groups-encode s hs,
        )
        (decoded_three a b c s ha hb hc)

-- Data is read back from its encoding.
pub decode-encode : (k : Bytes) → AllBytes k → decode (encode k) ≡ some k
unfolding decode
decode-encode k h =
    ap decode_groups (without_breaks_plain (encode k) (encode-AllPlain k h))
    ∙ decode_groups-encode k h
