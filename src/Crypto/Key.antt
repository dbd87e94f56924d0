-- ===== src/Crypto/Key.antt =====
-- crypto/encryption.go: keys and their texts. A text is a list of bytes. The random bytes are an argument, and so is the
-- choice of aes.NewCipher, which takes keys of 16, 24 or 32 bytes.
pub mod RoundTrip
use windowframe.Prelude.{
  ℕ, zero, suc, ◌+◌, ◌-◌, ◌*◌, ◌/◌, ◌%◌, ◌^◌, ◌≤◌, ◌<◌, ◌==◌, ==_iff, ℕ_comparable, ◌≡◌, refl, ap,
  sym, ◌∙◌, Bool, Bool-cases, inl, inr, true, false, ◌&&◌, ◌||◌, not, Option, none, some, List, [],
  ◌∷◌, ◌++◌, length, replicate, leb, ltb, ℤ, pos, negsuc, if◌then◌else◌, arith,
}
use mathlib.Core.List.{append-nil, append_assoc}
use windowframe.Text.{Bytes, codes, decimal, is_digit, number, max_int}
use windowframe.Text.Decimal.{AllDigits, decimal-AllDigits, number-decimal, decimal_cons}
use windowframe.Text.Replace.{Lacks, AllDigits-Lacks}
use windowframe.Crypto.Base64.{encode, decode, AllBytes, encode-Lacks, decode-encode}

-- GenerateAesKey: `none` is its error. `key` are the bytes of rand.Read, which fills all of the key.
unfoldable pub generate_aes_key : ℤ → Bytes → Option Bytes
generate_aes_key (negsuc bits) key = none
generate_aes_key (pos bits) key =
    if not (bits % 8 == 0) || ltb (32 * 8) bits || leb bits 16
    then none
    else some (codes "base64:" ++ (decimal (bits / 8) ++ b':' ∷ encode key))

-- strings.Split at one byte: the part before the first separator, and those behind it
pub record Parts : Type 0 where
  pub head : Bytes
  pub tail : List Bytes

abbrev pub split_at : ℕ → Bytes → Parts
split_at sep [] = record { head = []; tail = [] }
split_at sep (c ∷ s) =
    let rest = split_at sep s in
    if sep == c
    then record { head = []; tail = rest.head ∷ rest.tail }
    else record { head = c ∷ rest.head; tail = rest.tail }

unfoldable pub split : ℕ → Bytes → Parts
split = split_at

abbrev pub all_digits : Bytes → Bool
all_digits [] = true
all_digits (c ∷ s) = is_digit c && all_digits s

abbrev ranged : ℕ → Bytes → Option ℕ
ranged limit [] = none
ranged limit (c ∷ s) =
    if not (all_digits (c ∷ s))
    then none
    else if leb (number 0 (c ∷ s)) limit
    then some (number 0 (c ∷ s))
    else none

abbrev minus : Option ℕ → Option ℤ
minus none = none
minus (some zero) = some (pos 0)
minus (some (suc n)) = some (negsuc n)

abbrev plus : Option ℕ → Option ℤ
plus none = none
plus (some n) = some (pos n)

-- strconv.Atoi; `none` is its error.
unfoldable pub parse_int : Bytes → Option ℤ
parse_int [] = none
parse_int (c ∷ s) =
    if c == b'-'
    then minus (ranged (2 ^ 63) s)
    else if c == b'+'
    then plus (ranged max_int s)
    else plus (ranged max_int (c ∷ s))

pub data KeyResult : Type 0 where
  key : Bytes → KeyResult
  key_error : KeyResult
  -- make of a negative size, or Decode into a slice that is too short
  key_panic : KeyResult

-- What Decode leaves in a slice of `size` zero bytes; an error in the text is taken to come before the slice's end, and
-- make to find the memory that it is asked for.
abbrev pub filled : ℕ → Option Bytes → KeyResult
filled size none = key_error
filled size (some s) =
    if ltb size (length s) then key_panic else key (s ++ replicate (size - length s) 0)

abbrev sized : Option ℤ → Bytes → KeyResult
sized none text = key_error
sized (some (negsuc n)) text = key_panic
sized (some (pos size)) text = filled size (decode text)

abbrev pub of_parts : List Bytes → KeyResult
of_parts (size ∷ text ∷ []) = sized (parse_int size) text
of_parts [] = key_error
of_parts (size ∷ []) = key_error
of_parts (size ∷ text ∷ more ∷ rest) = key_error

-- parseKey
unfoldable pub parse_key : Bytes → KeyResult
unfolding split parse_int
parse_key s = of_parts (split b':' s).tail

abbrev pub with_cipher : KeyResult → KeyResult
with_cipher key_error = key_error
with_cipher key_panic = key_panic
with_cipher (key k) =
    if (length k == 16) || (length k == 24) || (length k == 32) then key k else key_error

-- NewEncryptor, by the key of the cipher that it makes
unfoldable pub new_encryptor : Bytes → KeyResult
new_encryptor secret = with_cipher (parse_key secret)
