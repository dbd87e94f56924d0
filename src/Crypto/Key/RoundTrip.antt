-- ===== src/Crypto/Key/RoundTrip.antt =====
-- crypto/encryption.go: a generated key is read back, and which of them make a cipher.
use windowframe.Prelude.{
  ℕ, ◌-◌, ◌*◌, ◌/◌, ◌%◌, ◌≤◌, ◌==◌, ==_iff, ℕ_comparable, ◌≡◌, refl, ap, ◌∙◌, true, false, ◌||◌,
  not, some, [], ◌∷◌, ◌++◌, length, leb, ltb, pos, if◌then◌else◌, arith,
}
use mathlib.Core.List.{append-nil}
use windowframe.Text.{Bytes, codes, decimal, number, max_int}
use windowframe.Text.Decimal.{AllDigits, decimal-AllDigits, number-decimal, decimal_cons}
use windowframe.Text.Replace.{Lacks, AllDigits-Lacks}
use windowframe.Crypto.Base64.{encode, AllBytes, encode-Lacks, decode-encode}
use windowframe.Crypto.Key.{
  generate_aes_key, split_at, split, all_digits, parse_int, key, key_error, filled, parse_key,
  with_cipher, of_parts, new_encryptor,
}

split_lacking :
    (sep : ℕ) (s : Bytes) → Lacks sep s → split_at sep s ≡ record { head = s; tail = [] }
split_lacking sep [] h = refl
split_lacking sep (c ∷ s) (h, hs) = rw (h, split_lacking sep s hs) refl

split_first :
    (sep : ℕ) (xs s : Bytes)
    → Lacks sep xs
    → split_at sep (xs ++ sep ∷ s)
      ≡ record { head = xs; tail = (split_at sep s).head ∷ (split_at sep s).tail }
split_first sep [] s h = rw ((==_iff sep sep).1 refl) refl
split_first sep (c ∷ xs) s (h, hs) = rw (h, split_first sep xs s hs) refl

all_digits-AllDigits : (s : Bytes) → AllDigits s → all_digits s ≡ true
all_digits-AllDigits [] h = refl
all_digits-AllDigits (c ∷ s) (h, hs) = rw (h, all_digits-AllDigits s hs) refl

parse_digits :
    (c : ℕ) (s : Bytes)
    → AllDigits (c ∷ s)
    → number 0 (c ∷ s) ≤ max_int
    → parse_int (c ∷ s) ≡ some (pos (number 0 (c ∷ s)))
unfolding parse_int
parse_digits c s h fits = ground (arith, all_digits-AllDigits (c ∷ s) h)

pub parse_int-decimal : (n : ℕ) → n ≤ max_int → parse_int (decimal n) ≡ some (pos n)
parse_int-decimal n fits =
    by_text (decimal n) (decimal_cons n) (decimal-AllDigits n) (number-decimal n)
  where
    by_text :
        (ds : Bytes)
        → ((c : ℕ) × (s : Bytes) × (ds ≡ c ∷ s))
        → AllDigits ds
        → number 0 ds ≡ n
        → parse_int ds ≡ some (pos n)
    by_text [] (c, s, e) digits spells = cc
    by_text (c ∷ s) e digits spells =
        parse_digits c s digits (omega (arith, spells)) ∙ ap (λ k. some (pos k)) spells

filled_all : (k : Bytes) (n : ℕ) → length k ≡ n → filled n (some k) ≡ key k
filled_all k n e =
    let no_less : ltb n (length k) ≡ false = ground arith in
    let none_left : n - length k ≡ 0 = omega (arith, e) in rw (no_less, none_left, append-nil) refl

abbrev key_text : ℕ → Bytes → Bytes
key_text n k = codes "base64:" ++ (decimal n ++ b':' ∷ encode k)

split_key :
    (n : ℕ) (k : Bytes)
    → AllBytes k
    → (split_at b':' (key_text n k)).tail ≡ decimal n ∷ encode k ∷ []
split_key n k bytes =
    ap (λ p. p.tail) (split_first b':' (codes "base64") (decimal n ++ b':' ∷ encode k) base_lacks)
    ∙ rw
        (
          split_first b':' (decimal n) (encode k)
              (AllDigits-Lacks b':' (decimal n) refl (decimal-AllDigits n)),
          split_lacking b':' (encode k) (encode-Lacks k bytes),
        )
        refl
  where
    base_lacks : Lacks b':' (codes "base64")
    base_lacks = (refl, (refl, (refl, (refl, (refl, (refl, tt))))))

parse_key_text :
    (n : ℕ) (k : Bytes) → AllBytes k → length k ≡ n → n ≤ max_int → parse_key (key_text n k) ≡ key k
unfolding parse_key split
parse_key_text n k bytes size fits =
    ap of_parts (split_key n k bytes)
    ∙ rw (parse_int-decimal n fits, decode-encode k bytes) (filled_all k n size)

generate_taken :
    (bits : ℕ) (k : Bytes)
    → (not (bits % 8 == 0) || ltb (32 * 8) bits || leb bits 16) ≡ false
    → generate_aes_key (pos bits) k ≡ some (key_text (bits / 8) k)
unfolding generate_aes_key
generate_taken bits k taken = rw taken refl

cipher_sizes :
    (bits : ℕ) (k : Bytes)
    → bits % 8 ≡ 0
    → length k ≡ bits / 8
    → with_cipher (key k)
      ≡ (if (bits == 128) || (bits == 192) || (bits == 256) then key k else key_error)
cipher_sizes bits k whole size = ground arith

-- GenerateAesKey gives a text for every multiple of 8 bits from 24 to 256. It is read back as the key's bytes, and
-- NewEncryptor makes a cipher of it exactly if the key has 128, 192 or 256 bits, and refuses it otherwise. rand.Read has
-- filled the key with bytes.
pub new_encryptor-generate_aes_key :
    (bits : ℕ) (k : Bytes)
    → AllBytes k
    → length k ≡ bits / 8
    → bits % 8 ≡ 0
    → 24 ≤ bits
    → bits ≤ 256
    → (text : Bytes) × (generate_aes_key (pos bits) k ≡ some text)
      × (parse_key text ≡ key k)
      × (new_encryptor text
          ≡ (if (bits == 128) || (bits == 192) || (bits == 256) then key k else key_error))
new_encryptor-generate_aes_key bits k bytes size whole from_24 bound =
    let read = parse_key_text (bits / 8) k bytes size (omega arith) in
    (
      key_text (bits / 8) k,
      generate_taken bits k (ground arith),
      read,
      unfold new_encryptor in (ap with_cipher read ∙ cipher_sizes bits k whole size),
    )
