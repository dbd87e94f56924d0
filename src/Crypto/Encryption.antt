-- ===== src/Crypto/Encryption.antt =====
-- crypto/encryption.go and crypto/token.go: Encrypt, Decrypt and Token. A cipher.AEAD is a parameter, with what its
-- documentation says of Open and Seal; so are the random bytes of rand.Read, and the texts of hex and SHA-256.
use windowframe.Prelude.{
  ℕ, ◌<◌, ◌≡◌, refl, ap, true, false, Option, none, some, [], ◌∷◌, ◌++◌, length, length-append, ltb,
  if◌then◌else◌, arith,
}
use windowframe.Errors.{Err, wrap}
use windowframe.Text.{Bytes, take, drop}

-- A cipher.AEAD without additional data
pub record Aead : Type 0 where
  pub nonce_size : ℕ
  pub seal : Bytes → Bytes → Bytes
  pub open_text : Bytes → Bytes → Option Bytes

pub record IsAead (gcm : Aead) : Type 0 where
  pub open-seal :
      (nonce p : Bytes)
      → length nonce ≡ gcm.nonce_size
      → gcm.open_text nonce (gcm.seal nonce p) ≡ some p

pub data Decrypted : Type 0 where
  plain : Bytes → Decrypted
  refused : Decrypted
  -- a slice out of range
  out_of_range : Decrypted

-- Encrypt, with what rand.Read returned: the nonce or an error
unfoldable pub encrypt : Aead → Option Bytes → Bytes → Option Bytes
encrypt gcm none p = none
encrypt gcm (some nonce) p = some (nonce ++ gcm.seal nonce p)

abbrev opened : Option Bytes → Decrypted
opened none = refused
opened (some p) = plain p

-- Decrypt
unfoldable pub decrypt : Aead → Bytes → Decrypted
decrypt gcm c =
    if ltb (length c) gcm.nonce_size
    then out_of_range
    else opened (gcm.open_text (take gcm.nonce_size c) (drop gcm.nonce_size c))

abbrev token_of :
    (Bytes → Bytes) → (Bytes → Bytes) → Err → Option Bytes → Option Err × (Bytes × Bytes)
token_of hex sum rand_error none = (some (wrap "generate random token bytes" rand_error), ([], []))
token_of hex sum rand_error (some bytes) = (none, (hex bytes, sum (hex bytes)))

-- Token, from what rand.Read returned: the error, or the token and its hash
unfoldable pub token :
    (Bytes → Bytes) → (Bytes → Bytes) → Err → Option Bytes → Option Err × (Bytes × Bytes)
token = token_of

take-length : (xs ys : Bytes) → take (length xs) (xs ++ ys) ≡ xs
take-length [] ys = refl
take-length (x ∷ xs) ys = ap (λ l. x ∷ l) (take-length xs ys)

drop-length : (xs ys : Bytes) → drop (length xs) (xs ++ ys) ≡ ys
drop-length [] ys = refl
drop-length (x ∷ xs) ys = drop-length xs ys

-- What Encrypt returns is decrypted to the plain text, whatever nonce of the cipher's size was drawn; and any
-- text that is shorter than a nonce makes Decrypt run out of its range instead of returning an error.
pub decrypt-encrypt :
    (gcm : Aead) (nonce p short c : Bytes)
    → IsAead gcm
    → length nonce ≡ gcm.nonce_size
    → encrypt gcm (some nonce) p ≡ some c
    → length short < gcm.nonce_size
    → (decrypt gcm c ≡ plain p) × (decrypt gcm short ≡ out_of_range)
unfolding encrypt decrypt
decrypt-encrypt gcm nonce p short c laws size made too_short =
    let same : nonce ++ gcm.seal nonce p ≡ c = cc in
    let enough : ltb (length (nonce ++ gcm.seal nonce p)) gcm.nonce_size ≡ false =
      ground (arith, length-append nonce (gcm.seal nonce p)) in
    (
      rw (← same, enough, ← size, take-length, drop-length)
          (ap opened (laws.open-seal nonce p size)),
      rw (is_short (length short) gcm.nonce_size too_short) refl,
    )
  where
    is_short : (m n : ℕ) → m < n → ltb m n ≡ true
    is_short m n h = ground arith
