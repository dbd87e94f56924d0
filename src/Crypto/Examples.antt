-- ===== src/Crypto/Examples.antt =====
-- A key and a text through crypto, and the theorems there.
use windowframe.Prelude.{◌≡◌, refl, pos, some, [], ◌∷◌, arith}
use windowframe.Text.{Bytes}
use windowframe.Crypto.Base64.{AllBytes}
use windowframe.Crypto.Key.{generate_aes_key, key, key_error, parse_key, new_encryptor}
use windowframe.Crypto.Key.RoundTrip.{new_encryptor-generate_aes_key}
use windowframe.Crypto.Encryption.{
  Aead, IsAead, encrypt, decrypt, plain, out_of_range, decrypt-encrypt,
}

three_bytes : AllBytes (1 ∷ 2 ∷ 3 ∷ [])
three_bytes = (omega arith, (omega arith, (omega arith, tt)))

new_encryptor-generate_aes_key_example :
    (text : Bytes) × (generate_aes_key (pos 24) (1 ∷ 2 ∷ 3 ∷ []) ≡ some text)
    × (parse_key text ≡ key (1 ∷ 2 ∷ 3 ∷ []))
    × (new_encryptor text ≡ key_error)
new_encryptor-generate_aes_key_example =
    new_encryptor-generate_aes_key 24 (1 ∷ 2 ∷ 3 ∷ []) three_bytes refl refl (omega arith)
      (omega arith)

-- It leaves the text as it is and checks nothing.
abbrev weak : Aead
weak = record { nonce_size = 2; seal = λ nonce p. p; open_text = λ nonce c. some c }

weak-IsAead : IsAead weak
weak-IsAead = record { open-seal = λ nonce p size. refl }

decrypt-encrypt_example :
    (decrypt weak (1 ∷ 2 ∷ 7 ∷ 8 ∷ []) ≡ plain (7 ∷ 8 ∷ []))
    × (decrypt weak (1 ∷ []) ≡ out_of_range)
unfolding encrypt
decrypt-encrypt_example =
    decrypt-encrypt weak (1 ∷ 2 ∷ []) (7 ∷ 8 ∷ []) (1 ∷ []) (1 ∷ 2 ∷ 7 ∷ 8 ∷ []) weak-IsAead refl
      refl (omega arith)
