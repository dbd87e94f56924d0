-- ===== src/Uuid/Sql.antt =====
-- uuid/sql.go and the text methods of uuid/uuid.go. Parsing and printing an id, json.Unmarshal and yaml's decoding of a
-- text are parameters; an id is a list of bytes, and so is a text.
use windowframe.Prelude.{
  ℕ, ◌==◌, ℕ_comparable, ◌≡◌, refl, not, Option, none, some, [], ◌∷◌, length, if◌then◌else◌,
}
use windowframe.Errors.{Err, foreign}
use windowframe.Text.{Bytes}

-- What a driver hands to Scan
pub data Source : Type 0 where
  null : Source
  text_value : Bytes → Source
  bytes_value : Bytes → Source
  other_value : Source

-- Value, MarshalText, MarshalYAML, and MarshalJSON before its quotes: the text of the id
unfoldable pub value : (Bytes → Bytes) → Bytes → Source
value print u = text_value (print u)

module _ (parse : Bytes → Option Bytes) where
  abbrev parsed : Bytes → Option Bytes → Bytes × Option Err
  parsed id none = (id, some (foreign "Scan"))
  parsed id (some u) = (u, none)

  abbrev scan_text : Bytes → Bytes → Bytes × Option Err
  scan_text [] id = (id, none)
  scan_text (c ∷ s) id = parsed id (parse (c ∷ s))

  -- Scan, on the id that it is called on
  unfoldable pub scan : Source → Bytes → Bytes × Option Err
  scan null id = (id, none)
  scan (text_value s) id = scan_text s id
  scan (bytes_value s) id =
      if length s == 0
      then (id, none)
      else if not (length s == 16)
      then scan_text s id
      else (s, none)
  scan other_value id = (id, some (foreign "unable to scan type into UUID"))

  abbrev set_parsed : Bytes → Option Bytes → Bytes × Option Err
  set_parsed id none = (id, some (foreign "invalid UUID"))
  set_parsed id (some u) = (u, none)

  -- UnmarshalParam, and UnmarshalText on the bytes of its text
  unfoldable pub unmarshal_text : Bytes → Bytes → Bytes × Option Err
  unmarshal_text s id = set_parsed id (parse s)

  abbrev read_text : Err → Bytes → Option Bytes → Bytes × Option Err
  read_text e id none = (id, some e)
  read_text e id (some raw) = unmarshal_text raw id

  -- UnmarshalJSON and UnmarshalYAML, from the text that the decoder gave
  unfoldable pub unmarshal_decoded : Err → Option Bytes → Bytes → Bytes × Option Err
  unfolding unmarshal_text
  unmarshal_decoded decode_error raw id = read_text decode_error id raw

  -- An id that is written by Value or by one of the Marshal methods is read back by Scan and by the Unmarshal
  -- methods, if printing and parsing are inverse and no text is empty; Scan reads the 16 bytes of an id too. NULL
  -- and an empty value leave the id as it was, without an error.
  pub scan-value :
      (print : Bytes → Bytes) (u id : Bytes) (e : Err) (c : ℕ) (s : Bytes)
      → print u ≡ c ∷ s
      → parse (c ∷ s) ≡ some u
      → length u ≡ 16
      → (scan (value print u) id ≡ (u, none))
        × (scan (bytes_value u) id ≡ (u, none))
        × (unmarshal_decoded e (some (print u)) id ≡ (u, none))
        × (scan null id ≡ (id, none))
        × (scan (text_value []) id ≡ (id, none))
        × (scan (bytes_value []) id ≡ (id, none))
  unfolding scan value unmarshal_decoded
  scan-value print u id e c s text read size =
      (rw (text, read) refl, rw size refl, rw (text, read) refl, refl, refl, refl)
