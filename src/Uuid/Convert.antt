-- ===== src/Uuid/Convert.antt =====
-- uuid/uuid.go: new ids, and conversions to and from other types. An id is a list of bytes, as in Uuid.Sql, and a text too. Parsing
-- and printing an id, the JSON of a string, and the ids that the standard package makes are parameters.
use windowframe.Prelude.{
  ◌≡◌, refl, ap, sym, ◌∙◌, Bool, true, Option, none, some, List, [], ◌∷◌, ◌++◌,
}
use mathlib.Core.List.{append-nil, append_assoc}
use windowframe.Errors.{Err, foreign}
use windowframe.Text.{Bytes}

-- pgtype.UUID
pub record PgUuid : Type 0 where
  pub bytes : Bytes
  pub valid : Bool

-- PgUUID
unfoldable pg_uuid : Bytes → PgUuid
pg_uuid u = record { bytes = u; valid = true }

-- New and Ordered, from the id that the standard package made
unfoldable new : Bytes → Bytes × Option Err
new made = (made, none)

unfoldable ordered : Bytes → Bytes × Option Err
ordered made = (made, none)

-- Must; `none` is its panic.
unfoldable must : Bytes × Option Err → Option Bytes
must (id, none) = some id
must (id, some err) = none

-- MustNew and MustOrdered
unfoldable must_new : Bytes → Option Bytes
unfolding must new
must_new made = must (new made)

unfoldable must_ordered : Bytes → Option Bytes
unfolding must ordered
must_ordered made = must (ordered made)

-- The loop of Map, with what it has appended so far
abbrev append_ids : List Bytes → List Bytes → List Bytes
append_ids out [] = out
append_ids out (id ∷ ids) = append_ids (out ++ id ∷ []) ids

-- Map
unfoldable map_ids : List Bytes → List Bytes
map_ids ids = append_ids [] ids

-- MarshalJSON, from the JSON of a string
unfoldable marshal_json : (Bytes → Bytes) → (Bytes → Bytes) → Bytes → Bytes
marshal_json quote print u = quote (print u)

module _ (unquote : Bytes → Option Bytes) (parse : Bytes → Option Bytes) where
  abbrev parsed : Bytes → Option Bytes → Bytes × Option Err
  parsed id none = (id, some (foreign "invalid UUID"))
  parsed id (some u) = (u, none)

  abbrev parse_raw : Bytes → Option Bytes → Bytes × Option Err
  parse_raw id none = (id, some (foreign "json"))
  parse_raw id (some raw) = parsed id (parse raw)

  -- UnmarshalJSON: the id that it is called on, and an error
  unfoldable unmarshal_json : Bytes → Bytes → Bytes × Option Err
  unmarshal_json json id = parse_raw id (unquote json)

  -- UnmarshalParam
  unfoldable unmarshal_param : Bytes → Bytes → Bytes × Option Err
  unmarshal_param s id = parsed id (parse s)

  -- An id is read back from its JSON whatever the receiver was before, if the parameters are inverse at it.
  unmarshal_json-marshal_json :
      (quote print : Bytes → Bytes) (u id : Bytes)
      → unquote (quote (print u)) ≡ some (print u)
      → parse (print u) ≡ some u
      → unmarshal_json (marshal_json quote print u) id ≡ (u, none)
  unfolding unmarshal_json marshal_json
  unmarshal_json-marshal_json quote print u id quoted printed =
      ap (parse_raw id) quoted ∙ ap (parsed id) printed

append_ids-append : (out ids : List Bytes) → append_ids out ids ≡ out ++ ids
append_ids-append out [] = sym (append-nil out)
append_ids-append out (id ∷ ids) =
    append_ids-append (out ++ id ∷ []) ids ∙ append_assoc out (id ∷ []) ids

-- Map keeps every id, in order, and the Must functions do not panic.
map_ids_all :
    (ids : List Bytes) (made : Bytes)
    → (map_ids ids ≡ ids) × (must_new made ≡ some made) × (must_ordered made ≡ some made)
unfolding map_ids must_new must_ordered
map_ids_all ids made = (append_ids-append [] ids, refl, refl)
