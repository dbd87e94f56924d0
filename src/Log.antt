-- ===== src/Log.antt =====
-- log/handler.go: attributes in a context, and the handler that adds them to each record. A map is an address in a store,
-- since contexts share maps. Contexts are those of henrywhitaker3/ctxgen, a parameter with its laws; a value that
-- the program logs is told apart as far as the switch of Handle does, with a number in place of the rest.
pub mod Context
pub mod Attrs
pub mod Handlers
pub mod Values
mod Level
mod Examples
use windowframe.Prelude.{
  ℕ, zero, suc, ◌≡◌, Bool, Option, none, some, List, [], ◌∷◌, ◌++◌, map, length, String,
  String_comparable, Assoc, insert, ℤ,
}
use windowframe.Log.Context.{
  CtxKey, text_key, log_attrs, CtxValue, text_value, attrs_at, other_value, CtxApi,
}

pub data IntKind : Type 0 where
  int int8 int16 int32 int64 : IntKind

pub data UintKind : Type 0 where
  uint uint8 uint16 uint32 uint64 : UintKind

-- A value of type any
pub data AnyValue : Type 0 where
  string_any : String → AnyValue
  bool_any : Bool → AnyValue
  int_any : IntKind → ℤ → AnyValue
  uint_any : UintKind → ℕ → AnyValue
  -- the bits of a float32 or a float64
  float32_any : ℕ → AnyValue
  float64_any : ℕ → AnyValue
  time_any : ℕ → AnyValue
  duration_any : ℤ → AnyValue
  other_any : ℕ → AnyValue

-- slog.Value
pub data SlogValue : Type 0 where
  string_value : String → SlogValue
  bool_value : Bool → SlogValue
  int64_value : ℤ → SlogValue
  uint64_value : ℕ → SlogValue
  float64_value : ℕ → SlogValue
  time_value : ℕ → SlogValue
  duration_value : ℤ → SlogValue
  any_value : AnyValue → SlogValue

-- The maps of the program, by their addresses
abbrev pub Store : Type 0
Store = List (Assoc String AnyValue)

unfoldable pub map_at : ℕ → Store → Assoc String AnyValue
map_at a [] = []
map_at zero (m ∷ s) = m
map_at (suc a) (m ∷ s) = map_at a s

-- maps.Copy
unfoldable pub copy : Assoc String AnyValue → Assoc String AnyValue → Assoc String AnyValue
copy [] updated = updated
copy ((k, v) ∷ attrs) updated = insert k v (copy attrs updated)

module _ (widen : ℕ → ℕ) where
  -- The switch of Handle; `widen` is the conversion of a float32 to a float64.
  unfoldable pub slog_value : AnyValue → SlogValue
  slog_value (string_any s) = string_value s
  slog_value (bool_any b) = bool_value b
  slog_value (int_any kind n) = int64_value n
  slog_value (uint_any kind n) = uint64_value n
  slog_value (float32_any bits) = float64_value (widen bits)
  slog_value (float64_any bits) = float64_value bits
  slog_value (time_any t) = time_value t
  slog_value (duration_any d) = duration_value d
  slog_value (other_any x) = any_value (other_any x)

-- slog.Attr
abbrev pub Attr : Type 0
Attr = String × SlogValue

module _ {ℓ} {Ctx : Type ℓ} (api : CtxApi Ctx) where
  abbrev pub as_text : Option CtxValue → Option String
  as_text none = none
  as_text (some (text_value s)) = some s
  as_text (some (attrs_at a)) = none
  as_text (some (other_value x)) = none

  -- ctxgen.ValueOk[string]
  unfoldable pub text_in : String → Ctx → Option String
  text_in key ctx = as_text (api.value (text_key key) ctx)

  abbrev pub as_attrs : Store → Option CtxValue → Assoc String AnyValue
  as_attrs s none = []
  as_attrs s (some (text_value t)) = []
  as_attrs s (some (attrs_at a)) = map_at a s
  as_attrs s (some (other_value x)) = []

  -- getLogAttrs
  unfoldable pub get_log_attrs : Store → Ctx → Assoc String AnyValue
  get_log_attrs s ctx = as_attrs s (api.value log_attrs ctx)

  -- storeLogAttrs
  unfoldable pub store_log_attrs : Ctx → ℕ → Ctx
  store_log_attrs ctx attrs = api.with_value log_attrs (attrs_at attrs) ctx

  -- WithLogAttr: the map that it makes gets the next address.
  unfoldable pub with_log_attr : String → AnyValue → Store → Ctx → Store × Ctx
  with_log_attr key val s ctx =
      (s ++ insert key val (copy (get_log_attrs s ctx) []) ∷ [], store_log_attrs ctx (length s))

  abbrev pub add_text : String → Option String → List Attr → List Attr
  add_text key none record_attrs = record_attrs
  add_text key (some s) record_attrs = record_attrs ++ (key, string_value s) ∷ []

  -- Handle: the attributes of the record that it passes on. `walk` is the order in which range visits a map.
  unfoldable pub handle :
      (ℕ → ℕ)
      → (Assoc String AnyValue → Assoc String AnyValue)
      → Store
      → Ctx
      → List Attr
      → List Attr
  handle widen walk s ctx record_attrs =
      let with_request = add_text "request_id" (text_in "request_id" ctx) record_attrs in
      let with_trace = add_text "trace_id" (text_in "trace_id" ctx) with_request in
      let with_user = add_text "user_id" (text_in "user_id" ctx) with_trace in
      let with_team = add_text "team_id" (text_in "team_id" ctx) with_user in
      with_team ++ map (λ p. (p.0, slog_value widen p.1)) (walk (get_log_attrs s ctx))
