-- ===== src/Config/Flags.antt =====
-- config/flags.go: PFlagExtractor. A struct is the list of its fields, each with its current value of the type `V` and, for a
-- field of a struct type, the fields of that struct. All fields are exported. What pflag answers for a flag
-- is a parameter.
pub mod Fills
use windowframe.Prelude.{
  String, String_comparable, ◌==◌, ◌≡◌, Bool, true, false, not, ◌||◌, Option, none, some, arith,
  if◌then◌else◌,
}
use windowframe.Errors.{Err, foreign, wrap}

-- reflect.Kind of a field's type. An int64 is told apart from a time.Duration by its type's name; a slice
-- is one to which []string converts, or not.
pub data Kind : Type 0 where
  string int int8 int16 int32 float32 float64 bool struct other : Kind
  int64 : Bool → Kind
  slice : Bool → Kind

-- The methods of a FlagSet that are called
pub data Getter : Type 0 where
  get_string get_int get_int8 get_int16 get_int32 get_int64 get_duration : Getter
  get_float32 get_float64 get_bool get_string_slice : Getter

pub data Got (V : Type 0) : Type 0 where
  got : V → Got V
  got_error : Err → Got V

pub record FlagSet (V : Type 0) : Type 0 where
  pub parsed : Bool
  pub get : Getter → String → Got V

pub record Field : Type 0 where
  pub name : String
  pub kind : Kind
  -- field.Tag.Get("flag")
  pub tag : String

pub data Fields (V : Type 0) : Type 0 where
  no_fields : Fields V
  -- a field, its value, the fields inside it, and the fields behind it
  field : Field → V → Fields V → Fields V → Fields V

pub data Outcome : Type 0 where
  extracted : Outcome
  failed : Err → Outcome
  -- a panic of reflect's Convert
  panicked : Outcome

abbrev pub getter_of : Kind → Option (String × Getter)
getter_of string = some ("string", get_string)
getter_of int = some ("int", get_int)
getter_of int8 = some ("int8", get_int8)
getter_of int16 = some ("int16", get_int16)
getter_of int32 = some ("int32", get_int32)
getter_of (int64 true) = some ("time.Duration", get_duration)
getter_of (int64 false) = some ("int64", get_int64)
getter_of float32 = some ("float32", get_float32)
getter_of float64 = some ("float64", get_float64)
getter_of bool = some ("bool", get_bool)
getter_of (slice strings) = some ("slice", get_string_slice)
getter_of struct = none
getter_of other = none

-- parseError; the names stand in front of the wrapped error, and only the kind's is kept.
unfoldable pub parse_error : String → Err → Err
parse_error kind err = wrap kind err

abbrev pub converts : Kind → Bool
converts (slice strings) = strings
converts _ = true

abbrev pub is_struct : Kind → Bool
is_struct struct = true
is_struct _ = false

module _ {V : Type 0} (flags : FlagSet V) where
  abbrev pub got_or : String → Got V → Got V
  got_or kind (got v) = got v
  got_or kind (got_error e) = got_error (parse_error kind e)

  abbrev pub value_by : String → Option (String × Getter) → Got V
  value_by tag none = got_error (foreign "unhandled field type")
  value_by tag (some (kind, getter)) = got_or kind (flags.get getter tag)

  -- getFieldValue
  unfoldable pub get_field_value : Field → Got V
  unfolding parse_error
  get_field_value f = value_by f.tag (getter_of f.kind)

  abbrev pub skipped : String → Bool
  skipped tag = (tag == "") || (tag == "-")

  abbrev pub set_field : Field → V → Got V → V × Outcome
  set_field f v (got_error e) = (v, failed e)
  set_field f v (got w) = if converts f.kind then (w, extracted) else (v, panicked)

  -- The tail of the loop's body: the field's own tag.
  abbrev pub own_value : Field → V → V × Outcome
  own_value f v = if skipped f.tag then (v, extracted) else set_field f v (get_field_value f)

  -- A call for the fields inside, which is made for a struct only.
  abbrev pub inner_fields : Bool → Fields V × Outcome → Fields V → Fields V × Outcome
  inner_fields true done inner = done
  inner_fields false done inner = (inner, extracted)

  abbrev pub then_rest :
      Field → Fields V → V × Outcome → Fields V → Fields V × Outcome → Fields V × Outcome
  then_rest f inner (v, extracted) rest (rest1, o) = (field f v inner rest1, o)
  then_rest f inner (v, o) rest done = (field f v inner rest, o)

  abbrev pub then_own :
      Field → V → Fields V × Outcome → Fields V → Fields V × Outcome → Fields V × Outcome
  then_own f v (inner, extracted) rest done = then_rest f inner (own_value f v) rest done
  then_own f v (inner, o) rest done = (field f v inner rest, o)

  -- processItem
  unfoldable pub process_item : Fields V → Fields V × Outcome
  unfolding get_field_value
  process_item no_fields = (no_fields, extracted)
  process_item (field f v inner rest) =
      then_own f v (inner_fields (is_struct f.kind) (process_item inner) inner) rest
        (process_item rest)

  -- PFlagExtractor.Extract
  unfoldable pub extract : Fields V → Fields V × Outcome
  unfolding process_item
  extract conf =
      if not flags.parsed
      then (conf, failed (foreign "pflags not parsed yet"))
      else process_item conf
