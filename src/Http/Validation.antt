-- ===== src/Http/Validation.antt =====
-- http/validation: ValidationError and Validator.Validate. The struct validator of go-playground is a
-- parameter: what its Struct call says of a request. The map of errors is an association list.
use windowframe.Prelude.{
  String, String_comparable, ◌==◌, ◌≡◌, refl, ap, ◌∙◌, Option, none, some, List, [], ◌∷◌, Assoc,
  lookup, insert, lookup-insert, if◌then◌else◌,
}
use windowframe.Errors.{Err, validation_error}

-- A validator.FieldError, by its Field and its Tag.
pub record FieldError : Type 0 where
  pub field : String
  pub tag : String

-- What v.Struct(req) returns: nil, ValidationErrors, or another error.
pub data StructResult : Type 0 where
  valid : StructResult
  field_errors : List FieldError → StructResult
  other_error : Err → StructResult

-- Build().With(...).With(...)
unfoldable pub with_errors : List FieldError → Assoc String String → Assoc String String
with_errors [] out = out
with_errors (e ∷ es) out = with_errors es (insert e.field e.tag out)

unfoldable pub validate_result : StructResult → Option Err
unfolding with_errors
validate_result valid = none
validate_result (other_error e) = some e
validate_result (field_errors []) = none
validate_result (field_errors (e ∷ es)) = some (validation_error (with_errors (e ∷ es) []))

-- Validate; `none` is a nil request, which is not looked at.
unfoldable pub validate {ℓ} : {Req : Type ℓ} → (Req → StructResult) → Option Req → Option Err
unfolding validate_result
validate struct none = none
validate struct (some req) = validate_result (struct req)

-- The tag of the last error of the field, if it has one.
abbrev pub last_tag : String → List FieldError → Option String → Option String
last_tag f [] found = found
last_tag f (e ∷ es) found = last_tag f es (if e.field == f then some e.tag else found)

lookup-with_errors :
    (f : String) (es : List FieldError) (out : Assoc String String)
    → lookup f (with_errors es out) ≡ last_tag f es (lookup f out)
unfolding with_errors
lookup-with_errors f [] out = refl
lookup-with_errors f (e ∷ es) out =
    lookup-with_errors f es (insert e.field e.tag out)
    ∙ ap (last_tag f es) (lookup-insert e.field f e.tag out)

-- A request that fails validation gives one ValidationError, in which every field with an error is
-- named with the tag of the last error reported for it, and no other field is named.
pub validate_names :
    (e : FieldError) (es : List FieldError)
    → (fields : Assoc String String) × (validate_result (field_errors (e ∷ es))
        ≡ some (validation_error fields))
      × ((f : String) → lookup f fields ≡ last_tag f (e ∷ es) none)
unfolding validate_result
validate_names e es =
    (with_errors (e ∷ es) [], refl, λ f. lookup-with_errors f (e ∷ es) [] ∙ unfold lookup in refl)
