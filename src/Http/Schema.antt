-- ===== src/Http/Schema.antt =====
-- http/http.go: buildSchema, which describes a handler in the OpenAPI document, and what New makes of the configured
-- schemes of authentication. The library swaggest/openapi-go is not opened: a description is the list of the calls that are
-- made on its operation context, and the errors of that library are parameters. A path is a list of bytes.
pub mod Security
mod Examples
use windowframe.Prelude.{
  ℕ, ◌≡◌, Bool, true, false, not, Option, none, some, List, [], ◌∷◌, ◌++◌, length, map, String,
  String_comparable, ℕ_comparable, ◌==◌, if◌then◌else◌,
}
use windowframe.Errors.{Err}
use windowframe.Text.{Bytes}
use windowframe.Http.Params.{replace_params}

-- handlers.Auth
pub record Auth : Type 0 where
  pub enabled : Bool
  pub name : String
  pub scopes : List String

-- handlers.Metadata, as far as buildSchema reads it
pub record Metadata : Type 0 where
  pub name : String
  pub description : String
  pub tag : String
  pub id : Option String
  pub code : ℕ
  pub method : String
  pub path : Bytes
  pub auths : List Auth
  pub auth_optional : Bool

-- OpenapiOpts.AuthConfig
pub record AuthConfig : Type 0 where
  pub enabled : Bool
  pub name : String
  pub format : String
  pub description : String

-- The part of the HTTP struct that depends on the schemes: those that the document has, by their arguments to
-- SetHTTPBearerTokenSecurity, and authEnabled
pub record Schemes : Type 0 where
  pub schemes : List (String × String × String)
  pub auth_enabled : Bool

-- New, on the schemes
unfoldable pub new_schemes : List AuthConfig → Schemes
new_schemes configs = record {
  schemes = map (λ b. (b.name, b.format, b.description)) configs;
  auth_enabled = not (length configs == 0);
}

-- The value whose type a response has
pub data RespStructure : Type 0 where
  response_value string_map : RespStructure
  error_value : String → RespStructure

-- A call on the operation context
pub data SpecCall : Type 0 where
  add_req_structure : SpecCall
  add_resp_structure : RespStructure → ℕ → SpecCall
  set_id set_tags set_summary set_description : String → SpecCall
  add_security : String → List String → SpecCall
  -- an empty requirement, appended to operation.Security
  add_no_security : SpecCall

abbrev pub id_calls : Option String → List SpecCall
id_calls none = []
id_calls (some id) = set_id id ∷ []

abbrev pub description_calls : String → List SpecCall
description_calls d = if not (d == "") then set_description d ∷ [] else []

-- The loop over the auths
unfoldable pub auth_calls : List Auth → List SpecCall
auth_calls [] = []
auth_calls (a ∷ auths) =
    let rest = auth_calls auths in if a.enabled then add_security a.name a.scopes ∷ rest else rest

unfoldable pub security_calls : Bool → Metadata → List SpecCall
unfolding auth_calls
security_calls auth_enabled meta =
    if auth_enabled
    then auth_calls meta.auths ++ (if meta.auth_optional then add_no_security ∷ [] else [])
    else []

-- The calls of buildSchema, in their order
unfoldable pub schema_calls : Bool → Metadata → List SpecCall
unfolding security_calls
schema_calls auth_enabled meta =
    add_req_structure
    ∷ add_resp_structure response_value meta.code
    ∷ (id_calls meta.id
        ++ set_tags meta.tag
          ∷ set_summary meta.name
          ∷ (description_calls meta.description
              ++ add_resp_structure string_map 422
                ∷ add_resp_structure (error_value "not found") 404
                ∷ add_resp_structure (error_value "unauthorised") 401
                ∷ add_resp_structure (error_value "forbidden") 403
                ∷ security_calls auth_enabled meta))

abbrev add_operation_if : Option Err → Option Err → Option Err
add_operation_if (some err) added = some err
add_operation_if none added = added

-- buildSchema, by its error: NewOperationContext takes the method and the path, AddOperation what was called.
unfoldable pub build_schema :
    (String → Bytes → Option Err)
    → (String → Bytes → List SpecCall → Option Err)
    → Bool
    → Metadata
    → Option Err
unfolding schema_calls
build_schema new_operation_context add_operation auth_enabled meta =
    add_operation_if (new_operation_context meta.method (replace_params meta.path))
      (add_operation meta.method (replace_params meta.path) (schema_calls auth_enabled meta))
