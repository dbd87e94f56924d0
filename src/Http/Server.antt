-- ===== src/Http/Server.antt =====
-- http/http.go: New, HandleErrors and Register, as calls that set a server up. echo's router and the OpenAPI library are
-- parameters: whether the router refuses a route, and the errors for an operation. `H` is a typed handler, `M` a middleware.
pub mod Calls
mod Examples
use windowframe.Prelude.{
  ℕ, ◌≡◌, Bool, true, false, Option, none, some, List, [], ◌∷◌, ◌++◌, map, String, if◌then◌else◌,
}
use windowframe.Errors.{Err}
use windowframe.Text.{Bytes, codes}
use windowframe.Http.ErrorMap.{ErrorHandler}
use windowframe.Http.Params.{replace_params}
use windowframe.Http.Schema.{
  AuthConfig, Schemes, new_schemes, Metadata, SpecCall, schema_calls, build_schema,
}
use windowframe.Http.Wrap.{Route, get, route_of}

pub record TypeMapping : Type 0 where
  pub go_type : String
  pub format : Option String
  pub examples : List String
  pub title : String

-- What AddOperation is given
pub record Operation : Type 0 where
  pub method : String
  pub path : Bytes
  pub calls : List SpecCall

-- openapi3.Reflector
pub record Spec : Type 0 where
  pub title : String
  pub version : String
  pub servers : List String
  pub schemes : List (String × String × String)
  pub type_mappings : List TypeMapping
  pub operations : List Operation

-- SpecMutator
abbrev pub SpecMutator : Type 0
SpecMutator = Spec → Spec

unfoldable pub add_spec_types : SpecMutator
add_spec_types r = record r {
  type_mappings =
      r.type_mappings
      ++ record {
        go_type = "uuid.UUID";
        format = some "uuid";
        examples = "01972d8a-8038-7523-abb5-48a2bc60bedc" ∷ [];
        title = "UUID";
      }
        ∷ record {
          go_type = "duration.StringDuration";
          format = none;
          examples = "1s" ∷ "1m" ∷ "1h" ∷ "1d" ∷ "23h4m2s" ∷ [];
          title = "String duration";
        }
        ∷ [];
}

abbrev pub mutated : List SpecMutator → Spec → Spec
mutated [] r = r
mutated (m ∷ ms) r = mutated ms (m r)

-- HTTPOpts, with its OpenapiOpts
pub record HttpOpts : Type 0 where
  pub port : ℕ
  pub enabled : Bool
  pub service_name : String
  pub service_version : String
  pub public_url : String
  pub auth_config : List AuthConfig
  pub spec_mutations : List SpecMutator

-- Handler, with its metadata and its middleware
pub record Handler (H M : Type 0) : Type 0 where
  pub metadata : Metadata
  pub generate_spec : Bool
  pub middleware : List M
  pub handler : H

pub data Target (H : Type 0) : Type 0 where
  swagger : Target H
  typed : H → Target H

-- What the router is given; `none` is the middleware that only calls the next handler.
pub record Added (H M : Type 0) : Type 0 where
  pub route : Route
  pub path : Bytes
  pub target : Target H
  pub chain : List (Option M)

pub record Http (H M : Type 0) : Type 0 where
  pub port : ℕ
  pub openapi_enabled : Bool
  pub auth_enabled : Bool
  pub spec : Spec
  pub routes : List (Added H M)
  pub handle_errors : List ErrorHandler

abbrev pub first_spec : HttpOpts → Spec
first_spec opts = record {
  title = opts.service_name;
  version = opts.service_version;
  servers = opts.public_url ∷ [];
  schemes = (new_schemes opts.auth_config).schemes;
  type_mappings = [];
  operations = [];
}

abbrev pub chain_of : {M : Type 0} → List M → List (Option M)
chain_of [] = none ∷ []
chain_of (m ∷ ms) = map some (m ∷ ms)

abbrev pub operation : Bool → Metadata → Operation
operation auth_enabled meta = record {
  method = meta.method;
  path = replace_params meta.path;
  calls = schema_calls auth_enabled meta;
}

-- The panics of Register and of the router
pub data Panic : Type 0 where
  invalid_method route_refused : Panic
  invalid_openapi_spec : Err → Panic

pub data Registered (H M : Type 0) : Type 0 where
  registered : Http H M → Registered H M
  panicked : Panic → Registered H M

pub data Call (H M : Type 0) : Type 0 where
  register_call : Handler H M → Call H M
  handle_errors_call : List ErrorHandler → Call H M

module _ {H M : Type 0} where
  abbrev pub docs_route : Bool → List (Added H M)
  docs_route true =
      record { route = get; path = codes "/docs/*"; target = swagger; chain = [] } ∷ []
  docs_route false = []

  -- New
  unfoldable pub new : HttpOpts → Http H M
  unfolding add_spec_types
  new opts = record {
    port = opts.port;
    openapi_enabled = opts.enabled;
    auth_enabled = (new_schemes opts.auth_config).auth_enabled;
    spec = mutated (opts.spec_mutations ++ add_spec_types ∷ []) (first_spec opts);
    routes = docs_route opts.enabled;
    handle_errors = [];
  }

  -- HTTP.HandleErrors
  unfoldable pub handle_errors : List ErrorHandler → Http H M → Http H M
  handle_errors funcs h = record h { handle_errors = h.handle_errors ++ funcs }

  abbrev pub added : Handler H M → Route → Added H M
  added x r = record {
    route = r;
    path = x.metadata.path;
    target = typed x.handler;
    chain = chain_of x.middleware;
  }

  module _ (refuses : List (Added H M) → Added H M → Bool)
      (new_operation_context : String → Bytes → Option Err)
      (add_operation : List Operation → Operation → Option Err) where
    abbrev pub described : Metadata → Http H M → Option Err → Registered H M
    described meta h (some e) = panicked (invalid_openapi_spec e)
    described meta h none = registered (record h {
      spec = record h.spec { operations = h.spec.operations ++ operation h.auth_enabled meta ∷ [] };
    })

    abbrev pub schema_error : Metadata → Http H M → Option Err
    schema_error meta h =
        build_schema new_operation_context
          (λ method path calls.
            add_operation h.spec.operations
              (record { method = method; path = path; calls = calls }))
          h.auth_enabled meta

    abbrev pub routed : Handler H M → Added H M → Http H M → Bool → Registered H M
    routed x a h true = panicked route_refused
    routed x a h false =
        let h1 = record h { routes = h.routes ++ a ∷ [] } in
        if x.generate_spec
        then described x.metadata h1 (schema_error x.metadata h1)
        else registered h1

    abbrev pub with_route : Handler H M → Http H M → Option Route → Registered H M
    with_route x h none = panicked invalid_method
    with_route x h (some r) = routed x (added x r) h (refuses h.routes (added x r))

    -- HTTP.Register
    unfoldable pub register : Handler H M → Http H M → Registered H M
    register x h = with_route x h (route_of x.metadata.method)
