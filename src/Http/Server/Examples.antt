-- ===== src/Http/Server/Examples.antt =====
-- http/http.go: a server with two routes and an error handler.
use windowframe.Prelude.{ℕ, ◌≡◌, ◌⊎◌, refl, Bool, true, false, Option, none, List, [], ◌∷◌, String}
use windowframe.Errors.{Err}
use windowframe.Text.{Bytes, codes}
use windowframe.Http.ErrorMap.{ErrorHandler, null_body}
use windowframe.Http.Schema.{Metadata}
use windowframe.Http.Server.{
  Handler, Added, Http, HttpOpts, Operation, Call, register_call, handle_errors_call, new,
  registered, panicked, invalid_method, register,
}
use windowframe.Http.Wrap.{route_of}
use windowframe.Http.Server.Calls.{run, with_calls, IsStopped, run-with_calls}

abbrev opts : HttpOpts
opts = record {
  port = 80;
  enabled = true;
  service_name = "shop";
  service_version = "1";
  public_url = "https://shop";
  auth_config = [];
  spec_mutations = [];
}

abbrev meta : String → Metadata
meta method = record {
  name = "Orders";
  description = "";
  tag = "orders";
  id = none;
  code = 200;
  method = method;
  path = codes "/orders/:id";
  auths = [];
  auth_optional = false;
}

abbrev orders : String → Handler ℕ ℕ
orders method = record {
  metadata = meta method;
  generate_spec = true;
  middleware = [];
  handler = 1;
}

abbrev teapot : ErrorHandler
teapot e = (418, null_body, true)

abbrev full : List (Added ℕ ℕ) → Added ℕ ℕ → Bool
full (a ∷ b ∷ c ∷ rest) r = true
full _ r = false

abbrev accepts : String → Bytes → Option Err
accepts method path = none

abbrev adds : List Operation → Operation → Option Err
adds os o = none

abbrev calls : List (Call ℕ ℕ)
calls =
    register_call (orders "GET")
    ∷ handle_errors_call (teapot ∷ [])
    ∷ register_call (orders "PUT")
    ∷ []

abbrev server : Http ℕ ℕ
server = new opts

run-with_calls_example :
    (run full accepts adds calls server ≡ registered (with_calls calls server))
    ⊎ IsStopped full accepts adds calls server
run-with_calls_example = run-with_calls full accepts adds calls server

invalid_stops :
    run full accepts adds (handle_errors_call [] ∷ register_call (orders "TRACE") ∷ calls) server
    ≡ panicked invalid_method
unfolding run register route_of
invalid_stops = refl
