-- ===== src/Http/Examples.antt =====
-- Requests and errors at the server, and the theorems there.
use windowframe.Prelude.{
  ℕ, zero, suc, String, ◌≡◌, ◌≢◌, refl, String_comparable, none, some, List, [], ◌∷◌, true, false,
}
use windowframe.Errors.{Err, as_http_error, sentinel, not_found, wrap, pg_error}
use windowframe.Http.Validation.{FieldError, StructResult, field_errors, valid, validate_result}
use windowframe.Http.ErrorMap.{custom, null_body, ErrorHandler, written, handle_error}
use windowframe.Http.ErrorMap.Laws.{handle_error-first_handler}
use windowframe.Http.Wrap.{Metadata, kind_json, Outcome, responded, failed, route_of, post}

abbrev bad_email : FieldError
bad_email = record { field = "Email"; tag = "email" }

abbrev no_name : FieldError
no_name = record { field = "Name"; tag = "required" }

abbrev text : Err → String
text err = "failed"

abbrev lost : Err
lost = wrap "load user" (wrap "query" (sentinel not_found))

abbrev duplicate : Err
duplicate = wrap "insert" (pg_error "23505")

abbrev decline : ErrorHandler
decline err = (500, null_body, false)

abbrev teapot : ErrorHandler
teapot err = (418, custom "teapot", true)

handle_error-first_handler_example :
    handle_error text false true (decline ∷ teapot ∷ decline ∷ []) (some duplicate)
    ≡ written 418 (custom "teapot")
handle_error-first_handler_example =
    handle_error-first_handler text (decline ∷ []) (decline ∷ []) teapot duplicate 418
      (custom "teapot") false true (unfold as_http_error in refl) (refl, tt) refl

abbrev meta : Metadata
meta = record {
  code = 200;
  method = "POST";
  path = "/users";
  generate_spec = true;
  kind = kind_json;
  skip_validation = false;
}

abbrev struct : ℕ → StructResult
struct zero = field_errors (no_name ∷ [])
struct (suc n) = valid

abbrev remember : ℕ → List ℕ → List ℕ × Outcome ℕ
remember n s = (n ∷ s, responded (some n))

refused : validate_result (struct 0) ≢ none
unfolding validate_result
refused e = cc

abbrev fail : ℕ → List ℕ → List ℕ × Outcome ℕ
fail n s = (n ∷ s, failed lost)

post_route : route_of "POST" ≡ some post
unfolding route_of
post_route = refl
