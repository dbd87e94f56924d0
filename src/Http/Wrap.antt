-- ===== src/Http/Wrap.antt =====
-- http/http.go: wrapHandler, the function that echo runs for a typed handler, and Register's choice of
-- the method. Binding the request and the struct validator are parameters, given by their results for
-- the request at hand; `S` is the state that the handler works on. A failure to write the response is
-- left out. Spans are left out.
pub mod Serve
use windowframe.Prelude.{
  ℕ, String, String_comparable, ◌==◌, ◌≡◌, Bool, true, false, not, Option, none, some, List, [],
  ◌∷◌, ◌||◌, if◌then◌else◌,
}
use windowframe.Errors.{Err, sentinel, bad_request}
use windowframe.Http.Validation.{StructResult, validate_result}
use windowframe.Http.ErrorMap.{ErrBody, Mapped, ErrorHandler, get_error_code_and_response}

-- handlers.ResponseKind: its kind field
pub data ResponseKind : Type 0 where
  kind_string kind_json kind_other : ResponseKind

-- handlers.Metadata, as far as wrapHandler and Register read it
pub record Metadata : Type 0 where
  pub code : ℕ
  pub method : String
  pub path : String
  pub generate_spec : Bool
  pub kind : ResponseKind
  pub skip_validation : Bool

-- (*Resp, error), for a handler that returns an error or a response, which may be nil
pub data Outcome {ℓ} (Resp : Type ℓ) : Type ℓ where
  responded : Option Resp → Outcome Resp
  failed : Err → Outcome Resp

-- What wrapHandler does with the context: a response, or an error for the server's error handler.
pub data Reply {ℓ} (Resp : Type ℓ) : Type ℓ where
  json : ℕ → Resp → Reply Resp
  string : ℕ → Resp → Reply Resp
  no_content : ℕ → Reply Resp
  json_error : ℕ → ErrBody → Reply Resp
  returned : Err → Reply Resp

-- The methods of echo's router.
pub data Route : Type 0 where
  get post patch delete put head options : Route

-- The switch of Register; `none` is its panic.
unfoldable pub route_of : String → Option Route
route_of m =
    if m == "GET"
    then some get
    else if m == "POST"
    then some post
    else if m == "PATCH"
    then some patch
    else if m == "DELETE"
    then some delete
    else if m == "PUT"
    then some put
    else if m == "HEAD"
    then some head
    else if m == "OPTIONS"
    then some options
    else none

module _ {ℓ} {Req Resp : Type ℓ} {S : Type ℓ} (error_text : Err → String) (hs : List ErrorHandler)
    (meta : Metadata) (struct : Req → StructResult) (handler : Req → S → S × Outcome Resp) where
  abbrev by_kind : ResponseKind → Resp → Reply Resp
  by_kind kind_string resp = string meta.code resp
  by_kind _ resp = json meta.code resp

  abbrev error_reply : Err → Mapped → Reply Resp
  error_reply err (code, body, true) = json_error code body
  error_reply err (code, body, false) = returned err

  unfoldable pub outcome_reply : Outcome Resp → Reply Resp
  outcome_reply (failed err) = error_reply err (get_error_code_and_response error_text hs err)
  outcome_reply (responded none) = no_content meta.code
  outcome_reply (responded (some resp)) = by_kind meta.kind resp

  abbrev run_handler : Req → S → S × Reply Resp
  run_handler req s = let (s1, out) = handler req s in (s1, outcome_reply out)

  -- A validation error is answered at once, and whether it was handled is not looked at.
  abbrev invalid_reply : Mapped → Reply Resp
  invalid_reply (code, body, handled) = json_error code body

  abbrev validated : Option Err → Req → S → S × Reply Resp
  validated none req s = run_handler req s
  validated (some err) req s = (s, invalid_reply (get_error_code_and_response error_text hs err))

  abbrev bound : Option Req → S → S × Reply Resp
  bound none s = (s, returned (sentinel bad_request))
  bound (some req) s =
      if not meta.skip_validation
      then validated (validate_result (struct req)) req s
      else run_handler req s

  -- wrapHandler, from what Bind made of the request (`none` for an error)
  unfoldable pub wrap_handler : Option Req → S → S × Reply Resp
  unfolding outcome_reply
  wrap_handler = bound
