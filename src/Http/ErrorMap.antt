-- ===== src/Http/ErrorMap.antt =====
-- http/http.go: getErrorCodeAndResponse, handleError and their helpers. `error_text` is the Error
-- method of an error value. The body of a response that a registered error handler makes is kept as
-- text.
pub mod Laws
use windowframe.Prelude.{
  ℕ, String, String_comparable, ◌==◌, ◌≡◌, Bool, true, false, not, Option, none, some, List, [],
  ◌∷◌, ◌++◌, Assoc, if◌then◌else◌,
}
use windowframe.Errors.{
  Err, Sentinel, pgx_no_rows, sql_no_rows, gorm_record_not_found, validation, bad_request, unauth,
  forbidden, not_found, is_error, as_http_error, as_status_coder, as_validation_error, as_pg_error,
}

pub data ErrBody : Type 0 where
  -- ErrorJSON{Message: …}
  error_json : String → ErrBody
  http_error_body : ℕ → String → ErrBody
  validation_body : Assoc String String → ErrBody
  custom : String → ErrBody
  null_body : ErrBody

-- (int, any, bool)
abbrev pub Mapped : Type 0
Mapped = ℕ × ErrBody × Bool

-- ErrorHandler
abbrev pub ErrorHandler : Type 0
ErrorHandler = Err → Mapped

-- NewError
unfoldable pub new_error : String → ErrBody
new_error msg = error_json msg

module _ (error_text : Err → String) where
  abbrev pg_response : Option String → Mapped
  pg_response none = (503, null_body, false)
  pg_response (some code) =
      if code == "23505"
      then (422, error_json "a record with the same details already exists", true)
      else (503, null_body, false)

  abbrev validation_response : Err → Option (Assoc String String) → Mapped
  validation_response err none = pg_response (as_pg_error err)
  validation_response err (some fields) = (422, validation_body fields, true)

  -- The switch over the sentinels, and what follows it.
  unfoldable pub builtin_response : Err → Mapped
  unfolding new_error
  builtin_response err =
      if is_error pgx_no_rows err
      then (404, new_error "not found", true)
      else if is_error sql_no_rows err
      then (404, new_error "not found", true)
      else if is_error gorm_record_not_found err
      then (404, new_error "not found", true)
      else if is_error validation err
      then (422, new_error (error_text err), true)
      else if is_error bad_request err
      then (400, new_error (error_text err), true)
      else if is_error unauth err
      then (401, new_error (error_text err), true)
      else if is_error forbidden err
      then (403, new_error "fobidden", true)
      else if is_error not_found err
      then (404, new_error "not found", true)
      else validation_response err (as_validation_error err)

  -- The loop over the registered handlers.
  unfoldable pub handlers_response : List ErrorHandler → Err → Mapped
  unfolding builtin_response
  handlers_response [] err = builtin_response err
  handlers_response (h ∷ hs) err =
      let (code, resp, ok) = h err in
      let rest = handlers_response hs err in elim ok [ true ↦ (code, resp, true) | false ↦ rest ]

  abbrev http_error_response : List ErrorHandler → Err → Option (ℕ × String) → Mapped
  http_error_response hs err none = handlers_response hs err
  http_error_response hs err (some (code, message)) = (code, http_error_body code message, true)

  -- getErrorCodeAndResponse
  unfoldable pub get_error_code_and_response : List ErrorHandler → Err → Mapped
  unfolding handlers_response
  get_error_code_and_response hs err = http_error_response hs err (as_http_error err)

  -- isHTTPError
  unfoldable pub is_http_error : Err → Bool
  is_http_error err = elim (as_status_coder err) [ none ↦ false | some code ↦ true ]

-- What the error handler of the server does with an error: nothing, one JSON response, or the
-- default handler of echo, with the error logged first and handed to sentry.
pub data Action : Type 0 where
  ignored : Action
  written : ℕ → ErrBody → Action
  defaulted : Bool → Bool → Action

module _ (error_text : Err → String) where
  abbrev handle_mapped : Bool → Err → Mapped → Action
  handle_mapped hub err (code, body, true) = written code body
  handle_mapped hub err (code, body, false) =
      if not (is_http_error error_text err) then defaulted true hub else defaulted false false

  abbrev handle_some : Bool → Bool → List ErrorHandler → Option Err → Action
  handle_some committed hub hs none = ignored
  handle_some committed hub hs (some err) =
      if committed
      then ignored
      else handle_mapped hub err (get_error_code_and_response error_text hs err)

  -- handleError; `committed` says whether a response was sent already, `hub` whether the context has
  -- a sentry hub.
  unfoldable pub handle_error : Bool → Bool → List ErrorHandler → Option Err → Action
  unfolding is_http_error
  handle_error = handle_some
