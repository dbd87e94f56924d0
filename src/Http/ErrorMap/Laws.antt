-- ===== src/Http/ErrorMap/Laws.antt =====
-- The status codes of http/http.go: what decides them, and what cannot change them.
use windowframe.Prelude.{
  ℕ, ◌≤◌, ◌<◌, String, String_comparable, ◌≡◌, refl, Bool, true, false, ◌⊎◌, none, some,
  if◌then◌else◌, List, [], ◌∷◌, ◌++◌, arith,
}
use windowframe.Errors.{Err, wrap, is_error, as_http_error, as_validation_error, as_pg_error}
use windowframe.Http.ErrorMap.{
  ErrBody, null_body, ignored, written, handle_error, ErrorHandler, builtin_response,
  handlers_response, get_error_code_and_response,
}

-- Each of the handlers leaves the error to the others.
abbrev pub Decline : Err → List ErrorHandler → Type 0
Decline err [] = Unit
Decline err (h ∷ hs) = ((h err).2 ≡ false) × Decline err hs

module _ (error_text : Err → String) where
  -- The code and the handled flag of a response.
  abbrev pub verdict : Err → ℕ × Bool
  verdict err = let (code, body, ok) = get_error_code_and_response error_text [] err in (code, ok)

  -- Wrapping an error changes neither the status code nor whether the error counts as handled.
  verdict-wrap : (m : String) (err : Err) → verdict (wrap m err) ≡ verdict err
  unfolding get_error_code_and_response is_error as_http_error as_validation_error as_pg_error
  verdict-wrap m err = ground arith

  builtin_range :
      (err : Err)
      → (builtin_response error_text err ≡ (503, null_body, false))
        ⊎ ((400 ≤ (builtin_response error_text err).0)
            × ((builtin_response error_text err).0 < 500)
            × ((builtin_response error_text err).2 ≡ true))
  unfolding builtin_response
  builtin_range err = ground arith

  -- Without registered handlers and without an *echo.HTTPError in the chain, an error is either
  -- handled with a client error, 400 to 499, or not handled, with 503 and no body. No internal error
  -- is reported as handled with a server error.
  pub get_error_code_range :
      (err : Err)
      → as_http_error err ≡ none
      → (get_error_code_and_response error_text [] err ≡ (503, null_body, false))
        ⊎ ((400 ≤ (get_error_code_and_response error_text [] err).0)
            × ((get_error_code_and_response error_text [] err).0 < 500)
            × ((get_error_code_and_response error_text [] err).2 ≡ true))
  unfolding get_error_code_and_response
  get_error_code_range err plain = rw plain (builtin_range err)

  handlers_decide :
      (xs ys : List ErrorHandler) (h : ErrorHandler) (err : Err) (code : ℕ) (body : ErrBody)
      → Decline err xs
      → h err ≡ (code, body, true)
      → handlers_response error_text (xs ++ h ∷ ys) err ≡ (code, body, true)
  unfolding handlers_response
  handlers_decide [] ys h err code body declined accepts = ground arith
  handlers_decide (x ∷ xs) ys h err code body declined accepts =
      rw (declined.0) (handlers_decide xs ys h err code body declined.1 accepts)

  -- The first registered handler that accepts an error decides the response, whatever the handlers
  -- behind it and the built-in table say; those before it have declined the error. This is so unless
  -- an *echo.HTTPError is in the chain, which comes first.
  first_handler_decides :
      (xs ys : List ErrorHandler) (h : ErrorHandler) (err : Err) (code : ℕ) (body : ErrBody)
      → as_http_error err ≡ none
      → Decline err xs
      → h err ≡ (code, body, true)
      → get_error_code_and_response error_text (xs ++ h ∷ ys) err ≡ (code, body, true)
  unfolding get_error_code_and_response
  first_handler_decides xs ys h err code body plain declined accepts =
      rw plain (handlers_decide xs ys h err code body declined accepts)

  -- The server's error handler answers an error with the code and the body that the first registered handler that
  -- accepts it gives, whatever the handlers behind it and the built-in table say, as one JSON response; if a response was
  -- sent before, it does nothing. The handlers before that one decline the error, and no *echo.HTTPError is in its
  -- tree, which would come first.
  pub handle_error-first_handler :
      (xs ys : List ErrorHandler) (h : ErrorHandler) (err : Err) (code : ℕ) (body : ErrBody)
      (committed hub : Bool)
      → as_http_error err ≡ none
      → Decline err xs
      → h err ≡ (code, body, true)
      → handle_error error_text committed hub (xs ++ h ∷ ys) (some err)
        ≡ (if committed then ignored else written code body)
  unfolding handle_error
  handle_error-first_handler xs ys h err code body true hub plain declined accepts = refl
  handle_error-first_handler xs ys h err code body false hub plain declined accepts =
      rw (first_handler_decides xs ys h err code body plain declined accepts) refl
