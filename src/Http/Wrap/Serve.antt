-- ===== src/Http/Wrap/Serve.antt =====
-- What a client of a typed handler sees: wrapHandler followed by the server's error handler.
use windowframe.Prelude.{
  String, ◌≡◌, ◌≢◌, refl, Bool, true, false, Bool-cases, Option, Option-cases, none, some, List,
  ◌⊎◌, inl, inr, arith, if◌then◌else◌,
}
use windowframe.Errors.{Err}
use windowframe.Http.Validation.{StructResult, validate_result}
use windowframe.Http.ErrorMap.{
  ErrorHandler, Mapped, Action, defaulted, get_error_code_and_response, handle_error, is_http_error,
}
use windowframe.Http.Wrap.{
  Metadata, Outcome, failed, Reply, json_error, returned, wrap_handler, outcome_reply,
}

-- What reaches the client: a response of the handler, or what the error handler does.
pub data Sent {ℓ} (Resp : Type ℓ) : Type ℓ where
  answered : Reply Resp → Sent Resp
  handled : Action → Sent Resp

-- echo hands an error that a handler returns to the server's error handler. `committed` says whether the handler or a
-- middleware has sent a response already.
unfoldable pub finish {ℓ} :
    {Resp : Type ℓ} → (Err → String) → List ErrorHandler → Bool → Bool → Reply Resp → Sent Resp
finish error_text hs committed hub (returned err) =
    handled (handle_error error_text committed hub hs (some err))
finish error_text hs committed hub r = answered r

-- The reply that the result of the error table stands for.
abbrev pub mapped_reply {ℓ} : {Resp : Type ℓ} → (Err → String) → Err → Bool → Mapped → Sent Resp
mapped_reply error_text err hub (code, body, true) = answered (json_error code body)
mapped_reply error_text err hub (code, body, false) =
    handled (if is_http_error error_text err then defaulted false false else defaulted true hub)

module _ {ℓ} {Req Resp : Type ℓ} {S : Type ℓ} (error_text : Err → String) (hs : List ErrorHandler)
    (meta : Metadata) (struct : Req → StructResult) (handler : Req → S → S × Outcome Resp) where
  -- The typed handler runs only on a request that was bound, and that is valid or not validated: in
  -- every other case the state is left as it is.
  pub handler_guarded :
      (bind : Option Req) (s : S)
      → (bind ≡ none)
        ⊎ ((req : Req) × (bind ≡ some req)
            × (meta.skip_validation ≡ false)
            × (validate_result (struct req) ≢ none))
      → (wrap_handler error_text hs meta struct handler bind s).0 ≡ s
  unfolding wrap_handler
  handler_guarded bind s (inl unbound) = rw unbound refl
  handler_guarded bind s (inr (req, b, checked, invalid)) =
      elim (Option-cases (validate_result (struct req))) [
        | inl passed ↦ absurd (invalid passed)
        | inr (err, refused) ↦ rw (b, checked, refused) refl
      ]

  run_failed :
      (req : Req) (s : S) (err : Err)
      → (meta.skip_validation ≡ true) ⊎ (validate_result (struct req) ≡ none)
      → (handler req s).1 ≡ failed err
      → (wrap_handler error_text hs meta struct handler (some req) s).1
        ≡ outcome_reply error_text hs meta struct handler (failed err)
  unfolding wrap_handler
  run_failed req s err (inl skipped) fails = rw (skipped, fails) refl
  run_failed req s err (inr passed) fails = elim (Bool-cases meta.skip_validation) [
    | inl skipped ↦ rw (skipped, fails) refl
    | inr checked ↦ rw (checked, passed, fails) refl
  ]

  finish_mapped :
      (err : Err) (hub : Bool) (m : Mapped)
      → get_error_code_and_response error_text hs err ≡ m
      → finish error_text hs false hub
          (outcome_reply error_text hs meta struct handler (failed err))
        ≡ mapped_reply error_text err hub m
  unfolding finish outcome_reply handle_error
  finish_mapped err hub (code, body, true) e = rw e refl
  finish_mapped err hub (code, body, false) e = rw e (ground arith)

  -- Where no response was sent before, an error of the handler reaches the client as the error table maps it, if the table handles it;
  -- otherwise echo's default handler answers, and the error is logged, and handed to sentry where the
  -- context has a hub, unless it is an HTTP status error.
  failed_reply :
      (req : Req) (s : S) (err : Err) (hub : Bool)
      → (meta.skip_validation ≡ true) ⊎ (validate_result (struct req) ≡ none)
      → (handler req s).1 ≡ failed err
      → finish error_text hs false hub
          (wrap_handler error_text hs meta struct handler (some req) s).1
        ≡ mapped_reply error_text err hub (get_error_code_and_response error_text hs err)
  failed_reply req s err hub passed fails =
      rw (run_failed req s err passed fails)
        (finish_mapped err hub (get_error_code_and_response error_text hs err) refl)
