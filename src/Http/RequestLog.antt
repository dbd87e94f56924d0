-- ===== src/Http/RequestLog.antt =====
-- http/middleware/zap.go and http/middleware/logger.go: the ids of a request in its context, and the log record of a
-- request. The state `S` is that of the response; the texts of numbers and durations are parameters, and so
-- is the id of the span of a context.
pub mod Ids
mod Examples
use windowframe.Prelude.{
  ℕ, ◌≡◌, ◌≢◌, refl, ap, sym, ◌∙◌, Bool, Bool-cases, inl, inr, true, false, not, Option, none, some,
  List, [], ◌∷◌, ◌++◌, String, String_comparable, ◌==◌, ==_iff, Assoc, ℤ, pos, negsuc, leb,
  if◌then◌else◌, arith,
}
use mathlib.Core.List.{Memᴰ}
use windowframe.Errors.{Err}
use windowframe.Log.Context.{CtxKey, text_key, log_attrs, CtxValue, text_value, CtxApi, IsCtx}
use windowframe.Log.{
  AnyValue, Store, Attr, string_value, int64_value, text_in, get_log_attrs, handle,
}
use windowframe.Log.Handlers.{SlogHandler, writer, handler, new_handler, with_attrs, written}
use windowframe.Http.Common.{set_context_id, set_trace_id}

-- The request, as far as LoggerAt reads it
pub record Request : Type 0 where
  pub remote_ip : String
  pub host : String
  pub uri : String
  pub method : String
  pub user_agent : String
  pub content_length : String

-- bytesIn
unfoldable bytes_in : Request → String
bytes_in req = if req.content_length == "" then "0" else req.content_length

-- responseStatusAndSize, from what UnwrapResponse gave
unfoldable response_status_and_size : Option (ℕ × ℕ) → ℕ × ℕ
response_status_and_size none = (0, 0)
response_status_and_size (some resp) = resp

pub data Level : Type 0 where
  level_debug level_info level_warn level_error : Level
  level_other : ℤ → Level

-- logAt: the level of the record
unfoldable log_at : Level → Level
log_at level_error = level_error
log_at level_warn = level_warn
log_at level_debug = level_debug
log_at level_info = level_info
log_at (level_other n) = level_info

module _ {Ctx : Type 0} (api : CtxApi Ctx) (span_trace : Ctx → String) where
  abbrev pub with_request_id : String → Ctx → Ctx
  with_request_id id ctx = if not (id == "") then set_context_id api ctx id else ctx

  abbrev pub with_trace_id : Ctx → Ctx
  with_trace_id ctx =
      if not (span_trace ctx == "") then set_trace_id api ctx (span_trace ctx) else ctx

  -- Zap: the context that the next handler gets, from the request's id
  unfoldable pub zap : String → Ctx → Ctx
  zap id ctx = with_trace_id (with_request_id id ctx)

  module _ {S : Type 0} (text_of_int : ℕ → String) (text_of_duration : ℕ → String)
      (error_text : Err → String) (response : S → Option (ℕ × ℕ))
      (http_error_handler : Err → S → S) where
    -- The response, if an error is given to the error handler at once
    abbrev pub answered : Option Err → S → S
    answered none s = s
    answered (some err) s = http_error_handler err s

    abbrev request_attrs : Request → ℕ → ℕ × ℕ → List Attr
    request_attrs req dur (status, size) =
        ("remote_ip", string_value req.remote_ip)
        ∷ ("host", string_value req.host)
        ∷ ("uri", string_value req.uri)
        ∷ ("method", string_value req.method)
        ∷ ("user_agent", string_value req.user_agent)
        ∷ ("status", int64_value (pos status))
        ∷ ("latency", int64_value (pos dur))
        ∷ ("latency_human", string_value (text_of_duration dur))
        ∷ ("bytes_in", string_value (bytes_in req))
        ∷ ("bytes_out", string_value (text_of_int size))
        ∷ []

    abbrev with_trace : Ctx → SlogHandler → SlogHandler
    with_trace ctx logger =
        if not (span_trace ctx == "")
        then with_attrs (("trace_id", string_value (span_trace ctx)) ∷ []) logger
        else logger

    abbrev with_all : List (Ctx → SlogHandler → SlogHandler) → Ctx → SlogHandler → SlogHandler
    with_all [] ctx logger = logger
    with_all (f ∷ mut) ctx logger = with_all mut ctx (f ctx logger)

    abbrev with_error : Option Err → ℕ → SlogHandler → SlogHandler
    with_error none status logger = logger
    with_error (some err) status logger =
        if leb 500 status
        then with_attrs (("error", string_value (error_text err)) ∷ []) logger
        else logger

    -- LoggerAt with the default logger's handler, from the result of `next` and the time that it took: the response, the
    -- handler and the level of the record, and the error that it returns. `ctx` is the context of its span.
    unfoldable pub logger_at :
        SlogHandler
        → Level
        → List (Ctx → SlogHandler → SlogHandler)
        → Request
        → ℕ
        → Ctx
        → S × Option Err
        → S × (SlogHandler × Level) × Option Err
    unfolding response_status_and_size bytes_in log_at
    logger_at default level mut req dur ctx (s, err) =
        let s1 = answered err s in
        let resp = response_status_and_size (response s1) in
        let logger = with_attrs (request_attrs req dur resp) default in
        let traced = with_trace ctx logger in
        let mutated = with_all mut ctx traced in
        (s1, (with_error err resp.0 mutated, log_at level), none)
