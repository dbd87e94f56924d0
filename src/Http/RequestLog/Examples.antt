-- ===== src/Http/RequestLog/Examples.antt =====
-- A request with two ids and a failed handler.
use windowframe.Prelude.{ℕ, ◌≡◌, refl, Option, some, [], ◌∷◌, String, Assoc}
use windowframe.Errors.{Err, foreign}
use windowframe.Log.{AnyValue, string_value, handle}
use windowframe.Log.Values.{Values, values, values-IsCtx}
use windowframe.Log.Handlers.{writer, new_handler, written}
use windowframe.Log.{text_in, get_log_attrs}
use windowframe.Http.RequestLog.{Request, level_info, zap, logger_at}
use windowframe.Http.RequestLog.Ids.{handle-zap}

abbrev span_trace : Values → String
span_trace ctx = "t1"

abbrev widen : ℕ → ℕ
widen bits = bits

abbrev in_order : Assoc String AnyValue → Assoc String AnyValue
in_order m = m

abbrev number_text : ℕ → String
number_text n = "1"

abbrev text : Err → String
text e = "no"

abbrev response : ℕ → Option (ℕ × ℕ)
response status = some (status, 2)

abbrev answer : Err → ℕ → ℕ
answer e status = 500

abbrev request : Request
request = record {
  remote_ip = "10.0.0.1";
  host = "localhost";
  uri = "/";
  method = "GET";
  user_agent = "curl";
  content_length = "";
}

abbrev result : ℕ × Option Err
result = (0, some (foreign "no"))

handle-zap_example :
    (written values widen in_order (new_handler (writer [])) [] (zap values span_trace "r1" []) []
      ≡ ("request_id", string_value "r1") ∷ ("trace_id", string_value "t1") ∷ [])
    × (logger_at values span_trace number_text number_text text response answer
          (new_handler (writer []))
          level_info
          []
          request
          7
          (zap values span_trace "r1" [])
          result
        ≡ logger_at values span_trace number_text number_text text response answer
            (writer [])
            level_info
            []
            request
            7
            (zap values span_trace "r1" [])
            result)
unfolding written handle text_in get_log_attrs
handle-zap_example =
    handle-zap values values-IsCtx span_trace widen in_order "r1" [] [] [] number_text number_text
      text response answer (writer []) level_info [] request 7 result refl refl
