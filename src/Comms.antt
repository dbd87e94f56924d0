-- ===== src/Comms.antt =====
-- The package comms: requests and replies between processes (comms/sender.go, comms/responder.go). Payloads and
-- texts are lists of bytes. NATS and the JSON of a response are parameters; a handler works on a state `S`.
mod Examples
use windowframe.Prelude.{
  ℕ, ap, ◌∙◌, zero, suc, ◌*◌, ◌^◌, ◌≡◌, refl, Bool, true, false, Option, none, some, List, [], ◌∷◌,
  ℤ, pos, negsuc,
}
use windowframe.Errors.{Err}
use windowframe.Text.{Bytes}

-- The JSON object of a reply; its second field is the source's Error.
pub record Response : Type 0 where
  pub bytes : Bytes
  pub error : Bytes

-- SenderOpts.Timeout and what NewSender makes of it: 0 stands for three seconds.
unfoldable timeout_or_default : ℤ → ℤ
timeout_or_default (pos zero) = pos (3 * 10 ^ 9)
timeout_or_default (pos (suc n)) = pos (suc n)
timeout_or_default (negsuc n) = negsuc n

abbrev pub Handler : Type 0 → Type 0
Handler S = Bytes → S → S × (Bytes × Option Err)

module _ (error_text : Err → Bytes) where
  abbrev error_field : Option Err → Bytes
  error_field none = []
  error_field (some e) = error_text e

  -- The function that Listen subscribes with: the handler's state, and the response.
  unfoldable pub respond : {S : Type 0} → Handler S → Bytes → S → S × Response
  respond h payload s =
      let (s1, (bytes, err)) = h payload s in
      (s1, record { bytes = bytes; error = error_field err })

-- The errors of Send
pub data SendError : Type 0 where
  send_request : SendError
  unmarshal_response : SendError
  -- the text that the responder sent
  remote : Bytes → SendError

abbrev error_of : Bytes → Option SendError
error_of [] = none
error_of (c ∷ text) = some (remote (c ∷ text))

abbrev of_response : Option Response → Bytes × Option SendError
of_response none = ([], some unmarshal_response)
of_response (some r) = (r.bytes, error_of r.error)

-- Send, from the reply of conn.Request, which is `none` for its error
unfoldable pub send : (Bytes → Option Response) → Option Bytes → Bytes × Option SendError
send unmarshal none = ([], some send_request)
send unmarshal (some reply) = of_response (unmarshal reply)

abbrev told : (Err → Bytes) → Option Err → Option SendError
told error_text none = none
told error_text (some e) = error_of (error_text e)

-- A request that is answered gives the sender the handler's bytes, together with an error exactly if the handler
-- returned one whose text is not empty; of the error its text remains. An error with an empty text is lost. This
-- holds if json.Marshal and json.Unmarshal are inverse where the text of the error is valid UTF-8, and it is.
pub send-respond :
    {S : Type 0} (error_text : Err → Bytes) (is_utf8 : Bytes → Bool) (marshal : Response → Bytes)
    (unmarshal : Bytes → Option Response) (h : Handler S) (payload : Bytes) (s : S)
    → ((r : Response) → is_utf8 r.error ≡ true → unmarshal (marshal r) ≡ some r)
    → is_utf8 (respond error_text h payload s).1.error ≡ true
    → send unmarshal (some (marshal (respond error_text h payload s).1))
      ≡ ((h payload s).1.0, told error_text (h payload s).1.1)
unfolding send respond
send-respond error_text is_utf8 marshal unmarshal h payload s json valid =
    ap of_response (json (respond error_text h payload s).1 valid)
    ∙ ap (λ e. ((h payload s).1.0, e)) (error-told (h payload s).1.1)
  where
    error-told : (err : Option Err) → error_of (error_field error_text err) ≡ told error_text err
    error-told none = refl
    error-told (some e) = refl
