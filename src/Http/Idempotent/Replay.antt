-- ===== src/Http/Idempotent/Replay.antt =====
-- What a client of http/middleware/idempotent.go receives the first time and from the cache, by the rules of net/http: the
-- first WriteHeader or Write sends the status, which is 200 for a Write; later ones do not change it,
-- and headers added after it are lost.
use windowframe.Prelude.{ℕ, String, ◌≡◌, refl, ap, ◌∙◌, Option, none, some, List, [], ◌∷◌, ◌++◌}
use mathlib.Core.List.{append-nil, append_assoc}
use windowframe.Http.Idempotent.{
  WriterCall, add_header, write_header, write, ResponseRecorder, new_recorder, add_all,
  record_calls, replay,
}

pub record View : Type 0 where
  pub status : Option ℕ
  pub headers : List (String × String)
  pub body : List ℕ

abbrev pub status_or : ℕ → Option ℕ → Option ℕ
status_or c none = some c
status_or c (some d) = some d

abbrev add_unsent : Option ℕ → (String × String) → List (String × String) → List (String × String)
add_unsent none h hs = hs ++ h ∷ []
add_unsent (some c) h hs = hs

abbrev view_call : WriterCall → View → View
view_call (add_header k v) w = record w { headers = add_unsent w.status (k, v) w.headers }
view_call (write_header c) w = record w { status = status_or c w.status }
view_call (write bytes) w = record w { status = status_or 200 w.status; body = w.body ++ bytes }

abbrev pub view_from : View → List WriterCall → View
view_from w [] = w
view_from w (c ∷ cs) = view_from (view_call c w) cs

abbrev pub client_view : List WriterCall → View
client_view = view_from (record { status = none; headers = []; body = [] })

abbrev unsent : List (String × String) → View
unsent hs = record { status = none; headers = hs; body = [] }

view_add_all :
    (hs front : List (String × String)) (rest : List WriterCall)
    → view_from (unsent front) (add_all hs ++ rest) ≡ view_from (unsent (front ++ hs)) rest
view_add_all [] front rest = rw append-nil refl
view_add_all (h ∷ hs) front rest =
    view_add_all hs (front ++ h ∷ []) rest
    ∙ ap (λ l. view_from (unsent l) rest) (append_assoc front (h ∷ []) hs)

record_add_all :
    (hs front : List (String × String)) (rest : List WriterCall)
    → record_calls (add_all hs ++ rest) (record new_recorder { headers = front })
      ≡ record_calls rest (record new_recorder { headers = front ++ hs })
unfolding record_calls
record_add_all [] front rest = rw append-nil refl
record_add_all (h ∷ hs) front rest =
    record_add_all hs (front ++ h ∷ []) rest
    ∙ ap (λ l. record_calls rest (record new_recorder { headers = l }))
        (append_assoc front (h ∷ []) hs)

-- The replay of any recorded response has the recorded headers and body, and the status 200, since
-- the body is written before the code: a recorded code other than 200 does not reach the client.
pub replay_view :
    (r : ResponseRecorder)
    → client_view (replay r) ≡ record { status = some 200; headers = r.headers; body = r.body }
unfolding replay
replay_view r = view_add_all r.headers [] (write r.body ∷ write_header r.code ∷ [])

abbrev pub response : List (String × String) → ℕ → List ℕ → List WriterCall
response hs code body = add_all hs ++ write_header code ∷ write body ∷ []

-- A handler that adds its headers, sends its code and writes its body at once is not disturbed by the
-- recorder: the client sees its headers, code and body. The replay from what the recorder noted
-- shows the same headers and body, and the same code if that was 200.
pub recorded_view :
    (hs : List (String × String)) (code : ℕ) (body : List ℕ)
    → (client_view (record_calls (response hs code body) new_recorder).1
        ≡ record { status = some code; headers = hs; body = body })
      × (client_view (replay (record_calls (response hs code body) new_recorder).0)
          ≡ record { status = some 200; headers = hs; body = body })
unfolding record_calls
recorded_view hs code body = (
  rw (record_add_all hs [] (write_header code ∷ write body ∷ [])) (
      ap client_view (append_assoc (add_all hs) (write_header code ∷ []) (write body ∷ []))
      ∙ view_add_all hs [] (write_header code ∷ write body ∷ [])),
  rw (record_add_all hs [] (write_header code ∷ write body ∷ [])) (replay_view _),
)
