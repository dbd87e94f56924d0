-- ===== src/Http/Idempotent.antt =====
-- http/middleware/idempotent.go: the middleware Idempotent, over any IdempotencyStore. `St` is the state of the
-- store, `A` that of the application below the middleware. A response is the list of calls on the
-- http.ResponseWriter, in order; http.Header is a list of pairs, in the order of its iteration. Parsing
-- the key, json.Marshal and json.Unmarshal of a recorder, and echo.UnwrapResponse are parameters. Both TTLs are
-- passed on to the store and left out here. Spans, and failures to write the body, are left out.
pub mod Once
pub mod Replay
pub mod Rueidis
mod Examples
use windowframe.Prelude.{
  ℕ, String, String_comparable, ◌==◌, ◌≡◌, Bool, true, false, Option, none, some, List, [], ◌∷◌,
  ◌++◌, map, if◌then◌else◌,
}
use windowframe.Errors.{
  Err, wrap, validation_error, is_error, idempotent_locked, idempotent_missing,
}

pub data WriterCall : Type 0 where
  -- Header().Add(key, value)
  add_header : String → String → WriterCall
  write_header : ℕ → WriterCall
  write : List ℕ → WriterCall

-- responseRecorder, without the writer below it
pub record ResponseRecorder : Type 0 where
  pub code : ℕ
  pub body : List ℕ
  pub headers : List (String × String)

abbrev pub add_all : List (String × String) → List WriterCall
add_all = map (λ h. add_header h.0 h.1)

-- Header, WriteHeader and Write of the recorder: what it notes, and what it passes to its writer.
unfoldable pub recorder_call : WriterCall → ResponseRecorder → ResponseRecorder × List WriterCall
recorder_call (add_header k v) r = (record r { headers = r.headers ++ (k, v) ∷ [] }, [])
recorder_call (write_header c) r = (record r { code = c }, add_all r.headers ++ write_header c ∷ [])
recorder_call (write bytes) r = (record r { body = bytes }, write bytes ∷ [])

unfoldable pub record_calls :
    List WriterCall → ResponseRecorder → ResponseRecorder × List WriterCall
unfolding recorder_call
record_calls [] r = (r, [])
record_calls (c ∷ cs) r =
    let (r1, out) = recorder_call c r in let (r2, rest) = record_calls cs r1 in (r2, out ++ rest)

abbrev pub new_recorder : ResponseRecorder
new_recorder = record { code = 0; body = []; headers = [] }

-- The calls for a cached response: the headers, the body, and then the status code.
unfoldable pub replay : ResponseRecorder → List WriterCall
replay r = add_all r.headers ++ write r.body ∷ write_header r.code ∷ []

pub data GetResult : Type 0 where
  cached_response : List ℕ → GetResult
  get_failed : Err → GetResult

-- The interface IdempotencyStore; a key is the text of its UUID. The TTL that Store takes is left out: what it keeps is looked at
-- before it expires.
pub record IdempotencyStore (St : Type 0) : Type 0 where
  pub get : String → St → St × GetResult
  pub store : String → List ℕ → St → St × Option Err
  pub lock : String → St → St × Option Err
  pub unlock : String → St → St × Option Err

-- The calls on the response and the returned error.
abbrev pub Served : Type 0
Served = List WriterCall × Option Err

module _ {St A : Type 0} (api : IdempotencyStore St) (marshal : ResponseRecorder → Option (List ℕ))
    (unmarshal : List ℕ → Option ResponseRecorder) (json_error : Err) (unwrap_error : Option Err)
    (next : A → A × Served) where
  abbrev stored : List WriterCall → A → St × Option Err → (St × A) × Served
  stored calls a (s, none) = ((s, a), (calls, none))
  stored calls a (s, some e) = ((s, a), (calls, some (wrap "store idempotency key value" e)))

  abbrev marshalled : String → List WriterCall → A → St → Option (List ℕ) → (St × A) × Served
  marshalled key calls a s none =
      ((s, a), (calls, some (wrap "marshal recorded response" json_error)))
  marshalled key calls a s (some bytes) = stored calls a (api.store key bytes s)

  -- The handler ran against a recorder.
  abbrev after_next : String → St → A × Served → (St × A) × Served
  after_next key s (a, (calls, some e)) = ((s, a), ((record_calls calls new_recorder).1, some e))
  after_next key s (a, (calls, none)) =
      let (recorder, out) = record_calls calls new_recorder in
      marshalled key out a s (marshal recorder)

  abbrev run_next : String → Option Err → St × A → (St × A) × Served
  run_next key (some e) (s, a) = ((s, a), ([], some (wrap "unwrap response" e)))
  run_next key none (s, a) = after_next key s (next a)

  -- The headers are added before the response is unwrapped.
  abbrev replayed : Option Err → Option ResponseRecorder → St × A → (St × A) × Served
  replayed e none st = (st, ([], some (wrap "unmarshal cached response" json_error)))
  replayed (some e) (some r) st = (st, (add_all r.headers, some (wrap "unwrap response" e)))
  replayed none (some r) st = (st, (replay r, none))

  abbrev after_get : String → A → St × GetResult → (St × A) × Served
  after_get key a (s, cached_response bytes) = replayed unwrap_error (unmarshal bytes) (s, a)
  after_get key a (s, get_failed e) =
      if is_error idempotent_missing e
      then run_next key unwrap_error (s, a)
      else ((s, a), ([], some (wrap "get idempotency key value" e)))

  -- The deferred Unlock; its error is dropped.
  abbrev unlocked : String → (St × A) × Served → (St × A) × Served
  unlocked key ((s, a), served) = (((api.unlock key s).0, a), served)

  abbrev after_lock : String → A → St × Option Err → (St × A) × Served
  after_lock key a (s, some e) =
      if is_error idempotent_locked e
      then ((s, a), (write_header 423 ∷ [], none))
      else ((s, a), ([], some (wrap "lock idempotency key" e)))
  after_lock key a (s, none) = unlocked key (after_get key a (api.get key s))

  -- With a key that parses
  unfoldable pub serve_key : String → St × A → (St × A) × Served
  unfolding record_calls replay
  serve_key key (s, a) = after_lock key a (api.lock key s)

  abbrev pass_on : St → A × Served → (St × A) × Served
  pass_on s (a, served) = ((s, a), served)

  abbrev invalid : String → St × A → (St × A) × Served
  invalid message st = (st, ([], some (validation_error (("idempotency_key", message) ∷ []))))

  abbrev serve_parsed : Option String → St × A → (St × A) × Served
  serve_parsed none st = invalid "invalid uuid" st
  serve_parsed (some key) st = serve_key key st

  -- Idempotent: `raw` is the header X-Idempotency-Key, empty where it is missing; `parse` gives the
  -- text of the UUID that it denotes.
  unfoldable pub idempotent : Bool → (String → Option String) → String → St × A → (St × A) × Served
  unfolding serve_key
  idempotent skip_missing_keys parse raw (s, a) =
      if raw == ""
      then (if skip_missing_keys then pass_on s (next a) else invalid "missing key" (s, a))
      else serve_parsed (parse raw) (s, a)
