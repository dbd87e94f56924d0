-- ===== src/Http/Server/Calls.antt =====
-- http/http.go: what a server is after any calls of Register and HandleErrors.
use windowframe.Prelude.{
  ◌≡◌, ◌⊎◌, refl, ap, sym, ◌∙◌, Bool, true, false, Option, inl, inr, none, some, List, [], ◌∷◌,
  ◌++◌, String, if◌then◌else◌,
}
use mathlib.Core.List.{append-nil, append_assoc}
use windowframe.Errors.{Err}
use windowframe.Text.{Bytes}
use windowframe.Http.ErrorMap.{ErrorHandler}
use windowframe.Http.Wrap.{Route, route_of}
use windowframe.Http.Server.{
  Handler, Added, Http, Operation, operation, Registered, registered, panicked, Panic, Call,
  register_call, handle_errors_call, handle_errors, added, register, with_route, routed, described,
}

module _ {H M : Type 0} where
  abbrev pub routes_at : Handler H M → Option Route → List (Added H M)
  routes_at x none = []
  routes_at x (some r) = added x r ∷ []

  abbrev pub operations_at : Bool → Handler H M → Bool → List Operation
  operations_at auth_enabled x true = operation auth_enabled x.metadata ∷ []
  operations_at auth_enabled x false = []

  -- The routes, the operations and the error handlers of some calls
  abbrev pub routes_of : List (Call H M) → List (Added H M)
  routes_of [] = []
  routes_of (register_call x ∷ calls) = routes_at x (route_of x.metadata.method) ++ routes_of calls
  routes_of (handle_errors_call funcs ∷ calls) = routes_of calls

  abbrev pub operations_of : Bool → List (Call H M) → List Operation
  operations_of auth_enabled [] = []
  operations_of auth_enabled (register_call x ∷ calls) =
      operations_at auth_enabled x x.generate_spec ++ operations_of auth_enabled calls
  operations_of auth_enabled (handle_errors_call funcs ∷ calls) = operations_of auth_enabled calls

  abbrev pub errors_of : List (Call H M) → List ErrorHandler
  errors_of [] = []
  errors_of (register_call x ∷ calls) = errors_of calls
  errors_of (handle_errors_call funcs ∷ calls) = funcs ++ errors_of calls

  abbrev pub extended : Http H M → List (Added H M) → List Operation → List ErrorHandler → Http H M
  extended h routes operations errors = record h {
    routes = h.routes ++ routes;
    spec = record h.spec { operations = h.spec.operations ++ operations };
    handle_errors = h.handle_errors ++ errors;
  }

  -- The server with what the calls ask for, each kind in the order of the calls
  abbrev pub with_calls : List (Call H M) → Http H M → Http H M
  with_calls calls h =
      extended h (routes_of calls) (operations_of h.auth_enabled calls) (errors_of calls)

  extended-nil : (h : Http H M) → extended h [] [] [] ≡ h
  extended-nil h =
      rw (append-nil h.routes, append-nil h.spec.operations, append-nil h.handle_errors) refl

  extended-extended :
      (h : Http H M) (rs rs' : List (Added H M)) (os os' : List Operation)
      (es es' : List ErrorHandler)
      → extended (extended h rs os es) rs' os' es' ≡ extended h (rs ++ rs') (os ++ os') (es ++ es')
  extended-extended h rs rs' os os' es es' =
      rw
        (
          append_assoc h.routes rs rs',
          append_assoc h.spec.operations os os',
          append_assoc h.handle_errors es es',
        )
        refl

  -- The calls behind the first one
  joined :
      (c : Call H M) (calls : List (Call H M)) (h : Http H M)
      → with_calls calls (with_calls (c ∷ []) h) ≡ with_calls (c ∷ calls) h
  joined (register_call x) calls h =
      extended-extended h _ (routes_of calls) _ (operations_of h.auth_enabled calls) []
        (errors_of calls)
      ∙ rw
          (
            append-nil (routes_at x (route_of x.metadata.method)),
            append-nil (operations_at h.auth_enabled x x.generate_spec),
          )
          refl
  joined (handle_errors_call funcs) calls h =
      extended-extended h [] (routes_of calls) [] (operations_of h.auth_enabled calls) _
        (errors_of calls)
      ∙ rw (append-nil funcs) refl

  module _ (refuses : List (Added H M) → Added H M → Bool)
      (new_operation_context : String → Bytes → Option Err)
      (add_operation : List Operation → Operation → Option Err) where
    abbrev register_with : Handler H M → Http H M → Registered H M
    register_with = register refuses new_operation_context add_operation

    abbrev one : Call H M → Http H M → Registered H M
    one (register_call x) h = register_with x h
    one (handle_errors_call funcs) h = registered (handle_errors funcs h)

    abbrev then_run : (Http H M → Registered H M) → Registered H M → Registered H M
    then_run rest (registered h) = rest h
    then_run rest (panicked p) = panicked p

    -- Calls one after the other; a panic ends the program.
    unfoldable pub run : List (Call H M) → Http H M → Registered H M
    run [] h = registered h
    run (c ∷ calls) h = then_run (λ h'. run calls h') (one c h)

    -- Register, with a route that the router may refuse
    by_schema :
        (x : Handler H M) (a : Added H M) (h : Http H M) (g : Bool) (e : Option Err)
        → (let h1 = record h { routes = h.routes ++ a ∷ [] } in
            ((if g
                then described refuses new_operation_context add_operation x.metadata h1 e
                else registered h1)
              ≡ registered (extended h (a ∷ []) (operations_at h.auth_enabled x g ++ []) []))
            ⊎ ((p : Panic) × ((if g
                    then described refuses new_operation_context add_operation x.metadata h1 e
                    else registered h1)
                  ≡ panicked p)))
    by_schema x a h true (some e) = inr (_, refl)
    by_schema x a h true none = inl (rw (append-nil h.handle_errors) refl)
    by_schema x a h false e =
        inl (rw (append-nil h.handle_errors, append-nil h.spec.operations) refl)

    one_lem :
        (c : Call H M) (h : Http H M)
        → (one c h ≡ registered (with_calls (c ∷ []) h)) ⊎ ((p : Panic) × (one c h ≡ panicked p))
    unfolding register handle_errors
    one_lem (handle_errors_call funcs) h =
        inl (rw (append-nil h.routes, append-nil h.spec.operations, append-nil funcs) refl)
    one_lem (register_call x) h = by_route (route_of x.metadata.method)
      where
        by_refused :
            (a : Added H M) (b : Bool)
            → (routed refuses new_operation_context add_operation x a h b
                ≡ registered
                    (extended h (a ∷ []) (operations_at h.auth_enabled x x.generate_spec ++ []) []))
              ⊎ ((p : Panic) × (routed refuses new_operation_context add_operation x a h b
                    ≡ panicked p))
        by_refused a true = inr (_, refl)
        by_refused a false = by_schema x a h x.generate_spec _

        by_route :
            (o : Option Route)
            → (with_route refuses new_operation_context add_operation x h o
                ≡ registered (
                    extended h
                      (routes_at x o ++ [])
                      (operations_at h.auth_enabled x x.generate_spec ++ [])
                      []))
              ⊎ ((p : Panic) × (with_route refuses new_operation_context add_operation x h o
                    ≡ panicked p))
        by_route none = inr (_, refl)
        by_route (some r) = by_refused (added x r) (refuses h.routes (added x r))

    -- One of the calls panics, and those before it have all taken effect.
    abbrev pub IsStopped : List (Call H M) → Http H M → Type 0
    unfolding run
    IsStopped calls h =
        (pre : List (Call H M)) × (c : Call H M) × (post : List (Call H M)) × (p : Panic) × (calls
          ≡ pre ++ c ∷ post)
        × (one c (with_calls pre h) ≡ panicked p)
        × (run calls h ≡ panicked p)

    -- After any calls of Register and HandleErrors, in any order, either the server is what it was with the routes of all
    -- handlers, the operations of those that ask for one and all error handlers, each kind in the order of the
    -- calls; or the program panics in the first Register that panics, and up to there the server was such a one.
    pub run-with_calls :
        (calls : List (Call H M)) (h : Http H M)
        → (run calls h ≡ registered (with_calls calls h)) ⊎ IsStopped calls h
    unfolding run
    run-with_calls [] h = inl (ap registered (sym (extended-nil h)))
    run-with_calls (c ∷ calls) h = elim (one_lem c h) [
      | inr (p, failed) ↦
          inr ([], c, calls, p, refl, ap (one c) (extended-nil h) ∙ failed, rw failed refl)
      | inl done ↦ elim (run-with_calls calls (with_calls (c ∷ []) h)) [
        | inl all ↦ inl (rw done (all ∙ ap registered (joined c calls h)))
        | inr (pre, d, post, p, split, panics, ran) ↦ inr (
          c ∷ pre,
          d,
          post,
          p,
          ap (λ l. c ∷ l) split,
          ap (one d) (sym (joined c pre h)) ∙ panics,
          rw done ran,
        )
      ]
    ]
