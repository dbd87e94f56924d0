-- ===== src/Events/Handlers.antt =====
-- events/events.go and events/wrapper.go: registering listeners and finding those of an event. The name of
-- an event type is what `name` returns for it, a parameter since reflect gives it. `Any` is the type any, and
-- the assertion a.(Event) is the parameter `as_event`. A listener works on a state `S`; it may panic.
use windowframe.Prelude.{
  String, String_comparable, ◌==◌, ==_iff, ◌≡◌, refl, ap, sym, ◌∙◌, Bool-cases, false, Option, none,
  some, List, [], ◌∷◌, ◌++◌, map, Assoc, lookup, insert, lookup-insert, inl, inr, if◌then◌else◌,
}
use mathlib.Core.List.{append-nil, append_assoc}
use windowframe.Errors.{Err, sentinel, wrap, unknown_type, unregistered_event, invalid_event_type}

-- How a call of a listener ends.
pub data Ended : Type 0 where
  returned : Option Err → Ended
  panicked : Ended

abbrev pub Listener : Type 0 → Type 0 → Type 0
Listener S Event = Event → S → S × Ended

abbrev pub concat : {A : Type 0} → List (List A) → List A
concat [] = []
concat (x ∷ xs) = x ++ concat xs

-- EventHandler.handlers
abbrev pub Handlers : Type 0 → Type 0 → Type 0
Handlers S Any = Assoc String (List (Listener S Any))

-- ([]Listener[any], error)
pub data Found (S Any : Type 0) : Type 0 where
  found : List (Listener S Any) → Found S Any
  not_found : Err → Found S Any

abbrev asserted : {S Event : Type 0} → Listener S Event → Option Event → S → S × Ended
asserted l none s = (s, returned (some (sentinel invalid_event_type)))
asserted l (some event) s = l event s

module _ {S Any : Type 0} where
  -- wrapListeners
  unfoldable pub wrap_listeners :
      {Event : Type 0} → (Any → Option Event) → List (Listener S Event) → List (Listener S Any)
  wrap_listeners as_event = map (λ l a. asserted l (as_event a))

  abbrev pub or_empty : Option (List (Listener S Any)) → List (Listener S Any)
  or_empty none = []
  or_empty (some ls) = ls

  -- Listen; the name is `none` where `name` returns ErrUnknownType.
  unfoldable pub listen :
      {Event : Type 0}
      → (Any → Option Event)
      → Option String
      → List (Listener S Event)
      → Handlers S Any
      → Handlers S Any × Option Err
  unfolding wrap_listeners
  listen as_event none lis hs = (hs, some (wrap "namespace event" (sentinel unknown_type)))
  listen as_event (some name) lis hs =
      (insert name (or_empty (lookup name hs) ++ wrap_listeners as_event lis) hs, none)

  abbrev registered : String → Option (List (Listener S Any)) → Found S Any
  registered name none = not_found (wrap name (sentinel unregistered_event))
  registered name (some ls) = found ls

  -- getHandlers; the message of a wrapping is kept apart from where its text puts the wrapped error.
  unfoldable pub get_handlers : Option String → Handlers S Any → Found S Any
  get_handlers none hs = not_found (wrap "namespace event" (sentinel unknown_type))
  get_handlers (some name) hs = registered name (lookup name hs)

  -- Several calls of Listen for one type of events
  abbrev pub listen_all :
      {Event : Type 0}
      → (Any → Option Event)
      → String
      → List (List (Listener S Event))
      → Handlers S Any
      → Handlers S Any
  listen_all as_event name [] hs = hs
  listen_all as_event name (lis ∷ rest) hs =
      listen_all as_event name rest (listen as_event (some name) lis hs).0

  wrap_append :
      {Event : Type 0} (as_event : Any → Option Event) (xs ys : List (Listener S Event))
      → wrap_listeners as_event (xs ++ ys)
        ≡ wrap_listeners as_event xs ++ wrap_listeners as_event ys
  unfolding wrap_listeners
  wrap_append as_event [] ys = refl
  wrap_append as_event (x ∷ xs) ys = rw (wrap_append as_event xs ys) refl

  lookup-listen :
      {Event : Type 0} (as_event : Any → Option Event) (name : String)
      (lis : List (Listener S Event)) (hs : Handlers S Any) (j : String)
      → lookup j (listen as_event (some name) lis hs).0 ≡ (
          if name == j
          then some (or_empty (lookup name hs) ++ wrap_listeners as_event lis)
          else lookup j hs)
  unfolding listen
  lookup-listen as_event name lis hs j = lookup-insert name j _ hs

  listen_same :
      {Event : Type 0} (as_event : Any → Option Event) (name : String)
      (lis : List (Listener S Event)) (hs : Handlers S Any)
      → lookup name (listen as_event (some name) lis hs).0
        ≡ some (or_empty (lookup name hs) ++ wrap_listeners as_event lis)
  listen_same as_event name lis hs =
      lookup-listen as_event name lis hs name ∙ rw ((==_iff name name).1 refl) refl

  listen_other :
      {Event : Type 0} (as_event : Any → Option Event) (name j : String)
      (lists : List (List (Listener S Event))) (hs : Handlers S Any)
      → (name == j) ≡ false
      → lookup j (listen_all as_event name lists hs) ≡ lookup j hs
  listen_other as_event name j [] hs e = refl
  listen_other as_event name j (lis ∷ rest) hs e =
      listen_other as_event name j rest (listen as_event (some name) lis hs).0 e
      ∙ lookup-listen as_event name lis hs j
      ∙ rw e refl

  lookup-listen_all :
      {Event : Type 0} (as_event : Any → Option Event) (name : String)
      (lis : List (Listener S Event)) (rest : List (List (Listener S Event))) (hs : Handlers S Any)
      → lookup name (listen_all as_event name (lis ∷ rest) hs)
        ≡ some (or_empty (lookup name hs) ++ wrap_listeners as_event (concat (lis ∷ rest)))
  lookup-listen_all as_event name lis [] hs =
      listen_same as_event name lis hs
      ∙ ap (λ l. some (or_empty (lookup name hs) ++ wrap_listeners as_event l))
          (sym (append-nil lis))
  lookup-listen_all as_event name lis (next ∷ rest) hs =
      lookup-listen_all as_event name next rest (listen as_event (some name) lis hs).0
      ∙ rw (listen_same as_event name lis hs, wrap_append as_event lis (next ++ concat rest))
          (ap some (
            append_assoc (or_empty (lookup name hs)) (wrap_listeners as_event lis)
              (wrap_listeners as_event (next ++ concat rest))))

  -- After one or more calls of Listen for a type of events, a dispatch of such an event finds the listeners
  -- that were there, and then those of all the calls in order, each wrapped. A type of another name has
  -- the listeners that it had, or is unregistered as it was.
  pub get_handlers-listen_all :
      {Event : Type 0} (as_event : Any → Option Event) (name : String)
      (lis : List (Listener S Event)) (rest : List (List (Listener S Event))) (hs : Handlers S Any)
      (j : String)
      → get_handlers (some j) (listen_all as_event name (lis ∷ rest) hs) ≡ (
          if name == j
          then found (or_empty (lookup name hs) ++ wrap_listeners as_event (concat (lis ∷ rest)))
          else get_handlers (some j) hs)
  unfolding get_handlers
  get_handlers-listen_all as_event name lis rest hs j = elim (Bool-cases (name == j)) [
    | inl same ↦
        rw (same, sym ((==_iff name j).0 same), lookup-listen_all as_event name lis rest hs) refl
    | inr apart ↦ rw (apart, listen_other as_event name j (lis ∷ rest) hs apart) refl
  ]
