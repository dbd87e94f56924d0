-- ===== src/Events/Pool/Named.antt =====
-- From Listen of events/events.go to the end of Flush.
use windowframe.Prelude.{String, String_comparable, ◌≡◌, Option, some, List, [], ◌∷◌}
use windowframe.Events.Handlers.{Listener, Handlers, listen_all}

module _ {S Any Event : Type 0} (as_event : Any → Option Event) (event : Any) (value : Event)
    (is_event : as_event event ≡ some value) where
  module _ (name : String) (lis : List (Listener S Event)) where
    abbrev listening : Handlers S Any
    listening = listen_all as_event name (lis ∷ []) []
