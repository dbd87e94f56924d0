-- ===== src/Queue/Producer/Examples.antt =====
-- Queues that options name.
use windowframe.Prelude.{pos, ◌≡◌, refl, [], ◌∷◌}
use windowframe.Queue.Options.{id, max_tries, queue_from_options}

default_queue : queue_from_options (id "a" ∷ max_tries (pos 2) ∷ []) ≡ "default"
unfolding queue_from_options
default_queue = refl
