-- ===== src/Events/Examples.antt =====
-- Listeners and tasks, and the theorems there.
use windowframe.Prelude.{
  ℕ, ◌≢◌, ◌<◌, true, false, ◌+◌, String_comparable, ◌≡◌, refl, none, some, List, [], ◌∷◌, arith,
}
use windowframe.Events.Handlers.{Listener, returned, panicked}
use windowframe.Events.Pool.{Task, Pool, new, add, send, Reach, start, adds, sends}
use windowframe.Events.Lifecycle.{
  Handler, no_drain, gone, not_called, waiting_tasks, returned, Steps, here, next, sends, cancels,
  cancel,
}
use windowframe.Events.Lifecycle.Hangs.{abandoned, Steps-abandoned}
use windowframe.Events.Lifecycle.Completes.{flushed, Steps-flushed}
use windowframe.Text.{codes}
use windowframe.Text.Replace.{Lacks}
use windowframe.Events.Names.{GoType, named, pointer, unnamed, name, name_injective}

-- Any value is a number here, and so are the events of the type.
abbrev counts : Listener ℕ ℕ
counts event n = (n + event, returned none)

abbrev panics : Listener ℕ ℕ
panics event n = (n, panicked)

abbrev one : Task ℕ
one = record { call = counts 1; reply = none }

abbrev broken : Task ℕ
broken = record { call = panics 1; reply = some 0 }

abbrev both_sent : Pool ℕ
both_sent = send [] broken [] (add broken (send [] one [] (add one (new 0))))

reach_both : Reach 0 both_sent 2 0
unfolding new add send
reach_both =
    sends [] broken [] refl (omega arith)
      (adds broken (sends [] one [] refl (omega arith) (adds one start)))

abbrev ls : List (Listener ℕ ℕ)
ls = counts ∷ panics ∷ counts ∷ []

-- Two workers at their selects, and two tasks in the channel
abbrev two_workers : Handler ℕ
two_workers = record {
  pool = both_sent;
  idle = 2;
  busy = 0;
  ctx_done = false;
  closed = false;
  drain = no_drain;
  flush = not_called;
  released = false;
}

Steps-flushed_example :
    Steps two_workers (flushed two_workers)
    × ((flushed two_workers).flush ≡ returned)
    × ((flushed two_workers).idle + (flushed two_workers).busy ≡ 0)
    × ((flushed two_workers).pool.events ≡ [])
    × ((flushed two_workers).pool.wg ≡ 0)
    × ((flushed two_workers).pool.state ≡ 1)
unfolding new add send
Steps-flushed_example = Steps-flushed two_workers reach_both refl refl refl refl refl

-- Flush waits for the task `one`, whose listener dispatches another.
abbrev left_alone : Handler ℕ
left_alone = record {
  pool = record (new 0) { running = one ∷ []; wg = 1 };
  idle = 0;
  busy = 1;
  ctx_done = false;
  closed = true;
  drain = gone;
  flush = waiting_tasks;
  released = false;
}

Steps-abandoned_example :
    Steps left_alone (abandoned one one left_alone)
    × ((cancel (abandoned one one left_alone)).flush ≡ waiting_tasks)
    × (0 < (cancel (abandoned one one left_alone)).pool.wg)
unfolding new
Steps-abandoned_example =
    Steps-abandoned left_alone one one refl refl refl refl refl refl refl refl refl refl
      (next here cancels)

abbrev paid : GoType
paid = named none (codes "app") (codes "Paid")

name_injective_example :
    (paid ≡ paid)
    × (name (named (some 0) (codes "app") (codes "Paid"))
        ≡ name (named (some 1) (codes "app") (codes "Paid")))
    × (name (pointer (unnamed 0)) ≡ name (pointer (unnamed 1)))
name_injective_example =
    name_injective paid paid 0 1 (codes "app") (codes "Paid") (refl, plain, lacking, refl)
      (refl, plain, lacking, refl) refl
  where
    plain : ◌≢◌ {A = ℕ} 4 0
    plain e = absurd (omega arith)

    lacking : Lacks b'/' (codes "Paid")
    lacking = (refl, (refl, (refl, (refl, tt))))
