-- ===== src/Events/Lifecycle.antt =====
-- events/events.go: Run, Flush and Reset around the pool of Events.Pool. The goroutines are the workers of Run, the one
-- that Flush starts to drain the channel, and the caller of Flush; others dispatch. Each step is one atomic action of one
-- of them. A second call of Flush before Reset closes a closed channel, which panics.
pub mod Hangs
pub mod Completes
use windowframe.Prelude.{
  ℕ, zero, suc, ◌+◌, ◌-◌, ◌<◌, ◌≤◌, ◌≡◌, Bool, true, false, ◌⊎◌, List, [], ◌∷◌, ◌++◌, length,
}
use windowframe.Events.Pool.{Task, Pool, new, add, send, receive, finish}

-- The goroutine of Flush: not there; at the select of its loop; in `f()`; returned
pub data DrainPc : Type 0 where
  no_drain looping draining gone : DrainPc

-- Flush: not called; at e.wg.Wait(); at e.running.Wait(); returned; panicked
pub data FlushPc : Type 0 where
  not_called waiting_tasks waiting_workers returned panicked : FlushPc

-- `idle` workers are at their select, `busy` ones run a task; `running` counts both. `released` says that the wait group has
-- been at zero since Flush came to e.wg.Wait(), which lets it go on even if a task is added before it does; the panic of a
-- wait group that is reused too early is left out.
pub record Handler (S : Type 0) : Type 0 where
  pub pool : Pool S
  pub idle : ℕ
  pub busy : ℕ
  pub ctx_done : Bool
  pub closed : Bool
  pub drain : DrainPc
  pub flush : FlushPc
  pub released : Bool

-- Done on the wait group releases a Flush that waits when the count is zero then.
abbrev pub releases : FlushPc → ℕ → Bool → Bool
releases waiting_tasks zero r = true
releases waiting_tasks (suc n) r = r
releases not_called n r = r
releases waiting_workers n r = r
releases returned n r = r
releases panicked n r = r

module _ {S : Type 0} where
  unfoldable pub new_handler : S → Handler S
  new_handler s = record {
    pool = new s;
    idle = 0;
    busy = 0;
    ctx_done = false;
    closed = false;
    drain = no_drain;
    flush = not_called;
    released = false;
  }

  -- Run: as many goroutines as there are processors
  unfoldable pub run : ℕ → Handler S → Handler S
  run num_cpu h = record h { idle = h.idle + num_cpu; ctx_done = false }

  unfoldable pub cancel : Handler S → Handler S
  cancel h = record h { ctx_done = true }

  -- A worker takes a task, finishes it, and returns.
  unfoldable pub work : Task S → List (Task S) → Handler S → Handler S
  work t rest h = record h { pool = receive t rest h.pool; idle = h.idle - 1; busy = suc h.busy }

  unfoldable pub work_done : List (Task S) → Task S → List (Task S) → Handler S → Handler S
  work_done xs t ys h = record h {
    pool = finish xs t ys h.pool;
    idle = suc h.idle;
    busy = h.busy - 1;
    released = releases h.flush (finish xs t ys h.pool).wg h.released;
  }

  unfoldable pub worker_returns : Handler S → Handler S
  worker_returns h = record h { idle = h.idle - 1 }

  -- Flush up to its first wait
  unfoldable pub begin_flush : Handler S → Handler S
  begin_flush h = record h {
    closed = true;
    drain = looping;
    flush = waiting_tasks;
    released = false;
  }

  -- A second `close(e.closed)`
  unfoldable pub close_again : Handler S → Handler S
  close_again h = record h { flush = panicked }

  -- The loop of the draining goroutine
  unfoldable pub drain_one : Task S → List (Task S) → Handler S → Handler S
  drain_one t rest h = record h { pool = receive t rest h.pool; drain = draining }

  unfoldable pub drain_done : List (Task S) → Task S → List (Task S) → Handler S → Handler S
  drain_done xs t ys h = record h {
    pool = finish xs t ys h.pool;
    drain = looping;
    released = releases h.flush (finish xs t ys h.pool).wg h.released;
  }

  unfoldable pub drain_returns : Handler S → Handler S
  drain_returns h = record h { drain = gone }

  -- The two waits of Flush
  unfoldable pub tasks_waited : Handler S → Handler S
  tasks_waited h = record h { flush = waiting_workers }

  unfoldable pub workers_waited : Handler S → Handler S
  workers_waited h = record h { flush = returned }

  -- Reset
  unfoldable pub reset : Handler S → Handler S
  reset h = record h { closed = false; flush = not_called }

  unfoldable pub add_task : Task S → Handler S → Handler S
  add_task t h = record h { pool = add t h.pool }

  unfoldable pub send_task : List (Task S) → Task S → List (Task S) → Handler S → Handler S
  send_task xs t ys h = record h { pool = send xs t ys h.pool }

  -- A step of the program but a call of Run
  pub data Step (h : Handler S) : Handler S → Type 0 where
    adds : (t : Task S) → Step h (add_task t h)
    sends :
        (xs : List (Task S)) (t : Task S) (ys : List (Task S))
        → h.pool.waiting ≡ xs ++ t ∷ ys
        → length h.pool.events < 100
        → Step h (send_task xs t ys h)
    cancels : Step h (cancel h)
    works :
        (t : Task S) (rest : List (Task S))
        → 0 < h.idle
        → h.pool.events ≡ t ∷ rest
        → Step h (work t rest h)
    finishes :
        (xs : List (Task S)) (t : Task S) (ys : List (Task S))
        → 0 < h.busy
        → h.pool.running ≡ xs ++ t ∷ ys
        → Step h (work_done xs t ys h)
    leaves : 0 < h.idle → (h.closed ≡ true) ⊎ (h.ctx_done ≡ true) → Step h (worker_returns h)
    flushes : h.flush ≡ not_called → h.closed ≡ false → Step h (begin_flush h)
    flushes_again : h.flush ≡ returned → h.closed ≡ true → Step h (close_again h)
    drains :
        (t : Task S) (rest : List (Task S))
        → h.drain ≡ looping
        → h.pool.events ≡ t ∷ rest
        → Step h (drain_one t rest h)
    drained :
        (xs : List (Task S)) (t : Task S) (ys : List (Task S))
        → h.drain ≡ draining
        → h.pool.running ≡ xs ++ t ∷ ys
        → Step h (drain_done xs t ys h)
    drain_ends : h.drain ≡ looping → h.pool.events ≡ [] → Step h (drain_returns h)
    waits_tasks :
        h.flush ≡ waiting_tasks → (h.pool.wg ≡ 0) ⊎ (h.released ≡ true) → Step h (tasks_waited h)
    waits_workers : h.flush ≡ waiting_workers → h.idle + h.busy ≡ 0 → Step h (workers_waited h)
    resets : h.flush ≡ returned → Step h (reset h)

  pub data Steps (h : Handler S) : Handler S → Type 0 where
    here : Steps h h
    next : {u v : Handler S} → Steps h u → Step u v → Steps h v
