-- ===== src/Events/Lifecycle/Completes.antt =====
-- events/events.go: a Flush that nobody dispatches against returns.
use windowframe.Prelude.{
  ℕ, zero, suc, ◌+◌, ◌-◌, ◌≤◌, ◌≡◌, refl, ap, ◌∙◌, true, false, inl, List, [], ◌∷◌, arith,
}
use windowframe.Events.Pool.{Task, Reach, receive, finish, flush_events}
use windowframe.Events.Pool.Counts.{run_in_order, flush_returns}
use windowframe.Events.Lifecycle.{
  looping, not_called, returned, Handler, worker_returns, begin_flush, drain_one, drain_done,
  drain_returns, tasks_waited, workers_waited, leaves, flushes, drains, drained, drain_ends,
  waits_tasks, waits_workers, Steps, here, next,
}

module _ {S : Type 0} where
  infixl 20 ◌then◌
  ◌then◌ : {h u v : Handler S} → Steps h u → Steps u v → Steps h v
  r then here = r
  r then (next q st) = next (r then q) st

  -- The draining goroutine takes and finishes what the channel holds, and returns.
  abbrev after_drain : List (Task S) → Handler S → Handler S
  after_drain [] h = drain_returns h
  after_drain (t ∷ ts) h = after_drain ts (drain_done [] t h.pool.running (drain_one t ts h))

  Steps-after_drain :
      (ts : List (Task S)) (h : Handler S)
      → h.pool.events ≡ ts
      → h.drain ≡ looping
      → Steps h (after_drain ts h)
  unfolding drain_one drain_done receive finish
  Steps-after_drain [] h e at = next here (drain_ends at e)
  Steps-after_drain (t ∷ ts) h e at =
      (next (next here (drains t ts at e)) (drained [] t h.pool.running refl refl))
      then (Steps-after_drain ts _ refl refl)

  -- What draining does to the pool, and to nothing else that the rest of Flush reads.
  after_drain_lem :
      (ts : List (Task S)) (h : Handler S)
      → ((after_drain ts h).pool ≡ flush_events ts h.pool)
        × ((after_drain ts h).idle ≡ h.idle)
        × ((after_drain ts h).busy ≡ h.busy)
        × ((after_drain ts h).closed ≡ h.closed)
        × ((after_drain ts h).flush ≡ h.flush)
  unfolding drain_one drain_done drain_returns flush_events
  after_drain_lem [] h = (refl, refl, refl, refl, refl)
  after_drain_lem (t ∷ ts) h =
      after_drain_lem ts (drain_done [] t h.pool.running (drain_one t ts h))

  -- The workers return one by one.
  abbrev after_leaving : ℕ → Handler S → Handler S
  after_leaving zero h = h
  after_leaving (suc n) h = after_leaving n (worker_returns h)

  Steps-after_leaving :
      (n : ℕ) (h : Handler S) → n ≤ h.idle → h.closed ≡ true → Steps h (after_leaving n h)
  unfolding worker_returns
  Steps-after_leaving zero h below shut = here
  Steps-after_leaving (suc n) h below shut =
      (next here (leaves (omega arith) (inl shut)))
      then (Steps-after_leaving n (worker_returns h) (omega arith) shut)

  after_leaving_lem :
      (n : ℕ) (h : Handler S)
      → ((after_leaving n h).idle ≡ h.idle - n)
        × ((after_leaving n h).busy ≡ h.busy)
        × ((after_leaving n h).flush ≡ h.flush)
        × ((after_leaving n h).pool ≡ h.pool)
  unfolding worker_returns
  after_leaving_lem zero h = (omega arith, refl, refl, refl)
  after_leaving_lem (suc n) h =
      let (idle, busy, flush, pool) = after_leaving_lem n (worker_returns h) in
      (omega (arith, idle), busy, flush, pool)

  -- Where all have gone: the state of the handler when Flush has returned
  abbrev pub flushed : Handler S → Handler S
  flushed h =
      workers_waited
        (after_leaving h.idle (tasks_waited (after_drain h.pool.events (begin_flush h))))

  -- A Flush of an open handler can return, if no goroutine is dispatching and no worker is running a task when it is called:
  -- by steps of the draining goroutine, of the workers that see the closed channel, and of Flush itself. Then no
  -- worker is left, the channel is empty, the wait group is zero, and the tasks that the channel held have run, in
  -- the order in which they were sent.
  pub Steps-flushed :
      {s : S} {a f : ℕ} (h : Handler S)
      → Reach s h.pool a f
      → h.pool.waiting ≡ []
      → h.pool.running ≡ []
      → h.busy ≡ 0
      → h.flush ≡ not_called
      → h.closed ≡ false
      → Steps h (flushed h)
        × ((flushed h).flush ≡ returned)
        × ((flushed h).idle + (flushed h).busy ≡ 0)
        × ((flushed h).pool.events ≡ [])
        × ((flushed h).pool.wg ≡ 0)
        × ((flushed h).pool.state ≡ run_in_order h.pool.events h.pool.state)
  unfolding begin_flush tasks_waited workers_waited
  Steps-flushed h reach dispatching working quiet open_ not_shut =
      let (empty, down, state) = flush_returns reach dispatching working in
      let (pool, idle, busy, shut, flush) = after_drain_lem h.pool.events (begin_flush h) in
      let drained_h = after_drain h.pool.events (begin_flush h) in
      let (idle2, busy2, flush2, pool2) = after_leaving_lem h.idle (tasks_waited drained_h) in
      (
        (next here (flushes open_ not_shut))
            then (Steps-after_drain h.pool.events (begin_flush h) refl refl)
            then (next here (waits_tasks flush (inl (ap (λ p. p.wg) pool ∙ down))))
            then (Steps-after_leaving h.idle (tasks_waited drained_h) (omega (arith, idle)) shut)
            then (next here (waits_workers flush2 (omega (arith, idle2, busy2, idle, busy)))),
        refl,
        omega (arith, idle2, busy2, idle, busy),
        ap (λ p. p.events) (pool2 ∙ pool) ∙ empty,
        ap (λ p. p.wg) (pool2 ∙ pool) ∙ down,
        ap (λ p. p.state) (pool2 ∙ pool) ∙ state,
      )
