-- ===== src/Events/Lifecycle/Hangs.antt =====
-- events/events.go: a Flush that waits for ever.
use windowframe.Prelude.{
  ℕ, zero, suc, ◌<◌, ◌≡◌, refl, ap, inl, inr, true, false, [], ◌∷◌, length, arith,
}
use windowframe.Events.Pool.{Task, add, send, receive, finish}
use windowframe.Events.Lifecycle.{
  gone, waiting_tasks, releases, Handler, cancel, work, work_done, worker_returns, begin_flush,
  close_again, drain_one, drain_done, drain_returns, tasks_waited, workers_waited, reset, add_task,
  send_task, Step, adds, sends, cancels, works, finishes, leaves, flushes, flushes_again, drains,
  drained, drain_ends, waits_tasks, waits_workers, resets, Steps, here, next,
}

not_yet : (n : ℕ) → 0 < n → releases waiting_tasks n false ≡ false
not_yet zero some = absurd (omega (arith, some))
not_yet (suc n) some = refl

module _ {S : Type 0} where
  -- Flush waits for tasks, and nobody is left to take one.
  record IsStuck (h : Handler S) : Type 0 where
    no_idle : h.idle ≡ 0
    no_busy : h.busy ≡ 0
    no_drain_left : h.drain ≡ gone
    at_wait : h.flush ≡ waiting_tasks
    unfinished : 0 < h.pool.wg
    not_released : h.released ≡ false

  Step-IsStuck : {h k : Handler S} → Step h k → IsStuck h → IsStuck k
  unfolding cancel work work_done worker_returns begin_flush close_again drain_one drain_done
      drain_returns tasks_waited workers_waited reset add_task send_task add send receive finish
  Step-IsStuck (adds t) i = record {
    no_idle = i.no_idle;
    no_busy = i.no_busy;
    no_drain_left = i.no_drain_left;
    at_wait = i.at_wait;
    unfinished = omega arith;
    not_released = i.not_released;
  }
  Step-IsStuck (sends xs t ys e room) i = record {
    no_idle = i.no_idle;
    no_busy = i.no_busy;
    no_drain_left = i.no_drain_left;
    at_wait = i.at_wait;
    unfinished = i.unfinished;
    not_released = i.not_released;
  }
  Step-IsStuck cancels i = record {
    no_idle = i.no_idle;
    no_busy = i.no_busy;
    no_drain_left = i.no_drain_left;
    at_wait = i.at_wait;
    unfinished = i.unfinished;
    not_released = i.not_released;
  }
  Step-IsStuck (works t rest some e) i = absurd (omega (arith, some, i.no_idle))
  Step-IsStuck (finishes xs t ys some e) i = absurd (omega (arith, some, i.no_busy))
  Step-IsStuck (leaves some e) i = absurd (omega (arith, some, i.no_idle))
  Step-IsStuck (flushes at open_) i = cc (at, i.at_wait)
  Step-IsStuck (flushes_again at shut) i = cc (at, i.at_wait)
  Step-IsStuck (drains t rest at e) i = cc (at, i.no_drain_left)
  Step-IsStuck (drained xs t ys at e) i = cc (at, i.no_drain_left)
  Step-IsStuck (drain_ends at e) i = cc (at, i.no_drain_left)
  Step-IsStuck (waits_tasks at (inl e)) i = absurd (omega (arith, e, i.unfinished))
  Step-IsStuck (waits_tasks at (inr e)) i = cc (e, i.not_released)
  Step-IsStuck (waits_workers at e) i = cc (at, i.at_wait)
  Step-IsStuck (resets at) i = cc (at, i.at_wait)

  Steps-IsStuck : {h k : Handler S} → Steps h k → IsStuck h → IsStuck k
  Steps-IsStuck here i = i
  Steps-IsStuck (next r st) i = Step-IsStuck st (Steps-IsStuck r i)

  -- The last worker runs `t`, whose listener dispatches `u`; then the worker finishes `t`, and sees the closed channel.
  abbrev pub abandoned : Task S → Task S → Handler S → Handler S
  abandoned t u h = worker_returns (work_done [] t [] (send_task [] u [] (add_task u h)))

  -- While Flush waits and its goroutine has seen the channel empty and returned, the last worker may still run a task, whose
  -- listener dispatches one more. When the task is finished, the select of the worker may see the closed channel before
  -- the new task, and the worker returns. From there on, whatever happens, short of a call of Run, Flush stays at its
  -- first wait, and a task is not finished. The wait group is never at zero on the way.
  pub Steps-abandoned :
      (h : Handler S) {k : Handler S} (t u : Task S)
      → h.idle ≡ 0
      → h.busy ≡ 1
      → h.drain ≡ gone
      → h.flush ≡ waiting_tasks
      → h.closed ≡ true
      → h.released ≡ false
      → h.pool.waiting ≡ []
      → h.pool.events ≡ []
      → h.pool.running ≡ t ∷ []
      → h.pool.wg ≡ 1
      → Steps (abandoned t u h) k
      → Steps h (abandoned t u h) × (k.flush ≡ waiting_tasks) × (0 < k.pool.wg)
  unfolding worker_returns work_done send_task add_task add send finish
  Steps-abandoned h t u idle busy drain at shut held waiting events running one r =
      let stuck = Steps-IsStuck r begun in
      (
        next
            (next (next (next here (adds u)) (sends [] u [] (ap (λ l. u ∷ l) waiting) room))
              (finishes [] t [] (omega (arith, busy)) running))
            (leaves (omega arith) (inl shut)),
        stuck.at_wait,
        stuck.unfinished,
      )
    where
      room : length h.pool.events < 100
      room = rw events (omega arith)

      begun : IsStuck (abandoned t u h)
      begun = record {
        no_idle = omega (arith, idle);
        no_busy = omega (arith, busy);
        no_drain_left = drain;
        at_wait = at;
        unfinished = omega (arith, one);
        not_released = rw (at, held) (not_yet _ (omega (arith, one)));
      }
