-- ===== src/Events/Pool/Counts.antt =====
-- The wait group of events/events.go counts the tasks that are not finished.
use windowframe.Prelude.{
  ℕ, suc, ◌+◌, ◌≤◌, ◌≡◌, refl, ap, ◌∙◌, List, [], ◌∷◌, ◌++◌, length, length-append, arith,
}
use windowframe.Events.Pool.{
  Task, Pool, new, add, send, receive, finish, Reach, start, adds, sends, receives, finishes,
  flush_events,
}

module _ {S : Type 0} where
  abbrev pub unfinished : Pool S → ℕ
  unfinished p = length p.waiting + length p.events + length p.running

  length_out :
      (zs xs : List (Task S)) (t : Task S) (ys : List (Task S))
      → zs ≡ xs ++ t ∷ ys
      → length zs ≡ suc (length (xs ++ ys))
  length_out zs xs t ys e =
      let whole = length-append xs (t ∷ ys) in
      let parts = length-append xs ys in ap length e ∙ ground arith

  pub wg_counts :
      {s : S} {p : Pool S} {a f : ℕ}
      → Reach s p a f
      → (p.wg ≡ unfinished p) × (p.wg + f ≡ a) × (length p.events ≤ 100)
  unfolding new add send receive finish
  wg_counts start = (refl, refl, omega arith)
  wg_counts (adds t r) = let (w, c, b) = wg_counts r in (ground arith, ground arith, b)
  wg_counts (sends {p = p} xs t ys e room r) =
      let (w, c, b) = wg_counts r in
      let out = length_out p.waiting xs t ys e in
      let more = length-append p.events (t ∷ []) in (ground arith, c, ground arith)
  wg_counts (receives {p = p} t rest e r) =
      let (w, c, b) = wg_counts r in
      let out = length_out p.events [] t rest e in (ground arith, c, ground arith)
  wg_counts (finishes {p = p} xs t ys e r) =
      let (w, c, b) = wg_counts r in
      let out = length_out p.running xs t ys e in (ground arith, ground arith, b)

  counted :
      (p : Pool S) → p.wg ≡ unfinished p → p.waiting ≡ [] → p.running ≡ [] → p.wg ≡ length p.events
  counted p w idle quiet = let i = ap length idle in let q = ap length quiet in ground arith

  -- The tasks one after another, on the state alone.
  abbrev pub run_in_order : List (Task S) → S → S
  run_in_order [] s = s
  run_in_order (t ∷ ts) s = run_in_order ts (t.call s).0

  flush_finishes :
      (ts : List (Task S)) (p : Pool S)
      → p.events ≡ ts
      → length ts ≤ p.wg
      → ((flush_events ts p).events ≡ [])
        × ((flush_events ts p).wg + length ts ≡ p.wg)
        × ((flush_events ts p).state ≡ run_in_order ts p.state)
  unfolding flush_events receive finish
  flush_finishes [] p e h = (e, ground arith, refl)
  flush_finishes (t ∷ ts) p e h =
      let (empty, down, state) =
        flush_finishes ts (finish [] t p.running (receive t ts p)) refl (ground arith) in
      (empty, ground arith, state)

  -- In any reachable state in which no goroutine is dispatching and no worker is running a task, the loop
  -- of Flush empties the channel and takes the wait group to zero; it has run the tasks of the channel in
  -- the order in which they were sent, those that panic included.
  pub flush_returns :
      {s : S} {p : Pool S} {a f : ℕ}
      → Reach s p a f
      → p.waiting ≡ []
      → p.running ≡ []
      → ((flush_events p.events p).events ≡ [])
        × ((flush_events p.events p).wg ≡ 0)
        × ((flush_events p.events p).state ≡ run_in_order p.events p.state)
  flush_returns {p = p} r idle quiet =
      let (w, c, b) = wg_counts r in
      let all = counted p w idle quiet in
      let (empty, down, state) = flush_finishes p.events p refl (ground arith) in
      (empty, ground arith, state)
