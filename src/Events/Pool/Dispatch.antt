-- ===== src/Events/Pool/Dispatch.antt =====
-- One event of events/events.go from its dispatch to the end of Flush.
use windowframe.Prelude.{
  ℕ, suc, ◌+◌, ◌≤◌, ==_iff, ℕ_comparable, ◌≡◌, refl, ap, sym, ◌∙◌, Option, some, List, [], ◌∷◌,
  ◌++◌, length, length-append, arith,
}
use mathlib.Core.List.{append-nil, append_assoc}
use windowframe.Errors.{Err}
use windowframe.Events.Handlers.{Listener, Ended, returned, panicked}
use windowframe.Events.Pool.{
  Task, Pool, Channels, new, add, send, receive, finish, report, tasks_of, dispatch, flush_events,
  Reach, start, adds, sends,
}
use windowframe.Events.Pool.Counts.{flush_returns}

abbrev answer : Ended → List (Option Err) → List (Option Err)
answer panicked rest = rest
answer (returned e) rest = e ∷ rest

report-answer :
    (c : ℕ) (r : Ended) (chans : Channels) (rest : List (Option Err))
    → report (some c) r chans c ++ rest ≡ chans c ++ answer r rest
report-answer c panicked chans rest = refl
report-answer c (returned e) chans rest =
    rw ((==_iff c c).1 refl) (append_assoc (chans c) (e ∷ []) rest)

room_left : {n : ℕ} → n ≤ 100 → 0 + n ≤ 100
room_left h = omega arith

module _ {S : Type 0} where
  dispatch_keeps :
      (ts : List (Task S)) (p : Pool S)
      → ((dispatch ts p).events ≡ p.events ++ ts)
        × ((dispatch ts p).waiting ≡ p.waiting)
        × ((dispatch ts p).running ≡ p.running)
        × ((dispatch ts p).channels ≡ p.channels)
        × ((dispatch ts p).state ≡ p.state)
  unfolding dispatch add send
  dispatch_keeps [] p = (sym (append-nil p.events), refl, refl, refl, refl)
  dispatch_keeps (t ∷ ts) p =
      let (events, waiting, running, channels, state) =
        dispatch_keeps ts (send [] t p.waiting (add t p)) in
      (events ∙ append_assoc p.events (t ∷ []) ts, waiting, running, channels, state)

  dispatch-Reach :
      {s : S} {f : ℕ} (ts : List (Task S)) (p : Pool S) (a : ℕ)
      → Reach s p a f
      → length p.events + length ts ≤ 100
      → (b : ℕ) × Reach s (dispatch ts p) b f
  unfolding dispatch add send
  dispatch-Reach [] p a r room = (a, r)
  dispatch-Reach (t ∷ ts) p a r room =
      let more = length-append p.events (t ∷ []) in
      dispatch-Reach ts (send [] t p.waiting (add t p)) (suc a)
        (sends [] t p.waiting refl (ground arith) (adds t r)) (ground arith)

  flushed_at :
      (ts : List (Task S)) (p : Pool S)
      → p.events ≡ ts
      → (flush_events p.events p).wg ≡ 0
      → (flush_events ts p).wg ≡ 0
  flushed_at ts p e zero_there = ap (λ l. (flush_events l p).wg) (sym e) ∙ zero_there

module _ {S Any : Type 0} where
  -- What the listeners do to the state, one after another.
  abbrev pub listened : Any → List (Listener S Any) → S → S
  listened event [] s = s
  listened event (h ∷ hs) s = listened event hs (h event s).0

  -- The results of the listeners that return.
  abbrev pub answers : Any → List (Listener S Any) → S → List (Option Err)
  answers event [] s = []
  answers event (h ∷ hs) s = answer (h event s).1 (answers event hs (h event s).0)

  flush_answers :
      (c : ℕ) (event : Any) (hs : List (Listener S Any)) (p : Pool S)
      → ((flush_events (tasks_of (some c) event hs) p).channels c
          ≡ p.channels c ++ answers event hs p.state)
        × ((flush_events (tasks_of (some c) event hs) p).state ≡ listened event hs p.state)
  unfolding flush_events receive finish tasks_of
  flush_answers c event [] p = (sym (append-nil (p.channels c)), refl)
  flush_answers c event (h ∷ hs) p =
      let (chans, state) = flush_answers c event hs (
        finish [] (record { call = h event; reply = some c }) p.running
          (receive (record { call = h event; reply = some c }) (tasks_of (some c) event hs) p)) in
      (
        chans
            ∙ report-answer c (h event p.state).1 p.channels (answers event hs (h event p.state).0),
        state,
      )

  -- An event with 100 listeners at most is dispatched with a channel to a new handler without workers,
  -- and then the loop of Flush runs: it takes the wait group to zero, every listener has run once, in the
  -- order of their registration, and the channel has the results, in that order, of the listeners that
  -- returned; one that panicked sends none and stops no other.
  pub dispatch_flush :
      (c : ℕ) (event : Any) (hs : List (Listener S Any)) (s : S)
      → length (tasks_of (some c) event hs) ≤ 100
      → (let done =
            flush_events
              (tasks_of (some c) event hs)
              (dispatch (tasks_of (some c) event hs) (new s)) in
          (done.wg ≡ 0)
          × (done.state ≡ listened event hs s)
          × (done.channels c ≡ answers event hs s))
  unfolding new
  dispatch_flush c event hs s room =
      let ts = tasks_of (some c) event hs in
      let p = dispatch ts (new s) in
      let (events, waiting, running, channels, state) = dispatch_keeps ts (new s) in
      let (b, r) = dispatch-Reach {s = s} {f = 0} ts (new s) 0 start (room_left room) in
      let (empty, zero_left, order) = flush_returns r waiting running in
      let (results, final) = flush_answers c event hs p in
      (
        flushed_at ts p events zero_left,
        final ∙ ap (listened event hs) state,
        results ∙ ap (λ l. l c ++ answers event hs p.state) channels ∙ ap (answers event hs) state,
      )
