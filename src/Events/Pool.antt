-- ===== src/Events/Pool.antt =====
-- events/events.go: the channel of tasks, the wait group and the goroutines that run the tasks. A task is a
-- listener of Events.Handlers at its event. A channel that DispatchChannel returned is a number; its values
-- are kept in the order in which they were sent, and it has room for one of each listener. Sending on
-- `events` blocks at 100 tasks. Each operation here is one atomic step of a goroutine; Dispatch is, for each
-- of its handlers, `add` and then `send`, and a worker of Run or the goroutine of Flush takes `receive` and
-- then `finish`.
-- Closing a channel, `closed` and the wait group of the workers are left out.
pub mod Counts
pub mod Dispatch
pub mod Named
use windowframe.Prelude.{
  String, ℕ, suc, ◌+◌, ◌-◌, ◌<◌, ◌≤◌, ◌==◌, ℕ_comparable, ◌≡◌, refl, Bool, true, false, Option,
  none, some, List, [], ◌∷◌, ◌++◌, map, length, length-append, arith, if◌then◌else◌,
}
use windowframe.Errors.{Err, wrap}
use windowframe.Events.Handlers.{
  Listener, Handlers, Found, found, not_found, get_handlers, Ended, returned, panicked,
}

pub record Task (S : Type 0) : Type 0 where
  -- h(ctx, event)
  pub call : S → S × Ended
  -- ch
  pub reply : Option ℕ

abbrev pub Channels : Type 0
Channels = ℕ → List (Option Err)

pub record Pool (S : Type 0) : Type 0 where
  -- added to the wait group and not sent yet, one of each dispatching goroutine
  pub waiting : List (Task S)
  -- the buffer of the channel
  pub events : List (Task S)
  -- received and not finished, one of each worker
  pub running : List (Task S)
  pub wg : ℕ
  pub channels : Channels
  pub state : S

abbrev sent_to : ℕ → Option Err → Channels → Channels
sent_to c e chans d = if c == d then chans d ++ e ∷ [] else chans d

-- `ch <- err` where there is a channel; a panic is recovered before it.
abbrev report : Option ℕ → Ended → Channels → Channels
report none r chans = chans
report (some c) panicked chans = chans
report (some c) (returned e) chans = sent_to c e chans

module _ {S : Type 0} where
  unfoldable pub new : S → Pool S
  new s = record { waiting = []; events = []; running = []; wg = 0; channels = λ _. []; state = s }

  -- e.wg.Add(1)
  unfoldable pub add : Task S → Pool S → Pool S
  add t p = record p { waiting = t ∷ p.waiting; wg = suc p.wg }

  -- e.events <- the task, by the goroutine at this place of `waiting`
  unfoldable pub send : List (Task S) → Task S → List (Task S) → Pool S → Pool S
  send xs t ys p = record p { waiting = xs ++ ys; events = p.events ++ t ∷ [] }

  -- <-e.events
  unfoldable pub receive : Task S → List (Task S) → Pool S → Pool S
  receive t rest p = record p { events = rest; running = t ∷ p.running }

  -- The rest of the task's function, its deferred calls included
  unfoldable pub finish : List (Task S) → Task S → List (Task S) → Pool S → Pool S
  finish xs t ys p =
      let (s1, r) = t.call p.state in
      record p {
        running = xs ++ ys;
        wg = p.wg - 1;
        channels = report t.reply r p.channels;
        state = s1;
      }

  -- The states of the pool that starts at `s`, with the number of tasks added and finished.
  pub data Reach (s : S) : Pool S → ℕ → ℕ → Type 0 where
    start : Reach s (new s) 0 0
    adds : {p : Pool S} {a f : ℕ} (t : Task S) → Reach s p a f → Reach s (add t p) (suc a) f
    sends :
        {p : Pool S} {a f : ℕ} (xs : List (Task S)) (t : Task S) (ys : List (Task S))
        → p.waiting ≡ xs ++ t ∷ ys
        → length p.events < 100
        → Reach s p a f
        → Reach s (send xs t ys p) a f
    receives :
        {p : Pool S} {a f : ℕ} (t : Task S) (rest : List (Task S))
        → p.events ≡ t ∷ rest
        → Reach s p a f
        → Reach s (receive t rest p) a f
    finishes :
        {p : Pool S} {a f : ℕ} (xs : List (Task S)) (t : Task S) (ys : List (Task S))
        → p.running ≡ xs ++ t ∷ ys
        → Reach s p a f
        → Reach s (finish xs t ys p) a (suc f)

  -- The tasks that dispatch makes of an event's handlers; `reply` is its channel, if it has one.
  unfoldable pub tasks_of : {Any : Type 0} → Option ℕ → Any → List (Listener S Any) → List (Task S)
  tasks_of reply event = map (λ h. record { call = h event; reply = reply })

  -- The loop of dispatch, as long as the channel has room: by a goroutine that nobody comes between
  unfoldable pub dispatch : List (Task S) → Pool S → Pool S
  unfolding add send
  dispatch [] p = p
  dispatch (t ∷ ts) p = dispatch ts (send [] t p.waiting (add t p))

  abbrev dispatch_found :
      {Any : Type 0} → Option ℕ → Any → Pool S → Found S Any → Pool S × Option Err
  dispatch_found reply event p (not_found e) = (p, some (wrap "namespace event" e))
  dispatch_found reply event p (found hs) = (dispatch (tasks_of reply event hs) p, none)

  -- Dispatch, and DispatchChannel with the channel that it makes; the name is that of the event's type.
  unfoldable pub dispatch_event :
      {Any : Type 0}
      → Option ℕ
      → Option String
      → Handlers S Any
      → Any
      → Pool S
      → Pool S × Option Err
  unfolding dispatch tasks_of
  dispatch_event reply name hs event p = dispatch_found reply event p (get_handlers name hs)

  -- The loop of the goroutine that Flush starts, alone: it takes and finishes what the channel holds.
  unfoldable pub flush_events : List (Task S) → Pool S → Pool S
  unfolding receive finish
  flush_events [] p = p
  flush_events (t ∷ rest) p = flush_events rest (finish [] t p.running (receive t rest p))
