-- ===== src/Http/Lifecycle.antt =====
-- http/http.go: Start and Stop as steps that interleave. A run is one call of Start, numbered from 0; the next begins
-- only when the run before it has returned. Serving (echo.StartConfig.Start) ends when it pleases. One call of Stop is
-- looked at; what other calls do is to cancel the context of a run. The MarshalYAML of the document and its
-- registration as a route come before the first step and touch no field that Stop reads.
pub mod Stops
mod Examples
use windowframe.Prelude.{
  ℕ, zero, suc, ◌≡◌, Bool, true, false, Option, none, some, ◌==◌, ℕ_comparable, if◌then◌else◌,
}
use windowframe.Errors.{Err, wrap, foreign}

-- Where the latest run is: it has set h.cancel; it has set h.done too and serves; its done is closed.
pub data Phase : Type 0 where
  not_started cancel_set serving returned : Phase

-- Where the call of Stop is. `called r` has called the cancel function of run r, `waiting r d` is in its select on
-- the channel of run d (`none` for a nil channel), and `stopped r d` has returned nil there.
pub data StopPc : Type 0 where
  idle : StopPc
  not_running : StopPc
  called : ℕ → StopPc
  waiting : ℕ → Option ℕ → StopPc
  stopped : ℕ → ℕ → StopPc
  timed_out : ℕ → StopPc

-- The fields cancel and done, by the run that made them; which channels are closed and which contexts cancelled.
pub record Server : Type 0 where
  pub runs : ℕ
  pub phase : Phase
  pub cancel : Option ℕ
  pub done : Option ℕ
  pub closed : ℕ → Bool
  pub cancelled : ℕ → Bool
  pub stop : StopPc

unfoldable pub new : Server
new = record {
  runs = 0;
  phase = not_started;
  cancel = none;
  done = none;
  closed = λ _. false;
  cancelled = λ _. false;
  stop = idle;
}

abbrev pub set : ℕ → (ℕ → Bool) → ℕ → Bool
set r f j = if j == r then true else f j

-- `h.cancel = cancel` of a new run
unfoldable pub set_cancel : Server → Server
set_cancel s = record s { runs = suc s.runs; phase = cancel_set; cancel = some s.runs }

-- `h.done = make(chan struct{})` of the run r
unfoldable pub make_done : ℕ → Server → Server
make_done r s = record s { phase = serving; done = some r }

-- `defer close(h.done)` of the run r
unfoldable pub close_done : ℕ → Server → Server
close_done r s = record s { phase = returned; closed = set r s.closed }

abbrev pub begin_stop : Option ℕ → Server → Server
begin_stop none s = record s { stop = not_running }
begin_stop (some r) s = record s { stop = called r; cancelled = set r s.cancelled }

-- Stop up to `h.cancel()`
unfoldable pub call_cancel : Server → Server
call_cancel s = begin_stop s.cancel s

-- The select of Stop, which reads h.done
unfoldable pub select_done : ℕ → Server → Server
select_done r s = record s { stop = waiting r s.done }

unfoldable pub receive_done : ℕ → ℕ → Server → Server
receive_done r d s = record s { stop = stopped r d }

unfoldable pub time_out : ℕ → Server → Server
time_out r s = record s { stop = timed_out r }

unfoldable pub cancel_run : ℕ → Server → Server
cancel_run r s = record s { cancelled = set r s.cancelled }

-- The states of a server whose Start is called again only once the call before has returned; Start does not check that, and a
-- second call meanwhile overwrites the cancel and done of the first.
pub data Reach : Server → Type 0 where
  start : Reach new
  first_run : {s : Server} → Reach s → s.phase ≡ not_started → Reach (set_cancel s)
  next_run : {s : Server} → Reach s → s.phase ≡ returned → Reach (set_cancel s)
  serves :
      {s : Server} {r : ℕ} → Reach s → s.phase ≡ cancel_set → s.runs ≡ suc r → Reach (make_done r s)
  returns :
      {s : Server} {r : ℕ} → Reach s → s.phase ≡ serving → s.runs ≡ suc r → Reach (close_done r s)
  stop_begins : {s : Server} → Reach s → s.stop ≡ idle → Reach (call_cancel s)
  stop_selects : {s : Server} {r : ℕ} → Reach s → s.stop ≡ called r → Reach (select_done r s)
  stop_returns :
      {s : Server} {r d : ℕ}
      → Reach s
      → s.stop ≡ waiting r (some d)
      → s.closed d ≡ true
      → Reach (receive_done r d s)
  stop_times_out :
      {s : Server} {r : ℕ} {d : Option ℕ} → Reach s → s.stop ≡ waiting r d → Reach (time_out r s)
  other_stop : {s : Server} {r : ℕ} → Reach s → s.cancel ≡ some r → Reach (cancel_run r s)

-- What sc.Start returned: nil, http.ErrServerClosed, or another error
pub data Served : Type 0 where
  served server_closed : Served
  serve_error : Err → Served

abbrev serve_result : Served → Option Err
serve_result served = none
serve_result server_closed = none
serve_result (serve_error e) = some e

-- The error of Start, from those of MarshalYAML and of sc.Start
unfoldable pub start_error : Bool → Option Err → Served → Option Err
start_error true (some e) r = some (wrap "could not marshal openapi spec" e)
start_error true none r = serve_result r
start_error false e r = serve_result r
