-- ===== src/Http/Lifecycle/Stops.antt =====
-- http/http.go: what a nil from Stop says of the server.
use windowframe.Prelude.{
  ℕ, suc, ◌⊎◌, ◌≤◌, ◌<◌, ◌≡◌, refl, Bool, Bool-cases, true, false, inl, inr, Option, none, some,
  ==_iff, ℕ_comparable, arith,
}
use mathlib.Core.Path.{subst}
use native.Mathlib.Decide.{dec_lt}
use windowframe.Http.Lifecycle.{
  Phase, not_started, cancel_set, serving, returned, StopPc, idle, not_running, called, waiting,
  stopped, timed_out, Server, new, set_cancel, make_done, close_done, call_cancel, select_done,
  receive_done, time_out, cancel_run, begin_stop, Reach, start, first_run, next_run, serves,
  returns, stop_begins, stop_selects, stop_returns, stop_times_out, other_stop,
}

abbrev pub active : Phase → Bool
active not_started = false
active cancel_set = true
active serving = true
active returned = false

abbrev CancelFits : ℕ → Option ℕ → Type 0
CancelFits runs none = Unit
CancelFits runs (some r) = r < runs

abbrev StopFits : Server → StopPc → Type 0
StopFits s idle = Unit
StopFits s not_running = Unit
StopFits s (called r) = s.cancelled r ≡ true
StopFits s (waiting r none) = s.cancelled r ≡ true
StopFits s (waiting r (some d)) = (s.cancelled r ≡ true) × (d < s.runs)
StopFits s (stopped r d) = (s.cancelled r ≡ true) × (d < s.runs) × (s.closed d ≡ true)
StopFits s (timed_out r) = s.cancelled r ≡ true

-- Every run but the latest has returned; the latest has unless it is active.
record Inv (s : Server) : Type 0 where
  old : (r : ℕ) → suc r < s.runs → s.closed r ≡ true
  last : s.phase ≡ returned → (r : ℕ) → s.runs ≡ suc r → s.closed r ≡ true
  live : active s.phase ≡ true → (r : ℕ) → s.runs ≡ suc r → s.closed r ≡ false
  fresh : (r : ℕ) → s.runs ≤ r → s.closed r ≡ false
  none_yet : s.phase ≡ not_started → s.runs ≡ 0
  cancel_fits : CancelFits s.runs s.cancel
  done_fits : (d : ℕ) → s.done ≡ some d → d < s.runs
  stop_fits : StopFits s s.stop

new-Inv : Inv new
unfolding new
new-Inv = record {
  old = λ r h. absurd (omega arith);
  last = λ h r e. cc;
  live = λ h r e. cc;
  fresh = λ r h. refl;
  none_yet = λ h. refl;
  cancel_fits = tt;
  done_fits = λ d e. cc;
  stop_fits = tt;
}

set_cancel-StopFits : (s : Server) (p : StopPc) → StopFits s p → StopFits (set_cancel s) p
unfolding set_cancel
set_cancel-StopFits s idle h = tt
set_cancel-StopFits s not_running h = tt
set_cancel-StopFits s (called r) h = h
set_cancel-StopFits s (waiting r none) h = h
set_cancel-StopFits s (waiting r (some d)) h = ground arith
set_cancel-StopFits s (stopped r d) h = ground arith
set_cancel-StopFits s (timed_out r) h = h

set_cancel-Inv :
    (s : Server) → ((r : ℕ) → s.runs ≡ suc r → s.closed r ≡ true) → Inv s → Inv (set_cancel s)
unfolding set_cancel
set_cancel-Inv s over inv = record {
  old = λ r h. elim (dec_lt (suc r) s.runs) [
    | yes below ↦ inv.old r below
    | no at ↦ over r (omega arith)
  ];
  last = λ h r e. cc;
  live = λ h r e. inv.fresh r (omega arith);
  fresh = λ r h. inv.fresh r (omega arith);
  none_yet = λ h. cc;
  cancel_fits = omega arith;
  done_fits = λ d e. omega (arith, inv.done_fits d e);
  stop_fits = set_cancel-StopFits s s.stop inv.stop_fits;
}

make_done-StopFits : (r : ℕ) (s : Server) (p : StopPc) → StopFits s p → StopFits (make_done r s) p
unfolding make_done
make_done-StopFits r s idle h = tt
make_done-StopFits r s not_running h = tt
make_done-StopFits r s (called x) h = h
make_done-StopFits r s (waiting x none) h = h
make_done-StopFits r s (waiting x (some d)) h = h
make_done-StopFits r s (stopped x d) h = h
make_done-StopFits r s (timed_out x) h = h

make_done-Inv :
    (r : ℕ) (s : Server) → s.phase ≡ cancel_set → s.runs ≡ suc r → Inv s → Inv (make_done r s)
unfolding make_done
make_done-Inv r s at latest inv = record {
  old = inv.old;
  last = λ h j e. cc;
  live = λ h j e. inv.live (rw at refl) j e;
  fresh = inv.fresh;
  none_yet = λ h. cc;
  cancel_fits = inv.cancel_fits;
  done_fits = λ d e. ground (arith, at, latest);
  stop_fits = make_done-StopFits r s s.stop inv.stop_fits;
}

close_done-StopFits : (r : ℕ) (s : Server) (p : StopPc) → StopFits s p → StopFits (close_done r s) p
unfolding close_done
close_done-StopFits r s idle h = tt
close_done-StopFits r s not_running h = tt
close_done-StopFits r s (called x) h = h
close_done-StopFits r s (waiting x none) h = h
close_done-StopFits r s (waiting x (some d)) h = h
close_done-StopFits r s (stopped x d) h = ground arith
close_done-StopFits r s (timed_out x) h = h

close_done-Inv :
    (r : ℕ) (s : Server) → s.phase ≡ serving → s.runs ≡ suc r → Inv s → Inv (close_done r s)
unfolding close_done
close_done-Inv r s at latest inv = record {
  old = λ j h. ground (arith, inv.old j h);
  last = λ h j e. ground (arith, ==_iff j r);
  live = λ h j e. cc;
  fresh = λ j h. ground (arith, inv.fresh j h, ==_iff j r);
  none_yet = λ h. cc;
  cancel_fits = inv.cancel_fits;
  done_fits = inv.done_fits;
  stop_fits = close_done-StopFits r s s.stop inv.stop_fits;
}

was_cancelled :
    (s : Server) (r : ℕ) (o : Option ℕ) → StopFits s (waiting r o) → s.cancelled r ≡ true
was_cancelled s r none h = h
was_cancelled s r (some d) h = h.0

-- A step of a call of Stop leaves all but the cancelled contexts and its own place alone.
stop-Inv :
    (s : Server) (p : StopPc) (f : ℕ → Bool)
    → StopFits (record s { stop = p; cancelled = f }) p
    → Inv s
    → Inv (record s { stop = p; cancelled = f })
stop-Inv s p f fits inv = record {
  old = inv.old;
  last = inv.last;
  live = inv.live;
  fresh = inv.fresh;
  none_yet = inv.none_yet;
  cancel_fits = inv.cancel_fits;
  done_fits = inv.done_fits;
  stop_fits = fits;
}

cancel_run-StopFits : (r : ℕ) (s : Server) (p : StopPc) → StopFits s p → StopFits (cancel_run r s) p
unfolding cancel_run
cancel_run-StopFits r s idle h = tt
cancel_run-StopFits r s not_running h = tt
cancel_run-StopFits r s (called x) h = ground arith
cancel_run-StopFits r s (waiting x none) h = ground arith
cancel_run-StopFits r s (waiting x (some d)) h = ground arith
cancel_run-StopFits r s (stopped x d) h = ground arith
cancel_run-StopFits r s (timed_out x) h = ground arith

call_cancel-Inv : (s : Server) → Inv s → Inv (call_cancel s)
unfolding call_cancel
call_cancel-Inv s inv = by_case s.cancel
  where
    by_case : (c : Option ℕ) → Inv (begin_stop c s)
    by_case none = stop-Inv s not_running s.cancelled tt inv
    by_case (some r) = stop-Inv s (called r) _ (ground (arith, ==_iff r r)) inv

select_done-Inv : (r : ℕ) (s : Server) → s.stop ≡ called r → Inv s → Inv (select_done r s)
unfolding select_done
select_done-Inv r s at inv =
    stop-Inv s (waiting r s.done) s.cancelled (by_case s.done inv.done_fits) inv
  where
    was : s.cancelled r ≡ true
    was = subst (λ p. StopFits s p) at inv.stop_fits

    by_case :
        (o : Option ℕ)
        → ((d : ℕ) → o ≡ some d → d < s.runs)
        → StopFits (record s { stop = waiting r s.done }) (waiting r o)
    by_case none h = was
    by_case (some d) h = (was, h d refl)

receive_done-Inv :
    (r d : ℕ) (s : Server)
    → s.stop ≡ waiting r (some d)
    → s.closed d ≡ true
    → Inv s
    → Inv (receive_done r d s)
unfolding receive_done
receive_done-Inv r d s at shut inv =
    let fits : StopFits s (waiting r (some d)) = subst (λ p. StopFits s p) at inv.stop_fits in
    stop-Inv s (stopped r d) s.cancelled (fits.0, fits.1, shut) inv

time_out-Inv :
    (r : ℕ) (o : Option ℕ) (s : Server) → s.stop ≡ waiting r o → Inv s → Inv (time_out r s)
unfolding time_out
time_out-Inv r o s at inv =
    stop-Inv s (timed_out r) s.cancelled
      (was_cancelled s r o (subst (λ p. StopFits s p) at inv.stop_fits)) inv

cancel_run-Inv : (r : ℕ) (s : Server) → Inv s → Inv (cancel_run r s)
unfolding cancel_run
cancel_run-Inv r s inv = stop-Inv s s.stop _ (cancel_run-StopFits r s s.stop inv.stop_fits) inv

Reach-Inv : {s : Server} → Reach s → Inv s
Reach-Inv start = new-Inv
Reach-Inv (first_run {s} r at) =
    set_cancel-Inv s (λ j e. absurd (omega (arith, (Reach-Inv r).none_yet at))) (Reach-Inv r)
Reach-Inv (next_run {s} r at) = set_cancel-Inv s ((Reach-Inv r).last at) (Reach-Inv r)
Reach-Inv (serves {s = s} {r = j} r at latest) = make_done-Inv j s at latest (Reach-Inv r)
Reach-Inv (returns {s = s} {r = j} r at latest) = close_done-Inv j s at latest (Reach-Inv r)
Reach-Inv (stop_begins {s} r at) = call_cancel-Inv s (Reach-Inv r)
Reach-Inv (stop_selects {s = s} {r = j} r at) = select_done-Inv j s at (Reach-Inv r)
Reach-Inv (stop_returns {s = s} {r = j} {d = d} r at shut) =
    receive_done-Inv j d s at shut (Reach-Inv r)
Reach-Inv (stop_times_out {s = s} {r = j} {d = o} r at) = time_out-Inv j o s at (Reach-Inv r)
Reach-Inv (other_stop {s = s} {r = j} r at) = cancel_run-Inv j s (Reach-Inv r)

-- When a call of Stop returns nil after it has found a run to cancel, it has cancelled it, the run whose channel it
-- waited on has returned, and so have all runs before that one; if a run is between its start and its
-- return then, it is a later one. So a server that is started once has stopped when Stop returns nil. The
-- channel may be that of an earlier run than the one it cancelled, if Stop comes between the
-- two assignments of a second Start. Start is called again only after the Start before it has returned.
pub stop-Reach :
    {s : Server} {r d : ℕ}
    → Reach s
    → s.stop ≡ stopped r d
    → (j : ℕ) → j ≤ d
    → (s.cancelled r ≡ true) × (s.closed j ≡ true) × ((active s.phase ≡ false) ⊎ (suc d < s.runs))
stop-Reach {s} {r} {d} reach at j before =
    let inv = Reach-Inv reach in
    let fits : StopFits s (stopped r d) = subst (λ p. StopFits s p) at inv.stop_fits in
    (
      fits.0,
      elim (dec_lt j d) [
        | yes below ↦ inv.old j (omega (arith, below, fits.1))
        | no at_d ↦ let e : j ≡ d = omega (arith, before, at_d) in rw e fits.2
      ],
      elim (Bool-cases (active s.phase)) [
        | inl busy ↦ elim (dec_lt (suc d) s.runs) [
          | yes later ↦ inr later
          | no latest ↦
              let e : s.closed d ≡ false = inv.live busy d (omega (arith, fits.1, latest)) in
              cc (e, fits.2)
        ]
        | inr quiet ↦ inl quiet
      ],
    )
