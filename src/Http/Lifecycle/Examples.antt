-- ===== src/Http/Lifecycle/Examples.antt =====
-- A server that is started, stopped, and started again under a call of Stop.
use windowframe.Prelude.{◌<◌, ◌≡◌, ◌⊎◌, refl, true, false, arith}
use windowframe.Http.Lifecycle.{
  Server, new, set_cancel, make_done, close_done, call_cancel, select_done, receive_done, stopped,
  Reach, start, first_run, next_run, serves, returns, stop_begins, stop_selects, stop_returns,
}
use windowframe.Http.Lifecycle.Stops.{active, stop-Reach}

-- Stop comes while the server serves, which then returns.
abbrev once : Server
once = receive_done 0 0 (close_done 0 (select_done 0 (call_cancel (make_done 0 (set_cancel new)))))

reach_once : Reach once
unfolding new set_cancel make_done close_done call_cancel select_done
reach_once =
    stop_returns
      (returns (stop_selects (stop_begins (serves (first_run start refl) refl refl) refl) refl) refl
        refl)
      refl refl

stop-Reach_example :
    (once.cancelled 0 ≡ true)
    × (once.closed 0 ≡ true)
    × ((active once.phase ≡ false) ⊎ (1 < once.runs))
unfolding receive_done
stop-Reach_example = stop-Reach reach_once refl 0 (omega arith)

-- Stop comes between the two assignments of a second Start, and returns before that run has served.
abbrev early : Server
early =
    receive_done 1 0
      (select_done 1 (call_cancel (set_cancel (close_done 0 (make_done 0 (set_cancel new))))))

reach_early : Reach early
unfolding new set_cancel make_done close_done call_cancel select_done
reach_early =
    stop_returns
      (stop_selects
        (stop_begins (next_run (returns (serves (first_run start refl) refl refl) refl refl) refl)
          refl)
        refl)
      refl refl

early_open : (early.stop ≡ stopped 1 0) × (early.closed 1 ≡ false)
unfolding new set_cancel make_done close_done call_cancel select_done receive_done
early_open = (refl, refl)
