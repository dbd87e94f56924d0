-- ===== src/Workers/Runner/Counts.antt =====
-- What the runner of workers/workers.go makes of its workers, and what its monitor counts.
use windowframe.Prelude.{
  ℤ, String, String_comparable, ◌≡◌, refl, Option, none, some, List, [], ◌∷◌, ◌++◌, ◌+◌, arith, map,
}
use windowframe.Errors.{Err, wrap}
use windowframe.Workers.Runner.{
  Interval, duration, text, Worker, JobDefinition, cron_job, duration_job, Monitor, Job,
  monitor_run, job_of, register, run_all, added, plain_runs, observed, runs_of, failures_of,
}

-- The definition that an interval stands for.
pub data Schedules : Interval → JobDefinition → Type 0 where
  every : (d : ℤ) → Schedules (duration d) (duration_job d)
  crontab : (c : String) → Schedules (text c) (cron_job c)

failures_of_cons :
    (n m : String) (e : Option Err) (log : List (String × Option Err))
    → failures_of n ((m, e) ∷ log) ≡ failures_of n ((m, e) ∷ []) + failures_of n log
failures_of_cons n m none log = ground arith
failures_of_cons n m (some e) log = ground arith

module _ {S : Type 0} where
  abbrev pub outcome : Job S → List (Job S) → Option Err → List (Job S) × Option Err
  outcome job jobs none = (jobs ++ job ∷ [], none)
  outcome job jobs (some e) = (jobs, some (wrap "failed to register worker" e))

  accept :
      (job : Job S) (jobs : List (Job S)) (r : Option Err)
      → some (added job jobs r) ≡ some (outcome job jobs r)
  accept job jobs none = refl
  accept job jobs (some e) = refl

  -- A worker with a duration is scheduled at that interval, and one with a text by that cron
  -- expression: its job is put behind those that are there if the scheduler takes it, and otherwise
  -- they stay and the error is returned.
  pub register-Schedules :
      (new_job : Job S → Option Err) (w : Worker S) (jobs : List (Job S)) (i : Interval)
      (at : JobDefinition)
      → Schedules i at
      → w.interval ≡ i
      → register new_job w jobs ≡ some (outcome (job_of w at) jobs (new_job (job_of w at)))
  unfolding register job_of
  register-Schedules new_job w jobs _ _ (every d) e =
      rw e (accept (job_of w (duration_job d)) jobs (new_job (job_of w (duration_job d))))
  register-Schedules new_job w jobs _ _ (crontab c) e =
      rw e (accept (job_of w (cron_job c)) jobs (new_job (job_of w (cron_job c))))

  monitor_run_counts :
      (name : String) (f : S → S × Option Err) (m : Monitor) (s : S) (n : String)
      → ((monitor_run name f (m, s)).0.executions n
          ≡ m.executions n + runs_of n ((name, (f s).1) ∷ []))
        × ((monitor_run name f (m, s)).0.duration_seconds n
            ≡ m.duration_seconds n + runs_of n ((name, (f s).1) ∷ []))
        × ((monitor_run name f (m, s)).0.failures n
            ≡ m.failures n + failures_of n ((name, (f s).1) ∷ []))
  unfolding monitor_run
  monitor_run_counts name f m s n = by_error (f s).1
    where
      by_error :
          (e : Option Err)
          → ((observed name e m).executions n ≡ m.executions n + runs_of n ((name, e) ∷ []))
            × ((observed name e m).duration_seconds n
                ≡ m.duration_seconds n + runs_of n ((name, e) ∷ []))
            × ((observed name e m).failures n ≡ m.failures n + failures_of n ((name, e) ∷ []))
      by_error none = ground arith
      by_error (some e) = ground arith

  abbrev pub jobs_of : (Worker S → JobDefinition) → List (Worker S) → List (Job S)
  jobs_of at = map (λ w. job_of w (at w))

  -- Running the jobs of workers, in any order and any number of times, gives the state that the workers'
  -- own runs give. The monitor counts for each name every run once, has one observation of the duration
  -- for each, and counts as failures the runs that returned an error.
  pub run_all_counts :
      (at : Worker S → JobDefinition) (ws : List (Worker S)) (m : Monitor) (s : S) (n : String)
      → ((run_all (jobs_of at ws) (m, s)).1 ≡ (plain_runs ws s).0)
        × ((run_all (jobs_of at ws) (m, s)).0.executions n
            ≡ m.executions n + runs_of n (plain_runs ws s).1)
        × ((run_all (jobs_of at ws) (m, s)).0.duration_seconds n
            ≡ m.duration_seconds n + runs_of n (plain_runs ws s).1)
        × ((run_all (jobs_of at ws) (m, s)).0.failures n
            ≡ m.failures n + failures_of n (plain_runs ws s).1)
  unfolding run_all job_of
  run_all_counts at [] m s n = (refl, ground arith, ground arith, ground arith)
  run_all_counts at (w ∷ ws) m s n =
      let (state, runs, seconds, fails) =
        run_all_counts at ws (monitor_run w.name w.run (m, s)).0 (w.run s).0 n in
      let (run, second, failed) = monitor_run_counts w.name w.run m s n in
      (
        state,
        ground arith,
        ground arith,
        ground (arith, failures_of_cons n w.name (w.run s).1 (plain_runs ws (w.run s).0).1),
      )
