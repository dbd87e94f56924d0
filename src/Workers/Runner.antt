-- ===== src/Workers/Runner.antt =====
-- workers/workers.go and workers/monitor.go: registering workers and counting their runs. A worker's Run
-- works on a state `S`. The timeout of a run, log lines and the histogram's values are left out; gocron's
-- NewJob is a parameter, by the error that it returns for the job.
pub mod Counts
use windowframe.Prelude.{
  ℕ, suc, ℤ, String, String_comparable, ◌==◌, ◌≡◌, refl, Bool, true, false, Option, none, some,
  List, [], ◌∷◌, ◌++◌, ◌+◌, ◌≤◌, arith, if◌then◌else◌,
}
use mathlib.Core.Option.{map as option_map}
use windowframe.Errors.{Err, wrap}

-- The value in an Interval, by its dynamic type.
pub data Interval : Type 0 where
  duration : ℤ → Interval
  text : String → Interval
  other : Interval

pub data Kind : Type 0 where
  schedule_interval schedule_cron : Kind

-- Kind; `none` is its panic, here and below.
unfoldable pub kind_of : Interval → Option Kind
kind_of (duration d) = some schedule_interval
kind_of (text s) = some schedule_cron
kind_of other = none

-- Interval.Interval
unfoldable pub interval_of : Interval → Option ℤ
interval_of (duration d) = some d
interval_of (text s) = none
interval_of other = none

-- Interval.Cron
unfoldable pub cron_of : Interval → Option String
cron_of (text s) = some s
cron_of (duration d) = none
cron_of other = none

pub record Worker (S : Type 0) : Type 0 where
  pub name : String
  pub run : S → S × Option Err
  pub interval : Interval

-- gocron.JobDefinition
pub data JobDefinition : Type 0 where
  cron_job : String → JobDefinition
  duration_job : ℤ → JobDefinition

abbrev pub Counter : Type 0
Counter = String → ℕ

abbrev pub inc : String → Counter → Counter
inc name c u = if name == u then suc (c u) else c u

-- The histogram by the number of its observations.
pub record Monitor : Type 0 where
  pub executions : Counter
  pub failures : Counter
  pub duration_seconds : Counter

unfoldable pub new_monitor : Monitor
new_monitor = record { executions = λ _. 0; failures = λ _. 0; duration_seconds = λ _. 0 }

abbrev pub observed : String → Option Err → Monitor → Monitor
observed name none m = record m {
  executions = inc name m.executions;
  duration_seconds = inc name m.duration_seconds;
}
observed name (some e) m = record m {
  executions = inc name m.executions;
  duration_seconds = inc name m.duration_seconds;
  failures = inc name m.failures;
}

abbrev at_kind : Interval → Option Kind → Option JobDefinition
at_kind i none = none
at_kind i (some schedule_cron) = option_map cron_job (cron_of i)
at_kind i (some schedule_interval) = option_map duration_job (interval_of i)

-- The switch of Register
unfoldable pub definition_of : Interval → Option JobDefinition
unfolding kind_of interval_of cron_of
definition_of i = at_kind i (kind_of i)

pub record Job (S : Type 0) : Type 0 where
  pub at : JobDefinition
  pub job_name : String
  pub task : Monitor × S → Monitor × S

module _ {S : Type 0} where
  -- Monitor.run
  unfoldable pub monitor_run : String → (S → S × Option Err) → Monitor × S → Monitor × S
  monitor_run name f (m, s) = let (s1, e) = f s in (observed name e m, s1)

  -- The job that Register makes of a worker.
  unfoldable pub job_of : Worker S → JobDefinition → Job S
  unfolding monitor_run
  job_of w at = record { at = at; job_name = w.name; task = monitor_run w.name w.run }

  abbrev added : Job S → List (Job S) → Option Err → List (Job S) × Option Err
  added job jobs none = (jobs ++ job ∷ [], none)
  added job jobs (some e) = (jobs, some (wrap "failed to register worker" e))

  abbrev register_at :
      (Job S → Option Err)
      → Worker S
      → List (Job S)
      → Option JobDefinition
      → Option (List (Job S) × Option Err)
  register_at new_job w jobs none = none
  register_at new_job w jobs (some at) = some (added (job_of w at) jobs (new_job (job_of w at)))

  -- Register, on the jobs of the scheduler
  unfoldable pub register :
      (Job S → Option Err) → Worker S → List (Job S) → Option (List (Job S) × Option Err)
  unfolding job_of definition_of
  register new_job w jobs = register_at new_job w jobs (definition_of w.interval)

  -- A sequence of runs, each of the worker that is due.
  unfoldable pub run_all : List (Job S) → Monitor × S → Monitor × S
  run_all [] ms = ms
  run_all (j ∷ js) ms = run_all js (j.task ms)

  -- The workers' own runs: the state, and the name and the error of each run.
  abbrev pub plain_runs : List (Worker S) → S → S × List (String × Option Err)
  plain_runs [] s = (s, [])
  plain_runs (w ∷ ws) s =
      let (s1, e) = w.run s in let (s2, log) = plain_runs ws s1 in (s2, (w.name, e) ∷ log)

abbrev pub runs_of : String → List (String × Option Err) → ℕ
runs_of n [] = 0
runs_of n ((m, e) ∷ log) = if m == n then suc (runs_of n log) else runs_of n log

abbrev pub failures_of : String → List (String × Option Err) → ℕ
failures_of n [] = 0
failures_of n ((m, none) ∷ log) = failures_of n log
failures_of n ((m, some e) ∷ log) = if m == n then suc (failures_of n log) else failures_of n log
