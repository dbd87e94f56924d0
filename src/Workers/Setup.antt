-- ===== src/Workers/Setup.antt =====
-- workers/locker.go and workers/workers.go: NewLocker and NewRunner, from the errors of the leader election and of gocron's
-- scheduler, and the start and the end of a runner. A logger is a value of `L`.
use windowframe.Prelude.{Bool, Option, none, some}
use windowframe.Errors.{Err, wrap}
use windowframe.Workers.Locker.{Locker, new_locker}
use windowframe.Workers.Runner.{Monitor, new_monitor}

pub data MadeLocker : Type 0 where
  made_locker : Locker → MadeLocker
  locker_failed : Err → MadeLocker

-- NewLocker
unfoldable locker_of : Option Err → MadeLocker
unfolding new_locker
locker_of (some e) = locker_failed (wrap "instantiate leader election" e)
locker_of none = made_locker new_locker

pub record Runner (L : Type 0) : Type 0 where
  pub locker : Locker
  pub monitor : Monitor
  pub monitor_registered : Bool
  pub logger : L

pub data MadeRunner (L : Type 0) : Type 0 where
  made_runner : Runner L → MadeRunner L
  runner_failed : Err → MadeRunner L

module _ {L : Type 0} (null_logger : L) where
  abbrev logger_or_null : Option L → L
  logger_or_null none = null_logger
  logger_or_null (some l) = l

  abbrev with_scheduler : Option Err → Bool → Option L → Locker → MadeRunner L
  with_scheduler (some e) has_registerer logger locker = runner_failed (wrap "created scheduler" e)
  with_scheduler none has_registerer logger locker = made_runner (record {
    locker = locker;
    monitor = new_monitor;
    monitor_registered = has_registerer;
    logger = logger_or_null logger;
  })

  abbrev with_locker : Option Err → Bool → Option L → MadeLocker → MadeRunner L
  with_locker sched has_registerer logger (locker_failed e) =
      runner_failed (wrap "failed to initialise locker" e)
  with_locker sched has_registerer logger (made_locker locker) =
      with_scheduler sched has_registerer logger locker

  -- NewRunner
  unfoldable new_runner : Option Err → Option Err → Bool → Option L → MadeRunner L
  unfolding locker_of
  new_runner leader sched has_registerer logger =
      with_locker sched has_registerer logger (locker_of leader)
