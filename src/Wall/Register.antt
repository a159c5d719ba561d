-- ===== src/Wall/Register.antt =====
-- googlecloudprofiler/pythonprofiler.py: `WallProfiler.register_handler`.
use cloud_profiler_python.Prelude.{Bool, true}
use cloud_profiler_python.Prelude.Result.{Result, ok, err}

-- The process's state that the method sets: whether `_handler` handles SIGALRM, whether a system call that
-- SIGALRM has interrupted is restarted, and whether the timer is switched off at the exit.
pub record Sigalrm : Type 0 where
  pub handled : Bool
  pub restarts : Bool
  pub off_at_exit : Bool

-- The calls that it makes; `signal.signal` raises outside the main thread.
pub record SignalCalls : Type 0 where
  pub signal : Result (Unit {0})
  pub siginterrupt : Result (Unit {0})
  pub atexit : Result (Unit {0})

unfoldable pub register_handler : SignalCalls → Sigalrm → Sigalrm × Result (Unit {0})
register_handler calls s = elim calls.signal [
  | err e ↦ (s, err e)
  | ok _ ↦ elim calls.siginterrupt [
    | err e ↦ (record s { handled = true }, err e)
    | ok _ ↦ elim calls.atexit [
      | err e ↦ (record s { handled = true; restarts = true }, err e)
      | ok _ ↦ (record { handled = true; restarts = true; off_at_exit = true }, ok tt)
    ]
  ]
]
