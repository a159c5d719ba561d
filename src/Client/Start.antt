-- ===== src/Client/Start.antt =====
-- googlecloudprofiler/client.py: `Client.start`.
use cloud_profiler_python.Prelude.{ℕ, zero, suc, ◌+◌, ◌≡◌, ◌∙◌, refl, Bool, false, String, arith}
use cloud_profiler_python.Prelude.{if◌then◌else◌, string_eq}
use cloud_profiler_python.Prelude.Dict
use cloud_profiler_python.Prelude.Dict.{Dict}
use cloud_profiler_python.Prelude.Result.{Result, ok, err}
use cloud_profiler_python.Wall.Register.{Sigalrm, SignalCalls, register_handler}
use cloud_profiler_python.Client.Config.{Profiler}

-- The calls of `WallProfiler.register_handler`, and `Thread.start`: each may raise.
pub record Host : Type 0 where
  pub signal_calls : SignalCalls
  pub thread_start : Result (Unit {0})

-- `self._started`, what is registered for SIGALRM, and the polling threads that run.
pub record Running : Type 0 where
  pub started : Bool
  pub sigalrm : Sigalrm
  pub threads : ℕ

abbrev pub unregistered : Sigalrm
unregistered = record { handled = false; restarts = false; off_at_exit = false }

-- A client that has been made.
unfoldable pub fresh : Running
fresh = record { started = false; sigalrm = unregistered; threads = 0 }

unfoldable pub register :
    {F : Type 0} → Host → Dict String (Profiler F) → Sigalrm → Sigalrm × Result (Unit {0})
register host profilers s =
    if Dict.contains profilers "WALL" then register_handler host.signal_calls s else (s, ok tt)

-- The flag `started` is read and never set.
unfoldable pub start :
    {F : Type 0} → Host → Dict String (Profiler F) → Running → Running × Result (Unit {0})
start host profilers r =
    if r.started then (r, ok tt) else elim (register host profilers r.sigalrm).1 [
      | err e ↦ (record r { sigalrm = (register host profilers r.sigalrm).0 }, err e)
      | ok _ ↦
          let registered = record r { sigalrm = (register host profilers r.sigalrm).0 } in
          elim host.thread_start [
            | err e ↦ (registered, err e)
            | ok _ ↦ (record registered { threads = r.threads + 1 }, ok tt)
          ]
    ]

module _ {F : Type 0} (host : Host) (profilers : Dict String (Profiler F)) where
  -- n calls
  unfoldable pub start_times : ℕ → Running → Running
  start_times zero r = r
  start_times (suc n) r = start_times n (start host profilers r).0

  -- Whether the handler can be registered does not depend on what is registered.
  register-again : (s t : Sigalrm) → (register host profilers s).1 ≡ (register host profilers t).1
  unfolding register register_handler
  register-again s t = ground arith

  start-step :
      (r : Running)
      → (register host profilers r.sigalrm).1 ≡ ok tt
      → host.thread_start ≡ ok tt
      → r.started ≡ false
      → ((start host profilers r).0.started ≡ false)
        × ((start host profilers r).0.threads ≡ r.threads + 1)
  unfolding start
  start-step r h t s = ground arith

  start_times-threads_from :
      (n : ℕ) (r : Running)
      → (register host profilers r.sigalrm).1 ≡ ok tt
      → host.thread_start ≡ ok tt
      → r.started ≡ false
      → (start_times n r).threads ≡ r.threads + n
  unfolding start_times start
  start_times-threads_from zero r h t s = omega arith
  start_times-threads_from (suc n) r h t s =
      let one = start-step r h t s in
      let again = register-again (start host profilers r).0.sigalrm r.sigalrm ∙ h in
      grind (arith, start_times-threads_from n (start host profilers r).0 again t one.0, one.1)

  -- Where the handler can be registered and threads can be started, n calls of the method start n
  -- polling threads: a call does not keep the next from starting another.
  pub start_times-threads :
      (n : ℕ)
      → (register host profilers unregistered).1 ≡ ok tt
      → host.thread_start ≡ ok tt
      → (start_times n fresh).threads ≡ n
  unfolding fresh
  start_times-threads n h t = grind (arith, start_times-threads_from n fresh h t refl)

-- A call of a client that has not started leaves the threads as they are where it raises, and adds
-- one where it returns.
pub start-threads :
    {F : Type 0} (host : Host) (profilers : Dict String (Profiler F)) (r : Running)
    → r.started ≡ false
    → (start host profilers r).0.threads
      ≡ (elim (start host profilers r).1 as (λ _. ℕ) [ ok _ ↦ r.threads + 1 | err _ ↦ r.threads ])
unfolding start
start-threads host profilers r s = ground arith
