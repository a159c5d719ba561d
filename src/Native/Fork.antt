-- ===== src/Native/Fork.antt =====
-- googlecloudprofiler/src/profiler.h and profiler.cc: the handlers that the constructor of `CPUProfiler`
-- registers for `fork`. `pthread_atfork`, `fork` and `pthread_sigmask` are parameters.
use cloud_profiler_python.Prelude.{ℕ, zero, suc, ◌≡◌, refl, ap, ◌∙◌, Bool, true, false}
use cloud_profiler_python.Prelude.{if◌then◌else◌}

-- The functions that the constructor registers.
pub data Handler : Type 0 where
  block_sigprof unblock_sigprof : Handler

-- `how` of `pthread_sigmask`
pub data How : Type 0 where
  sig_block sig_unblock : How

-- What the code uses of POSIX: `masked` is whether a thread has SIGPROF blocked, `sigmask` is
-- `pthread_sigmask` for the set of SIGPROF alone, `none_yet` a process in which no handler is registered,
-- and `fork run process thread` the threads that call `fork`: during the call, and behind it in the parent
-- and in the child.
pub record Posix : Type 1 where
  pub Process : Type 0
  pub Thread : Type 0
  pub masked : Thread → Bool
  pub sigmask : How → Thread → Thread
  pub none_yet : Process
  pub atfork : Handler → Handler → Handler → Process → Process
  pub fork : (Handler → Thread → Thread) → Process → Thread → Thread × Thread × Thread

-- `BlockSigprof` and `UnblockSigprof`
unfoldable pub handle_fork : (px : Posix) → Handler → px.Thread → px.Thread
handle_fork px block_sigprof thread = px.sigmask sig_block thread
handle_fork px unblock_sigprof thread = px.sigmask sig_unblock thread

module _ (px : Posix) where
  -- `fork_handlers_registered_`, and what is registered.
  pub record Forks : Type 0 where
    pub registered : Bool
    pub process : px.Process

  -- The constructor of `CPUProfiler`, behind that of `Profiler`.
  unfoldable pub register : Forks → Forks
  register s = if s.registered then s else record {
    registered = true;
    process = px.atfork block_sigprof unblock_sigprof unblock_sigprof s.process;
  }

  -- So many profiles.
  unfoldable pub register_times : ℕ → Forks → Forks
  register_times zero s = s
  register_times (suc n) s = register_times n (register s)

  -- A process that has not profiled yet.
  unfoldable pub unregistered : Forks
  unregistered = record { registered = false; process = px.none_yet }

  -- What POSIX documents.
  pub record IsPosix : Type 0 where
    pub masked-block : (t : px.Thread) → px.masked (px.sigmask sig_block t) ≡ true
    pub masked-unblock : (t : px.Thread) → px.masked (px.sigmask sig_unblock t) ≡ false
    -- With one registration the handler of each of the three runs once, in the thread that forks: the
    -- first before the fork, the second behind it in the parent, the third in the child.
    pub fork-once :
        (run : Handler → px.Thread → px.Thread) (prepare parent child : Handler) (t : px.Thread)
        → px.fork run (px.atfork prepare parent child px.none_yet) t
          ≡ (run prepare t, run parent (run prepare t), run child (run prepare t))

  registered_again : (n : ℕ) (s : Forks) → s.registered ≡ true → register_times n s ≡ s
  unfolding register_times register
  registered_again zero s h = refl
  registered_again (suc n) s h = ap (register_times n) (rw h refl) ∙ registered_again n s h

  -- After one profile or more, each thread that forks has SIGPROF blocked during the call, whatever its
  -- mask was before, and not blocked behind it, in the parent and in the child; and the process is as
  -- after the first profile.
  pub fork-masks :
      IsPosix
      → (n : ℕ) (t : px.Thread)
      → let process = (register_times (suc n) unregistered).process in
        let (during, parent, child) = px.fork (handle_fork px) process t in
        (process ≡ (register unregistered).process)
        × (px.masked during ≡ true)
        × (px.masked parent ≡ false)
        × (px.masked child ≡ false)
  unfolding register_times register unregistered handle_fork
  fork-masks posix n t =
      let once = registered_again n (register unregistered) refl in
      rw (once, posix.fork-once)
        (
          refl,
          posix.masked-block t,
          posix.masked-unblock (px.sigmask sig_block t),
          posix.masked-unblock (px.sigmask sig_block t),
        )
