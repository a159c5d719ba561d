-- ===== src/Lib.antt =====
-- Cloud Profiler's Python agent.
--
-- The agent runs in the process that it profiles. `googlecloudprofiler.start` (Agent) authenticates
-- and configures a client (Client), which then polls the profiler's server in a thread of its own.
-- Where the server answers with a profile to take, the client asks the profiler of its type for the
-- bytes: the CPU profiler (Cpu) or the wall-time profiler (Wall). Both count stack traces and write
-- them as a profile with the builder (Builder). A failed request is repeated after a backoff
-- (Backoff).
--
-- Files, with the code that each is about (paths under googlecloudprofiler/):
--
-- - Prelude: helpers. Prelude/Result has Python's exceptions as values, Prelude/Dict its dictionaries
--   in insertion order, Prelude/Float its floats as an interface with laws, Prelude/Micros a concrete
--   instance of it, Prelude/Int its integers.
-- - Builder: builder.py. `Builder` is the class with its three dictionaries and the profile;
--   `string_id`, `function_id` and `location_id` are the methods `_string_id`, `_function_id` and
--   `_location_id`; `populate_profile` is cut into the header and the two loops. Builder/Proto has the
--   messages, Builder/Decode a reader of a profile that looks every identifier up in its table,
--   Builder/Emit `emit` over the serialisation and gzip. Table, Grows, Valid, Functions, RoundTrip,
--   Populate, WellFormed, Sizes and Ranges (with Ranges/Lines and InRange) hold the proofs.
-- - Backoff: backoff.py, with the content of an HTTP error as JSON (Json). Envelope, ClosedForm and
--   Durations hold the proofs.
-- - Native: the C++ of the CPU profiler, under src/. Clock is clock.cc and clock.h, Stack and Table
--   are stacktraces.cc and stacktraces.h (Table/Counts, Probes, Harvest and Fit hold the proofs),
--   Entry the same code on one entry as a step relation: any number of threads in `Add` and one in
--   `Extract`, an access to the entry at a time (Entry/Invariant, Owners, Safety and Drains hold the
--   proofs).
--   Concurrent is the whole table in this way: any number of threads in `Handle` and one that calls
--   `HarvestSamples`, whose steps on an entry are those of Entry. `project` shows one entry of it
--   (Concurrent/Project), Concurrent/Accounts sums over the entries, Concurrent/Last has the
--   last `Flush`, and Concurrent/Runs the calls that end before the next one begins, which is how
--   Profiler has them.
--   Frames is populate_frames.cc (Frames/Walk and Bounds hold the proofs), Code, Profiler, Traces and
--   Collect are profiler.cc, profiler.h and _profiler.cc: `GetFuncLoc` and `CodeDeallocHook`; the
--   state with the signal handler and `Flush`; `PythonTraces`; `SignalHandler`, `Collect` and
--   `ProfileCPU`. Profiler/Spec says what the two tables are for, Profiler/Refine that they do it,
--   Profiler/Account and Traces/Counts what becomes of the counts, Collect/Laps, Result, Hangs and
--   Report what a profile is, Collect/Period what timer is set. Traces/Failures is `PythonTraces` once
--   more, with the calls of Python's C API that may fail and the interpreter's error indicator
--   (Traces/Ends and Answers hold the proofs). Fork has the handlers that block SIGPROF in a fork.
-- - Cpu: cpu_profiler.py. `profile_cpu` is a parameter, which Native/Collect/Report fills.
-- - Wall: pythonprofiler.py. `handler` is the signal handler `_handler`, `ticks` its part under the
--   lock, and Wall/Register `register_handler`. Wall/Session has `profile` with its loop and
--   `_stop_profiling`, over the signals that arrive in each sleep. Depth, Handler, Runs and Profile
--   hold the proofs. Wall/Race is the handler beside the profiling thread that stops: a step relation
--   on the two flags and the places of the two threads. Wall/Race/Samples is the same with the traces,
--   whole profiles one after the other, and handlers that interrupt each other (Samples/Accounting and
--   Losses hold the proofs).
-- - Client: client.py. Config is `config` with the metadata server and the environment, ServiceName
--   the regular expression of the service's name, Auth `setup_auth`, Upload
--   `_collect_and_upload_profile` (Upload/Report puts the CPU profiler and the native profiler under
--   it), Poll `_poll_profiler_service` (Sleeping, Rounds, Connecting, Survival and Types hold
--   the proofs), Headers `ProfilerHttpRequest`, LogFilter `_filter_log`, Start the method `start`.
-- - Agent: __init__.py. Agent/Enabled puts the client's configuration and its polling thread under it.
-- - Setup: setup.py, at the repository's root. `script` is what it prints and what it hands to
--   `setup`. `run` is a matcher with the choices of Python's `re` in its order, for the constructs of
--   the one expression (Search, Version, RoundTrip and Platforms hold the proofs).
-- - Tests: the theorems at concrete inputs.
--
-- Conventions. State is passed explicitly; a method that may raise returns what it has written with a
-- `Result`. Loops over the outside world (the polling, the connecting, the sampling) are recursion on
-- the list of what the outside world does, so they need no fuel: the polling loop never ends, and its
-- run on a list says what has been done when the list is used up. `sampling` gives `none` if the list
-- is used up before the loop ends; that a run ends is a conclusion where the clock passes the target.
--
-- Parameters. Floats (with the laws in `IsIeee`, of which Prelude/Micros is a model), JSON decoding
-- and the parsing of durations, `random.uniform`, `time.sleep` in the client's thread (which returns
-- or raises; `IsPatient` says that it returns for a draw between 0 and at most an hour, while a
-- delay that the server asks for is subject to no such assumption), the serialisation of messages
-- and gzip (with the two round trips in `IsLossless`), the metadata server, the environment, the
-- credentials, `signal`, `atexit` and `threading` (as calls that may raise), `os.path.splitext`.
--
-- For the native profiler: what `SafeCopy` reads of the memory, `PyCode_Addr2Line`, the order of an
-- `unordered_map`, the readings of the clock, `setitimer`, and the events (signals, deallocations)
-- that happen while the profiler sleeps; `IsFair` says what they are assumed to do. Fuel: the rounds
-- of a frame walk, of which one more than the frames in the chain is enough, and the laps of
-- `Collect`, of which one more than the tenths of a second in the duration is enough; `none` is a
-- loop that still runs. Beside it: which calls of the C API fail, `pthread_atfork`, `fork` and
-- `pthread_sigmask` (with what POSIX documents in `IsPosix`). For setup.py: the platform, the files
-- and `glob`.
--
-- Not modelled: log.cc; in the native profiler the memory orders (accesses are sequentially
-- consistent in Entry and Concurrent; in Table an attempt on an entry that another thread is at
-- fails, in whatever round), the overflow of the counters, `errno`, allocations of C++ that fail and
-- the parsing of the arguments; profile_pb2.py, which is generated; logging but for the level and
-- the filter; the range of `float(n)`; the timer's own timing. In Wall and Wall/Session a handler
-- runs to its end between two steps of the profiling thread; Wall/Race has the interleavings of the
-- flags, and Wall/Race/Samples those with the traces, less the trace of the unknown time. The
-- reentrant lock has no state, which is right where no handler raises: one that raises would leave
-- it held. That is why the theorem on a whole run of `profile` asks that none does. `_build_service`
-- only calls libraries; its outcome is an input of `connect`. What remains of a client whose
-- `config` has raised is dropped, as `start` drops it. A profiler that does not return is not
-- modelled in Client: there `services.profile` is a call that returns or raises (that the native one
-- can fail to return is in Native/Collect/Hangs). `profile_cpu` begins behind the parsing of its
-- arguments, with the words that it leaves, and has no duration of 2^63 or more, which would be
-- negative as an `int64_t`. In the builder appending to `string_table` and assigning a field do not
-- raise: file names with surrogates and integers out of range, which protocol buffers refuse, are
-- not modelled, but Builder/Ranges states when the integers are in range.
pub mod Prelude
pub mod Builder
pub mod Json
pub mod Backoff
pub mod Native
pub mod Cpu
pub mod Wall
pub mod Client
pub mod Agent
pub mod Setup
pub mod Tests
